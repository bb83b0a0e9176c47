-- ===== src/Signaling/Dispatch.antt =====
-- src/signaling.c: the events that a server message raises, against the protocol's objects.
use tether_obs_plugin.Common.{
  ◌≡◌, refl, List, [], ◌∷◌, Option, none, some, arith, if◌then◌else◌, Bytes, codes, str_eq, ◌∙◌,
}
use tether_obs_plugin.Json.{json_find_str, eq_found}
use tether_obs_plugin.Json.Fields.{
  Field, IsKey, IsObject, IsPlain, key_byte, plain_byte, render, field_of, json_find_str-render,
}
use tether_obs_plugin.Signaling.{
  Signaling, EventKind, Effect, emit, handle_message, peer_message, token_issued, request_pending,
  request_accepted, request_rejected, sdp_offer, sdp_answer, ice_candidate,
}

pub type-IsKey : IsKey (codes "type")
unfolding key_byte
type-IsKey = record { bytes = (refl, (refl, (refl, (refl, tt)))); filled = λ h. cc }

pub token-IsKey : IsKey (codes "token")
unfolding key_byte
token-IsKey = record { bytes = (refl, (refl, (refl, (refl, (refl, tt))))); filled = λ h. cc }

pub peer_id-IsKey : IsKey (codes "peer_id")
unfolding key_byte
peer_id-IsKey = record {
  bytes = (refl, (refl, (refl, (refl, (refl, (refl, (refl, tt)))))));
  filled = λ h. cc;
}

pub sdp_type-IsKey : IsKey (codes "sdp_type")
unfolding key_byte
sdp_type-IsKey = record {
  bytes = (refl, (refl, (refl, (refl, (refl, (refl, (refl, (refl, tt))))))));
  filled = λ h. cc;
}

-- What the protocol says of an object's fields: the token to keep and the events to raise. The
-- arguments are the fields `type`, `token`, `peer_id` and `sdp_type`.
unfoldable pub protocol :
    Signaling
    → Bytes
    → Option Bytes
    → Option Bytes
    → Option Bytes
    → Option Bytes
    → Signaling × List Effect
protocol sig json kind tok peer sdp_type =
    if eq_found kind (codes "token")
    then (record sig { token = tok }, emit sig token_issued none tok)
    else if eq_found kind (codes "pending")
    then (sig, emit sig request_pending peer (some json))
    else if eq_found kind (codes "peer_gone")
    then (sig, emit sig EventKind.peer_gone peer none)
    else if eq_found kind (codes "accepted")
    then (sig, emit sig request_accepted none none)
    else if eq_found kind (codes "rejected")
    then (sig, emit sig request_rejected none none)
    else if eq_found kind (codes "token_invalid")
    then (sig, emit sig EventKind.token_invalid none none)
    else if eq_found kind (codes "token_locked_out")
    then (sig, emit sig EventKind.token_locked_out none (some json))
    else if eq_found kind (codes "sdp")
    then (
      sig,
      emit sig (if eq_found sdp_type (codes "offer") then sdp_offer else sdp_answer) peer
          (some json),
    )
    else if eq_found kind (codes "ice")
    then (sig, emit sig ice_candidate peer (some json))
    else (sig, [])

pub handle_message-protocol :
    (sig : Signaling) (json : Bytes)
    → handle_message sig json
      ≡ protocol sig json
          (json_find_str json (codes "type"))
          (json_find_str json (codes "token"))
          (json_find_str json (codes "peer_id"))
          (json_find_str json (codes "sdp_type"))
unfolding handle_message protocol
handle_message-protocol sig json = ground arith

-- On every object of string fields without quotes and backslashes, `handle_message` keeps the token
-- and raises the event that the protocol assigns to the fields of the object.
pub handle_message-render :
    (sig : Signaling) (fs : List Field)
    → IsObject fs
    → handle_message sig (render fs)
      ≡ protocol sig
          (render fs)
          (field_of (codes "type") fs)
          (field_of (codes "token") fs)
          (field_of (codes "peer_id") fs)
          (field_of (codes "sdp_type") fs)
handle_message-render sig fs a =
    handle_message-protocol sig (render fs)
    ∙ rw
        (
          json_find_str-render (codes "type") fs type-IsKey a,
          json_find_str-render (codes "token") fs token-IsKey a,
          json_find_str-render (codes "peer_id") fs peer_id-IsKey a,
          json_find_str-render (codes "sdp_type") fs sdp_type-IsKey a,
        )
        refl

-- The messages for a peer carry its id: read back as an object of the protocol they give the kind
-- and the peer, if neither holds a quote or a backslash.
pub peer_message-fields :
    (kind peer : Bytes)
    → IsPlain kind
    → IsPlain peer
    → (json_find_str (peer_message kind peer) (codes "type") ≡ some kind)
      × (json_find_str (peer_message kind peer) (codes "peer_id") ≡ some peer)
unfolding plain_byte str_eq
peer_message-fields kind peer a b = (
  json_find_str-render (codes "type") fields type-IsKey plain,
  json_find_str-render (codes "peer_id") fields peer_id-IsKey plain,
)
  where
    fields : List Field
    fields = (codes "type", kind) ∷ (codes "peer_id", peer) ∷ []

    plain : IsObject fields
    plain = (
      ((refl, (refl, (refl, (refl, tt)))), a),
      (((refl, (refl, (refl, (refl, (refl, (refl, (refl, tt))))))), b), tt),
    )
