-- ===== src/Sender/Offer.antt =====
-- src/sender.c, src/signaling.c and src/receive-session.c: the way of an offer from the sender's
-- connection to the receiver's. The server (backend/) names the peer that a description comes from in
-- place of the one it is for.
use tether_obs_plugin.Common.{
  ◌≡◌, refl, ap, ◌∙◌, true, false, List, [], ◌∷◌, ◌++◌, some, arith, Bytes, codes, str_eq, length,
  ℤ, negsuc,
}
use tether_obs_plugin.Json.{json_find_str, eq_found}
use tether_obs_plugin.Json.Fields.{Field, IsPlain, IsObject, plain_byte}
use tether_obs_plugin.Json.Start.{open_fields, json_find_str-open_fields}
use tether_obs_plugin.Sdp.{sdp_message, escape}
use tether_obs_plugin.Sdp.RoundTrip.{IsUnquoted}
use tether_obs_plugin.Signaling as Client
use tether_obs_plugin.Signaling.{
  Signaling, EventKind, Event, sent, emitted, handle_message, send_sdp, send_raw, is_open, emit,
  sdp_offer,
}
use tether_obs_plugin.Signaling.Dispatch.{
  type-IsKey, peer_id-IsKey, sdp_type-IsKey, protocol, handle_message-protocol,
}
use tether_obs_plugin.ReceiveSession.{Session, negotiating, remote_offer, signaling_event}
use tether_obs_plugin.ReceiveSession.Transitions.{is_past, offer-sdp_message}
use tether_obs_plugin.Sender.{Sender, signaled, signals}
use tether_obs_plugin.Sender.Events.{session_local_sdp}

abbrev fields : Bytes → Bytes → List Field
fields peer sdp_type =
    (codes "type", codes "sdp") ∷ (codes "peer_id", peer) ∷ (codes "sdp_type", sdp_type) ∷ []

message_fields :
    (peer sdp_type text : Bytes)
    → sdp_message peer sdp_type text
      ≡ b'{'
        ∷ open_fields (fields peer sdp_type) (codes "\"sdp\":\"" ++ (escape text ++ codes "\"}"))
unfolding sdp_message
message_fields peer sdp_type text = refl

fields-IsObject :
    (peer sdp_type : Bytes) → IsPlain peer → IsPlain sdp_type → IsObject (fields peer sdp_type)
unfolding plain_byte
fields-IsObject peer sdp_type a b = (
  ((refl, (refl, (refl, (refl, tt)))), (refl, (refl, (refl, tt)))),
  (
    ((refl, (refl, (refl, (refl, (refl, (refl, (refl, tt))))))), a),
    (((refl, (refl, (refl, (refl, (refl, (refl, (refl, (refl, tt)))))))), b), tt),
  ),
)

IsPlain-IsUnquoted : (s : Bytes) → IsPlain s → IsUnquoted s
unfolding plain_byte
IsPlain-IsUnquoted [] a = tt
IsPlain-IsUnquoted (c ∷ s) (h, a) = (ground arith, IsPlain-IsUnquoted s a)

-- The fields of a description's message, as the reader of the signaling client finds them
message-found :
    (peer sdp_type text : Bytes)
    → IsPlain peer
    → IsPlain sdp_type
    → (json_find_str (sdp_message peer sdp_type text) (codes "type") ≡ some (codes "sdp"))
      × (json_find_str (sdp_message peer sdp_type text) (codes "peer_id") ≡ some peer)
      × (json_find_str (sdp_message peer sdp_type text) (codes "sdp_type") ≡ some sdp_type)
unfolding str_eq
message-found peer sdp_type text a b =
    let o = fields-IsObject peer sdp_type a b in
    let rest = codes "\"sdp\":\"" ++ (escape text ++ codes "\"}") in
    let e = message_fields peer sdp_type text in
    (
      ap (λ m. json_find_str m (codes "type")) e
          ∙ json_find_str-open_fields (codes "type") (fields peer sdp_type) rest (codes "sdp")
              type-IsKey o refl,
      ap (λ m. json_find_str m (codes "peer_id")) e
          ∙ json_find_str-open_fields (codes "peer_id") (fields peer sdp_type) rest peer
              peer_id-IsKey o refl,
      ap (λ m. json_find_str m (codes "sdp_type")) e
          ∙ json_find_str-open_fields (codes "sdp_type") (fields peer sdp_type) rest sdp_type
              sdp_type-IsKey o refl,
    )

heard_offer :
    (sig : Signaling) (peer text : Bytes)
    → IsPlain peer
    → sig.has_cb ≡ true
    → (handle_message sig (sdp_message peer (codes "offer") text)).1
      ≡ emitted (record {
        kind = sdp_offer;
        peer_id = some peer;
        payload = some (sdp_message peer (codes "offer") text);
      })
        ∷ []
unfolding protocol eq_found str_eq emit
heard_offer sig peer text a h =
    let (kind, from, sort) =
      message-found peer (codes "offer") text a
        (unfold plain_byte in (refl, (refl, (refl, (refl, (refl, tt)))))) in
    ap (λ (p : Signaling × List Client.Effect). p.1)
      (handle_message-protocol sig (sdp_message peer (codes "offer") text))
    ∙ rw (protocol, kind, from, sort, h) refl

-- An offer reaches the receiver as it was made: on a connection to the server that is open, what the
-- sender's peer connection offers goes out as one message; this message, with any other name of a peer
-- in it, raises one event at a receiver that listens, and the event makes a session that has not met an
-- offer apply exactly the description that was offered, and negotiate. That name holds no quotes and no
-- backslashes.
pub offer-session_local_sdp :
    {E A : Type 0} (s : Sender E A) (sig : Signaling) (r : Session) (peer from text : Bytes)
    → is_open s.sig.ws ≡ true
    → sig.has_cb ≡ true
    → is_past r.state ≡ false
    → IsPlain from
    → (n : ℤ) × (session_local_sdp s peer (codes "offer") text
        ≡ signaled (sent s.sig.ws (sdp_message peer (codes "offer") text) n) ∷ [])
      × ((handle_message sig (sdp_message from (codes "offer") text)).1
          ≡ emitted (record {
            kind = sdp_offer;
            peer_id = some from;
            payload = some (sdp_message from (codes "offer") text);
          })
            ∷ [])
      × ((signaling_event r sdp_offer (some (sdp_message from (codes "offer") text))).applied
          ≡ remote_offer text ∷ [])
      × ((signaling_event r sdp_offer (some (sdp_message from (codes "offer") text))).session.state
          ≡ negotiating)
unfolding session_local_sdp send_sdp send_raw signals
offer-session_local_sdp s sig r peer from text live h past a =
    let (applied, moved) =
      offer-sdp_message r from (codes "offer") text past (IsPlain-IsUnquoted from a)
        (refl, (refl, (refl, (refl, (refl, tt))))) in
    (
      negsuc (length (sdp_message peer (codes "offer") text)),
      rw live refl,
      heard_offer sig from text a h,
      applied,
      moved,
    )
