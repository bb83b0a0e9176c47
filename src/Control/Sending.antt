-- ===== src/Control/Sending.antt =====
-- src/control.c: the commands on the sender and their replies.
use tether_obs_plugin.Common.{
  true, false, List, [], ◌∷◌, ◌++◌, Option, none, some, if◌then◌else◌, Bytes, codes, is_blank, pos,
}
use tether_obs_plugin.Sender.{Sender, Callbacks, Effect}
use tether_obs_plugin.Sender.Events as Sender
use tether_obs_plugin.Sender.Setup as Setup
use tether_obs_plugin.Sender.Setup.{SenderConfig}
use tether_obs_plugin.Control.{Control, CtrlPeer, hear_all, state_word}
use tether_obs_plugin.Control.Lines.{sender_lists}
use tether_obs_plugin.Control.Replies.{Heard, Met, reply, comma_separated}

unfoldable pub hear_event :
    {E A File : Type 0} → Control E A File → Heard E → Option (Sender E A) → Control E A File
unfolding hear_all
hear_event c i none = c
hear_event c i (some s) =
    let r = Sender.on_signaling_event s i.event i.clock i.rc i.answers in
    hear_all (record c { sender = some r.0 }) r.1

unfoldable pub hear_events :
    {E A File : Type 0} → Control E A File → List (Heard E) → Control E A File
unfolding hear_event
hear_events c [] = c
hear_events c (i ∷ is) = hear_events (hear_event c i c.sender) is

abbrev pub sender_config : List Bytes → List Bytes → SenderConfig
sender_config videos audios = record {
  server_url = none;
  media = record {
    stun_url = none;
    turn_url = none;
    turn_username = none;
    turn_credential = none;
    twitch_st_mode = false;
  };
  source_name = none;
  video_source_names = some videos;
  audio_source_names = some audios;
  max_receivers = pos 4;
  token_ttl_minutes = pos 30;
  reusable_token = true;
}

abbrev pub callbacks : Callbacks
callbacks = record { on_token = true; on_pending = true; on_peer_state = true; on_peer_gone = true }

abbrev pub token_reply : {E A File : Type 0} → Control E A File → Control E A File × Bytes
unfolding reply is_blank
token_reply c = (
  c,
  if is_blank (some c.current_token)
      then reply (codes "ERR token not yet issued (timeout)")
      else reply (codes "OK token=" ++ c.current_token),
)

unfoldable pub create_with :
    {E A File : Type 0}
    → Control E A File
    → List Bytes
    → List Bytes
    → Met E
    → Control E A File × Bytes
unfolding hear_events token_reply
create_with c [] audios met = (c, reply (codes "ERR missing video source"))
create_with {E} {A} c (v ∷ vs) audios met =
    elim (Setup.create {E = E} {A = A} met.answers.decimal (some (sender_config (v ∷ vs) audios))
      callbacks met.rc) [
        | none ↦ (c, reply (codes "ERR sender create failed"))
        | some (s, es) ↦
            token_reply (hear_events (hear_all (record c { sender = some s }) es) met.events)
      ]

-- A dash in UTF-8
abbrev pub dash : Bytes
dash = 226 ∷ 128 ∷ 148 ∷ []

unfoldable pub create_unless :
    {E A File : Type 0}
    → Control E A File
    → Option (Sender E A)
    → Option Bytes
    → Met E
    → Control E A File × Bytes
unfolding create_with sender_lists is_blank
create_unless c (some s) args met =
    (c, reply (codes "ERR sender already running " ++ (dash ++ codes " call sender-revoke first")))
create_unless c none none met = (c, reply (codes "ERR missing source name"))
create_unless c none (some args) met =
    if is_blank (some args)
    then (c, reply (codes "ERR missing source name"))
    else create_with c (sender_lists args).0 (sender_lists args).1 met

-- `cmd_sender_create`
unfoldable pub cmd_sender_create :
    {E A File : Type 0} → Control E A File → Option Bytes → Met E → Control E A File × Bytes
unfolding create_unless
cmd_sender_create c args met = create_unless c c.sender args met

abbrev pub peer_text : CtrlPeer → Bytes
unfolding state_word
peer_text p = p.peer_id ++ (codes ":" ++ (state_word p.state ++ (codes ":" ++ p.name)))

unfoldable pub peer_texts : List CtrlPeer → List Bytes
unfolding peer_text
peer_texts [] = []
peer_texts (p ∷ ps) = peer_text p ∷ peer_texts ps

-- `cmd_sender_status`
unfoldable pub cmd_sender_status : {E A File : Type 0} → Control E A File → Bytes
unfolding peer_texts is_blank reply
cmd_sender_status c = reply (
    codes "OK token="
    ++ ((if is_blank (some c.current_token) then codes "-" else c.current_token)
        ++ (codes " peers=" ++ comma_separated (peer_texts c.peers))))

unfoldable pub told_peer :
    {E A File : Type 0}
    → Control E A File
    → Option (Sender E A)
    → Option Bytes
    → Bytes
    → (Sender E A → Bytes → Sender E A × List Effect)
    → Control E A File × Bytes
unfolding is_blank reply hear_all
told_peer c none args done f = (c, reply (codes "ERR no sender"))
told_peer c (some s) none done f = (c, reply (codes "ERR missing peer_id"))
told_peer c (some s) (some id) done f =
    if is_blank (some id)
    then (c, reply (codes "ERR missing peer_id"))
    else (hear_all (record c { sender = some (f s id).0 }) (f s id).1, reply (done ++ id))

-- The checks of the commands on a peer, and the reply of one that passes them
unfoldable pub on_peer :
    {E A File : Type 0}
    → Control E A File
    → Option Bytes
    → Bytes
    → (Sender E A → Bytes → Sender E A × List Effect)
    → Control E A File × Bytes
unfolding told_peer
on_peer c args done f = told_peer c c.sender args done f

-- `cmd_sender_accept`: the peer is pinned.
unfoldable pub cmd_sender_accept :
    {E A File : Type 0} → Control E A File → Option Bytes → Met E → Control E A File × Bytes
unfolding on_peer
cmd_sender_accept c args met =
    on_peer c args (codes "OK accepted ") (λ s id. Sender.accept s (some id) true met.answers)

-- `cmd_sender_reject`
unfoldable pub cmd_sender_reject :
    {E A File : Type 0} → Control E A File → Option Bytes → Met E → Control E A File × Bytes
unfolding on_peer
cmd_sender_reject c args met =
    on_peer c args (codes "OK rejected ") (λ s id. Sender.reject s (some id) met.answers)

-- `cmd_sender_disconnect`
unfoldable pub cmd_sender_disconnect :
    {E A File : Type 0} → Control E A File → Option Bytes → Met E → Control E A File × Bytes
unfolding on_peer
cmd_sender_disconnect c args met =
    on_peer c args (codes "OK disconnected ")
      (λ s id. Sender.disconnect_peer s (some id) met.answers)

unfoldable pub revoke_with :
    {E A File : Type 0} → Control E A File → Option (Sender E A) → Control E A File × Bytes
unfolding reply
revoke_with c none = (c, reply (codes "ERR no sender"))
revoke_with c (some s) =
    (record c { sender = none; current_token = []; peers = [] }, reply (codes "OK revoked"))

-- `cmd_sender_revoke`: the sender is released once it has revoked its token.
unfoldable pub cmd_sender_revoke : {E A File : Type 0} → Control E A File → Control E A File × Bytes
unfolding revoke_with
cmd_sender_revoke c = revoke_with c c.sender
