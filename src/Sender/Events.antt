-- ===== src/Sender/Events.antt =====
-- src/sender.c: the callbacks of a session's connection, the events of the signaling client, and the
-- calls of the dialog.
use tether_obs_plugin.Common.{
  Bool, true, false, List, [], ◌∷◌, ◌++◌, Option, none, some, if◌then◌else◌, Bytes, codes, str_eq,
  is_blank, copy_into, ℤ, pos,
}
use tether_obs_plugin.Admission
use tether_obs_plugin.Admission.{Clock}
use tether_obs_plugin.Signaling
use tether_obs_plugin.Signaling.{
  Event, EventKind, token_issued, request_pending, peer_gone, sdp_answer, ice_candidate,
}
use tether_obs_plugin.Sdp.{answer_of, ice_of, quoted_after}
use tether_obs_plugin.ReceiveSession.{WrtcState}
use tether_obs_plugin.Webrtc.Calls.{apply_remote_sdp, add_remote_ice, release}
use tether_obs_plugin.Sender.{
  Sender, ReceiverSession, Answers, Effect, told_token, told_pending, told_peer_state, DialogState,
  waiting, peer_connected, networks, signals, settle, tell_gone,
}

-- `session_local_sdp` and `session_local_ice`: what the connection of a peer wants to be sent
unfoldable pub session_local_sdp : {E A : Type 0} → Sender E A → Bytes → Bytes → Bytes → List Effect
unfolding signals
session_local_sdp s id sdp_type sdp =
    signals (Signaling.send_sdp s.sig (some id) (some sdp_type) (some sdp)).0

unfoldable pub session_local_ice :
    {E A : Type 0} → Sender E A → Bytes → Bytes → Bytes → Bytes → List Effect
unfolding signals
session_local_ice s id cand mid mline =
    signals (Signaling.send_ice s.sig (some id) (some cand) (some mid) mline).0

unfoldable pub dialog_state : WrtcState → DialogState
dialog_state WrtcState.new = waiting
dialog_state WrtcState.connecting = waiting
dialog_state WrtcState.connected = peer_connected
dialog_state WrtcState.failed = DialogState.failed
dialog_state WrtcState.closed = DialogState.failed

unfoldable pub is_over : WrtcState → Bool
is_over WrtcState.new = false
is_over WrtcState.connecting = false
is_over WrtcState.connected = false
is_over WrtcState.failed = true
is_over WrtcState.closed = true

unfoldable pub and_tell :
    {E A : Type 0} → Sender E A × List Effect → List Effect → Sender E A × List Effect
and_tell (s, es) more = (s, es ++ more)

unfoldable pub tell_state : {E A : Type 0} → Sender E A → Bytes → DialogState → List Effect
tell_state s id st = if s.cbs.on_peer_state then told_peer_state id st ∷ [] else []

-- `session_state`
unfoldable pub session_state :
    {E A : Type 0} → Sender E A → Bytes → WrtcState → Answers E → Sender E A × List Effect
unfolding dialog_state is_over tell_state settle
session_state s id st ans =
    if is_over st
    then (let r = settle s (Admission.disconnect_peer s.adm (some id)) ans in
        (r.0, tell_state s id (dialog_state st) ++ r.1))
    else (s, tell_state s id (dialog_state st))

-- `find_session_locked`: the first session of a peer
unfoldable pub find_session :
    {E A : Type 0} → Bytes → List (ReceiverSession E A) → Option (ReceiverSession E A)
find_session id [] = none
find_session id (r ∷ rs) = if str_eq r.peer_id id then some r else find_session id rs

-- The string behind a key, cut to 127 bytes, or nothing
unfoldable pub field_or_nothing : Option Bytes → Bytes
unfolding copy_into
field_or_nothing none = []
field_or_nothing (some v) = copy_into 128 v

unfoldable pub tell_pending : {E A : Type 0} → Sender E A → Bytes → Bytes → Bytes → List Effect
tell_pending s id name fp = if s.cbs.on_pending then told_pending id name fp ∷ [] else []

abbrev pub name_of : Bytes → Bytes
unfolding field_or_nothing quoted_after
name_of json = field_or_nothing (quoted_after (codes "\"name\":\"") json)

abbrev pub fingerprint_of : Bytes → Bytes
unfolding field_or_nothing quoted_after
fingerprint_of json = field_or_nothing (quoted_after (codes "\"fingerprint\":\"") json)

-- `TETHER_SIG_EVT_TOKEN_ISSUED`
unfoldable pub on_token_issued :
    {E A : Type 0} → Sender E A → Option Bytes → Sender E A × List Effect
unfolding copy_into
on_token_issued s none = (s, [])
on_token_issued s (some tok) = (
  record s { current_token = copy_into 20 tok },
  if s.cbs.on_token then told_token (copy_into 20 tok) ∷ [] else [],
)

-- `TETHER_SIG_EVT_REQUEST_PENDING`: the dialog is told whatever the admission says.
unfoldable pub on_request_pending :
    {E A : Type 0}
    → Sender E A
    → Option Bytes
    → Option Bytes
    → Clock
    → Answers E
    → Sender E A × List Effect
unfolding settle tell_pending and_tell
on_request_pending s (some id) (some json) c ans =
    and_tell
      (settle s
        (Admission.add_pending s.adm c (some id) (some (name_of json)) (some (fingerprint_of json)))
        ans)
      (tell_pending s id (name_of json) (fingerprint_of json))
on_request_pending s _ _ c ans = (s, [])

unfoldable pub apply_answer :
    {E A : Type 0} → Option (ReceiverSession E A) → Option Bytes → ℤ → List Effect
unfolding networks
apply_answer (some r) (some sdp) rc =
    networks (apply_remote_sdp r.wrtc (some (codes "answer")) (some sdp) rc (pos 0)).1
apply_answer _ _ rc = []

-- `TETHER_SIG_EVT_SDP_ANSWER`
unfoldable pub on_sdp_answer :
    {E A : Type 0} → Sender E A → Option Bytes → Option Bytes → ℤ → List Effect
unfolding find_session apply_answer answer_of
on_sdp_answer s (some id) (some json) rc =
    apply_answer (find_session id s.sessions) (answer_of json) rc
on_sdp_answer s _ _ rc = []

unfoldable pub apply_candidate :
    {E A : Type 0} → Option (ReceiverSession E A) → Option (Bytes × Bytes) → ℤ → List Effect
unfolding networks
apply_candidate (some r) (some (cand, mid)) rc =
    networks (add_remote_ice r.wrtc (some cand) (some mid) rc).1
apply_candidate _ _ rc = []

-- `TETHER_SIG_EVT_ICE_CANDIDATE`
unfoldable pub on_ice_candidate :
    {E A : Type 0} → Sender E A → Option Bytes → Option Bytes → ℤ → List Effect
unfolding find_session apply_candidate ice_of
on_ice_candidate s (some id) (some json) rc =
    apply_candidate (find_session id s.sessions) (ice_of json) rc
on_ice_candidate s _ _ rc = []

-- `TETHER_SIG_EVT_PEER_GONE`
unfoldable pub on_gone :
    {E A : Type 0} → Sender E A → Option Bytes → Answers E → Sender E A × List Effect
unfolding settle and_tell tell_gone
on_gone s none ans = (s, [])
on_gone s (some id) ans =
    and_tell (settle s (Admission.disconnect_peer s.adm (some id)) ans) (tell_gone s id)

-- The switch of `on_signaling_event`
unfoldable pub on_event :
    {E A : Type 0}
    → EventKind
    → Sender E A
    → Option Bytes
    → Option Bytes
    → Clock
    → ℤ
    → Answers E
    → Sender E A × List Effect
unfolding on_token_issued on_request_pending on_sdp_answer on_ice_candidate on_gone
on_event token_issued s id payload c rc ans = on_token_issued s payload
on_event request_pending s id payload c rc ans = on_request_pending s id payload c ans
on_event sdp_answer s id payload c rc ans = (s, on_sdp_answer s id payload rc)
on_event ice_candidate s id payload c rc ans = (s, on_ice_candidate s id payload rc)
on_event peer_gone s id payload c rc ans = on_gone s id ans
on_event _ s id payload c rc ans = (s, [])

-- `on_signaling_event`; `rc` is what the library says to a description or a candidate.
unfoldable pub on_signaling_event :
    {E A : Type 0} → Sender E A → Event → Clock → ℤ → Answers E → Sender E A × List Effect
unfolding on_event
on_signaling_event s e c rc ans = on_event e.kind s e.peer_id e.payload c rc ans

-- `tether_sender_accept` and `_reject`
unfoldable pub accept :
    {E A : Type 0} → Sender E A → Option Bytes → Bool → Answers E → Sender E A × List Effect
unfolding settle
accept s id pin ans = settle s (Admission.accept s.adm id pin) ans

unfoldable pub reject :
    {E A : Type 0} → Sender E A → Option Bytes → Answers E → Sender E A × List Effect
unfolding settle
reject s id ans = settle s (Admission.reject s.adm id) ans

-- The session keeps its place in the list, without a connection.
abbrev pub without_media : {E A : Type 0} → ReceiverSession E A → ReceiverSession E A
without_media r = record r { wrtc = none; audio = none }

unfoldable pub drop_media :
    {E A : Type 0} → Bytes → List (ReceiverSession E A) → List (ReceiverSession E A)
drop_media id [] = []
drop_media id (r ∷ rs) = if str_eq r.peer_id id then without_media r ∷ rs else r ∷ drop_media id rs

unfoldable pub released : {E A : Type 0} → Option (ReceiverSession E A) → List Effect
unfolding networks
released none = []
released (some r) = networks (release r.wrtc)

-- `tether_sender_disconnect_peer`
unfoldable pub disconnect_peer :
    {E A : Type 0} → Sender E A → Option Bytes → Answers E → Sender E A × List Effect
unfolding find_session drop_media released settle signals tell_gone
disconnect_peer s none ans = (s, [])
disconnect_peer s (some id) ans =
    let s' = record s { sessions = drop_media id s.sessions } in
    let r = settle s' (Admission.disconnect_peer s.adm (some id)) ans in
    (
      r.0,
      released (find_session id s.sessions)
          ++ (r.1 ++ (signals (Signaling.reject s.sig (some id)).0 ++ tell_gone s id)),
    )

-- `tether_sender_revoke_token`
unfoldable pub revoke_token : {E A : Type 0} → Sender E A → Sender E A × List Effect
unfolding signals
revoke_token s =
    (record s { adm = Admission.revoke_all s.adm }, signals (Signaling.revoke_token s.sig).0)

-- `tether_sender_current_token`
unfoldable pub current_token : {E A : Type 0} → Option (Sender E A) → Option Bytes
unfolding is_blank
current_token none = none
current_token (some s) = if is_blank (some s.current_token) then none else some s.current_token
