-- ===== src/Sender/Consent.antt =====
-- src/sender.c with src/admission.c: no session without the user's consent.
use tether_obs_plugin.Common.{
  ℕ, ◌≡◌, refl, ap, Bool, false, List, [], ◌∷◌, Option, none, some, leb, Bytes, All, Bool-cases,
  Option-cases, inl, inr, ℤ,
}
use tether_obs_plugin.Admission
use tether_obs_plugin.Admission.{
  Admission, Peer, PeerState, pending, accepted, rejected, revoked, disconnected, Clock, state_eq,
  find_peer, count_state, changed_peer, set_peer_state, add_pending, admit, auto_accepts, new_peer,
  rate_limit_blocks, record_attempt, is_some, notified, revoke_peers,
}
use tether_obs_plugin.Admission.Room.{
  adds, rejects, disconnects, revokes, step, rate_limit_blocks-peers,
}
use tether_obs_plugin.Admission.Pins.{IsUnadmitted, step-IsUnadmitted, auto_accepts_none}
use tether_obs_plugin.Signaling.{Event, EventKind, token_issued, request_pending, peer_gone}
use tether_obs_plugin.ReceiveSession.{WrtcState}
use tether_obs_plugin.Sender.{
  Sender, Callbacks, Answers, Effect, settle, on_state, on_admission_changed,
}
use tether_obs_plugin.Sender.Setup as Setup
use tether_obs_plugin.Sender.Setup.{SenderConfig, create-parts}
use tether_obs_plugin.Sender.Events as Events
use tether_obs_plugin.Sender.Events.{
  on_signaling_event, on_token_issued, on_request_pending, on_gone, session_state, reject,
  disconnect_peer, revoke_token, and_tell, drop_media, is_over, name_of, fingerprint_of,
}

-- What can happen to a sender, but for the user's acceptance.
pub data Input (E : Type 0) : Type 0 where
  signal : Event → Clock → ℤ → Answers E → Input E
  connection : Bytes → WrtcState → Answers E → Input E
  user_rejects user_disconnects : Option Bytes → Answers E → Input E
  user_revokes : Input E

unfoldable pub react : {E A : Type 0} → Sender E A → Input E → Sender E A
react s (signal e c rc ans) = (on_signaling_event s e c rc ans).0
react s (connection id st ans) = (session_state s id st ans).0
react s (user_rejects id ans) = (reject s id ans).0
react s (user_disconnects id ans) = (disconnect_peer s id ans).0
react s user_revokes = (revoke_token s).0

unfoldable pub react_all : {E A : Type 0} → Sender E A → List (Input E) → Sender E A
unfolding react
react_all s [] = s
react_all s (i ∷ is) = react_all (react s i) is

-- The peer that `on_changed` hears of is not an accepted one.
abbrev IsQuiet : Option Peer → Type 0
IsQuiet none = Unit
IsQuiet (some p) = state_eq p.state accepted ≡ false

changed_peer-IsQuiet :
    (adm : Admission) (st : PeerState) (pin : Bool) (o : Option Peer)
    → state_eq st accepted ≡ false
    → IsQuiet (changed_peer adm st pin o)
unfolding changed_peer
changed_peer-IsQuiet adm st pin none h = tt
changed_peer-IsQuiet adm st pin (some p) h = elim (Bool-cases adm.cfg.has_on_changed) [
  | inl e ↦ rw e h
  | inr e ↦ rw e tt
]

set_peer_state-IsQuiet :
    (adm : Admission) (id : Option Bytes) (st : PeerState) (pin : Bool)
    → state_eq st accepted ≡ false
    → IsQuiet (set_peer_state adm id st pin).changed
unfolding set_peer_state
set_peer_state-IsQuiet adm none st pin h = tt
set_peer_state-IsQuiet adm (some id) st pin h =
    changed_peer-IsQuiet adm st pin (find_peer id adm.peers) h

admit-IsQuiet :
    (adm : Admission) (id : Bytes) (name fp : Option Bytes) (seen : ℕ)
    → All IsUnadmitted adm.peers
    → IsQuiet (admit adm id name fp seen).changed
unfolding admit new_peer state_eq
admit-IsQuiet adm id name fp seen a = elim (Bool-cases (is_some (find_peer id adm.peers))) [
  | inl e ↦ rw e tt
  | inr e ↦ elim (Bool-cases (leb adm.cfg.max_receivers (count_state accepted adm.peers))) [
    | inl f ↦ rw (e, f) tt
    | inr f ↦ elim (Bool-cases adm.cfg.has_on_changed) [
      | inl g ↦ rw (e, f, g, auto_accepts_none adm fp a) refl
      | inr g ↦ rw (e, f, g) tt
    ]
  ]
]

add_pending-IsQuiet :
    (adm : Admission) (c : Clock) (id : Bytes) (name fp : Option Bytes)
    → All IsUnadmitted adm.peers
    → IsQuiet (add_pending adm c (some id) name fp).changed
unfolding add_pending record_attempt
add_pending-IsQuiet adm c id name fp a =
    let r = rate_limit_blocks adm c.at_check c.at_prune in
    let q : All IsUnadmitted r.0.peers = rw (rate_limit_blocks-peers adm c.at_check c.at_prune) a in
    elim (Bool-cases r.1) [
      | inl e ↦ rw e tt
      | inr e ↦ rw e (admit-IsQuiet _ id name fp c.at_seen q)
    ]

on_state-IsQuiet :
    {E A : Type 0} (st : PeerState) (s : Sender E A) (p : Peer) (ans : Answers E)
    → state_eq st accepted ≡ false
    → (on_state st s p ans).0 ≡ s
unfolding on_state state_eq
on_state-IsQuiet pending s p ans h = refl
on_state-IsQuiet accepted s p ans h = cc
on_state-IsQuiet rejected s p ans h = refl
on_state-IsQuiet revoked s p ans h = refl
on_state-IsQuiet disconnected s p ans h = refl

-- An operation of which no accepted peer is heard changes the admission alone.
settle-IsQuiet :
    {E A : Type 0} (s : Sender E A) (o : Admission.Outcome) (ans : Answers E)
    → IsQuiet o.changed
    → (settle s o ans).0 ≡ record s { adm = o.adm }
unfolding settle on_admission_changed
settle-IsQuiet s o ans q = elim (Option-cases o.changed) [
  | inl e ↦ rw e refl
  | inr (p, e) ↦ rw e (on_state-IsQuiet p.state _ p ans (rw e at q))
]

-- Nobody was accepted, and there is no session.
abbrev IsClosed : {E A : Type 0} → Sender E A → Type 0
IsClosed s = All IsUnadmitted s.adm.peers × (s.sessions ≡ [])

settle-IsClosed :
    {E A : Type 0} (s : Sender E A) (o : Admission.Outcome) (ans : Answers E)
    → IsQuiet o.changed
    → All IsUnadmitted o.adm.peers
    → s.sessions ≡ []
    → IsClosed (settle s o ans).0
settle-IsClosed s o ans q a e = rw (settle-IsQuiet s o ans q) (a, e)

reject-IsClosed :
    {E A : Type 0} (s : Sender E A) (id : Option Bytes) (ans : Answers E)
    → IsClosed s
    → IsClosed (reject s id ans).0
unfolding reject
reject-IsClosed s none ans k = unfold Admission.reject settle in k
reject-IsClosed s (some id) ans k =
    settle-IsClosed s (Admission.reject s.adm (some id)) ans
      (unfold Admission.reject state_eq in
        set_peer_state-IsQuiet s.adm (some id) rejected false refl)
      (unfold step in step-IsUnadmitted s.adm (rejects id) tt k.0) k.1

gone-IsClosed :
    {E A : Type 0} (s : Sender E A) (id : Bytes) (ans : Answers E)
    → IsClosed s
    → IsClosed (settle s (Admission.disconnect_peer s.adm (some id)) ans).0
gone-IsClosed s id ans k =
    settle-IsClosed s (Admission.disconnect_peer s.adm (some id)) ans
      (unfold Admission.disconnect_peer state_eq in
        set_peer_state-IsQuiet s.adm (some id) disconnected false refl)
      (unfold step in step-IsUnadmitted s.adm (disconnects id) tt k.0) k.1

pending-IsClosed :
    {E A : Type 0} (s : Sender E A) (id : Bytes) (name fp : Option Bytes) (c : Clock)
    (ans : Answers E)
    → IsClosed s
    → IsClosed (settle s (add_pending s.adm c (some id) name fp) ans).0
pending-IsClosed s id name fp c ans k =
    settle-IsClosed s (add_pending s.adm c (some id) name fp) ans
      (add_pending-IsQuiet s.adm c id name fp k.0)
      (unfold step in step-IsUnadmitted s.adm (adds c id name fp) tt k.0) k.1

event-IsClosed :
    {E A : Type 0} (kind : EventKind) (s : Sender E A) (id payload : Option Bytes) (c : Clock)
    (rc : ℤ) (ans : Answers E)
    → IsClosed s
    → IsClosed (Events.on_event kind s id payload c rc ans).0
unfolding Events.on_event
event-IsClosed token_issued s id none c rc ans k = k
event-IsClosed token_issued s id (some tok) c rc ans k = k
event-IsClosed request_pending s (some id) (some json) c rc ans k =
    pending-IsClosed s id (some (name_of json)) (some (fingerprint_of json)) c ans k
event-IsClosed request_pending s none payload c rc ans k = k
event-IsClosed request_pending s (some id) none c rc ans k = k
event-IsClosed peer_gone s (some id) payload c rc ans k = gone-IsClosed s id ans k
event-IsClosed peer_gone s none payload c rc ans k = k
event-IsClosed _ s id payload c rc ans k = k

connection-IsClosed :
    {E A : Type 0} (s : Sender E A) (id : Bytes) (st : WrtcState) (ans : Answers E)
    → IsClosed s
    → IsClosed (session_state s id st ans).0
unfolding session_state
connection-IsClosed s id WrtcState.new ans k = k
connection-IsClosed s id WrtcState.connecting ans k = k
connection-IsClosed s id WrtcState.connected ans k = k
connection-IsClosed s id WrtcState.failed ans k = gone-IsClosed s id ans k
connection-IsClosed s id WrtcState.closed ans k = gone-IsClosed s id ans k

react-IsClosed : {E A : Type 0} (s : Sender E A) (i : Input E) → IsClosed s → IsClosed (react s i)
unfolding react
react-IsClosed s (signal e c rc ans) k =
    unfold on_signaling_event in event-IsClosed e.kind s e.peer_id e.payload c rc ans k
react-IsClosed s (connection id st ans) k = connection-IsClosed s id st ans k
react-IsClosed s (user_rejects id ans) k = reject-IsClosed s id ans k
react-IsClosed s (user_disconnects none ans) k = unfold disconnect_peer in k
react-IsClosed s (user_disconnects (some id) ans) k =
    unfold disconnect_peer in
    gone-IsClosed (record s { sessions = drop_media id s.sessions }) id ans
      (k.0, ap (drop_media id) k.1)
react-IsClosed s user_revokes k =
    unfold revoke_token in (unfold step in step-IsUnadmitted s.adm revokes tt k.0, k.1)

react_all-IsClosed :
    {E A : Type 0} (s : Sender E A) (is : List (Input E)) → IsClosed s → IsClosed (react_all s is)
unfolding react_all
react_all-IsClosed s [] k = k
react_all-IsClosed s (i ∷ is) k = react_all-IsClosed (react s i) is (react-IsClosed s i k)

-- Nobody gets media without the user's consent: a sender that is created and whose user never accepts
-- has no session, whatever the signaling server sends, whatever the connections do, and whatever the
-- user rejects, disconnects or revokes.
pub create-no_session :
    {E A : Type 0} (decimal : ℕ → Bytes) (cfg : SenderConfig) (cbs : Callbacks) (rc : ℤ)
    (s : Sender E A) (es : List Effect) (is : List (Input E))
    → Setup.create decimal (some cfg) cbs rc ≡ some (s, es)
    → (react_all s is).sessions ≡ []
create-no_session decimal cfg cbs rc s es is h =
    let (_, _, room, none_yet) = create-parts decimal cfg cbs rc s es h in
    (react_all-IsClosed s is (rw room (unfold Admission.create in tt), none_yet)).1
