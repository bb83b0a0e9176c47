-- ===== src/Sender/Routing.antt =====
-- src/sender.c: which session a message of a peer reaches.
use tether_obs_plugin.Common.{
  ◌≡◌, refl, ap, sym, ◌∙◌, Bool, true, false, List, [], ◌∷◌, ◌++◌, append-nil, none, some, arith,
  Bytes, codes, All, str_eq, str_eq_refl, Option-cases, inl, inr, ℤ, pos, negsuc,
}
use tether_obs_plugin.Admission
use tether_obs_plugin.Admission.{
  Peer, PeerState, pending, accepted, rejected, revoked, disconnected,
}
use tether_obs_plugin.Sdp.{answer_of, ice_of}
use tether_obs_plugin.Webrtc
use tether_obs_plugin.Webrtc.{set_remote, added_candidate}
use tether_obs_plugin.Webrtc.Calls.{apply_remote_sdp, add_remote_ice}
use tether_obs_plugin.Sender.{
  Sender, ReceiverSession, Answers, networked, networks, create_session, on_state,
  on_admission_changed, settle, add_session, webrtc_config,
}
use tether_obs_plugin.Sender.Events.{
  find_session, apply_answer, apply_candidate, on_sdp_answer, on_ice_candidate, accept,
  disconnect_peer, drop_media, without_media,
}

-- The sessions of a sender after an operation are those from before, and perhaps one more.
abbrev Extends : {E A : Type 0} → Sender E A → Sender E A → Type 0
Extends {E} {A} s s' = (more : List (ReceiverSession E A)) × (s'.sessions ≡ s.sessions ++ more)

add_session-Extends :
    {E A : Type 0} (s : Sender E A) (id : Bytes) (ans : Answers E) (w : Webrtc.Webrtc)
    → Extends s (add_session s id ans w).0
unfolding add_session
add_session-Extends s id ans w = (_, refl)

create_session-Extends :
    {E A : Type 0} (s : Sender E A) (p : Peer) (ans : Answers E)
    → Extends s (create_session s p ans).0
unfolding create_session
create_session-Extends s p ans =
    elim (Option-cases (Webrtc.create ans.env (some (webrtc_config s.media)) ans.connection).0) [
      | inl e ↦ ([], rw (create_session, e) (sym (append-nil s.sessions)))
      | inr (w, e) ↦
          let (r, k) = add_session-Extends s p.peer_id ans w in (r, rw (create_session, e) k)
    ]

on_state-Extends :
    {E A : Type 0} (st : PeerState) (s : Sender E A) (p : Peer) (ans : Answers E)
    → Extends s (on_state st s p ans).0
unfolding on_state
on_state-Extends accepted s p ans = create_session-Extends s p ans
on_state-Extends pending s p ans = ([], sym (append-nil s.sessions))
on_state-Extends rejected s p ans = ([], sym (append-nil s.sessions))
on_state-Extends revoked s p ans = ([], sym (append-nil s.sessions))
on_state-Extends disconnected s p ans = ([], sym (append-nil s.sessions))

pub settle-Extends :
    {E A : Type 0} (s : Sender E A) (o : Admission.Outcome) (ans : Answers E)
    → Extends s (settle s o ans).0
unfolding settle on_admission_changed
settle-Extends s o ans = elim (Option-cases o.changed) [
  | inl e ↦ ([], rw e (sym (append-nil s.sessions)))
  | inr (p, e) ↦
      let (more, k) = on_state-Extends p.state (record s { adm = o.adm }) p ans in (more, rw e k)
]

find_session-append :
    {E A : Type 0} (id : Bytes) (rs more : List (ReceiverSession E A)) (r : ReceiverSession E A)
    → find_session id rs ≡ some r
    → find_session id (rs ++ more) ≡ some r
unfolding find_session
find_session-append id [] more r h = cc
find_session-append id (q ∷ rs) more r h = ground (arith, find_session-append id rs more r)

find_session-drop_media :
    {E A : Type 0} (id : Bytes) (rs : List (ReceiverSession E A)) (r : ReceiverSession E A)
    → find_session id rs ≡ some r
    → find_session id (drop_media id rs) ≡ some (without_media r)
unfolding find_session drop_media
find_session-drop_media id [] r h = cc
find_session-drop_media id (q ∷ rs) r h = ground (arith, find_session-drop_media id rs r)

answer_called :
    (w : Webrtc.Webrtc) (sdp : Bytes) (rc : ℤ)
    → (apply_remote_sdp (some w) (some (codes "answer")) (some sdp) rc (pos 0)).1
      ≡ set_remote w.pc sdp (codes "answer") ∷ []
unfolding apply_remote_sdp
answer_called w sdp (pos n) = refl
answer_called w sdp (negsuc n) = refl

answer_applied :
    {E A : Type 0} (r : ReceiverSession E A) (w : Webrtc.Webrtc) (sdp : Bytes) (rc : ℤ)
    → r.wrtc ≡ some w
    → apply_answer (some r) (some sdp) rc ≡ networked (set_remote w.pc sdp (codes "answer")) ∷ []
unfolding apply_answer
answer_applied r w sdp rc k =
    ap (λ o. networks (apply_remote_sdp o (some (codes "answer")) (some sdp) rc (pos 0)).1) k
    ∙ ap networks (answer_called w sdp rc)

on_sdp_answer_connected :
    {E A : Type 0} (s : Sender E A) (id json : Bytes) (rc : ℤ) (r : ReceiverSession E A)
    (w : Webrtc.Webrtc)
    → find_session id s.sessions ≡ some r
    → r.wrtc ≡ some w
    → on_sdp_answer s (some id) (some json) rc ≡ (elim (answer_of json) [
      | none ↦ []
      | some sdp ↦ networked (set_remote w.pc sdp (codes "answer")) ∷ []
    ])
unfolding on_sdp_answer apply_answer
on_sdp_answer_connected s id json rc r w h k = elim (Option-cases (answer_of json)) [
  | inl e ↦ rw (on_sdp_answer, h, e) refl
  | inr (sdp, e) ↦ rw (on_sdp_answer, h, e) (answer_applied r w sdp rc k)
]

find_session-split :
    {E A : Type 0} (id : Bytes) (before after : List (ReceiverSession E A))
    (r : ReceiverSession E A)
    → All (λ (q : ReceiverSession E A). str_eq q.peer_id id ≡ false) before
    → str_eq r.peer_id id ≡ true
    → find_session id (before ++ r ∷ after) ≡ some r
unfolding find_session
find_session-split id [] after r none_before h = rw h refl
find_session-split id (q ∷ qs) after r (other, none_before) h =
    rw other (find_session-split id qs after r none_before h)

candidate_added :
    {E A : Type 0} (r : ReceiverSession E A) (w : Webrtc.Webrtc) (cand mid : Bytes) (rc : ℤ)
    → r.wrtc ≡ some w
    → apply_candidate (some r) (some (cand, mid)) rc
      ≡ networked (added_candidate w.pc cand (some mid)) ∷ []
unfolding apply_candidate add_remote_ice
candidate_added r w cand mid rc k =
    ap (λ o. networks (add_remote_ice o (some cand) (some mid) rc).1) k

-- A message of a peer reaches the peer's own connection and no other: when a session of this peer has a
-- connection and no session before it in the list is the peer's, then of whichever peers the sessions
-- before and after it are, an answer makes exactly the call that applies its text, as `answer_of` reads
-- it, as an answer to this connection, and a candidate exactly the call that adds the candidate that
-- `ice_of` reads to this connection; a message that they cannot read makes no call.
pub on_sdp_answer-on_ice_candidate :
    {E A : Type 0} (s : Sender E A) (json : Bytes) (rc : ℤ)
    (before after : List (ReceiverSession E A)) (r : ReceiverSession E A) (w : Webrtc.Webrtc)
    → s.sessions ≡ before ++ r ∷ after
    → All (λ (q : ReceiverSession E A). str_eq q.peer_id r.peer_id ≡ false) before
    → r.wrtc ≡ some w
    → (on_sdp_answer s (some r.peer_id) (some json) rc ≡ (elim (answer_of json) [
      | none ↦ []
      | some sdp ↦ networked (set_remote w.pc sdp (codes "answer")) ∷ []
    ]))
      × (on_ice_candidate s (some r.peer_id) (some json) rc ≡ (elim (ice_of json) [
        | none ↦ []
        | some (cand, mid) ↦ networked (added_candidate w.pc cand (some mid)) ∷ []
      ]))
unfolding on_ice_candidate
on_sdp_answer-on_ice_candidate s json rc before after r w split none_before k =
    let found =
      ap (find_session r.peer_id) split
      ∙ find_session-split r.peer_id before after r none_before (str_eq_refl r.peer_id) in
    (
      on_sdp_answer_connected s r.peer_id json rc r w found k,
      elim (Option-cases (ice_of json)) [
        | inl e ↦ rw (on_ice_candidate, found, e) refl
        | inr (p, e) ↦ rw (on_ice_candidate, found, e) (candidate_added r w p.0 p.1 rc k)
      ],
    )

dead_answer :
    {E A : Type 0} (s : Sender E A) (id json : Bytes) (rc : ℤ) (r : ReceiverSession E A)
    → find_session id s.sessions ≡ some (without_media r)
    → on_sdp_answer s (some id) (some json) rc ≡ []
unfolding on_sdp_answer apply_answer apply_remote_sdp
dead_answer s id json rc r h = elim (Option-cases (answer_of json)) [
  | inl e ↦ rw (on_sdp_answer, h, e) refl
  | inr (sdp, e) ↦ rw (on_sdp_answer, h, e) refl
]

-- When the user disconnects a peer that has a session and then accepts it again, an answer of the peer
-- reaches no connection: the dead session stands before the new one.
pub answer-accept-disconnect :
    {E A : Type 0} (s : Sender E A) (id json : Bytes) (pin : Bool) (rc : ℤ) (ans ans' : Answers E)
    (r : ReceiverSession E A)
    → find_session id s.sessions ≡ some r
    → on_sdp_answer
        (accept (disconnect_peer s (some id) ans).0 (some id) pin ans').0
        (some id)
        (some json)
        rc
      ≡ []
unfolding accept disconnect_peer
answer-accept-disconnect s id json pin rc ans ans' r h =
    let s1 = record s { sessions = drop_media id s.sessions } in
    let s2 = (settle s1 (Admission.disconnect_peer s.adm (some id)) ans).0 in
    let (m1, e1) = settle-Extends s1 (Admission.disconnect_peer s.adm (some id)) ans in
    let (m2, e2) = settle-Extends s2 (Admission.accept s2.adm (some id) pin) ans' in
    dead_answer _ id json rc r (
      ap (find_session id) e2
      ∙ find_session-append id s2.sessions m2 (without_media r) (
          ap (find_session id) e1
          ∙ find_session-append id (drop_media id s.sessions) m1 (without_media r)
              (find_session-drop_media id s.sessions r h)))
