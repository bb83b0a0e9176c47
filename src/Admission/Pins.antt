-- ===== src/Admission/Pins.antt =====
-- src/admission.c: who is accepted without a prompt.
use tether_obs_plugin.Common.{
  ◌≡◌, refl, ap, true, false, List, [], ◌∷◌, ◌++◌, Option, none, some, arith, Bytes, str_eq,
  str_eq_iff, All, All-append, Bool-cases, inl, inr, sym, ◌∙◌,
}
use mathlib.Core.Bool.{false≢true}
use tether_obs_plugin.Admission.{
  Admission, Request, create, Peer, PeerState, accepted, rejected, disconnected, Clock, find_peer,
  count_state, state_eq, update_peer, revoke_peers, revoke_all, add_pending, new_peer, auto_accepts,
  reject, disconnect_peer, pinned_match, count,
}
use tether_obs_plugin.Admission.Room.{Call, adds, accepts, rejects, disconnects, revokes, step, run}
use tether_obs_plugin.Admission.Peers.{add_pending_cases}

-- A peer that nobody has accepted yet.
abbrev pub IsUnadmitted : Peer → Type 0
IsUnadmitted p = (state_eq p.state accepted ≡ false) × (p.pinned ≡ false)

-- Every call but the acceptance.
abbrev pub IsPassive : Call → Type 0
IsPassive (accepts id pin) = ⊥
IsPassive _ = Unit

pinned_match_none : (fp : Bytes) (ps : List Peer) → All IsUnadmitted ps → pinned_match fp ps ≡ false
unfolding pinned_match
pinned_match_none fp [] a = refl
pinned_match_none fp (p ∷ ps) a = rw (a.0.1, pinned_match_none fp ps a.1)

pub auto_accepts_none :
    (adm : Admission) (fp : Option Bytes) → All IsUnadmitted adm.peers → auto_accepts adm fp ≡ false
unfolding auto_accepts
auto_accepts_none adm none a = refl
auto_accepts_none adm (some fp) a = ground (arith, pinned_match_none fp adm.peers a)

update_peer-IsUnadmitted :
    (id : Bytes) (s : PeerState) (ps : List Peer)
    → state_eq s accepted ≡ false
    → All IsUnadmitted ps
    → All IsUnadmitted (update_peer id s false ps)
unfolding update_peer
update_peer-IsUnadmitted id s [] h a = tt
update_peer-IsUnadmitted id s (p ∷ ps) h a = elim (Bool-cases (str_eq p.peer_id id)) [
  | inl e ↦ rw e ((h, rw a.0.1 refl), a.1)
  | inr e ↦ rw e (a.0, update_peer-IsUnadmitted id s ps h a.1)
]

revoke_peers-IsUnadmitted :
    (ps : List Peer) → All IsUnadmitted ps → All IsUnadmitted (revoke_peers ps)
unfolding revoke_peers state_eq
revoke_peers-IsUnadmitted [] a = tt
revoke_peers-IsUnadmitted (p ∷ ps) a = ((refl, a.0.1), revoke_peers-IsUnadmitted ps a.1)

pub step-IsUnadmitted :
    (adm : Admission) (c : Call)
    → IsPassive c
    → All IsUnadmitted adm.peers
    → All IsUnadmitted (step adm c).peers
unfolding step reject disconnect_peer revoke_all state_eq new_peer
step-IsUnadmitted adm (adds c id name fp) q a = elim (add_pending_cases adm c id name fp) [
  | inl (_, e, _) ↦ rw e a
  | inr (_, _, _, _, e) ↦
      rw e
        (All-append IsUnadmitted adm.peers _ a (rw (auto_accepts_none adm fp a) ((refl, refl), tt)))
]
step-IsUnadmitted adm (accepts id pin) q a = absurd q
step-IsUnadmitted adm (rejects id) q a = update_peer-IsUnadmitted id rejected adm.peers refl a
step-IsUnadmitted adm (disconnects id) q a =
    update_peer-IsUnadmitted id disconnected adm.peers refl a
step-IsUnadmitted adm revokes q a = revoke_peers-IsUnadmitted adm.peers a

run-IsUnadmitted :
    (adm : Admission) (cs : List Call)
    → All IsPassive cs
    → All IsUnadmitted adm.peers
    → All IsUnadmitted (run adm cs).peers
unfolding run
run-IsUnadmitted adm [] q a = a
run-IsUnadmitted adm (c ∷ cs) q a =
    run-IsUnadmitted (step adm c) cs q.1 (step-IsUnadmitted adm c q.0 a)

count_unadmitted : (ps : List Peer) → All IsUnadmitted ps → count_state accepted ps ≡ 0
unfolding count_state
count_unadmitted [] a = refl
count_unadmitted (p ∷ ps) a = rw a.0.0 (count_unadmitted ps a.1)

-- Nobody gets in without the sender's consent: from an empty room, no sequence of requests,
-- rejections, disconnects and revocations, in which no peer is ever accepted, leads to an accepted
-- peer.
pub run-no_consent :
    (r : Request) (cs : List Call) → All IsPassive cs → count (run (create r) cs) accepted ≡ 0
unfolding count create
run-no_consent r cs q = count_unadmitted _ (run-IsUnadmitted (create r) cs q tt)

pinned_match-find :
    (id fp : Bytes) (ps : List Peer) (q : Peer)
    → find_peer id ps ≡ some q
    → q.pinned ≡ true
    → q.fingerprint ≡ fp
    → pinned_match fp ps ≡ true
unfolding find_peer pinned_match
pinned_match-find id fp [] q h k e = cc
pinned_match-find id fp (p ∷ ps) q h k e =
    ground (arith, pinned_match-find id fp ps q, str_eq_iff p.fingerprint fp)

-- An absent fingerprint counts as a match. Once a peer whose fingerprint is empty is pinned, every
-- new peer that comes without one is accepted with no prompt, if pins are honoured, the rate limit
-- passes it, its id is new and the room is not full.
pub blank_fingerprint :
    (adm : Admission) (c : Clock) (id qid : Bytes) (name : Option Bytes) (q : Peer)
    → find_peer qid adm.peers ≡ some q
    → q.pinned ≡ true
    → q.fingerprint ≡ []
    → adm.cfg.auto_accept_pinned ≡ true
    → (add_pending adm c (some id) name (some [])).result ≡ true
    → (add_pending adm c (some id) name (some [])).adm.peers
      ≡ adm.peers ++ new_peer id name (some []) c.at_seen true ∷ []
unfolding auto_accepts
blank_fingerprint adm c id qid name q h pin blank on passed =
    let m = pinned_match-find qid [] adm.peers q h pin blank in
    let auto : auto_accepts adm (some []) ≡ true = rw (on, m) refl in
    elim (add_pending_cases adm c id name (some [])) [
      | inl (no_result, _, _) ↦ absurd (false≢true (sym no_result ∙ passed))
      | inr (_, _, _, _, e) ↦
          e ∙ ap (λ b. adm.peers ++ new_peer id name (some []) c.at_seen b ∷ []) auto
    ]
