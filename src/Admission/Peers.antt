-- ===== src/Admission/Peers.antt =====
-- src/admission.c: what a request and a change of state do to the list, and the limit on accepted peers.
use tether_obs_plugin.Common.{
  ◌+◌, ◌<◌, ◌≤◌, ◌≡◌, ◌⊎◌, refl, Bool, true, false, ◌||◌, List, [], ◌∷◌, ◌++◌, Option, none, some,
  arith, Bytes, str_eq, str_eq_iff, if◌then◌else◌, Bool-cases, inl, inr,
}
use mathlib.Core.Option
use tether_obs_plugin.Admission.{
  Admission, Peer, PeerState, accepted, disconnected, Clock, find_peer, count_state, state_eq,
  update_peer, set_peer_state, rate_limit_blocks, record_attempt, add_pending, new_peer,
  auto_accepts, is_some, accept, disconnect_peer, verify_pinned, count,
}
use tether_obs_plugin.Admission.Room.{
  IsKnownOrFull, refused, added, admit_cases, rate_limit_blocks-peers, rate_limit_blocks-cfg,
}

-- The peer after the write of `set_peer_state`.
abbrev pub with_state : PeerState → Bool → Peer → Peer
with_state s pin p = record p { state = s; pinned = p.pinned || pin }

find_peer-update_peer :
    (id j : Bytes) (s : PeerState) (pin : Bool) (ps : List Peer)
    → find_peer j (update_peer id s pin ps)
      ≡ (if str_eq id j then Option.map (with_state s pin) (find_peer j ps) else find_peer j ps)
unfolding find_peer update_peer Option.map
find_peer-update_peer id j s pin [] = ground arith
find_peer-update_peer id j s pin (p ∷ ps) = ground (
  arith,
  find_peer-update_peer id j s pin ps,
  str_eq_iff p.peer_id id,
  str_eq_iff p.peer_id j,
  str_eq_iff id j,
)

-- `set_peer_state` reports whether the peer exists; it gives this peer the new state, adds a pin if
-- asked to and takes none away, and leaves every other peer as it was.
pub set_peer_state_lem :
    (adm : Admission) (id j : Bytes) (s : PeerState) (pin : Bool)
    → ((set_peer_state adm (some id) s pin).result ≡ is_some (find_peer id adm.peers))
      × (find_peer j (set_peer_state adm (some id) s pin).adm.peers ≡ (
          if str_eq id j
          then Option.map (with_state s pin) (find_peer j adm.peers)
          else find_peer j adm.peers))
unfolding set_peer_state
set_peer_state_lem adm id j s pin = (refl, find_peer-update_peer id j s pin adm.peers)

-- A disconnect keeps the pin: a peer that was verified by its fingerprint still is.
pub verify_pinned-disconnect :
    (adm : Admission) (id j fp : Bytes)
    → verify_pinned (disconnect_peer adm (some id)).adm (some j) (some fp)
      ≡ verify_pinned adm (some j) (some fp)
unfolding verify_pinned disconnect_peer Option.map
verify_pinned-disconnect adm id j fp =
    ground (arith, find_peer-update_peer id j disconnected false adm.peers)

count_state-append :
    (s : PeerState) (ps : List Peer) (p : Peer)
    → count_state s (ps ++ p ∷ [])
      ≡ (if state_eq p.state s then count_state s ps + 1 else count_state s ps)
unfolding count_state
count_state-append s [] p = ground arith
count_state-append s (q ∷ ps) p = ground (arith, count_state-append s ps p)

-- `auto_accepts` reads the configuration and the peers only.
auto_accepts-eq :
    (adm adm' : Admission) (fp : Option Bytes)
    → adm.cfg ≡ adm'.cfg
    → adm.peers ≡ adm'.peers
    → auto_accepts adm fp ≡ auto_accepts adm' fp
unfolding auto_accepts
auto_accepts-eq adm adm' none h k = refl
auto_accepts-eq adm adm' (some fp) h k = cc

-- A request is refused, and leaves the peers as they were, only if the rate limit blocks it, a peer of
-- this id is listed, or as many peers are accepted as the limit allows; otherwise, with none of these
-- three, it adds one peer at the end, accepted at once exactly if `auto_accepts` says so.
pub add_pending_cases :
    (adm : Admission) (c : Clock) (id : Bytes) (name fp : Option Bytes)
    → (((add_pending adm c (some id) name fp).result ≡ false)
        × ((add_pending adm c (some id) name fp).adm.peers ≡ adm.peers)
        × (((rate_limit_blocks adm c.at_check c.at_prune).1 ≡ true) ⊎ IsKnownOrFull adm id))
      ⊎ (((add_pending adm c (some id) name fp).result ≡ true)
          × ((rate_limit_blocks adm c.at_check c.at_prune).1 ≡ false)
          × (find_peer id adm.peers ≡ none)
          × (count_state accepted adm.peers < adm.cfg.max_receivers)
          × ((add_pending adm c (some id) name fp).adm.peers
              ≡ adm.peers ++ new_peer id name fp c.at_seen (auto_accepts adm fp) ∷ []))
unfolding add_pending refused added record_attempt
add_pending_cases adm c id name fp =
    let r = rate_limit_blocks adm c.at_check c.at_prune in
    let qp = rate_limit_blocks-peers adm c.at_check c.at_prune in
    let qc = rate_limit_blocks-cfg adm c.at_check c.at_prune in
    elim (Bool-cases r.1) [
      | inl e ↦ inl (rw e refl, rw e qp, inl e)
      | inr e ↦ elim (admit_cases (record_attempt r.0 c.at_push) id name fp c.at_seen) [
        | inl (k, why) ↦ inl (rw (e, k) refl, rw (e, k) qp, inr (rw (qp, qc) at why))
        | inr (fresh, room, k) ↦ inr (
          rw (e, k) refl,
          e,
          rw qp at fresh,
          rw (qp, qc) at room,
          rw (e, k) (cc (qp, auto_accepts-eq (record_attempt r.0 c.at_push) adm fp qc qp)),
        )
      ]
    ]

-- A request never takes the accepted peers over the limit.
pub add_pending-cap :
    (adm : Admission) (c : Clock) (id : Bytes) (name fp : Option Bytes)
    → count_state accepted adm.peers ≤ adm.cfg.max_receivers
    → count_state accepted (add_pending adm c (some id) name fp).adm.peers ≤ adm.cfg.max_receivers
add_pending-cap adm c id name fp h = elim (add_pending_cases adm c id name fp) [
  | inl (_, e, _) ↦ rw e h
  | inr (_, _, _, room, e) ↦ rw e (
      ground (
        arith,
        count_state-append accepted adm.peers (new_peer id name fp c.at_seen (auto_accepts adm fp)),
      ))
]

count-update :
    (id : Bytes) (pin : Bool) (ps : List Peer) (p : Peer)
    → find_peer id ps ≡ some p
    → state_eq p.state accepted ≡ false
    → count_state accepted (update_peer id accepted pin ps) ≡ count_state accepted ps + 1
unfolding find_peer count_state update_peer
count-update id pin [] p h k = cc
count-update id pin (q ∷ ps) p h k = ground (arith, count-update id pin ps p)

-- The limit does not bind the sender's own decision: to accept a peer that is in another state adds
-- one to the accepted peers, whatever their number and the limit.
pub count-accept :
    (adm : Admission) (id : Bytes) (pin : Bool) (p : Peer)
    → find_peer id adm.peers ≡ some p
    → state_eq p.state accepted ≡ false
    → count (accept adm (some id) pin).adm accepted ≡ count adm accepted + 1
unfolding count accept
count-accept adm id pin p h k = count-update id pin adm.peers p h k
