-- ===== src/Admission/Room.antt =====
-- src/admission.c: the list of peers: who is in it, in which state, and how many are accepted.
use tether_obs_plugin.Common.{
  ℕ, ◌<◌, ◌≤◌, ◌≡◌, refl, Bool, true, false, List, [], ◌∷◌, ◌++◌, Option, none, some, arith, Bytes,
  str_eq, str_eq_iff, take_all, take, All, length, leb, Bool-cases, inl, inr, ◌⊎◌, ◌∙◌,
}
use tether_obs_plugin.Admission.{
  Admission, Peer, PeerState, accepted, rejected, disconnected, Clock, Outcome, find_peer,
  count_state, update_peer, revoke_peers, revoke_all, rate_limit_blocks, check_attempts,
  prune_attempts, record_attempt, admit, add_pending, new_peer, auto_accepts, is_some, accept,
  reject, disconnect_peer, notified,
}

-- No two peers have one id.
abbrev pub IsDistinct : List Peer → Type 0
IsDistinct [] = Unit
IsDistinct (p ∷ ps) = (find_peer p.peer_id ps ≡ none) × IsDistinct ps

str_eq_sym : (a b : Bytes) → str_eq a b ≡ str_eq b a
str_eq_sym a b = ground (arith, str_eq_iff a b, str_eq_iff b a)

find_peer-append :
    (id : Bytes) (ps : List Peer) (p : Peer)
    → find_peer id ps ≡ none
    → str_eq p.peer_id id ≡ false
    → find_peer id (ps ++ p ∷ []) ≡ none
unfolding find_peer
find_peer-append id [] p h k = rw k
find_peer-append id (q ∷ ps) p h k = ground (arith, find_peer-append id ps p)

find_peer-none-head :
    (id : Bytes) (q : Peer) (ps : List Peer)
    → find_peer id (q ∷ ps) ≡ none
    → (str_eq q.peer_id id ≡ false) × (find_peer id ps ≡ none)
unfolding find_peer
find_peer-none-head id q ps h = ground arith

append-IsDistinct :
    (ps : List Peer) (p : Peer)
    → IsDistinct ps
    → find_peer p.peer_id ps ≡ none
    → IsDistinct (ps ++ p ∷ [])
append-IsDistinct [] p d h = (unfold find_peer in refl, tt)
append-IsDistinct (q ∷ ps) p d h =
    let (k, h') = find_peer-none-head p.peer_id q ps h in
    (
      find_peer-append q.peer_id ps p d.0 (str_eq_sym p.peer_id q.peer_id ∙ k),
      append-IsDistinct ps p d.1 h',
    )

-- What a change of state does to every lookup.
find_peer-update :
    (id j : Bytes) (s : PeerState) (pin : Bool) (ps : List Peer)
    → find_peer j ps ≡ none
    → find_peer j (update_peer id s pin ps) ≡ none
unfolding find_peer update_peer
find_peer-update id j s pin [] h = refl
find_peer-update id j s pin (p ∷ ps) h = ground (arith, find_peer-update id j s pin ps)

update_peer-IsDistinct :
    (id : Bytes) (s : PeerState) (pin : Bool) (ps : List Peer)
    → IsDistinct ps
    → IsDistinct (update_peer id s pin ps)
unfolding update_peer
update_peer-IsDistinct id s pin [] d = tt
update_peer-IsDistinct id s pin (p ∷ ps) d = elim (Bool-cases (str_eq p.peer_id id)) [
  | inl e ↦ rw e d
  | inr e ↦
      rw e (find_peer-update id p.peer_id s pin ps d.0, update_peer-IsDistinct id s pin ps d.1)
]

find_peer-revoke :
    (j : Bytes) (ps : List Peer) → find_peer j ps ≡ none → find_peer j (revoke_peers ps) ≡ none
unfolding find_peer revoke_peers
find_peer-revoke j [] h = refl
find_peer-revoke j (p ∷ ps) h = ground (arith, find_peer-revoke j ps)

revoke_peers-IsDistinct : (ps : List Peer) → IsDistinct ps → IsDistinct (revoke_peers ps)
unfolding revoke_peers
revoke_peers-IsDistinct [] d = tt
revoke_peers-IsDistinct (p ∷ ps) d =
    (find_peer-revoke p.peer_id ps d.0, revoke_peers-IsDistinct ps d.1)

prune_attempts-peers : (adm : Admission) (now : ℕ) → (prune_attempts adm now).peers ≡ adm.peers
unfolding prune_attempts
prune_attempts-peers adm now = ground arith

-- The rate limit looks at no peer.
pub rate_limit_blocks-peers :
    (adm : Admission) (now now_prune : ℕ)
    → (rate_limit_blocks adm now now_prune).0.peers ≡ adm.peers
unfolding rate_limit_blocks check_attempts
rate_limit_blocks-peers adm now now_prune = ground (arith, prune_attempts-peers adm now_prune)

is_some-none {ℓ} : {A : Type ℓ} (o : Option A) → is_some o ≡ false → o ≡ none
unfolding is_some
is_some-none none h = refl
is_some-none (some a) h = cc

is_some-some {ℓ} : {A : Type ℓ} (o : Option A) → is_some o ≡ true → (a : A) × (o ≡ some a)
unfolding is_some
is_some-some none h = cc
is_some-some (some a) h = (a, refl)

unfoldable pub refused : Admission → Outcome
refused adm = record { adm = adm; result = false; changed = none }

unfoldable pub added : Admission → Bytes → Option Bytes → Option Bytes → ℕ → Outcome
added adm id name fp seen =
    let p = new_peer id name fp seen (auto_accepts adm fp) in
    record {
      adm = record adm { peers = adm.peers ++ p ∷ [] };
      result = true;
      changed = notified adm p;
    }

-- Why a request that passes the rate limit is refused: the peer is listed, or as many are accepted as
-- the limit allows.
abbrev pub IsKnownOrFull : Admission → Bytes → Type 0
IsKnownOrFull adm id =
    ((p : Peer) × (find_peer id adm.peers ≡ some p))
    ⊎ (adm.cfg.max_receivers ≤ count_state accepted adm.peers)

-- Behind the rate limit a request is refused for one of these reasons, or the peer is new and there is
-- room for it.
pub admit_cases :
    (adm : Admission) (id : Bytes) (name fp : Option Bytes) (seen : ℕ)
    → ((admit adm id name fp seen ≡ refused adm) × IsKnownOrFull adm id)
      ⊎ ((find_peer id adm.peers ≡ none)
          × (count_state accepted adm.peers < adm.cfg.max_receivers)
          × (admit adm id name fp seen ≡ added adm id name fp seen))
unfolding admit refused added
admit_cases adm id name fp seen = elim (Bool-cases (is_some (find_peer id adm.peers))) [
  | inl e ↦ inl (rw e refl, inl (is_some-some _ e))
  | inr e ↦ elim (Bool-cases (leb adm.cfg.max_receivers (count_state accepted adm.peers))) [
    | inl e' ↦ inl (rw (e, e') refl, inr (ground arith))
    | inr e' ↦ inr (is_some-none _ e, ground arith, rw (e, e') refl)
  ]
]

admit-IsDistinct :
    (adm : Admission) (id : Bytes) (name fp : Option Bytes) (seen : ℕ)
    → length id < 64
    → IsDistinct adm.peers
    → IsDistinct (admit adm id name fp seen).adm.peers
unfolding refused added new_peer
admit-IsDistinct adm id name fp seen h d = elim (admit_cases adm id name fp seen) [
  | inl (e, _) ↦ rw e d
  | inr (fresh, room, e) ↦
      let whole : take 63 id ≡ id = take_all 63 id (omega arith) in
      rw e (append-IsDistinct adm.peers _ d (rw whole fresh))
]

add_pending-IsDistinct :
    (adm : Admission) (c : Clock) (id : Bytes) (name fp : Option Bytes)
    → length id < 64
    → IsDistinct adm.peers
    → IsDistinct (add_pending adm c (some id) name fp).adm.peers
unfolding add_pending record_attempt
add_pending-IsDistinct adm c id name fp h d =
    let r = rate_limit_blocks adm c.at_check c.at_prune in
    let q : IsDistinct r.0.peers = rw (rate_limit_blocks-peers adm c.at_check c.at_prune) d in
    elim (Bool-cases r.1) [
      | inl e ↦ rw e q
      | inr e ↦ rw e (admit-IsDistinct _ id name fp c.at_seen h q)
    ]

-- The calls that change the room.
pub data Call : Type 0 where
  adds : Clock → Bytes → Option Bytes → Option Bytes → Call
  accepts : Bytes → Bool → Call
  rejects disconnects : Bytes → Call
  revokes : Call

unfoldable pub step : Admission → Call → Admission
step adm (adds c id name fp) = (add_pending adm c (some id) name fp).adm
step adm (accepts id pin) = (accept adm (some id) pin).adm
step adm (rejects id) = (reject adm (some id)).adm
step adm (disconnects id) = (disconnect_peer adm (some id)).adm
step adm revokes = revoke_all adm

unfoldable pub run : Admission → List Call → Admission
run adm [] = adm
run adm (c ∷ cs) = run (step adm c) cs

-- The ids that fit into the 64 bytes of `peer_id`.
abbrev pub Fits : Call → Type 0
Fits (adds c id name fp) = length id < 64
Fits _ = Unit

step-IsDistinct :
    (adm : Admission) (c : Call) → Fits c → IsDistinct adm.peers → IsDistinct (step adm c).peers
unfolding step accept reject disconnect_peer revoke_all
step-IsDistinct adm (adds c id name fp) f d = add_pending-IsDistinct adm c id name fp f d
step-IsDistinct adm (accepts id pin) f d = update_peer-IsDistinct id accepted pin adm.peers d
step-IsDistinct adm (rejects id) f d = update_peer-IsDistinct id rejected false adm.peers d
step-IsDistinct adm (disconnects id) f d = update_peer-IsDistinct id disconnected false adm.peers d
step-IsDistinct adm revokes f d = revoke_peers-IsDistinct adm.peers d

-- After any sequence of calls no two peers of the room have one id, if the ids that requests bring
-- are shorter than 64 bytes.
pub run-IsDistinct :
    (adm : Admission) (cs : List Call)
    → All Fits cs
    → IsDistinct adm.peers
    → IsDistinct (run adm cs).peers
unfolding run
run-IsDistinct adm [] f d = d
run-IsDistinct adm (c ∷ cs) f d = run-IsDistinct (step adm c) cs f.1 (step-IsDistinct adm c f.0 d)

prune_attempts-cfg : (adm : Admission) (now : ℕ) → (prune_attempts adm now).cfg ≡ adm.cfg
unfolding prune_attempts
prune_attempts-cfg adm now = ground arith

-- Nor does it change the configuration.
pub rate_limit_blocks-cfg :
    (adm : Admission) (now now_prune : ℕ) → (rate_limit_blocks adm now now_prune).0.cfg ≡ adm.cfg
unfolding rate_limit_blocks check_attempts
rate_limit_blocks-cfg adm now now_prune = ground (arith, prune_attempts-cfg adm now_prune)
