-- ===== src/Admission/RateLimit.antt =====
-- src/admission.c: the sliding window of attempts.
use tether_obs_plugin.Common.{
  ℕ, ◌-◌, ◌*◌, ◌<◌, ◌≤◌, ◌≡◌, refl, Bool, false, ◌&&◌, ◌||◌, List, [], ◌∷◌, ◌++◌, Option, none,
  some, arith, Bytes, length, length-append, All, All-append, leb, ltb, if◌then◌else◌, Bool-cases,
  inl, inr,
}
use tether_obs_plugin.Admission.{
  Admission, Clock, u64_mod, ns_per_second, drop_before, cutoff_of, prune_attempts, check_attempts,
  rate_limit_blocks, admit, record_attempt, add_pending, find_peer, count_state, is_some, accepted,
}

abbrev pub IsSortedFrom : ℕ → List ℕ → Type 0
IsSortedFrom lo [] = Unit
IsSortedFrom lo (t ∷ ts) = (lo ≤ t) × IsSortedFrom t ts

-- The attempts that are not before the cutoff, wherever they stand.
abbrev pub recent : ℕ → List ℕ → List ℕ
recent cutoff [] = []
recent cutoff (t ∷ ts) = if leb cutoff t then t ∷ recent cutoff ts else recent cutoff ts

recent_all :
    (cutoff lo : ℕ) (ts : List ℕ) → IsSortedFrom lo ts → cutoff ≤ lo → recent cutoff ts ≡ ts
recent_all cutoff lo [] s h = refl
recent_all cutoff lo (t ∷ ts) s h = ground (arith, recent_all cutoff t ts s.1)

drop_before-recent :
    (cutoff lo : ℕ) (ts : List ℕ) → IsSortedFrom lo ts → drop_before cutoff ts ≡ recent cutoff ts
unfolding drop_before
drop_before-recent cutoff lo [] s = refl
drop_before-recent cutoff lo (t ∷ ts) s =
    ground (arith, drop_before-recent cutoff t ts s.1, recent_all cutoff t ts s.1)

length-drop_before-le : (cutoff : ℕ) (ts : List ℕ) → length (drop_before cutoff ts) ≤ length ts
unfolding drop_before
length-drop_before-le cutoff [] = omega arith
length-drop_before-le cutoff (t ∷ ts) = ground (arith, length-drop_before-le cutoff ts)

IsSortedFrom-mono : (lo lo' : ℕ) (ts : List ℕ) → lo ≤ lo' → IsSortedFrom lo' ts → IsSortedFrom lo ts
IsSortedFrom-mono lo lo' [] h s = tt
IsSortedFrom-mono lo lo' (t ∷ ts) h s = (omega arith, s.1)

drop_before-IsSortedFrom :
    (cutoff lo : ℕ) (ts : List ℕ) → IsSortedFrom lo ts → IsSortedFrom lo (drop_before cutoff ts)
unfolding drop_before
drop_before-IsSortedFrom cutoff lo [] s = tt
drop_before-IsSortedFrom cutoff lo (t ∷ ts) s = elim (Bool-cases (leb cutoff t)) [
  | inl e ↦ rw e s
  | inr e ↦ rw e (drop_before-IsSortedFrom cutoff lo ts (IsSortedFrom-mono lo t ts s.0 s.1))
]

abbrev pub IsPast : ℕ → List ℕ → Type 0
IsPast now = All (λ t. t ≤ now)

drop_before-IsPast :
    (cutoff now : ℕ) (ts : List ℕ) → IsPast now ts → IsPast now (drop_before cutoff ts)
unfolding drop_before
drop_before-IsPast cutoff now [] p = tt
drop_before-IsPast cutoff now (t ∷ ts) p = elim (Bool-cases (leb cutoff t)) [
  | inl e ↦ rw e p
  | inr e ↦ rw e (drop_before-IsPast cutoff now ts p.1)
]

IsPast-mono : (now now' : ℕ) (ts : List ℕ) → now ≤ now' → IsPast now ts → IsPast now' ts
IsPast-mono now now' [] h p = tt
IsPast-mono now now' (t ∷ ts) h p = (omega arith, IsPast-mono now now' ts h p.1)

append-IsSortedFrom :
    (lo now : ℕ) (ts : List ℕ)
    → lo ≤ now
    → IsSortedFrom lo ts
    → IsPast now ts
    → IsSortedFrom lo (ts ++ now ∷ [])
append-IsSortedFrom lo now [] h s p = (h, tt)
append-IsSortedFrom lo now (t ∷ ts) h s p = (s.0, append-IsSortedFrom t now ts p.0 s.1 p.1)

-- The ledger at time `now`: in order, in the past, and within the configured limit.
pub record IsLedger (now : ℕ) (adm : Admission) : Type 0 where
  pub sorted : IsSortedFrom 0 adm.attempts
  pub past : IsPast now adm.attempts
  pub bounded : length adm.attempts ≤ adm.cfg.max_attempts

-- The window as it is meant: nothing wraps once the host has been up for a window.
cutoff_of-eq :
    (now window : ℕ)
    → window * ns_per_second ≤ now
    → now < u64_mod
    → cutoff_of now window ≡ now - window * ns_per_second
unfolding cutoff_of
cutoff_of-eq now window h k = omega arith

-- A call is refused for its rate exactly when the lockout is running or the attempts of the last
-- window, counted wherever they stand in the ledger, reach the configured limit; the host must have
-- been up for a window, and the ledger be in order.
pub rate_limit_blocks_iff :
    (adm : Admission) (now now_prune : ℕ)
    → IsSortedFrom 0 adm.attempts
    → 0 < adm.cfg.window_seconds
    → adm.cfg.window_seconds * ns_per_second ≤ now_prune
    → now_prune < u64_mod
    → (rate_limit_blocks adm now now_prune).1 ≡ (
        ltb now adm.lockout_until_ns
        || (ltb 0 adm.cfg.max_attempts
            && leb adm.cfg.max_attempts (
                length (recent (now_prune - adm.cfg.window_seconds * ns_per_second) adm.attempts))))
unfolding rate_limit_blocks prune_attempts check_attempts
rate_limit_blocks_iff adm now now_prune s w h k =
    let open_window : leb adm.cfg.window_seconds 0 ≡ false = ground arith in
    let e =
      drop_before-recent (now_prune - adm.cfg.window_seconds * ns_per_second) 0 adm.attempts s in
    ground (arith, open_window, cutoff_of-eq now_prune adm.cfg.window_seconds h k, e)

prune_attempts-IsLedger :
    (adm : Admission) (now now_prune : ℕ)
    → IsLedger now adm
    → IsLedger now (prune_attempts adm now_prune)
unfolding prune_attempts
prune_attempts-IsLedger adm now now_prune v = elim (Bool-cases (leb adm.cfg.window_seconds 0)) [
  | inl e ↦ rw e v
  | inr e ↦ rw e (record {
    sorted = drop_before-IsSortedFrom _ 0 adm.attempts v.sorted;
    past = drop_before-IsPast _ now adm.attempts v.past;
    bounded = omega (
      arith,
      length-drop_before-le (cutoff_of now_prune adm.cfg.window_seconds) adm.attempts,
      v.bounded,
    );
  })
]

-- What the rate limit leaves behind: the ledger is in order, and there is room if the call passes.
record Passed (now : ℕ) (r : Admission × Bool) : Type 0 where
  ledger : IsLedger now r.0
  room : r.1 ≡ false → length r.0.attempts < r.0.cfg.max_attempts

check_attempts-Passed :
    (adm : Admission) (now t : ℕ)
    → 0 < adm.cfg.max_attempts
    → IsLedger t adm
    → Passed t (check_attempts adm now)
unfolding check_attempts
check_attempts-Passed adm now t h v =
    elim (Bool-cases
      (ltb 0 adm.cfg.max_attempts && leb adm.cfg.max_attempts (length adm.attempts))) [
        | inl e ↦ rw e (record {
          ledger = record { sorted = v.sorted; past = v.past; bounded = v.bounded };
          room = λ f. cc;
        })
        | inr e ↦ rw e (record { ledger = v; room = λ f. ground arith })
      ]

pub prune_attempts-cfg : (adm : Admission) (now : ℕ) → (prune_attempts adm now).cfg ≡ adm.cfg
unfolding prune_attempts
prune_attempts-cfg adm now = ground arith

rate_limit_blocks-Passed :
    (adm : Admission) (now now_prune t : ℕ)
    → 0 < adm.cfg.max_attempts
    → IsLedger t adm
    → Passed t (rate_limit_blocks adm now now_prune)
unfolding rate_limit_blocks
rate_limit_blocks-Passed adm now now_prune t h v =
    elim (Bool-cases (ltb now adm.lockout_until_ns)) [
      | inl e ↦ rw e (record { ledger = v; room = λ f. cc })
      | inr e ↦ rw e (
          check_attempts-Passed (prune_attempts adm now_prune) now t
            (rw (prune_attempts-cfg adm now_prune) h) (prune_attempts-IsLedger adm t now_prune v))
    ]

record_attempt-IsLedger :
    (adm : Admission) (t : ℕ)
    → IsLedger t adm
    → length adm.attempts < adm.cfg.max_attempts
    → IsLedger t (record_attempt adm t)
unfolding record_attempt
record_attempt-IsLedger adm t v room = record {
  sorted = append-IsSortedFrom 0 t adm.attempts (omega arith) v.sorted v.past;
  past = All-append (λ x. x ≤ t) adm.attempts (t ∷ []) v.past (omega arith, tt);
  bounded = omega (arith, length-append adm.attempts (t ∷ []));
}

admit-IsLedger :
    (adm : Admission) (id : Bytes) (name fp : Option Bytes) (seen t : ℕ)
    → IsLedger t adm
    → IsLedger t (admit adm id name fp seen).adm
unfolding admit
admit-IsLedger adm id name fp seen t v = elim (Bool-cases (is_some (find_peer id adm.peers))) [
  | inl e ↦ rw e v
  | inr e ↦ elim (Bool-cases (leb adm.cfg.max_receivers (count_state accepted adm.peers))) [
    | inl e' ↦ rw (e, e') v
    | inr e' ↦ rw (e, e') (record { sorted = v.sorted; past = v.past; bounded = v.bounded })
  ]
]

-- `tether_admission_add_pending` keeps the ledger of attempts in the order of time, in the past and
-- within the configured number of attempts, whatever its outcome, as long as the clock does not
-- run backwards.
pub add_pending-IsLedger :
    (adm : Admission) (c : Clock) (id name fp : Option Bytes) (t : ℕ)
    → 0 < adm.cfg.max_attempts
    → IsLedger t adm
    → t ≤ c.at_push
    → IsLedger c.at_push (add_pending adm c id name fp).adm
unfolding add_pending
add_pending-IsLedger adm c none name fp t h v le = record {
  sorted = v.sorted;
  past = IsPast-mono t c.at_push _ le v.past;
  bounded = v.bounded;
}
add_pending-IsLedger adm c (some id) name fp t h v le =
    let r = rate_limit_blocks adm c.at_check c.at_prune in
    let v' : IsLedger c.at_push adm = record {
      sorted = v.sorted;
      past = IsPast-mono t c.at_push _ le v.past;
      bounded = v.bounded;
    } in
    let q = rate_limit_blocks-Passed adm c.at_check c.at_prune c.at_push h v' in
    elim (Bool-cases r.1) [
      | inl e ↦ rw e q.ledger
      | inr e ↦ rw e (
          admit-IsLedger (record_attempt r.0 c.at_push) id name fp c.at_seen c.at_push
            (record_attempt-IsLedger r.0 c.at_push q.ledger (q.room e)))
    ]
