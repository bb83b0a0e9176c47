-- ===== src/Admission/Lockout.antt =====
-- src/admission.c: the lockout, and what the window is worth soon after boot.
use tether_obs_plugin.Common.{
  ℕ, ◌+◌, ◌*◌, ◌%◌, ◌<◌, ◌≤◌, ◌≡◌, refl, ap, true, false, List, [], ◌∷◌, Option, none, some, arith,
  Bytes, length, leb, ltb, lt→ltb, ◌∙◌,
}
use tether_obs_plugin.Admission.{
  Admission, Config, Clock, u64_mod, ns_per_second, drop_before, cutoff_of, prune_attempts,
  check_attempts, rate_limit_blocks, add_pending,
}
use tether_obs_plugin.Admission.RateLimit.{IsPast, prune_attempts-cfg}

-- While a lockout runs, a request changes nothing and is refused.
pub lockout_refuses :
    (adm : Admission) (c : Clock) (id name fp : Option Bytes)
    → c.at_check < adm.lockout_until_ns
    → add_pending adm c id name fp ≡ record { adm = adm; result = false; changed = none }
unfolding add_pending rate_limit_blocks
lockout_refuses adm c none name fp h = refl
lockout_refuses adm c (some id) name fp h = rw (lt→ltb _ _ h)

-- The state after a request that finds the window full.
locked : Admission → Clock → Admission
locked adm c = record (prune_attempts adm c.at_prune) {
  lockout_until_ns = (c.at_check + adm.cfg.lockout_seconds * ns_per_second % u64_mod) % u64_mod;
}

check_attempts_full :
    (adm : Admission) (now : ℕ)
    → 0 < adm.cfg.max_attempts
    → adm.cfg.max_attempts ≤ length adm.attempts
    → check_attempts adm now ≡ (
      record adm {
        lockout_until_ns = (now + adm.cfg.lockout_seconds * ns_per_second % u64_mod) % u64_mod;
      },
      true,
    )
unfolding check_attempts
check_attempts_full adm now h k = ground arith

rate_limit_blocks_full :
    (adm : Admission) (c : Clock)
    → adm.lockout_until_ns ≤ c.at_check
    → 0 < adm.cfg.max_attempts
    → adm.cfg.max_attempts ≤ length (prune_attempts adm c.at_prune).attempts
    → rate_limit_blocks adm c.at_check c.at_prune ≡ (locked adm c, true)
unfolding rate_limit_blocks locked
rate_limit_blocks_full adm c idle h full =
    let e : ltb c.at_check adm.lockout_until_ns ≡ false = ground arith in
    let q = prune_attempts-cfg adm c.at_prune in
    rw e (
      check_attempts_full (prune_attempts adm c.at_prune) c.at_check (rw q h) (rw q full)
      ∙ ap
          (λ (k : Config). (
            record (prune_attempts adm c.at_prune) {
              lockout_until_ns =
                  (c.at_check + k.lockout_seconds * ns_per_second % u64_mod) % u64_mod;
            },
            true,
          ))
          q)

add_pending_full :
    (adm : Admission) (c : Clock) (id : Bytes) (name fp : Option Bytes)
    → adm.lockout_until_ns ≤ c.at_check
    → 0 < adm.cfg.max_attempts
    → adm.cfg.max_attempts ≤ length (prune_attempts adm c.at_prune).attempts
    → add_pending adm c (some id) name fp
      ≡ record { adm = locked adm c; result = false; changed = none }
unfolding add_pending
add_pending_full adm c id name fp idle h full = rw (rate_limit_blocks_full adm c idle h full)

-- When a request finds the window full, it is refused, and for the configured time from then on so
-- is every other request, with no further effect on the state.
pub lockout_lasts :
    (adm : Admission) (c later : Clock) (id : Bytes) (name fp : Option Bytes)
    (id' name' fp' : Option Bytes)
    → adm.lockout_until_ns ≤ c.at_check
    → 0 < adm.cfg.max_attempts
    → adm.cfg.max_attempts ≤ length (prune_attempts adm c.at_prune).attempts
    → c.at_check + adm.cfg.lockout_seconds * ns_per_second < u64_mod
    → later.at_check < c.at_check + adm.cfg.lockout_seconds * ns_per_second
    → ((add_pending adm c (some id) name fp).result ≡ false)
      × (add_pending (add_pending adm c (some id) name fp).adm later id' name' fp' ≡ record {
        adm = (add_pending adm c (some id) name fp).adm;
        result = false;
        changed = none;
      })
unfolding locked
lockout_lasts adm c later id name fp id' name' fp' idle pos_max full fits before =
    let e = add_pending_full adm c id name fp idle pos_max full in
    let n : later.at_check < (locked adm c).lockout_until_ns = omega arith in
    rw e (refl, lockout_refuses (locked adm c) later id' name' fp' n)

drop_before_none :
    (cutoff now : ℕ) (ts : List ℕ) → IsPast now ts → now < cutoff → drop_before cutoff ts ≡ []
unfolding drop_before
drop_before_none cutoff now [] p h = refl
drop_before_none cutoff now (t ∷ ts) p h = ground (arith, drop_before_none cutoff now ts p.1 h)

cutoff_of_early :
    (now window : ℕ)
    → now < window * ns_per_second
    → window * ns_per_second < u64_mod
    → now < cutoff_of now window
unfolding cutoff_of
cutoff_of_early now window h k = omega arith

-- `now - window` wraps while the host has been up for less than a window. Then the cutoff lies
-- beyond every attempt made so far: all of them are forgotten, and the limit never applies.
pub early_uptime :
    (adm : Admission) (c : Clock)
    → IsPast c.at_prune adm.attempts
    → adm.lockout_until_ns ≤ c.at_check
    → 0 < adm.cfg.max_attempts
    → c.at_prune < adm.cfg.window_seconds * ns_per_second
    → adm.cfg.window_seconds * ns_per_second < u64_mod
    → rate_limit_blocks adm c.at_check c.at_prune ≡ (record adm { attempts = [] }, false)
unfolding rate_limit_blocks prune_attempts check_attempts
early_uptime adm c past idle h early fits =
    let awake : ltb c.at_check adm.lockout_until_ns ≡ false = ground arith in
    let open_window : leb adm.cfg.window_seconds 0 ≡ false = ground arith in
    let k = cutoff_of_early c.at_prune adm.cfg.window_seconds early fits in
    let e = drop_before_none (cutoff_of c.at_prune adm.cfg.window_seconds) c.at_prune _ past k in
    ground (arith, awake, open_window, e)
