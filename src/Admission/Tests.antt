-- ===== src/Admission/Tests.antt =====
-- Runs of src/admission.c, and each theorem at an input.
use tether_obs_plugin.Common.{
  ℕ, ◌+◌, ◌*◌, ◌-◌, ◌<◌, ◌≤◌, ◌≡◌, ◌⊎◌, refl, true, false, ◌&&◌, ◌||◌, [], ◌∷◌, ◌++◌, none, some,
  arith, codes, length, pos, negsuc, str_eq, copy_into, ltb, leb,
}
use tether_obs_plugin.Admission.{
  Admission, Request, Clock, Peer, accepted, pending, create, add_pending, count, count_state,
  find_peer, rate_limit_blocks, prune_attempts, new_peer, auto_accepts, ns_per_second, state_eq,
}
use tether_obs_plugin.Admission.RateLimit.{
  IsLedger, recent, rate_limit_blocks_iff, add_pending-IsLedger,
}
use tether_obs_plugin.Admission.Lockout.{lockout_lasts}
use tether_obs_plugin.Admission.Room.{
  IsDistinct, IsKnownOrFull, adds, rejects, revokes, run, step, run-IsDistinct,
}
use tether_obs_plugin.Admission.Peers.{add_pending_cases, add_pending-cap}
use tether_obs_plugin.Admission.Pins.{run-no_consent}

abbrev request : Request
request = record {
  max_receivers = pos 1;
  window_seconds = negsuc 0;
  max_attempts = pos 2;
  lockout_seconds = pos 5;
  auto_accept_pinned = true;
  has_on_changed = true;
}

-- The clock stands at `t` seconds and goes on by a nanosecond at each reading.
abbrev clock : ℕ → Clock
clock t = record {
  at_check = t * ns_per_second;
  at_prune = t * ns_per_second + 1;
  at_push = t * ns_per_second + 2;
  at_seen = t * ns_per_second + 3;
}

abbrev alice : Peer
alice = record {
  peer_id = codes "alice";
  display_name = codes "A";
  fingerprint = [];
  state = accepted;
  pinned = true;
  first_seen_ns = 0;
}

abbrev bob : Peer
bob = record alice { peer_id = codes "bob"; state = pending; pinned = false }

abbrev room : Admission
room = record {
  cfg = record {
    max_receivers = 2;
    window_seconds = 60;
    max_attempts = 2;
    lockout_seconds = 5;
    auto_accept_pinned = true;
    has_on_changed = true;
  };
  peers = alice ∷ bob ∷ [];
  attempts = (100 * ns_per_second) ∷ [];
  lockout_until_ns = 0;
}

-- Two attempts lie in the window.
abbrev busy : Admission
busy = record room { attempts = (100 * ns_per_second) ∷ (101 * ns_per_second) ∷ [] }

create_defaults :
    ((create request).cfg.window_seconds ≡ 60) × ((create request).cfg.max_receivers ≡ 1)
unfolding create
create_defaults = (refl, refl)

first_request :
    (add_pending (create request) (clock 100) (some (codes "bob")) none none).result ≡ true
unfolding create add_pending
first_request = refl

third_request :
    (run (create request) (
      adds (clock 100) (codes "a") none none
      ∷ adds (clock 101) (codes "b") none none
      ∷ adds (clock 102) (codes "c") none none
      ∷ [])).lockout_until_ns
    ≡ 107 * ns_per_second
unfolding create run step add_pending str_eq copy_into
third_request = refl

rate_limit_blocks_iff_example :
    (rate_limit_blocks busy (102 * ns_per_second) (102 * ns_per_second)).1 ≡ (
      ltb (102 * ns_per_second) 0
      || (ltb 0 2
          && leb 2 (length (recent (102 * ns_per_second - 60 * ns_per_second) busy.attempts))))
rate_limit_blocks_iff_example =
    rate_limit_blocks_iff busy (102 * ns_per_second) (102 * ns_per_second) (omega arith)
      (omega arith) (omega arith) (omega arith)

room-IsLedger : IsLedger (100 * ns_per_second) room
room-IsLedger = omega arith

add_pending-IsLedger_example :
    IsLedger
      (102 * ns_per_second + 2)
      (add_pending room (clock 102) (some (codes "eve")) none none).adm
add_pending-IsLedger_example =
    add_pending-IsLedger room (clock 102) (some (codes "eve")) none none (100 * ns_per_second)
      (omega arith) room-IsLedger (omega arith)

busy_full : 2 ≤ length (prune_attempts busy (102 * ns_per_second + 1)).attempts
unfolding prune_attempts
busy_full = omega arith

lockout_lasts_example :
    ((add_pending busy (clock 102) (some (codes "eve")) none none).result ≡ false)
    × (add_pending
          (add_pending busy (clock 102) (some (codes "eve")) none none).adm
          (clock 106)
          (some (codes "mal"))
          none
          none
        ≡ record {
          adm = (add_pending busy (clock 102) (some (codes "eve")) none none).adm;
          result = false;
          changed = none;
        })
lockout_lasts_example =
    lockout_lasts busy (clock 102) (clock 106) (codes "eve") none none (some (codes "mal")) none
      none (omega arith) (omega arith) busy_full (omega arith) (omega arith)

room-IsDistinct : IsDistinct room.peers
unfolding find_peer str_eq
room-IsDistinct = (refl, (refl, tt))

run-IsDistinct_example :
    IsDistinct (run room (adds (clock 170) (codes "eve") none none ∷ revokes ∷ [])).peers
run-IsDistinct_example =
    run-IsDistinct room (adds (clock 170) (codes "eve") none none ∷ revokes ∷ []) (omega arith)
      room-IsDistinct

add_pending_cases_example :
    (((add_pending room (clock 170) (some (codes "eve")) none none).result ≡ false)
      × ((add_pending room (clock 170) (some (codes "eve")) none none).adm.peers ≡ room.peers)
      × (((rate_limit_blocks room (170 * ns_per_second) (170 * ns_per_second + 1)).1 ≡ true)
          ⊎ IsKnownOrFull room (codes "eve")))
    ⊎ (((add_pending room (clock 170) (some (codes "eve")) none none).result ≡ true)
        × ((rate_limit_blocks room (170 * ns_per_second) (170 * ns_per_second + 1)).1 ≡ false)
        × (find_peer (codes "eve") room.peers ≡ none)
        × (count_state accepted room.peers < 2)
        × ((add_pending room (clock 170) (some (codes "eve")) none none).adm.peers
            ≡ room.peers
              ++ new_peer (codes "eve") none none (170 * ns_per_second + 3) (auto_accepts room none)
                ∷ []))
add_pending_cases_example = add_pending_cases room (clock 170) (codes "eve") none none

one_accepted : count_state accepted room.peers ≤ 2
unfolding count_state
one_accepted = omega arith

add_pending-cap_example :
    count_state accepted (add_pending room (clock 170) (some (codes "eve")) none none).adm.peers ≤ 2
add_pending-cap_example = add_pending-cap room (clock 170) (codes "eve") none none one_accepted

find_alice : find_peer (codes "alice") room.peers ≡ some alice
unfolding find_peer str_eq
find_alice = refl

find_bob : find_peer (codes "bob") room.peers ≡ some bob
unfolding find_peer str_eq
find_bob = refl

bob_pending : state_eq bob.state accepted ≡ false
unfolding state_eq
bob_pending = refl

run-no_consent_example :
    count
      (run (create request) (adds (clock 100) (codes "eve") none none ∷ rejects (codes "eve") ∷ []))
      accepted
    ≡ 0
run-no_consent_example =
    run-no_consent request (adds (clock 100) (codes "eve") none none ∷ rejects (codes "eve") ∷ [])
      (omega arith)

eve_passes : (add_pending room (clock 170) (some (codes "eve")) none (some [])).result ≡ true
unfolding add_pending str_eq
eve_passes = refl
