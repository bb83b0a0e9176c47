-- ===== src/Registry/Tests.antt =====
-- Runs of the registry of src/receive-session.c, and each theorem at an input.
use tether_obs_plugin.Common.{
  ℕ, ◌≡◌, ◌↔◌, refl, true, false, List, [], ◌∷◌, Option, none, some, arith, Bytes, codes, length,
  strip_prefix, str_eq,
}
use mathlib.Core.Option
use tether_obs_plugin.ReceiveSession.{Session, Subscription, Notice}
use tether_obs_plugin.Registry.{
  Registry, find_id, get, release, subscribe, unsubscribe, enumerate, init, shutdown,
}
use tether_obs_plugin.Registry.Sessions.{IsDistinct}
use tether_obs_plugin.Registry.References.{occ, refs}
use tether_obs_plugin.Registry.Lifetime.{Run, started, got, cold, Run-refcounts, Run-release_alive}

abbrev token_a : Option Bytes
token_a = some (codes "TTHR-ABCD-EFGH-2345")

abbrev token_b : Option Bytes
token_b = some (codes "TTHR-WXYZ-EFGH-2345")

abbrev watcher : Subscription
watcher = record { sub_id = 7; on_video = false; on_audio = false; on_state = true }

abbrev after_a : Registry
after_a = (get (init cold) token_a true true).0

abbrev after_ab : Registry
after_ab = (get after_a token_b true true).0

abbrev after_aba : Registry
after_aba = (get after_ab token_a true true).0

shared :
    ((get (init cold) token_a true true).1 ≡ some 0)
    × ((get after_a token_b true true).1 ≡ some 1)
    × ((get after_ab token_a true true).1 ≡ some 0)
    × (refs (find_id 0 after_aba.sessions) ≡ 2)
    × (length after_aba.sessions ≡ 2)
unfolding get find_id init strip_prefix str_eq
shared = (refl, refl, refl, refl, refl)

failed_parts :
    ((get (init cold) token_a false true).1 ≡ none)
    × ((get (init cold) (some (codes "TTHR-ABCD")) true true).1 ≡ none)
    × ((get cold token_a true true).1 ≡ none)
unfolding get init strip_prefix str_eq
failed_parts = (refl, refl, refl)

visited : Option.map (λ (p : Registry × List Session). length p.1) (enumerate after_aba) ≡ some 2
unfolding enumerate get init strip_prefix str_eq Option.map
visited = refl

closed_down : (shutdown after_aba).sessions ≡ []
unfolding shutdown
closed_down = refl

shared-Run : Run after_aba (0 ∷ 1 ∷ 0 ∷ [])
unfolding get init strip_prefix str_eq
shared-Run =
    got after_ab (1 ∷ 0 ∷ []) token_a true true
      (got after_a (0 ∷ []) token_b true true (got (init cold) [] token_a true true started))

Run-refcounts_example :
    IsDistinct after_aba.sessions
    × ((id : ℕ) → refs (find_id id after_aba.sessions) ≡ occ id (0 ∷ 1 ∷ 0 ∷ []))
    × ((id : ℕ) → (find_id id after_aba.sessions ≡ none) ↔ (occ id (0 ∷ 1 ∷ 0 ∷ []) ≡ 0))
Run-refcounts_example = Run-refcounts after_aba (0 ∷ 1 ∷ 0 ∷ []) shared-Run

Run-release_alive_example :
    ((r' : Registry) × (release after_aba 1 ≡ some (r', true)))
    × ((r' : Registry) × (unsubscribe after_aba 1 7 ≡ some (r', true)))
    × ((r' : Registry) × (ns : List Notice) × (subscribe after_aba 1 watcher ≡ some (r', ns)))
Run-release_alive_example =
    Run-release_alive after_aba (0 ∷ 1 ∷ 0 ∷ []) 1 7 watcher shared-Run (omega arith)

-- The comparison is of the texts as they were given: another spelling of a token gets a session of
-- its own.
two_spellings : (get after_a (some (codes "tthr-abcd-efgh-2345")) true true).1 ≡ some 1
unfolding get init strip_prefix str_eq
two_spellings = refl
