-- ===== src/KnownTokens/Tests.antt =====
-- Runs of src/known-tokens.c over a small model of obs_data, and each theorem at an input.
use tether_obs_plugin.Common.{
  ◌≡◌, refl, true, false, List, [], ◌∷◌, Option, none, some, if◌then◌else◌, Bytes, codes, str_eq,
  str_eq_refl, is_blank, All, ◌<◌, arith,
}
use tether_obs_plugin.KnownTokens.{
  Store, ObsData, ObsDataLaws, SameStrings, init, shutdown, add, contains, snapshot,
  snapshot_with_names,
}
use tether_obs_plugin.KnownTokens.Lookup.{IsDistinct}
use tether_obs_plugin.KnownTokens.Restart.{
  Call, add_call, remove_call, rename_call, call_all, untouched, shutdown-restart,
}

abbrev Object : Type 0
Object = List (Bytes × Bytes)

unfoldable lookup : Object → Bytes → Option Bytes
lookup [] q = some []
lookup ((k, v) ∷ o) q = if str_eq k q then some v else lookup o q

abbrev plain : ObsData Object (List Object)
plain = record {
  create = [];
  set_string = λ o k v. (k, v) ∷ o;
  get_string = lookup;
  save_json = λ os. os;
  load_json = λ f. some f;
}

-- The bytes of ASCII but NUL
abbrev IsAscii : Bytes → Type 0
IsAscii s = All (λ c. (0 < c) × (c < 128)) s

same_strings : (os : List Object) → SameStrings plain os os
same_strings [] = tt
same_strings (o ∷ os) = (λ k. refl, same_strings os)

plain-laws : ObsDataLaws plain IsAscii
unfolding lookup is_blank
plain-laws = record {
  keys = (ground arith, ground arith);
  get-set = λ o k v t. rw (str_eq_refl k) refl;
  get-set_other = λ o k v q t h. rw h refl;
  get-create = λ k. refl;
  load-save = λ os t. (os, refl, same_strings os);
}

abbrev token_a : Bytes
token_a = codes "TTHR-A"

abbrev token_b : Bytes
token_b = codes "TTHR-B"

abbrev two : Store (List Object)
two = record {
  initialised = true;
  entries =
      record { token = token_a; name = none }
      ∷ record { token = token_b; name = some (codes "den") }
      ∷ [];
  has_path = true;
  file = none;
}

named_pair : snapshot_with_names two ≡ (token_a ∷ token_b ∷ [], none ∷ some (codes "den") ∷ [])
unfolding snapshot_with_names
named_pair = refl

added_once :
    ((add plain two (some token_a)).1 ≡ false)
    × (snapshot (add plain two (some token_a)).0 ≡ token_a ∷ token_b ∷ [])
unfolding add snapshot str_eq
added_once = (refl, refl)

two-IsDistinct : IsDistinct two.entries
unfolding contains str_eq
two-IsDistinct = (refl, (refl, tt))

abbrev calls : List Call
calls =
    add_call (some token_a)
    ∷ add_call (some token_b)
    ∷ rename_call (some token_b) (some (codes "cam"))
    ∷ remove_call (some token_a)
    ∷ []

shutdown-restart_example :
    IsDistinct (call_all plain (init plain untouched) calls).entries
    × (init plain (shutdown (call_all plain (init plain untouched) calls))
        ≡ call_all plain (init plain untouched) calls)
shutdown-restart_example =
    shutdown-restart plain IsAscii plain-laws calls
      (ground arith, (ground arith, (ground arith, (tt, tt))))
