-- ===== src/Token/Tests.antt =====
-- Runs of src/token.c, and each theorem at an input.
use tether_obs_plugin.Common.{
  ◌≡◌, ◌↔◌, refl, true, false, [], ◌∷◌, List, Option, none, some, arith, Bytes, codes, length, take,
  strip_prefix,
}
use tether_obs_plugin.Token.{token_buf, generate, is_well_formed, normalise}
use tether_obs_plugin.Token.Shape.{IsToken, is_well_formed_iff, is_well_formed→IsToken}
use tether_obs_plugin.Token.Paste.{cleaned, normalise_accepts}
use tether_obs_plugin.Token.Random.{generate_total}

abbrev sample : Bytes
sample = codes "TTHR-ABCD-EFGH-2345"

sample-well_formed : is_well_formed (some sample) ≡ true
unfolding is_well_formed strip_prefix
sample-well_formed = refl

refused :
    (is_well_formed (some (codes "TTHR-ABCD-EFGH-234")) ≡ false)
    × (is_well_formed (some (codes "TTHR-ABCD-EFGH-23456")) ≡ false)
    × (is_well_formed (some (codes "TTHR-ABCO-EFGH-2345")) ≡ false)
    × (is_well_formed none ≡ false)
unfolding is_well_formed strip_prefix
refused = (refl, refl, refl, refl)

-- The first two reads are short, and the fifth entry of the alphabet is drawn first.
abbrev reads : List (Option Bytes)
reads =
    some (4 ∷ 33 ∷ [])
    ∷ some (255 ∷ [])
    ∷ some (0 ∷ 1 ∷ 2 ∷ 3 ∷ 4 ∷ 5 ∷ 6 ∷ 7 ∷ 8 ∷ 9 ∷ 9 ∷ [])
    ∷ []

drawn : generate true reads token_buf ≡ some (codes "TTHR-EB9A-BCDE-FGHJ")
unfolding generate
drawn = refl

pasted :
    normalise (some (codes "  \"tthr-abcd efgh\"")) token_buf
    ≡ (some (codes "TTHR-ABCDEFGH"), false)
unfolding normalise strip_prefix
pasted = refl

sample-IsToken : IsToken sample
sample-IsToken = is_well_formed→IsToken sample sample-well_formed

is_well_formed_iff_example : (is_well_formed (some sample) ≡ true) ↔ IsToken sample
is_well_formed_iff_example = is_well_formed_iff sample

normalise_accepts_example :
    (normalise (some sample) token_buf ≡ (some sample, true))
    ↔ (IsToken sample × (take 19 (cleaned sample) ≡ sample))
normalise_accepts_example = normalise_accepts sample sample

generate_total_example :
    (t : Bytes) × (generate true reads 20 ≡ some t)
    × (is_well_formed (some t) ≡ true)
    × (length t ≡ 19)
generate_total_example = generate_total reads 20 (omega arith) (omega arith)
