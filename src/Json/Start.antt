-- ===== src/Json/Start.antt =====
-- src/signaling.c: `json_find_str` on a text that starts with plain fields.
use tether_obs_plugin.Common.{
  ℕ, ◌≡◌, refl, ◌∙◌, false, List, [], ◌∷◌, ◌++◌, some, ◌==◌, Bytes, str_eq, Bool-cases, inl, inr,
  none≢some,
}
use tether_obs_plugin.Json.{json_find_str, find_from}
use tether_obs_plugin.Json.Fields.{
  Field, IsKey, IsObject, key_byte, field_of, field_lem, find_from-brace, find_from-pass,
  match_at-inside, match_at-punctuation,
}

-- The fields, each with a comma behind it, and then the rest
abbrev pub open_fields : List Field → Bytes → Bytes
open_fields [] rest = rest
open_fields ((k, v) ∷ fs) rest =
    b'"' ∷ (k ++ b'"' ∷ b':' ∷ b'"' ∷ (v ++ b'"' ∷ b',' ∷ open_fields fs rest))

find_from-open_fields :
    (key : Bytes) (c : ℕ) (fs : List Field) (rest v : Bytes)
    → IsKey key
    → (c == b'"') ≡ false
    → IsObject fs
    → field_of key fs ≡ some v
    → find_from key (some c) (open_fields fs rest) ≡ some v
find_from-open_fields key c [] rest v w h a e = absurd (none≢some e)
find_from-open_fields key c ((k, u) ∷ fs) rest v w h a e =
    find_from-pass key (some c) b'"' _ (match_at-inside key _ c h)
    ∙ field_lem key k u (open_fields fs rest) b',' w a.0.0 a.0.1 (inl refl)
    ∙ elim (Bool-cases (str_eq k key)) [
      | inl same ↦ rw same (rw same at e)
      | inr other ↦ rw other (
          find_from-pass key (some b'"') b',' _
            (match_at-punctuation key _ _ b',' w (unfold key_byte in refl))
          ∙ find_from-open_fields key b',' fs rest v w refl a.1 (rw other at e))
    ]

-- Whatever follows plain fields, each of them is found.
pub json_find_str-open_fields :
    (key : Bytes) (fs : List Field) (rest v : Bytes)
    → IsKey key
    → IsObject fs
    → field_of key fs ≡ some v
    → json_find_str (b'{' ∷ open_fields fs rest) key ≡ some v
unfolding json_find_str
json_find_str-open_fields key fs rest v w a e =
    find_from-brace key (open_fields fs rest) w
    ∙ find_from-open_fields key b'{' fs rest v w refl a e
