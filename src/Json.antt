-- ===== src/Json.antt =====
-- src/signaling.c: the lookup of string fields by key in a flat JSON object.
pub mod Fields
pub mod Start
mod Tests
use tether_obs_plugin.Common.{
  ℕ, Bool, true, false, ◌||◌, List, [], ◌∷◌, Option, none, some, ◌==◌, if◌then◌else◌, Bytes, str_eq,
  strip_prefix,
}

-- The bytes up to the closing quote, or to the end of the text. A backslash takes the next byte
-- with it.
unfoldable pub string_span : Bytes → Bytes
string_span [] = []
string_span (c ∷ []) = if c == b'"' then [] else c ∷ []
string_span (c ∷ d ∷ s) =
    let escaped = c ∷ d ∷ string_span s in
    let plain = c ∷ string_span (d ∷ s) in
    if c == b'"' then [] else if c == b'\\' then escaped else plain

-- `while (*after == ':' || *after == ' ') ++after;`
unfoldable pub skip_separator : Bytes → Bytes
skip_separator [] = []
skip_separator (c ∷ s) =
    let rest = skip_separator s in if c == b':' || c == b' ' then rest else c ∷ s

-- The text behind an opening quote.
unfoldable pub open_quote : Bytes → Option Bytes
open_quote [] = none
open_quote (c ∷ s) = if c == b'"' then some s else none

-- What follows a key that is found: a closing quote, the separator, and a string.
unfoldable pub value_after : Option Bytes → Option Bytes
unfolding open_quote skip_separator string_span
value_after none = none
value_after (some after) = elim (open_quote after) [
  | none ↦ none
  | some rest ↦ elim (open_quote (skip_separator rest)) [
    | none ↦ none
    | some start ↦ some (string_span start)
  ]
]

-- Is the byte before the position a quote? The first position has none.
unfoldable pub is_quote : Option ℕ → Bool
is_quote none = false
is_quote (some c) = c == b'"'

-- One round of the loop in `json_find_str`, at a position with the byte before it.
unfoldable pub match_at : Bytes → Option ℕ → Bytes → Option Bytes
unfolding is_quote value_after strip_prefix
match_at key prev p = if is_quote prev then value_after (strip_prefix key p) else none

-- The loop: `strstr` goes to the next occurrence of the key, and a round that fails goes on from the
-- next byte.
unfoldable pub find_from : Bytes → Option ℕ → Bytes → Option Bytes
unfolding match_at
find_from key prev [] = none
find_from key prev (c ∷ s) = elim (match_at key prev (c ∷ s)) [
  | some v ↦ some v
  | none ↦ find_from key (some c) s
]

-- `json_find_str` and `json_dup_str`: the value as it stands, escapes included
unfoldable pub json_find_str : Bytes → Bytes → Option Bytes
unfolding find_from
json_find_str json key = find_from key none json

unfoldable pub eq_found : Option Bytes → Bytes → Bool
eq_found none value = false
eq_found (some v) value = str_eq v value

-- `json_eq_str`
unfoldable pub json_eq_str : Bytes → Bytes → Bytes → Bool
unfolding json_find_str eq_found
json_eq_str json key value = eq_found (json_find_str json key) value
