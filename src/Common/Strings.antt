-- ===== src/Common/Strings.antt =====
-- C strings: the bytes before the terminator. A pointer that may be NULL is an option of one.
use Prim.Native.Nat.{ℕ, ◌-◌}
use Prim.Native.Char.{code}
use Prim.Native.String.{String}
use mathlib.Core.Path.{◌≡◌, refl}
use mathlib.Core.Logic.{◌↔◌}
use mathlib.Core.List.{List, [], ◌∷◌, ◌++◌}
use mathlib.Core.Bool.{Bool, true, false, ◌&&◌}
use mathlib.Core.Option.{Option, none, some}
use native.Mathlib.Omega.{arith}
use tether_obs_plugin.Common.Tests.{◌==◌, if◌then◌else◌}
use tether_obs_plugin.Common.Lists.{take}

abbrev pub Bytes : Type 0
Bytes = List ℕ

-- The bytes of an ASCII literal.
abbrev pub codes : String → Bytes
codes String.[] = []
codes (String.◌∷◌ c s) = code c ∷ codes s

-- `strcmp(a, b) == 0`
unfoldable pub str_eq : Bytes → Bytes → Bool
str_eq [] [] = true
str_eq (a ∷ as') (b ∷ bs) = (a == b) && str_eq as' bs
str_eq _ _ = false

pub str_eq_refl : (a : Bytes) → str_eq a a ≡ true
unfolding str_eq
str_eq_refl [] = refl
str_eq_refl (x ∷ xs) = ground (arith, str_eq_refl xs)

pub str_eq→≡ : (a b : Bytes) → str_eq a b ≡ true → a ≡ b
unfolding str_eq
str_eq→≡ [] [] h = refl
str_eq→≡ [] (y ∷ ys) h = cc
str_eq→≡ (x ∷ xs) [] h = cc
str_eq→≡ (x ∷ xs) (y ∷ ys) h = ground (arith, str_eq→≡ xs ys)

pub str_eq_iff : (a b : Bytes) → (str_eq a b ≡ true) ↔ (a ≡ b)
str_eq_iff a b = (str_eq→≡ a b, λ e. rw e (str_eq_refl b))

-- `!s || !*s`
unfoldable pub is_blank : Option Bytes → Bool
is_blank none = true
is_blank (some []) = true
is_blank (some (c ∷ s)) = false

-- `strncpy(dst, s, sizeof(dst) - 1)` into a zeroed buffer of `size` bytes
unfoldable pub copy_into : ℕ → Bytes → Bytes
copy_into size s = take (size - 1) s

-- What follows a prefix, if the text starts with it: `strncmp(s, prefix, strlen(prefix)) == 0`.
unfoldable pub strip_prefix : Bytes → Bytes → Option Bytes
strip_prefix [] s = some s
strip_prefix (p ∷ ps) [] = none
strip_prefix (p ∷ ps) (c ∷ s) = if p == c then strip_prefix ps s else none

pub strip_prefix-append : (p s : Bytes) → strip_prefix p (p ++ s) ≡ some s
unfolding strip_prefix
strip_prefix-append [] s = refl
strip_prefix-append (c ∷ p) s = ground (arith, strip_prefix-append p s)

pub strip_prefix→≡ : (p s : Bytes) {r : Bytes} → strip_prefix p s ≡ some r → s ≡ p ++ r
unfolding strip_prefix
strip_prefix→≡ [] s h = cc
strip_prefix→≡ (c ∷ p) [] h = cc
strip_prefix→≡ (c ∷ p) (d ∷ s) {r} h = ground (arith, strip_prefix→≡ p s {r = r})

-- What follows the first occurrence of a text: `strstr(s, pat) + strlen(pat)`.
unfoldable pub after_first : Bytes → Bytes → Option Bytes
after_first pat [] = strip_prefix pat []
after_first pat (c ∷ s) = elim (strip_prefix pat (c ∷ s)) [
  | some r ↦ some r
  | none ↦ after_first pat s
]

-- The bytes before the first occurrence of a byte: up to `strchr(s, c)`.
unfoldable pub before_first : ℕ → Bytes → Option Bytes
before_first q [] = none
before_first q (c ∷ s) =
    let rest = before_first q s in
    if c == q then some [] else elim rest [ none ↦ none | some r ↦ some (c ∷ r) ]
