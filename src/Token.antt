-- ===== src/Token.antt =====
-- src/token.c: generating, checking and normalising share tokens, `TTHR-XXXX-XXXX-XXXX`.
pub mod Shape
pub mod Paste
pub mod Random
mod Tests
use tether_obs_plugin.Common.{
  ℕ, zero, suc, ◌+◌, ◌-◌, ◌*◌, ◌%◌, Bool, true, false, ◌&&◌, ◌||◌, List, [], ◌∷◌, ◌++◌, Option,
  none, some, ◌==◌, leb, ltb, if◌then◌else◌, Bytes, codes, length, take, get_or, strip_prefix,
}

abbrev pub alphabet : Bytes
alphabet = codes "ABCDEFGHJKMNPQRSTUVWXYZ23456789"

abbrev pub alphabet_padded : Bytes
alphabet_padded = codes "ABCDEFGHJKKMNPQRSTUVWXYZ23456789"

abbrev pub token_prefix : Bytes
token_prefix = codes "TTHR-"

abbrev pub group_len : ℕ
group_len = 4

abbrev pub groups : ℕ
groups = 3

abbrev pub token_buf : ℕ
token_buf = 20

-- What the read loop of `fill_random` comes to. `reading` means that it waits for a further read.
pub data Filled : Type 0 where
  filled : Bytes → Filled
  failed : Filled
  reading : Filled

-- `while (got < n)`: the list holds what the successive calls of `read` give, `none` for -1. A
-- read delivers at most the bytes that were asked for.
pub fill_loop : ℕ → Bytes → List (Option Bytes) → Filled
fill_loop n got [] = if ltb (length got) n then reading else filled got
fill_loop n got (none ∷ rs) = if ltb (length got) n then failed else filled got
fill_loop n got (some r ∷ rs) =
    let more = fill_loop n (got ++ take (n - length got) r) rs in
    if ltb (length got) n then more else filled got

-- `opened` is whether `open("/dev/urandom")` gave a descriptor.
pub fill_random : Bool → List (Option Bytes) → ℕ → Filled
unfolding fill_loop
fill_random opened reads n = if opened then fill_loop n [] reads else failed

-- The inner loop of `tether_token_generate`, with `left` rounds to go from index `i` of group `g`.
emit_chars : Bytes → ℕ → ℕ → ℕ → Bytes
emit_chars bytes g zero i = []
emit_chars bytes g (suc left) i =
    get_or alphabet_padded (get_or bytes (g * group_len + i) 0 % 32) 0
    ∷ emit_chars bytes g left (i + 1)

-- The outer loop, with `left` groups to go.
emit_groups : Bytes → ℕ → ℕ → Bytes
unfolding emit_chars
emit_groups bytes zero g = []
emit_groups bytes (suc left) g =
    emit_chars bytes g group_len 0
    ++ ((if ltb (g + 1) groups then b'-' ∷ [] else []) ++ emit_groups bytes left (g + 1))

generate_from : Filled → Option Bytes
unfolding emit_groups
generate_from (filled bytes) = some (token_prefix ++ emit_groups bytes groups 0)
generate_from failed = none
generate_from reading = none

-- `tether_token_generate`: the text written to `out` if it returns true.
pub generate : Bool → List (Option Bytes) → ℕ → Option Bytes
unfolding generate_from fill_random
generate opened reads out_size =
    if ltb out_size token_buf
    then none
    else generate_from (fill_random opened reads (groups * group_len))

in_bytes : ℕ → Bytes → Bool
in_bytes c [] = false
in_bytes c (a ∷ as') = (a == c) || in_bytes c as'

pub char_in_alphabet : ℕ → Bool
unfolding in_bytes
char_in_alphabet c = in_bytes c alphabet

-- The inner loop of `tether_token_is_well_formed`: what is left of the text, or `none` for
-- `return false`. The terminator is no character of the alphabet.
check_chars : ℕ → Bytes → Option Bytes
check_chars zero p = some p
check_chars (suc left) [] = none
check_chars (suc left) (c ∷ p) = if char_in_alphabet c then check_chars left p else none

expect_dash : Bytes → Option Bytes
expect_dash [] = none
expect_dash (c ∷ p) = if c == b'-' then some p else none

infixl 5 ◌>>=◌
abbrev ◌>>=◌ : Option Bytes → (Bytes → Option Bytes) → Option Bytes
none >>= f = none
some a >>= f = f a

check_groups : ℕ → ℕ → Bytes → Option Bytes
unfolding check_chars expect_dash
check_groups zero g p = some p
check_groups (suc left) g p = do
  q ← check_chars group_len p
  r ← if ltb (g + 1) groups then expect_dash q else some q
  check_groups left (g + 1) r

at_end : Option Bytes → Bool
at_end none = false
at_end (some []) = true
at_end (some (c ∷ p)) = false

unfoldable pub is_well_formed : Option Bytes → Bool
unfolding check_groups at_end char_in_alphabet
is_well_formed none = false
is_well_formed (some s) = at_end (strip_prefix token_prefix s >>= check_groups groups 0)

-- `isspace` and `toupper` of the C locale
isspace : ℕ → Bool
isspace c = c == 32 || (leb 9 c && leb c 13)

toupper : ℕ → ℕ
toupper c = if leb b'a' c && leb c b'z' then c - 32 else c

-- whitespace and quotes
pub skipped : ℕ → Bool
unfolding isspace
skipped c = isspace c || (c == b'"' || c == b'\'')

pub canonical : ℕ → ℕ
unfolding toupper
canonical c =
    let u = toupper c in if u == b'O' then b'0' else if u == b'I' || u == b'L' then b'1' else u

-- The loop of `tether_token_normalise`, with `j` bytes written.
normalise_loop : Bytes → ℕ → ℕ → Bytes
unfolding skipped canonical
normalise_loop [] j out_size = []
normalise_loop (c ∷ p) j out_size =
    let skip = normalise_loop p j out_size in
    let keep = canonical c ∷ normalise_loop p (j + 1) out_size in
    if ltb (j + 1) out_size then (if skipped c then skip else keep) else []

-- What `out` holds afterwards (`none`: not written), and the result.
unfoldable pub normalise : Option Bytes → ℕ → Option Bytes × Bool
unfolding normalise_loop is_well_formed
normalise none out_size = (none, false)
normalise (some s) out_size =
    if ltb out_size token_buf
    then (none, false)
    else (some (normalise_loop s 0 out_size), is_well_formed (some (normalise_loop s 0 out_size)))
