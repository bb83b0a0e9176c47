-- ===== src/Sdp/Answer.antt =====
-- src/sender.c: what the sender makes of an answer that src/signaling.c escaped.
use tether_obs_plugin.Common.{
  ℕ, ◌<◌, ◌≤◌, ◌≡◌, ◌≢◌, refl, ap, false, [], ◌∷◌, ◌++◌, some, arith, ◌==◌, Bytes, length,
  length-append, before_first, inl, inr, All, All-append,
}
use tether_obs_plugin.Sdp.{escape_byte, escape, sdp_message, unescape_byte, answer_of}
use tether_obs_plugin.Sdp.RoundTrip.{IsUnquoted, escape_cases, escape-cons, after_first-message}

before_first-append :
    (q : ℕ) (s rest : Bytes)
    → All (λ c. (c == q) ≡ false) s
    → before_first q (s ++ q ∷ rest) ≡ some s
unfolding before_first
before_first-append q [] rest a = ground arith
before_first-append q (c ∷ s) rest a = rw (a.0, before_first-append q s rest a.1)

escape_byte-IsUnquoted : (c : ℕ) → (c == b'"') ≡ false → IsUnquoted (escape_byte c)
unfolding unescape_byte
escape_byte-IsUnquoted c h = elim (escape_cases c) [
  | inl (d, e, u) ↦ rw e (refl, (ground arith, tt))
  | inr (e, _, k) ↦ rw e (k, tt)
]

escape-IsUnquoted : (s : Bytes) → IsUnquoted s → IsUnquoted (escape s)
escape-IsUnquoted [] a = unfold escape in tt
escape-IsUnquoted (c ∷ s) a = rw (escape-cons c s) (
    All-append (λ x. (x == b'"') ≡ false) (escape_byte c) (escape s) (escape_byte-IsUnquoted c a.0)
      (escape-IsUnquoted s a.1))

length-escape_byte-le : (c : ℕ) → 1 ≤ length (escape_byte c)
length-escape_byte-le c = elim (escape_cases c) [
  | inl (d, e, _) ↦ rw e (omega arith)
  | inr (e, _, _) ↦ rw e (omega arith)
]

length-escape-le : (s : Bytes) → length s ≤ length (escape s)
length-escape-le [] = omega arith
length-escape-le (c ∷ s) = rw (escape-cons c s) (
    omega (
      arith,
      length-append (escape_byte c) (escape s),
      length-escape_byte-le c,
      length-escape-le s,
    ))

-- A text with a line break in it grows.
length-escape-lt :
    (s rest : Bytes) → length (s ++ b'\n' ∷ rest) < length (escape (s ++ b'\n' ∷ rest))
length-escape-lt [] rest =
    rw (escape-cons b'\n' rest) (unfold escape_byte in omega (arith, length-escape-le rest))
length-escape-lt (c ∷ s) rest = rw (escape-cons c (s ++ b'\n' ∷ rest)) (
    omega (
      arith,
      length-append (escape_byte c) (escape (s ++ b'\n' ∷ rest)),
      length-escape_byte-le c,
      length-escape-lt s rest,
    ))

-- The sender does not undo the escaping. From an answer without quotes that `tether_signaling_send_sdp`
-- sent, it applies the escaped text, which is not the description if that has a line break.
pub answer_of-sdp_message :
    (peer sdp_type s rest : Bytes)
    → IsUnquoted peer
    → IsUnquoted sdp_type
    → IsUnquoted (s ++ b'\n' ∷ rest)
    → (answer_of (sdp_message peer sdp_type (s ++ b'\n' ∷ rest))
        ≡ some (escape (s ++ b'\n' ∷ rest)))
      × (escape (s ++ b'\n' ∷ rest) ≢ s ++ b'\n' ∷ rest)
unfolding answer_of
answer_of-sdp_message peer sdp_type s rest a b u = (
  rw (after_first-message peer sdp_type (s ++ b'\n' ∷ rest) a b, answer_of)
      (before_first-append b'"' (escape (s ++ b'\n' ∷ rest)) (b'}' ∷ []) (escape-IsUnquoted _ u)),
  λ e. absurd (omega (arith, ap length e, length-escape-lt s rest)),
)
