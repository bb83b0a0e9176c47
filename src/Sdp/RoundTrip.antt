-- ===== src/Sdp/RoundTrip.antt =====
-- The descriptions that arrive, against the one that was sent.
use tether_obs_plugin.Common.{
  ℕ, ◌≡◌, refl, ap, false, [], ◌∷◌, ◌++◌, none, some, arith, ◌==◌, Bytes, codes, after_first,
  strip_prefix, Bool-cases, inl, inr, ◌⊎◌, All, ◌∙◌,
}
use mathlib.Core.Path.{ap₂}
use tether_obs_plugin.Sdp.{
  escape_byte, escape, sdp_key, sdp_message, offer_span, unescape_byte, unescape, offer_of,
}

-- A byte is escaped in two bytes from which it is read back, or it stands for itself.
pub escape_cases :
    (c : ℕ)
    → ((d : ℕ) × (escape_byte c ≡ b'\\' ∷ d ∷ []) × (unescape_byte d ≡ c))
      ⊎ ((escape_byte c ≡ c ∷ []) × ((c == b'\\') ≡ false) × ((c == b'"') ≡ false))
unfolding escape_byte unescape_byte
escape_cases c = elim (Bool-cases (c == b'\\')) [
  | inl e ↦ inl (b'\\', ground arith, ground arith)
  | inr e1 ↦ elim (Bool-cases (c == b'"')) [
    | inl e ↦ inl (b'"', ground arith, ground arith)
    | inr e2 ↦ elim (Bool-cases (c == b'\n')) [
      | inl e ↦ inl (b'n', ground arith, ground arith)
      | inr e3 ↦ elim (Bool-cases (c == b'\r')) [
        | inl e ↦ inl (b'r', ground arith, ground arith)
        | inr e4 ↦ elim (Bool-cases (c == b'\t')) [
          | inl e ↦ inl (b't', ground arith, ground arith)
          | inr e5 ↦ inr (ground arith, e1, e2)
        ]
      ]
    ]
  ]
]

offer_span-plain :
    (c : ℕ) (s : Bytes)
    → (c == b'\\') ≡ false
    → (c == b'"') ≡ false
    → offer_span (c ∷ s) ≡ c ∷ offer_span s
unfolding offer_span
offer_span-plain c [] h k = rw k
offer_span-plain c (d ∷ s) h k = rw (h, k)

unescape-plain : (c : ℕ) (s : Bytes) → (c == b'\\') ≡ false → unescape (c ∷ s) ≡ c ∷ unescape s
unfolding unescape
unescape-plain c [] h = refl
unescape-plain c (d ∷ s) h = rw h

offer_span-escaped : (d : ℕ) (s : Bytes) → offer_span (b'\\' ∷ d ∷ s) ≡ b'\\' ∷ d ∷ offer_span s
unfolding offer_span
offer_span-escaped d s = refl

unescape-escaped : (d : ℕ) (s : Bytes) → unescape (b'\\' ∷ d ∷ s) ≡ unescape_byte d ∷ unescape s
unfolding unescape
unescape-escaped d s = refl

pub escape-cons : (c : ℕ) (s : Bytes) → escape (c ∷ s) ≡ escape_byte c ++ escape s
unfolding escape
escape-cons c s = refl

-- The end of the string is found behind an escaped text.
offer_span-escape : (s rest : Bytes) → offer_span (escape s ++ b'"' ∷ rest) ≡ escape s
offer_span-escape [] [] = unfold offer_span escape in refl
offer_span-escape [] (c ∷ rest) = unfold offer_span escape in refl
offer_span-escape (c ∷ s) rest = elim (escape_cases c) [
  | inl (d, e, _) ↦
      rw (escape-cons c s, e)
        (offer_span-escaped d _ ∙ ap (λ x. b'\\' ∷ d ∷ x) (offer_span-escape s rest))
  | inr (e, h, k) ↦
      rw (escape-cons c s, e) (offer_span-plain c _ h k ∙ ap (◌∷◌ c) (offer_span-escape s rest))
]

-- The receiver's loop undoes the sender's.
pub unescape-escape : (s : Bytes) → unescape (escape s) ≡ s
unescape-escape [] = unfold unescape escape in refl
unescape-escape (c ∷ s) = elim (escape_cases c) [
  | inl (d, e, u) ↦ rw (escape-cons c s, e) (unescape-escaped d _ ∙ ap₂ ◌∷◌ u (unescape-escape s))
  | inr (e, h, k) ↦ rw (escape-cons c s, e) (unescape-plain c _ h ∙ ap (◌∷◌ c) (unescape-escape s))
]

abbrev pub IsUnquoted : Bytes → Type 0
IsUnquoted = All (λ c. (c == b'"') ≡ false)

-- The key begins with a quote, so that no other byte starts it.
after_first-pass :
    (s rest : Bytes) → IsUnquoted s → after_first sdp_key (s ++ rest) ≡ after_first sdp_key rest
unfolding after_first strip_prefix
after_first-pass [] rest a = refl
after_first-pass (c ∷ s) rest a = ground (arith, after_first-pass s rest a.1)

-- The quote before a field's value: the value is followed by a comma, the key by a colon.
strip_prefix-value :
    (s rest : Bytes)
    → IsUnquoted s
    → strip_prefix (codes "sdp\":\"") (s ++ b'"' ∷ b',' ∷ rest) ≡ none
unfolding strip_prefix
strip_prefix-value [] rest a = refl
strip_prefix-value (c ∷ []) rest a = ground arith
strip_prefix-value (c ∷ d ∷ []) rest a = ground arith
strip_prefix-value (c ∷ d ∷ e ∷ []) rest a = ground arith
strip_prefix-value (c ∷ d ∷ e ∷ f ∷ s) rest a = ground arith

after_first-value :
    (s rest : Bytes)
    → IsUnquoted s
    → after_first sdp_key (b'"' ∷ (s ++ b'"' ∷ b',' ∷ rest))
      ≡ after_first sdp_key (b'"' ∷ b',' ∷ rest)
unfolding after_first strip_prefix
after_first-value s rest a = rw (strip_prefix-value s rest a, after_first) (after_first-pass s _ a)

-- In the message the key is first found where the description begins.
pub after_first-message :
    (peer sdp_type sdp : Bytes)
    → IsUnquoted peer
    → IsUnquoted sdp_type
    → after_first sdp_key (sdp_message peer sdp_type sdp) ≡ some (escape sdp ++ codes "\"}")
unfolding sdp_message
after_first-message peer sdp_type sdp a b =
    unfold after_first strip_prefix in (after_first-value peer _ a ∙ after_first-value sdp_type _ b)

-- The receiver applies exactly the description that `tether_signaling_send_sdp` was given, whatever
-- bytes it holds, if the peer id and the type hold no quote.
pub offer_of-sdp_message :
    (peer sdp_type sdp : Bytes)
    → IsUnquoted peer
    → IsUnquoted sdp_type
    → offer_of (sdp_message peer sdp_type sdp) ≡ some sdp
unfolding offer_of
offer_of-sdp_message peer sdp_type sdp a b =
    rw (after_first-message peer sdp_type sdp a b, offer_of)
      (ap some (ap unescape (offer_span-escape sdp (b'}' ∷ [])) ∙ unescape-escape sdp))
