-- ===== src/Token/Paste.antt =====
-- src/token.c: what `tether_token_normalise` makes of a pasted text.
use tether_obs_plugin.Common.{
  ℕ, zero, suc, ◌+◌, ◌-◌, ◌≤◌, ◌≡◌, ◌↔◌, refl, ap, Bool, true, false, not, ◌&&◌, [], ◌∷◌, ◌++◌,
  some, arith, Bytes, take, take-append_exact, All, All-append, some_inj, ltb, ◌==◌, if◌then◌else◌,
  Bool-cases, inl, inr, sym, ◌∙◌,
}
use tether_obs_plugin.Token.{
  alphabet, token_buf, char_in_alphabet, in_bytes, is_well_formed, skipped, canonical,
  normalise_loop, normalise,
}
use tether_obs_plugin.Token.Shape.{
  IsAlphabet, IsToken, IsToken→is_well_formed, is_well_formed→IsToken, length-IsToken,
}

-- The text without whitespace and quotes, in upper case, with the ambiguous letters as digits.
pub cleaned : Bytes → Bytes
cleaned [] = []
cleaned (c ∷ s) = if skipped c then cleaned s else canonical c ∷ cleaned s

take-nil : (n : ℕ) → take {A = ℕ} n [] ≡ []
take-nil zero = refl
take-nil (suc n) = refl

-- The loop with its index is a filter, a map and a cut.
normalise_loop-take :
    (s : Bytes) (j out_size : ℕ) → normalise_loop s j out_size ≡ take (out_size - 1 - j) (cleaned s)
unfolding normalise_loop cleaned
normalise_loop-take [] j n = sym (take-nil (n - 1 - j))
normalise_loop-take (c ∷ s) j n = elim (Bool-cases (ltb (j + 1) n)) [
  | inr full ↦ let z : n - 1 - j ≡ 0 = ground arith in rw (full, z)
  | inl room ↦ elim (Bool-cases (skipped c)) [
    | inl e ↦ rw (room, e) (normalise_loop-take s j n)
    | inr e ↦
        let m : n - 1 - j ≡ suc (n - 1 - (j + 1)) = ground arith in
        rw (room, e, m) (ap (◌∷◌ (canonical c)) (normalise_loop-take s (j + 1) n))
  ]
]

-- With a buffer of 20 bytes or more, what is written is the cleaned text, cut to what the buffer
-- holds, and the result is whether that is well formed.
pub normalise-cleaned :
    (s : Bytes) (out_size : ℕ)
    → token_buf ≤ out_size
    → normalise (some s) out_size ≡ (
      some (take (out_size - 1) (cleaned s)),
      is_well_formed (some (take (out_size - 1) (cleaned s))),
    )
unfolding normalise
normalise-cleaned s n h =
    let big : ltb n token_buf ≡ false = ground arith in
    let e : normalise_loop s 0 n ≡ take (n - 1) (cleaned s) =
      normalise_loop-take s 0 n ∙ ap (λ k. take k (cleaned s)) (omega arith) in
    rw (big, e) refl

-- What the loop leaves alone.
is_plain : ℕ → Bool
is_plain c = not (skipped c) && (canonical c == c)

forall_plain : Bytes → Bool
forall_plain [] = true
forall_plain (c ∷ s) = is_plain c && forall_plain s

alphabet_table : forall_plain alphabet ≡ true
unfolding forall_plain is_plain skipped canonical
alphabet_table = refl

in_bytes-plain :
    (c : ℕ) (xs : Bytes) → forall_plain xs ≡ true → in_bytes c xs ≡ true → is_plain c ≡ true
unfolding forall_plain in_bytes
in_bytes-plain c [] h m = cc
in_bytes-plain c (x ∷ xs) h m = ground (arith, in_bytes-plain c xs)

abbrev IsPlain : ℕ → Type 0
IsPlain c = is_plain c ≡ true

alphabet-IsPlain : (s : Bytes) → All IsAlphabet s → All IsPlain s
unfolding char_in_alphabet
alphabet-IsPlain [] a = tt
alphabet-IsPlain (c ∷ s) a = (in_bytes-plain c alphabet alphabet_table a.0, alphabet-IsPlain s a.1)

token-IsPlain : {t : Bytes} → IsToken t → All IsPlain t
unfolding is_plain skipped canonical
token-IsPlain v = rw v.shape (
  refl,
  (
    refl,
    (
      refl,
      (
        refl,
        (
          refl,
          All-append IsPlain v.first _ (alphabet-IsPlain _ v.first_IsGroup.chars) (
            refl,
            All-append IsPlain v.second _ (alphabet-IsPlain _ v.second_IsGroup.chars)
                (refl, alphabet-IsPlain _ v.third_IsGroup.chars),
          ),
        ),
      ),
    ),
  ),
)

cleaned-plain : (t s : Bytes) → All IsPlain t → cleaned (t ++ s) ≡ t ++ cleaned s
unfolding cleaned is_plain
cleaned-plain [] s a = refl
cleaned-plain (c ∷ t) s a = ground (arith, cleaned-plain t s a.1)

-- In a buffer of 20 bytes a token is accepted whatever follows it: the loop stops when the buffer
-- is full, so the check never sees the rest of the text.
pub normalise-append :
    {t : Bytes} (junk : Bytes) → IsToken t → normalise (some (t ++ junk)) token_buf ≡ (some t, true)
normalise-append {t} junk v =
    normalise-cleaned (t ++ junk) token_buf (omega arith)
    ∙ rw
        (
          cleaned-plain t junk (token-IsPlain v),
          take-append_exact 19 t (cleaned junk) (length-IsToken v),
          IsToken→is_well_formed v,
        )
        refl

-- A text is accepted in a buffer of 20 bytes exactly when the first 19 bytes of its cleaned form
-- are a token, and then this token is what is written.
pub normalise_accepts :
    (s t : Bytes)
    → (normalise (some s) token_buf ≡ (some t, true)) ↔ (IsToken t × (take 19 (cleaned s) ≡ t))
normalise_accepts s t = (there, back)
  where
    result :
        normalise (some s) token_buf
        ≡ (some (take 19 (cleaned s)), is_well_formed (some (take 19 (cleaned s))))
    result = normalise-cleaned s token_buf (omega arith)

    there : normalise (some s) token_buf ≡ (some t, true) → IsToken t × (take 19 (cleaned s) ≡ t)
    there h =
        let e = sym result ∙ h in
        let e0 : take 19 (cleaned s) ≡ t = some_inj (ap (λ p. p.0) e) in
        (is_well_formed→IsToken t (rw e0 at (ap (λ p. p.1) e)), e0)

    back : IsToken t × (take 19 (cleaned s) ≡ t) → normalise (some s) token_buf ≡ (some t, true)
    back p = result ∙ rw (p.1, IsToken→is_well_formed p.0) refl
