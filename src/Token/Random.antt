-- ===== src/Token/Random.antt =====
-- src/token.c: the random bytes and the tokens that are generated from them.
use Prim.Native.Nat.{min}
use tether_obs_plugin.Common.{
  ℕ, zero, suc, ◌+◌, ◌-◌, ◌*◌, ◌%◌, ◌<◌, ◌≤◌, ◌≡◌, refl, ap, Bool, true, false, ◌&&◌, [], ◌∷◌, ◌++◌,
  List, Option, none, some, arith, Bytes, length, length-append, length-take, take, All, get_or,
  Bool-cases, inl, inr, ltb, some_inj, sym, ◌∙◌, append-nil, append_assoc,
}
use tether_obs_plugin.Token.{
  group_len, groups, alphabet_padded, token_buf, token_prefix, char_in_alphabet, Filled, filled,
  failed, reading, fill_loop, fill_random, generate, generate_from, emit_chars, emit_groups,
  is_well_formed,
}
use tether_obs_plugin.Token.Shape.{
  IsAlphabet, IsGroup, IsToken, IsToken→is_well_formed, length-IsToken,
}

forall_chars : Bytes → Bool
forall_chars [] = true
forall_chars (x ∷ xs) = char_in_alphabet x && forall_chars xs

get_or-All {ℓ} :
    (P : ℕ → Type ℓ) (xs : Bytes) (i d : ℕ) → All P xs → i < length xs → P (get_or xs i d)
get_or-All P [] i d a h = absurd (omega arith)
get_or-All P (x ∷ xs) zero d a h = a.0
get_or-All P (x ∷ xs) (suc i) d a h = get_or-All P xs i d a.1 (omega arith)

All-chars : (xs : Bytes) → forall_chars xs ≡ true → All IsAlphabet xs
unfolding forall_chars
All-chars [] h = tt
All-chars (x ∷ xs) h = (ground arith, All-chars xs (ground arith))

padded_table : forall_chars alphabet_padded ≡ true
unfolding forall_chars char_in_alphabet
padded_table = refl

padded-IsAlphabet : (x : ℕ) → IsAlphabet (get_or alphabet_padded (x % 32) 0)
padded-IsAlphabet x =
    get_or-All IsAlphabet alphabet_padded (x % 32) 0 (All-chars _ padded_table) (omega arith)

emit_chars-IsGroup : (bytes : Bytes) (g : ℕ) → IsGroup (emit_chars bytes g group_len 0)
unfolding emit_chars
emit_chars-IsGroup bytes g = record {
  size = refl;
  chars = (at 0, (at (0 + 1), (at (0 + 1 + 1), (at (0 + 1 + 1 + 1), tt))));
}
  where
    at : (i : ℕ) → IsAlphabet (get_or alphabet_padded (get_or bytes (g * group_len + i) 0 % 32) 0)
    at i = padded-IsAlphabet (get_or bytes (g * group_len + i) 0)

generate_from-IsToken : (bytes t : Bytes) → generate_from (filled bytes) ≡ some t → IsToken t
unfolding generate_from emit_groups
generate_from-IsToken bytes t h = record {
  first = emit_chars bytes 0 group_len 0;
  second = emit_chars bytes 1 group_len 0;
  third = emit_chars bytes 2 group_len 0;
  first_IsGroup = emit_chars-IsGroup bytes 0;
  second_IsGroup = emit_chars-IsGroup bytes 1;
  third_IsGroup = emit_chars-IsGroup bytes 2;
  shape = sym (some_inj h);
}

-- The token that 12 bytes give.
written : Bytes → Bytes
unfolding emit_groups
written bytes = token_prefix ++ emit_groups bytes groups 0

of_filled : (f : Filled) (t : Bytes) → generate_from f ≡ some t → IsToken t
of_filled (filled bytes) t h = generate_from-IsToken bytes t h
of_filled failed t h = unfold generate_from in cc
of_filled reading t h = unfold generate_from in cc

-- The bytes of the reads up to the first that fails, one after the other.
abbrev pub delivered : List (Option Bytes) → Bytes
delivered [] = []
delivered (none ∷ rs) = []
delivered (some r ∷ rs) = r ++ delivered rs

0-sub : (m : ℕ) → 0 - m ≡ 0
0-sub m = omega arith

take-append : (n : ℕ) (xs ys : Bytes) → take n (xs ++ ys) ≡ take n xs ++ take (n - length xs) ys
take-append zero [] ys = refl
take-append zero (x ∷ xs) ys = rw (0-sub (suc (length xs)))
take-append (suc n) [] ys = let e : suc n ≡ suc n - 0 = omega arith in ap (λ k. take k ys) e
take-append (suc n) (x ∷ xs) ys =
    ap (◌∷◌ x) (take-append n xs ys ∙ ap (λ k. take n xs ++ take k ys) (omega arith))

-- The loop ends: nothing more is asked for.
done_lem :
    (n : ℕ) (got xs : Bytes)
    → length got ≤ n
    → ltb (length got) n ≡ false
    → filled got ≡ filled (got ++ take (n - length got) xs)
done_lem n got xs h e = let z : n - length got ≡ 0 = ground arith in rw (z, append-nil got)

fill_loop-take :
    (n : ℕ) (got : Bytes) (rs : List (Option Bytes))
    → length got ≤ n
    → n ≤ length got + length (delivered rs)
    → fill_loop n got rs ≡ filled (got ++ take (n - length got) (delivered rs))
unfolding fill_loop
fill_loop-take n got [] h k =
    let e : ltb (length got) n ≡ false = ground arith in rw e (done_lem n got [] h e)
fill_loop-take n got (none ∷ rs) h k =
    let e : ltb (length got) n ≡ false = ground arith in rw e (done_lem n got [] h e)
fill_loop-take n got (some r ∷ rs) h k = elim (Bool-cases (ltb (length got) n)) [
  | inr e ↦ rw e (done_lem n got _ h e)
  | inl e ↦
      let got' = got ++ take (n - length got) r in
      let l1 : length got' ≡ length got + min (n - length got) (length r) =
        length-append got _ ∙ ap (λ m. length got + m) (length-take (n - length got) r) in
      let l2 = length-append r (delivered rs) in
      let ih : fill_loop n got' rs ≡ filled (got' ++ take (n - length got') (delivered rs)) =
        fill_loop-take n got' rs (omega arith) (omega arith) in
      let m : n - length got' ≡ (n - length got) - length r = omega arith in
      rw e (
        ih
        ∙ ap filled (
            append_assoc got _ _
            ∙ ap (◌++◌ got) (rw (m, take-append (n - length got) r (delivered rs)))))
]

-- However the kernel cuts the random bytes into reads, as soon as the reads before a failure hold
-- the bytes that were asked for, the buffer holds the first of them.
pub fill_random-take :
    (rs : List (Option Bytes)) (n : ℕ)
    → n ≤ length (delivered rs)
    → fill_random true rs n ≡ filled (take n (delivered rs))
unfolding fill_random
fill_random-take rs n h =
    let e : n - 0 ≡ n = omega arith in
    fill_loop-take n [] rs (omega arith) (omega arith) ∙ ap (λ k. filled (take k (delivered rs))) e

-- Whatever bytes the random generator gives, a token that `tether_token_generate` writes is
-- accepted by `tether_token_is_well_formed`.
pub generate-is_well_formed :
    (opened : Bool) (reads : List (Option Bytes)) (out_size : ℕ) (t : Bytes)
    → generate opened reads out_size ≡ some t
    → is_well_formed (some t) ≡ true
unfolding generate
generate-is_well_formed opened reads out_size t h = elim (Bool-cases (ltb out_size token_buf)) [
  | inl small ↦ absurd (ground arith)
  | inr big ↦ IsToken→is_well_formed (of_filled _ t (rw big at h))
]

-- With a buffer of 20 bytes or more, and 12 random bytes read before any failure, a token is
-- written; it is well formed and fills 19 bytes and the terminator.
pub generate_total :
    (reads : List (Option Bytes)) (out_size : ℕ)
    → token_buf ≤ out_size
    → 12 ≤ length (delivered reads)
    → (t : Bytes) × (generate true reads out_size ≡ some t)
      × (is_well_formed (some t) ≡ true)
      × (length t ≡ 19)
unfolding generate written
generate_total reads out_size h k =
    let bytes = take 12 (delivered reads) in
    let big : ltb out_size token_buf ≡ false = ground arith in
    let e : generate true reads out_size ≡ some (written bytes) =
      rw (big, fill_random-take reads 12 k) refl in
    (
      written bytes,
      e,
      generate-is_well_formed true reads out_size (written bytes) e,
      length-IsToken (generate_from-IsToken bytes (written bytes) refl),
    )
