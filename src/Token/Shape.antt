-- ===== src/Token/Shape.antt =====
-- src/token.c: the well-formedness check against the shape that the header documents.
use tether_obs_plugin.Common.{
  ℕ, zero, suc, ◌+◌, ◌≡◌, refl, ap, ◌↔◌, true, [], ◌∷◌, ◌++◌, Option, none, some, arith, Bytes,
  length, length-append, All, strip_prefix, strip_prefix→≡, strip_prefix-append, inl, inr, subst,
  sym, lt→ltb, ◌<◌, ◌∙◌, append-nil, Bool-cases,
}
use tether_obs_plugin.Token.{
  group_len, groups, token_prefix, char_in_alphabet, check_chars, expect_dash, check_groups, at_end,
  is_well_formed, ◌>>=◌,
}

abbrev pub IsAlphabet : ℕ → Type 0
IsAlphabet c = char_in_alphabet c ≡ true

-- One group: four characters of the alphabet.
pub record IsGroup (g : Bytes) : Type 0 where
  pub size : length g ≡ group_len
  pub chars : All IsAlphabet g

-- The documented form: the prefix and three groups with dashes between them.
pub record IsToken (s : Bytes) : Type 0 where
  pub first : Bytes
  pub second : Bytes
  pub third : Bytes
  pub first_IsGroup : IsGroup first
  pub second_IsGroup : IsGroup second
  pub third_IsGroup : IsGroup third
  pub shape : s ≡ token_prefix ++ (first ++ b'-' ∷ (second ++ b'-' ∷ third))

check_chars-append :
    (n : ℕ) (g p : Bytes) → length g ≡ n → All IsAlphabet g → check_chars n (g ++ p) ≡ some p
unfolding check_chars
check_chars-append zero [] p h a = refl
check_chars-append zero (c ∷ g) p h a = absurd (omega arith)
check_chars-append (suc n) [] p h a = absurd (omega arith)
check_chars-append (suc n) (c ∷ g) p h a = rw a.0 (check_chars-append n g p (omega arith) a.1)

-- What a successful check of `n` characters has read.
record Read (n : ℕ) (p q : Bytes) : Type 0 where
  part : Bytes
  size : length part ≡ n
  chars : All IsAlphabet part
  eq : p ≡ part ++ q

check_chars-Read : (n : ℕ) (p q : Bytes) → check_chars n p ≡ some q → Read n p q
unfolding check_chars
check_chars-Read zero p q h = record { part = []; size = refl; chars = tt; eq = ground arith }
check_chars-Read (suc n) [] q h = cc
check_chars-Read (suc n) (c ∷ p) q h = elim (Bool-cases (char_in_alphabet c)) [
  | inl e ↦
      let r : Read n p q = check_chars-Read n p q (rw (e, check_chars) at h) in
      record { part = c ∷ r.part; size = ap suc r.size; chars = (e, r.chars); eq = ap (◌∷◌ c) r.eq }
  | inr e ↦ absurd (ground arith)
]

expect_dash→≡ : (p q : Bytes) → expect_dash p ≡ some q → p ≡ b'-' ∷ q
unfolding expect_dash
expect_dash→≡ [] q h = cc
expect_dash→≡ (c ∷ p) q h = ground arith

>>=-eq-some :
    (m : Option Bytes) (f : Bytes → Option Bytes) {b : Bytes}
    → (m >>= f) ≡ some b
    → (a : Bytes) × (m ≡ some a) × (f a ≡ some b)
>>=-eq-some none f h = cc
>>=-eq-some (some a) f h = (a, refl, h)

at_end→≡ : (m : Option Bytes) → at_end m ≡ true → m ≡ some []
unfolding at_end
at_end→≡ none h = cc
at_end→≡ (some []) h = refl
at_end→≡ (some (c ∷ p)) h = cc

-- A group with its dash, then the groups that are left.
check_groups-dash :
    (left g : ℕ) (a p : Bytes)
    → g + 1 < groups
    → IsGroup a
    → check_groups (suc left) g (a ++ b'-' ∷ p) ≡ check_groups left (g + 1) p
unfolding check_groups expect_dash
check_groups-dash left g a p h v =
    rw (check_chars-append group_len a (b'-' ∷ p) v.size v.chars, lt→ltb _ _ h)

-- Every text of the documented form is accepted.
pub IsToken→is_well_formed : {s : Bytes} → IsToken s → is_well_formed (some s) ≡ true
unfolding is_well_formed at_end check_groups
IsToken→is_well_formed {s} v =
    rw (v.shape, strip_prefix-append token_prefix tail)
      (ap at_end (
        check_groups-dash 2 0 v.first _ (omega arith) v.first_IsGroup
        ∙ check_groups-dash 1 1 v.second _ (omega arith) v.second_IsGroup
        ∙ last))
  where
    tail : Bytes
    tail = v.first ++ b'-' ∷ (v.second ++ b'-' ∷ v.third)

    last : check_groups 1 2 v.third ≡ some []
    last = rw (
      ← append-nil v.third,
      check_chars-append group_len v.third [] v.third_IsGroup.size v.third_IsGroup.chars,
    )

-- A group of four characters that the loop reads.
IsGroup-of : {p q : Bytes} → Read group_len p q → (a : Bytes) × IsGroup a × (p ≡ a ++ q)
IsGroup-of r = (r.part, record { size = r.size; chars = r.chars }, r.eq)

dash_inv :
    (left g : ℕ) (p r : Bytes)
    → g + 1 < groups
    → check_groups (suc left) g p ≡ some r
    → (a q : Bytes) × IsGroup a × (p ≡ a ++ b'-' ∷ q) × (check_groups left (g + 1) q ≡ some r)
unfolding check_groups
dash_inv left g p r h e =
    let (q, hq, e') = >>=-eq-some (check_chars group_len p) _ e in
    let e2 : (expect_dash q >>= check_groups left (g + 1)) ≡ some r = rw (lt→ltb _ _ h) at e' in
    let (q', hd, e3) = >>=-eq-some (expect_dash q) _ e2 in
    let (a, v, s) = IsGroup-of (check_chars-Read group_len p q hq) in
    (a, q', v, s ∙ ap (◌++◌ a) (expect_dash→≡ q q' hd), e3)

last_inv : (p : Bytes) → check_groups 1 2 p ≡ some [] → IsGroup p
unfolding check_groups
last_inv p e =
    let (q, hq, e') = >>=-eq-some (check_chars group_len p) _ e in
    let q_nil : q ≡ [] = cc e' in
    let (a, v, s) = IsGroup-of (check_chars-Read group_len p q hq) in
    subst IsGroup (sym (append-nil a) ∙ ap (◌++◌ a) (sym q_nil) ∙ sym s) v

-- Only such texts are accepted.
pub is_well_formed→IsToken : (s : Bytes) → is_well_formed (some s) ≡ true → IsToken s
unfolding is_well_formed
is_well_formed→IsToken s h =
    let (p, hp, e) = >>=-eq-some (strip_prefix token_prefix s) _ (at_end→≡ _ h) in
    let (a, p2, va, sa, e2) = dash_inv 2 0 p [] (omega arith) e in
    let (b, p3, vb, sb, e3) = dash_inv 1 1 p2 [] (omega arith) e2 in
    record {
      first = a;
      second = b;
      third = p3;
      first_IsGroup = va;
      second_IsGroup = vb;
      third_IsGroup = last_inv p3 e3;
      shape =
          strip_prefix→≡ token_prefix s hp
          ∙ ap (λ x. token_prefix ++ x) (sa ∙ ap (λ x. a ++ b'-' ∷ x) sb);
    }

-- `tether_token_is_well_formed` accepts exactly the texts made of the prefix `TTHR-` and three
-- groups of four characters of the alphabet with a dash between two groups.
pub is_well_formed_iff : (s : Bytes) → (is_well_formed (some s) ≡ true) ↔ IsToken s
is_well_formed_iff s = (is_well_formed→IsToken s, IsToken→is_well_formed)

-- An accepted text has the 19 bytes that the buffer is made for.
pub length-IsToken : {s : Bytes} → IsToken s → length s ≡ 19
length-IsToken {s} v = omega (
  arith,
  ap length v.shape,
  length-append v.first (b'-' ∷ (v.second ++ b'-' ∷ v.third)),
  length-append v.second (b'-' ∷ v.third),
  v.first_IsGroup.size,
  v.second_IsGroup.size,
  v.third_IsGroup.size,
)
