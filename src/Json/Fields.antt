-- ===== src/Json/Fields.antt =====
-- src/signaling.c: the lookup against the objects that the protocol is made of.
use tether_obs_plugin.Common.{
  ℕ, ◌≡◌, ◌≢◌, refl, ap, Bool, true, false, not, ◌&&◌, ◌||◌, List, [], ◌∷◌, ◌++◌, Option, none,
  some, arith, ◌==◌, if◌then◌else◌, Bytes, str_eq, str_eq_iff, strip_prefix, strip_prefix-append,
  Bool-cases, inl, inr, ◌⊎◌, All, ◌∙◌,
}
use tether_obs_plugin.Json.{string_span, value_after, match_at, find_from, json_find_str}

-- A byte that ends no string and escapes nothing.
unfoldable pub plain_byte : ℕ → Bool
plain_byte c = not (c == b'"') && not (c == b'\\')

abbrev pub IsPlain : Bytes → Type 0
IsPlain = All (λ c. plain_byte c ≡ true)

-- A byte of a key: it is no punctuation of the object either.
unfoldable pub key_byte : ℕ → Bool
unfolding plain_byte
key_byte c = plain_byte c && not (c == b':' || c == b',' || (c == b'{' || c == b'}'))

pub record IsKey (key : Bytes) : Type 0 where
  pub bytes : All (λ c. key_byte c ≡ true) key
  pub filled : key ≢ []

abbrev pub Field : Type 0
Field = Bytes × Bytes

-- `"key":"value"`
abbrev pub render_field : Field → Bytes → Bytes
render_field (k, v) rest = b'"' ∷ (k ++ b'"' ∷ b':' ∷ b'"' ∷ (v ++ b'"' ∷ rest))

abbrev pub render_fields : List Field → Bytes
render_fields [] = b'}' ∷ []
render_fields (f ∷ []) = render_field f (b'}' ∷ [])
render_fields (f ∷ g ∷ fs) = render_field f (b',' ∷ render_fields (g ∷ fs))

-- `{"k1":"v1","k2":"v2"}`
abbrev pub render : List Field → Bytes
render fs = b'{' ∷ render_fields fs

abbrev pub field_of : Bytes → List Field → Option Bytes
field_of key [] = none
field_of key ((k, v) ∷ fs) = if str_eq k key then some v else field_of key fs

abbrev pub IsObject : List Field → Type 0
IsObject = All (λ f. IsPlain f.0 × IsPlain f.1)

string_span-plain : (v rest : Bytes) → IsPlain v → string_span (v ++ b'"' ∷ rest) ≡ v
unfolding string_span plain_byte
string_span-plain [] [] a = refl
string_span-plain [] (c ∷ rest) a = refl
string_span-plain (c ∷ []) rest a = ground arith
string_span-plain (c ∷ d ∷ v) rest a = ground (arith, string_span-plain (d ∷ v) rest a.1)

-- A position that is no start of the key is passed.
pub find_from-pass :
    (key : Bytes) (prev : Option ℕ) (c : ℕ) (s : Bytes)
    → match_at key prev (c ∷ s) ≡ none
    → find_from key prev (c ∷ s) ≡ find_from key (some c) s
unfolding find_from
find_from-pass key prev c s h = rw (h, find_from)

pub match_at-inside : (key s : Bytes) (c : ℕ) → (c == b'"') ≡ false → match_at key (some c) s ≡ none
unfolding match_at
match_at-inside key s c h = rw h

-- Inside a token only its first position can match.
find_from-token :
    (key tok rest : Bytes) (c : ℕ)
    → (c == b'"') ≡ false
    → IsPlain tok
    → find_from key (some c) (tok ++ b'"' ∷ rest) ≡ find_from key (some b'"') rest
unfolding plain_byte
find_from-token key [] rest c h a =
    find_from-pass key (some c) b'"' rest (match_at-inside key _ c h)
find_from-token key (d ∷ tok) rest c h a =
    find_from-pass key (some c) d _ (match_at-inside key _ c h)
    ∙ find_from-token key tok rest d (ground arith) a.1

strip_prefix-ne :
    (key tok rest : Bytes)
    → All (λ c. key_byte c ≡ true) key
    → IsPlain tok
    → str_eq tok key ≡ false
    → value_after (strip_prefix key (tok ++ b'"' ∷ rest)) ≡ none
unfolding strip_prefix str_eq value_after key_byte
strip_prefix-ne [] [] rest b a h = cc
strip_prefix-ne [] (d ∷ tok) rest b a h = ground arith
strip_prefix-ne (k ∷ key) [] rest b a h = ground arith
strip_prefix-ne (k ∷ key) (d ∷ tok) rest b a h =
    ground (arith, strip_prefix-ne key tok rest b.1 a.1)

-- No key begins with punctuation.
pub match_at-punctuation :
    (key s : Bytes) (prev : Option ℕ) (c : ℕ)
    → IsKey key
    → key_byte c ≡ false
    → match_at key prev (c ∷ s) ≡ none
unfolding match_at strip_prefix value_after
match_at-punctuation [] s prev c v h = absurd (v.filled refl)
match_at-punctuation (k ∷ key) s prev c v h = ground (arith, v.bytes.0)

-- A token after an opening quote, where the key does not match.
token_pass :
    (key tok rest : Bytes)
    → IsKey key
    → IsPlain tok
    → match_at key (some b'"') (tok ++ b'"' ∷ rest) ≡ none
    → find_from key (some b'"') (tok ++ b'"' ∷ rest) ≡ find_from key (some b'"') rest
unfolding plain_byte
token_pass key [] rest v a h = find_from-pass key (some b'"') b'"' rest h
token_pass key (d ∷ tok) rest v a h =
    find_from-pass key (some b'"') d _ h ∙ find_from-token key tok rest d (ground arith) a.1

-- A punctuation mark and the quote that opens the next token.
punctuation_pass :
    (key rest : Bytes) (c : ℕ)
    → IsKey key
    → key_byte c ≡ false
    → (c == b'"') ≡ false
    → find_from key (some b'"') (c ∷ b'"' ∷ rest) ≡ find_from key (some b'"') rest
punctuation_pass key rest c v h k =
    find_from-pass key (some b'"') c _ (match_at-punctuation key _ _ c v h)
    ∙ find_from-pass key (some c) b'"' rest (match_at-inside key _ c k)

match_at-quote : (key s : Bytes) → match_at key (some b'"') s ≡ value_after (strip_prefix key s)
unfolding match_at
match_at-quote key s = refl

match_at-ne :
    (key tok rest : Bytes)
    → IsKey key
    → IsPlain tok
    → str_eq tok key ≡ false
    → match_at key (some b'"') (tok ++ b'"' ∷ rest) ≡ none
match_at-ne key tok rest v a h = match_at-quote key _ ∙ strip_prefix-ne key tok rest v.bytes a h

-- A value that is spelled like the key is followed by a comma or a brace.
match_at-value :
    (key tok rest : Bytes) (c : ℕ)
    → IsKey key
    → IsPlain tok
    → (c ≡ b',') ⊎ (c ≡ b'}')
    → match_at key (some b'"') (tok ++ b'"' ∷ (c ∷ rest)) ≡ none
unfolding value_after
match_at-value key tok rest c v a h = elim (Bool-cases (str_eq tok key)) [
  | inr ne ↦ match_at-ne key tok (c ∷ rest) v a ne
  | inl eq ↦
      let e : tok ≡ key = (str_eq_iff tok key).0 eq in
      match_at-quote key _ ∙ rw (e, strip_prefix-append key (b'"' ∷ (c ∷ rest))) (ground arith)
]

match_at-hit :
    (key v rest : Bytes)
    → IsPlain v
    → match_at key (some b'"') (key ++ b'"' ∷ b':' ∷ b'"' ∷ (v ++ b'"' ∷ rest)) ≡ some v
unfolding value_after
match_at-hit key v rest b =
    match_at-quote key _
    ∙ rw
        (
          strip_prefix-append key (b'"' ∷ b':' ∷ b'"' ∷ (v ++ b'"' ∷ rest)),
          string_span-plain v rest b,
        )
        refl

find_from-hit :
    (key : Bytes) (prev : Option ℕ) (s v : Bytes)
    → s ≢ []
    → match_at key prev s ≡ some v
    → find_from key prev s ≡ some v
unfolding find_from
find_from-hit key prev [] v h k = absurd (h refl)
find_from-hit key prev (c ∷ s) v h k = rw (k, find_from)

append-ne-nil : (k s : Bytes) (c : ℕ) → k ++ c ∷ s ≢ []
append-ne-nil [] s c h = cc
append-ne-nil (d ∷ k) s c h = cc

field_hit :
    (key k v rest : Bytes)
    → IsPlain v
    → str_eq k key ≡ true
    → find_from key (some b'"') (k ++ b'"' ∷ b':' ∷ b'"' ∷ (v ++ b'"' ∷ rest)) ≡ some v
field_hit key k v rest b eq =
    let e : k ≡ key = (str_eq_iff k key).0 eq in
    find_from-hit key (some b'"') _ v (append-ne-nil k _ b'"') (rw e (match_at-hit key v rest b))

-- One field, at the start of its key: its value if the key is the one that is looked for, and else
-- what the rest of the object gives.
pub field_lem :
    (key k v rest : Bytes) (c : ℕ)
    → IsKey key
    → IsPlain k
    → IsPlain v
    → (c ≡ b',') ⊎ (c ≡ b'}')
    → find_from key (some b'"') (k ++ b'"' ∷ b':' ∷ b'"' ∷ (v ++ b'"' ∷ (c ∷ rest)))
      ≡ (if str_eq k key then some v else find_from key (some b'"') (c ∷ rest))
field_lem key k v rest c w a b h = elim (Bool-cases (str_eq k key)) [
  | inr ne ↦ rw ne (
      token_pass key k _ w a (match_at-ne key k _ w a ne)
      ∙ punctuation_pass key _ b':' w (unfold key_byte in refl) refl
      ∙ token_pass key v (c ∷ rest) w b (match_at-value key v rest c w b h))
  | inl eq ↦ rw eq (field_hit key k v (c ∷ rest) b eq)
]

find_from-end : (key : Bytes) → IsKey key → find_from key (some b'"') (b'}' ∷ []) ≡ none
find_from-end key w =
    find_from-pass key (some b'"') b'}' []
      (match_at-punctuation key [] _ b'}' w (unfold key_byte in refl))
    ∙ unfold find_from in refl

fields_lem :
    (key : Bytes) (c : ℕ) (f : Field) (fs : List Field)
    → IsKey key
    → (c == b'"') ≡ false
    → IsObject (f ∷ fs)
    → find_from key (some c) (render_fields (f ∷ fs)) ≡ field_of key (f ∷ fs)
fields_lem key c (k, v) [] w h a =
    find_from-pass key (some c) b'"' _ (match_at-inside key _ c h)
    ∙ field_lem key k v [] b'}' w a.0.0 a.0.1 (inr refl)
    ∙ ap (λ o. if str_eq k key then some v else o) (find_from-end key w)
fields_lem key c (k, v) (g ∷ fs) w h a =
    find_from-pass key (some c) b'"' _ (match_at-inside key _ c h)
    ∙ field_lem key k v _ b',' w a.0.0 a.0.1 (inl refl)
    ∙ ap (λ o. if str_eq k key then some v else o)
        (find_from-pass key (some b'"') b',' _
            (match_at-punctuation key _ _ b',' w (unfold key_byte in refl))
          ∙ fields_lem key b',' g fs w refl a.1)

pub find_from-brace :
    (key s : Bytes) → IsKey key → find_from key none (b'{' ∷ s) ≡ find_from key (some b'{') s
find_from-brace key s w =
    find_from-pass key none b'{' s
      (match_at-punctuation key s none b'{' w (unfold key_byte in refl))

-- On an object whose keys and values hold no quotes and no backslashes, `json_find_str` finds
-- exactly the value of the first field with the key, also where a value is spelled like the key; the
-- key is not empty and holds no punctuation.
pub json_find_str-render :
    (key : Bytes) (fs : List Field)
    → IsKey key
    → IsObject fs
    → json_find_str (render fs) key ≡ field_of key fs
unfolding json_find_str
json_find_str-render key [] w a =
    find_from-brace key (b'}' ∷ []) w
    ∙ find_from-pass key (some b'{') b'}' [] (match_at-inside key (b'}' ∷ []) b'{' refl)
    ∙ unfold find_from in refl
json_find_str-render key (f ∷ fs) w a =
    find_from-brace key (render_fields (f ∷ fs)) w ∙ fields_lem key b'{' f fs w refl a
