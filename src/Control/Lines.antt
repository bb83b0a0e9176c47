-- ===== src/Control/Lines.antt =====
-- src/control.c: the line of a command, its argument, and the lists of names in it.
use tether_obs_plugin.Common.{
  ℕ, ◌≡◌, refl, ap, ◌∙◌, Bool, true, false, ◌||◌, List, [], ◌∷◌, ◌++◌, append-nil, append_assoc,
  Option, none, some, arith, ◌==◌, if◌then◌else◌, Bytes, All, is_blank,
}

-- `'\n'`, `'\r'` or a space
abbrev pub is_space : ℕ → Bool
is_space c = c == 10 || (c == 13 || c == 32)

abbrev pub cons_unless_end : ℕ → Bytes → Bytes
cons_unless_end c [] = if is_space c then [] else c ∷ []
cons_unless_end c (d ∷ s) = c ∷ d ∷ s

-- The loop of `dispatch` that strips the end of the line
unfoldable pub trim : Bytes → Bytes
trim [] = []
trim (c ∷ s) = cons_unless_end c (trim s)

-- `strchr`, and the cut that is made there: what is before, and what is after if there is one
unfoldable pub cut_at : ℕ → Bytes → Bytes × Option Bytes
cut_at d [] = ([], none)
cut_at d (c ∷ s) = let rest = cut_at d s in if c == d then ([], some s) else (c ∷ rest.0, rest.1)

-- The word and the argument of a line
unfoldable pub parse_line : Bytes → Bytes × Option Bytes
unfolding trim cut_at
parse_line s = cut_at 32 (trim s)

abbrev pub flush : Bytes → List Bytes → List Bytes
flush [] rest = rest
flush (c ∷ s) rest = (c ∷ s) ∷ rest

-- `strtok_r` with ",": `acc` is the part of a token that is read.
unfoldable pub tokens_from : Bytes → Bytes → List Bytes
tokens_from acc [] = flush acc []
tokens_from acc (c ∷ s) =
    let next = flush acc (tokens_from [] s) in
    let more = tokens_from (acc ++ c ∷ []) s in if c == 44 then next else more

abbrev pub legacy : List Bytes → List Bytes × List Bytes
legacy [] = ([], [])
legacy (v ∷ as') = (v ∷ [], as')

abbrev pub lists_of : Bytes × Option Bytes → List Bytes × List Bytes
lists_of (video, none) = legacy (tokens_from [] video)
lists_of (video, some audio) = (tokens_from [] video, tokens_from [] audio)

-- The names of the video and of the audio sources in the argument of `sender-create`
unfoldable pub sender_lists : Bytes → List Bytes × List Bytes
unfolding cut_at tokens_from
sender_lists args = lists_of (cut_at 124 args)

abbrev pub IsFree : ℕ → Bytes → Type 0
IsFree d s = All (λ c. (c == d) ≡ false) s

cut_at-free : (d : ℕ) (s : Bytes) → IsFree d s → cut_at d s ≡ (s, none)
unfolding cut_at
cut_at-free d [] f = refl
cut_at-free d (c ∷ s) (h, f) = rw (h, cut_at-free d s f) refl

cut_at-append : (d : ℕ) (s rest : Bytes) → IsFree d s → cut_at d (s ++ d ∷ rest) ≡ (s, some rest)
unfolding cut_at
cut_at-append d [] rest f = ground arith
cut_at-append d (c ∷ s) rest (h, f) = rw (h, cut_at-append d s rest f) refl

trim-space : (s : Bytes) → All (λ c. is_space c ≡ true) s → trim s ≡ []
unfolding trim
trim-space [] a = refl
trim-space (c ∷ s) (h, a) = rw (trim-space s a, h) refl

trim-append : (s end : Bytes) → All (λ c. is_space c ≡ true) end → trim (s ++ end) ≡ trim s
unfolding trim
trim-append [] end a = trim-space end a
trim-append (c ∷ s) end a = ap (cons_unless_end c) (trim-append s end a)

trim-behind : (w : Bytes) (c : ℕ) (s t : Bytes) → trim s ≡ c ∷ t → trim (w ++ s) ≡ w ++ (c ∷ t)
unfolding trim
trim-behind [] c s t h = h
trim-behind (d ∷ []) c s t h = rw h refl
trim-behind (d ∷ e ∷ w) c s t h = ap (cons_unless_end d) (trim-behind (e ∷ w) c s t h)

-- A command comes through as it was sent: a line of a word without spaces, a space, an argument that
-- does not end in a space or a line end, and then any spaces and line ends, gives the word and the
-- argument.
pub parse_line-append :
    (word end : Bytes) (c : ℕ) (args : Bytes)
    → IsFree 32 word
    → trim (c ∷ args) ≡ c ∷ args
    → All (λ x. is_space x ≡ true) end
    → parse_line ((word ++ 32 ∷ c ∷ args) ++ end) ≡ (word, some (c ∷ args))
unfolding parse_line
parse_line-append word end c args f t a =
    let body : trim (word ++ 32 ∷ c ∷ args) ≡ word ++ 32 ∷ c ∷ args =
      trim-behind word 32 (32 ∷ c ∷ args) (c ∷ args) (trim-behind (32 ∷ []) c (c ∷ args) args t) in
    ap (cut_at 32) (trim-append (word ++ 32 ∷ c ∷ args) end a ∙ body)
    ∙ cut_at-append 32 word (c ∷ args) f

-- The names with a comma between them
abbrev pub join : List Bytes → Bytes
join [] = []
join (n ∷ []) = n
join (n ∷ m ∷ ns) = n ++ 44 ∷ join (m ∷ ns)

-- A name that can be written in a list
abbrev pub IsName : Bytes → Type 0
IsName n = (is_blank (some n) ≡ false) × IsFree 44 n

flush_filled : (n : Bytes) (rest : List Bytes) → is_blank (some n) ≡ false → flush n rest ≡ n ∷ rest
unfolding is_blank
flush_filled [] rest h = cc
flush_filled (c ∷ s) rest h = refl

tokens-last : (acc n : Bytes) → IsFree 44 n → tokens_from acc n ≡ flush (acc ++ n) []
unfolding tokens_from
tokens-last acc [] f = rw (append-nil acc) refl
tokens-last acc (c ∷ n) (h, f) =
    rw h (tokens-last (acc ++ c ∷ []) n f ∙ ap (λ x. flush x []) (append_assoc acc (c ∷ []) n))

tokens-next :
    (acc n rest : Bytes)
    → IsFree 44 n
    → tokens_from acc (n ++ 44 ∷ rest) ≡ flush (acc ++ n) (tokens_from [] rest)
unfolding tokens_from
tokens-next acc [] rest f = rw (append-nil acc) refl
tokens-next acc (c ∷ n) rest (h, f) = rw h (
    tokens-next (acc ++ c ∷ []) n rest f
    ∙ ap (λ x. flush x (tokens_from [] rest)) (append_assoc acc (c ∷ []) n))

tokens-join : (ns : List Bytes) → All IsName ns → tokens_from [] (join ns) ≡ ns
unfolding tokens_from
tokens-join [] a = refl
tokens-join (n ∷ []) ((h, f), a) = tokens-last [] n f ∙ flush_filled n [] h
tokens-join (n ∷ m ∷ ns) ((h, f), a) =
    tokens-next [] n (join (m ∷ ns)) f
    ∙ flush_filled n (tokens_from [] (join (m ∷ ns))) h
    ∙ ap (λ x. n ∷ x) (tokens-join (m ∷ ns) a)

All_append : (s t : Bytes) → IsFree 124 s → IsFree 124 t → IsFree 124 (s ++ t)
All_append [] t a b = b
All_append (c ∷ s) t (h, a) b = (h, All_append s t a b)

join-IsFree : (ns : List Bytes) → All (IsFree 124) ns → IsFree 124 (join ns)
join-IsFree [] a = tt
join-IsFree (n ∷ []) (h, a) = h
join-IsFree (n ∷ m ∷ ns) (h, a) = All_append n _ h (refl, join-IsFree (m ∷ ns) a)

-- The lists of names come through as they were written: names that are filled and have no comma, those
-- of the video sources no bar either, are read back from the video names and the audio names with a bar
-- between them; and without a bar the first name is that of the video source, the others are audio.
pub sender_lists-join :
    (videos audios : List Bytes) (video : Bytes)
    → All IsName videos
    → All (IsFree 124) videos
    → All IsName audios
    → All IsName (video ∷ audios)
    → All (IsFree 124) (video ∷ audios)
    → (sender_lists (join videos ++ 124 ∷ join audios) ≡ (videos, audios))
      × (sender_lists (join (video ∷ audios)) ≡ (video ∷ [], audios))
unfolding sender_lists
sender_lists-join videos audios video v vf a b bf = (
  ap lists_of (cut_at-append 124 (join videos) (join audios) (join-IsFree videos vf))
      ∙ rw (tokens-join videos v, tokens-join audios a) refl,
  ap lists_of (cut_at-free 124 (join (video ∷ audios)) (join-IsFree (video ∷ audios) bf))
      ∙ ap legacy (tokens-join (video ∷ audios) b),
)
