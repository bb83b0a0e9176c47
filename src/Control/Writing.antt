-- ===== src/Control/Writing.antt =====
-- src/control.c: the loop that writes a reply. `write` is not part of the repository: its answer to
-- each call is a parameter, by the number of the call and the bytes that are left.
use tether_obs_plugin.Common.{
  ℕ, zero, suc, ◌+◌, ◌-◌, ◌<◌, ◌≤◌, ◌≡◌, ◌⊎◌, refl, ap, ◌∙◌, Bool, true, false, List, [], ◌∷◌, ◌++◌,
  append_assoc, Option, none, some, arith, Bytes, inl, inr, take, drop, length,
}

-- `n >= 0`, EINTR, and any other error
pub data Answer : Type 0 where
  wrote : ℕ → Answer
  interrupted broken : Answer

-- What `write` took, before the rest of the loop
abbrev pub with_piece : Bytes → Option (Bool × List Bytes) → Option (Bool × List Bytes)
with_piece piece none = none
with_piece piece (some (ok, pieces)) = some (ok, piece ∷ pieces)

-- `write_all`: whether all is written, and what `write` took; `call` is the number of the call.
unfoldable pub write_all : ℕ → (ℕ → ℕ → Answer) → ℕ → Bytes → Option (Bool × List Bytes)
write_all fuel write call [] = some (true, [])
write_all zero write call (b ∷ bs) = none
write_all (suc fuel) write call (b ∷ bs) =
    let again = write_all fuel write (call + 1) in
    elim (write call (length (b ∷ bs))) [
      | wrote n ↦ with_piece (take n (b ∷ bs)) (again (drop n (b ∷ bs)))
      | interrupted ↦ again (b ∷ bs)
      | broken ↦ some (false, [])
    ]

-- What `write` is relied on for: it takes at least a byte and at most what it is given, and is not
-- interrupted from call `steady` on.
pub record Behaves (write : ℕ → ℕ → Answer) (steady : ℕ) : Type 0 where
  pub takes : (call len n : ℕ) → 0 < len → write call len ≡ wrote n → (0 < n) × (n ≤ len)
  pub rests : (call len : ℕ) → write call len ≡ interrupted → call < steady

abbrev pub joined : List Bytes → Bytes
joined [] = []
joined (p ∷ ps) = p ++ joined ps

-- An end of the loop: what is written is the start of the data; either the loop reports success and has
-- written all of it, or it reports failure and a call of `write`, for what was left, failed.
abbrev pub Written : (ℕ → ℕ → Answer) → Option (Bool × List Bytes) → Bytes → Type 0
Written write o data' =
    (ok : Bool) × (pieces : List Bytes) × (rest : Bytes) × (o ≡ some (ok, pieces))
    × (joined pieces ++ rest ≡ data')
    × (((ok ≡ true) × (rest ≡ []))
        ⊎ ((ok ≡ false) × ((call : ℕ) × (write call (length rest) ≡ broken))))

answer-cases : (a : Answer) → ((n : ℕ) × (a ≡ wrote n)) ⊎ ((a ≡ interrupted) ⊎ (a ≡ broken))
answer-cases (wrote n) = inl (n, refl)
answer-cases interrupted = inr (inl refl)
answer-cases broken = inr (inr refl)

take-drop : (n : ℕ) (s : Bytes) → take n s ++ drop n s ≡ s
take-drop zero s = ground arith
take-drop (suc n) [] = ground arith
take-drop (suc n) (c ∷ s) = ground (arith, take-drop n s)

length-drop : (n : ℕ) (s : Bytes) → length (drop n s) ≡ length s - n
length-drop zero s = ground arith
length-drop (suc n) [] = ground arith
length-drop (suc n) (c ∷ s) = ground (arith, length-drop n s)

with_piece-Written :
    (write : ℕ → ℕ → Answer) (o : Option (Bool × List Bytes)) (n : ℕ) (s : Bytes)
    → Written write o (drop n s)
    → Written write (with_piece (take n s) o) s
with_piece-Written write o n s (ok, pieces, rest, e, whole, done) = (
  ok,
  take n s ∷ pieces,
  rest,
  ap (with_piece (take n s)) e,
  append_assoc (take n s) (joined pieces) rest ∙ ap (λ t. take n s ++ t) whole ∙ take-drop n s,
  done,
)

write_all-from :
    (write : ℕ → ℕ → Answer) (steady fuel call : ℕ) (s : Bytes)
    → Behaves write steady
    → (steady - call) + length s ≤ fuel
    → Written write (write_all fuel write call s) s
unfolding write_all
write_all-from write steady fuel call [] b h = (true, [], [], refl, refl, inl (refl, refl))
write_all-from write steady zero call (c ∷ s) b h = absurd (omega (arith, h))
write_all-from write steady (suc fuel) call (c ∷ s) b h =
    elim (answer-cases (write call (length (c ∷ s)))) [
      | inl (n, e) ↦
          let (some_byte, no_more) = b.takes call (length (c ∷ s)) n (omega arith) e in
          rw (write_all, e)
            (with_piece-Written write (write_all fuel write (call + 1) (drop n (c ∷ s))) n (c ∷ s) (
              write_all-from write steady fuel (call + 1) (drop n (c ∷ s)) b
                (omega (arith, h, some_byte, no_more, length-drop n (c ∷ s)))))
      | inr (inl e) ↦
          rw (write_all, e)
            (write_all-from write steady fuel (call + 1) (c ∷ s) b
              (omega (arith, h, b.rests call (length (c ∷ s)) e)))
      | inr (inr e) ↦ rw (write_all, e) (false, [], c ∷ s, refl, refl, inr (refl, (call, e)))
    ]

-- The reply loop ends: if `write` takes at least a byte at each call and at most what it is given, and
-- is not interrupted from some call on, the loop ends after at most as many calls as that one's number
-- and the bytes of the data together. What is written is the start of the data, in order. Either the
-- loop reports success and all of the data is written, or it reports failure and a call of `write` for
-- the rest had an error that is not an interruption.
pub write_all-Written :
    (write : ℕ → ℕ → Answer) (steady : ℕ) (s : Bytes)
    → Behaves write steady
    → Written write (write_all (steady + length s) write 0 s) s
write_all-Written write steady s b =
    write_all-from write steady (steady + length s) 0 s b (omega arith)
