-- ===== src/Audio/Planes.antt =====
-- src/audio.c: the planes of the receiver against the interleaving of the sender.
use tether_obs_plugin.Common.{
  ℕ, zero, suc, ◌+◌, ◌*◌, ◌≤◌, ◌<◌, ◌≡◌, refl, ap, List, [], ◌∷◌, ◌++◌, Option, length, get_or,
  arith, ◌∙◌,
}
use mathlib.Core.Path.{ap₂}
use tether_obs_plugin.Audio.{sample, row, interleave, plane}

get_or-append_left :
    {A : Type 0} (xs ys : List A) (i : ℕ) (d : A)
    → i < length xs
    → get_or (xs ++ ys) i d ≡ get_or xs i d
get_or-append_left [] ys i d h = absurd (omega arith)
get_or-append_left (x ∷ xs) ys zero d h = refl
get_or-append_left (x ∷ xs) ys (suc i) d h = get_or-append_left xs ys i d (omega arith)

get_or-append_right :
    {A : Type 0} (xs ys : List A) (j i : ℕ) (d : A)
    → j ≡ length xs + i
    → get_or (xs ++ ys) j d ≡ get_or ys i d
get_or-append_right [] ys j i d h = let e : j ≡ i = omega (arith, h) in ap (λ k. get_or ys k d) e
get_or-append_right (x ∷ xs) ys zero i d h = absurd (omega (arith, h))
get_or-append_right (x ∷ xs) ys (suc j) i d h = get_or-append_right xs ys j i d (omega (arith, h))

length-row :
    {A : Type 0} (silence : A) (planes : ℕ → Option (ℕ → A)) (f c n : ℕ)
    → length (row silence planes f c n) ≡ n
unfolding row
length-row silence planes f c zero = refl
length-row silence planes f c (suc n) = omega (arith, length-row silence planes f (c + 1) n)

get_or-row :
    {A : Type 0} (silence : A) (planes : ℕ → Option (ℕ → A)) (f c n i k : ℕ)
    → i < n
    → k ≡ c + i
    → get_or (row silence planes f c n) i silence ≡ sample silence (planes k) f
unfolding row
get_or-row silence planes f c zero i k h e = absurd (omega arith)
get_or-row silence planes f c (suc n) zero k h e =
    let here : c ≡ k = omega (arith, e) in ap (λ m. sample silence (planes m) f) here
get_or-row silence planes f c (suc n) (suc i) k h e =
    get_or-row silence planes f (c + 1) n i k (omega arith) (omega (arith, e))

get_or-interleave :
    {A : Type 0} (silence : A) (planes : ℕ → Option (ℕ → A)) (channels start f n c j : ℕ)
    → f < n
    → c < channels
    → j ≡ start + f
    → get_or (interleave silence planes channels start n) (f * channels + c) silence
      ≡ sample silence (planes c) j
unfolding interleave
get_or-interleave silence planes channels start f zero c j h k e = absurd (omega arith)
get_or-interleave silence planes channels start zero (suc n) c j h k e =
    let first : 0 * channels + c ≡ c = omega arith in
    let here : start ≡ j = omega (arith, e) in
    ap
      (λ i.
        get_or
          (row silence planes start 0 channels ++ interleave silence planes channels (start + 1) n)
          i silence)
      first
    ∙ get_or-append_left (row silence planes start 0 channels) _ c silence
        (omega (arith, length-row silence planes start 0 channels))
    ∙ get_or-row silence planes start 0 channels c c k (omega arith)
    ∙ ap (λ i. sample silence (planes c) i) here
get_or-interleave silence planes channels start (suc f) (suc n) c j h k e =
    get_or-append_right (row silence planes start 0 channels)
      (interleave silence planes channels (start + 1) n) (suc f * channels + c) (f * channels + c)
      silence (omega (arith, length-row silence planes start 0 channels))
    ∙ get_or-interleave silence planes channels (start + 1) f n c j (omega arith) k
        (omega (arith, e))

-- The values of a function at `f`, `f + 1`, ..., `n` of them
pub samples : {A : Type 0} → (ℕ → A) → ℕ → ℕ → List A
samples g f zero = []
samples g f (suc n) = g f ∷ samples g (f + 1) n

plane-samples :
    {A : Type 0} (silence : A) (planes : ℕ → Option (ℕ → A)) (channels c f n frames : ℕ)
    → c < channels
    → f + n ≤ frames
    → plane (λ i. get_or (interleave silence planes channels 0 frames) i silence) channels c f n
      ≡ samples (sample silence (planes c)) f n
unfolding plane samples
plane-samples silence planes channels c f zero frames h k = refl
plane-samples silence planes channels c f (suc n) frames h k =
    ap₂ (λ x xs. x ∷ xs)
      (get_or-interleave silence planes channels 0 f frames c f (omega arith) h (omega arith))
      (plane-samples silence planes channels c (f + 1) n frames h (omega arith))

-- If the decoder gives back the samples that the sender interleaved, each channel's plane holds that
-- channel's samples in order, and silence for a plane that was NULL.
pub plane-interleave :
    {A : Type 0} (silence : A) (planes : ℕ → Option (ℕ → A)) (channels frames c : ℕ)
    → c < channels
    → plane
        (λ i. get_or (interleave silence planes channels 0 frames) i silence)
        channels
        c
        0
        frames
      ≡ samples (sample silence (planes c)) 0 frames
plane-interleave silence planes channels frames c h =
    plane-samples silence planes channels c 0 frames frames h (omega arith)
