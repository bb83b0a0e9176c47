-- ===== src/Audio/Buffer.antt =====
-- src/audio.c: what reaches the encoder is what was captured.
use tether_obs_plugin.Common.{
  ℕ, zero, suc, ◌+◌, ◌*◌, ◌≤◌, ◌<◌, ◌≡◌, ◌↔◌, refl, ap, false, List, [], ◌∷◌, ◌++◌, Option, none,
  some, Bytes, ltb, ◌==◌, length, take, drop, arith, append-nil, append_assoc, take-append-drop,
  length-drop, length-append, Bool-cases, Option-cases, inl, inr, sym, subst, ◌∙◌,
}
use tether_obs_plugin.Audio.{
  Encoder, SenderTrack, Call, encoded, pushed, AudioData, needed, push_calls, encode_and_send,
  encode_loop, row, interleave, make_room, on_audio_capture,
}

-- The samples that the encoder has got, in order.
unfoldable pub blocks : {A : Type 0} → List (Call A) → List A
blocks [] = []
blocks (encoded b ∷ cs) = b ++ blocks cs
blocks (pushed id p ∷ cs) = blocks cs

blocks-append : {A : Type 0} (cs ds : List (Call A)) → blocks (cs ++ ds) ≡ blocks cs ++ blocks ds
unfolding blocks
blocks-append [] ds = refl
blocks-append (encoded b ∷ cs) ds =
    ap (λ k. b ++ k) (blocks-append cs ds) ∙ sym (append_assoc b (blocks cs) (blocks ds))
blocks-append (pushed id p ∷ cs) ds = blocks-append cs ds

blocks-push : {A : Type 0} (id : ℕ) (p : Bytes) → blocks {A = A} (push_calls id p) ≡ []
unfolding blocks
blocks-push id [] = refl
blocks-push id (b ∷ bs) = refl

-- The layout of a track, which its calls leave alone.
pub record SameLayout {E A : Type 0} (t t' : SenderTrack E A) : Type 0 where
  pub channels : t'.channels ≡ t.channels
  pub sample_rate : t'.sample_rate ≡ t.sample_rate
  pub capacity : t'.buf_capacity ≡ t.buf_capacity

module _ {E A : Type 0} (opus : Encoder E A) where
  send_short : (t : SenderTrack E A) → length t.buf < needed t → encode_and_send opus t ≡ (t, [])
  unfolding encode_and_send
  send_short t h = ground arith

  send_long :
      (t : SenderTrack E A)
      → needed t ≤ length t.buf
      → encode_and_send opus t ≡ (
        record t { enc = (opus t.enc (take (needed t) t.buf)).0; buf = drop (needed t) t.buf },
        encoded (take (needed t) t.buf)
            ∷ push_calls t.track_id (opus t.enc (take (needed t) t.buf)).1,
      )
  unfolding encode_and_send
  send_long t h = ground arith

  loop_empty :
      (fuel : ℕ) (t : SenderTrack E A) → length t.buf ≡ 0 → encode_loop fuel opus t ≡ (t, [])
  unfolding encode_loop
  loop_empty zero t h = refl
  loop_empty (suc fuel) t h = rw h refl

  loop_stop :
      (fuel : ℕ) (t : SenderTrack E A) → length t.buf < needed t → encode_loop fuel opus t ≡ (t, [])
  unfolding encode_loop
  loop_stop zero t h = refl
  loop_stop (suc fuel) t h = rw (send_short t h) (ground arith)

  loop_more :
      (fuel : ℕ) (t : SenderTrack E A)
      → 0 < needed t
      → needed t ≤ length t.buf
      → encode_loop (suc fuel) opus t ≡ (
        (encode_loop fuel opus (encode_and_send opus t).0).0,
        (encode_and_send opus t).1 ++ (encode_loop fuel opus (encode_and_send opus t).0).1,
      )
  unfolding encode_loop
  loop_more fuel t pos h =
      let shorter : ((length (encode_and_send opus t).0.buf == length t.buf) ≡ false) =
        rw (send_long t h) (ground (arith, length-drop (needed t) t.buf)) in
      let full : ((length t.buf == 0) ≡ false) = ground arith in rw (full, shorter) refl

  -- What the loop leaves: all of the buffer, encoded or kept, and less than a block kept.
  record Ended (t : SenderTrack E A) (r : SenderTrack E A × List (Call A)) : Type 0 where
    stream : blocks r.1 ++ r.0.buf ≡ t.buf
    same : SameLayout t r.0
    short : length r.0.buf < needed t

  stopped : (t : SenderTrack E A) → length t.buf < needed t → Ended t (t, [])
  unfolding blocks
  stopped t h = record {
    stream = refl;
    same = record { channels = refl; sample_rate = refl; capacity = refl };
    short = h;
  }

  send_stream :
      (t : SenderTrack E A)
      → needed t ≤ length t.buf
      → blocks (encode_and_send opus t).1 ≡ take (needed t) t.buf
  send_stream t h = rw (send_long t h) (
      unfold blocks in
      ap (λ k. take (needed t) t.buf ++ k)
        (blocks-push t.track_id (opus t.enc (take (needed t) t.buf)).1)
      ∙ append-nil (take (needed t) t.buf))

  more :
      (t : SenderTrack E A) (r : SenderTrack E A × List (Call A))
      → needed t ≤ length t.buf
      → Ended (encode_and_send opus t).0 r
      → Ended t (r.0, (encode_and_send opus t).1 ++ r.1)
  more t r h e =
      let s = rw (send_long t h) at e.same in
      record {
        stream =
            ap (λ k. k ++ r.0.buf) (blocks-append (encode_and_send opus t).1 r.1)
            ∙ append_assoc (blocks (encode_and_send opus t).1) (blocks r.1) r.0.buf
            ∙ ap (λ k. blocks (encode_and_send opus t).1 ++ k)
                (e.stream ∙ ap (λ (p : SenderTrack E A × List (Call A)). p.0.buf) (send_long t h))
            ∙ ap (λ k. k ++ drop (needed t) t.buf) (send_stream t h)
            ∙ take-append-drop (needed t) t.buf;
        same = record { channels = s.channels; sample_rate = s.sample_rate; capacity = s.capacity };
        short = rw (send_long t h) at e.short;
      }

  encode_loop-Ended :
      (fuel : ℕ) (t : SenderTrack E A)
      → 0 < needed t
      → length t.buf ≤ fuel
      → Ended t (encode_loop fuel opus t)
  encode_loop-Ended zero t pos h = rw (loop_stop zero t (omega arith)) (stopped t (omega arith))
  encode_loop-Ended (suc fuel) t pos h = elim (Bool-cases (ltb (length t.buf) (needed t))) [
    | inl e ↦
        let short : length t.buf < needed t = ground arith in
        rw (loop_stop (suc fuel) t short) (stopped t short)
    | inr e ↦
        let long : needed t ≤ length t.buf = ground arith in
        let left : length (encode_and_send opus t).0.buf ≤ fuel =
          rw (send_long t long) (omega (arith, length-drop (needed t) t.buf)) in
        rw (loop_more fuel t pos long) (
          more t (encode_loop fuel opus (encode_and_send opus t).0) long
            (encode_loop-Ended fuel (encode_and_send opus t).0 (rw (send_long t long) pos) left))
  ]

length-row :
    {A : Type 0} (silence : A) (planes : ℕ → Option (ℕ → A)) (f c n : ℕ)
    → length (row silence planes f c n) ≡ n
unfolding row
length-row silence planes f c zero = refl
length-row silence planes f c (suc n) = omega (arith, length-row silence planes f (c + 1) n)

pub length-interleave :
    {A : Type 0} (silence : A) (planes : ℕ → Option (ℕ → A)) (channels f n : ℕ)
    → length (interleave silence planes channels f n) ≡ n * channels
unfolding interleave
length-interleave silence planes channels f zero = omega arith
length-interleave silence planes channels f (suc n) =
    length-append (row silence planes f 0 channels) (interleave silence planes channels (f + 1) n)
    ∙ omega (
      arith,
      length-row silence planes f 0 channels,
      length-interleave silence planes channels (f + 1) n,
    )

-- The captures of a track, one after the other
unfoldable pub capture_all :
    {E A : Type 0}
    → A
    → Encoder E A
    → SenderTrack E A
    → List (AudioData A)
    → Option (SenderTrack E A × List (Call A))
capture_all silence opus t [] = some (t, [])
capture_all silence opus t (x ∷ xs) = elim (on_audio_capture silence opus t (some x) false) [
  | none ↦ none
  | some (t', cs) ↦ elim (capture_all silence opus t' xs) [
    | none ↦ none
    | some (u, ds) ↦ some (u, cs ++ ds)
  ]
]

-- The samples of the captures, interleaved
unfoldable pub captured : {A : Type 0} → A → ℕ → List (AudioData A) → List A
captured silence channels [] = []
captured silence channels (x ∷ xs) =
    interleave silence x.planes channels 0 x.frames ++ captured silence channels xs

-- Captures that leave room for a started block
abbrev pub FitAll : {A : Type 0} → ℕ → ℕ → List (AudioData A) → Type 0
FitAll room channels [] = Unit
FitAll room channels (x ∷ xs) = (x.frames * channels ≤ room) × FitAll room channels xs

make_room_fits :
    {A : Type 0} (capacity : ℕ) (buf : List A) (add : ℕ)
    → length buf + add ≤ capacity
    → make_room capacity buf add ≡ some buf
unfolding make_room
make_room_fits capacity buf add h = ground arith

make_room-none_iff :
    {A : Type 0} (capacity : ℕ) (buf : List A) (add : ℕ)
    → length buf ≤ capacity
    → (make_room capacity buf add ≡ none) ↔ (capacity < add)
unfolding make_room
make_room-none_iff capacity buf add h = ground arith

module _ {E A : Type 0} (silence : A) (opus : Encoder E A) where
  capture_ends :
      (t : SenderTrack E A) (x : AudioData A)
      → 0 < needed t
      → length t.buf + x.frames * t.channels ≤ t.buf_capacity
      → (r : SenderTrack E A × List (Call A)) × (on_audio_capture silence opus t (some x) false
          ≡ some r)
        × Ended opus
            (record t { buf = t.buf ++ interleave silence x.planes t.channels 0 x.frames })
            r
  unfolding on_audio_capture
  capture_ends t x pos h =
      let full = t.buf ++ interleave silence x.planes t.channels 0 x.frames in
      (
        encode_loop (length full) opus (record t { buf = full }),
        rw (on_audio_capture, make_room_fits t.buf_capacity t.buf (x.frames * t.channels) h) refl,
        encode_loop-Ended opus (length full) (record t { buf = full }) pos (omega arith),
      )

  capture_all-cons :
      (t t' u : SenderTrack E A) (x : AudioData A) (xs : List (AudioData A)) (cs ds : List (Call A))
      → on_audio_capture silence opus t (some x) false ≡ some (t', cs)
      → capture_all silence opus t' xs ≡ some (u, ds)
      → capture_all silence opus t (x ∷ xs) ≡ some (u, cs ++ ds)
  unfolding capture_all
  capture_all-cons t t' u x xs cs ds e e' = rw (capture_all, e, e') refl

  -- A track with less than a block in its buffer takes every list of captures of which none, with a
  -- block, exceeds the buffer. No sample is lost, added or reordered: what the encoder has got and
  -- what is left, which is less than a block, are the samples from before and the interleaved captures.
  pub capture_all-stream :
      (t : SenderTrack E A) (room : ℕ) (xs : List (AudioData A))
      → length t.buf < needed t
      → needed t + room ≤ t.buf_capacity
      → FitAll room t.channels xs
      → (t' : SenderTrack E A) × (cs : List (Call A)) × (capture_all silence opus t xs
          ≡ some (t', cs))
        × (blocks cs ++ t'.buf ≡ t.buf ++ captured silence t.channels xs)
        × (length t'.buf < needed t)
  unfolding captured
  capture_all-stream t room [] h k f =
      (t, [], unfold capture_all in refl, unfold blocks in sym (append-nil t.buf), h)
  capture_all-stream t room (x ∷ xs) h k f =
      let (r, e, ended) = capture_ends t x (omega arith) (omega (arith, f.0)) in
      let same = ended.same in
      let need : needed r.0 ≡ needed t = rw (same.channels, same.sample_rate) refl in
      let (u, ds, e', stream, short) =
        capture_all-stream r.0 room xs (omega (arith, ended.short, need))
          (omega (arith, need, same.capacity))
          (subst (λ c. FitAll room c xs) (sym same.channels) f.1) in
      (
        u,
        r.1 ++ ds,
        capture_all-cons t r.0 u x xs r.1 ds e e',
        ap (λ k. k ++ u.buf) (blocks-append r.1 ds)
            ∙ append_assoc (blocks r.1) (blocks ds) u.buf
            ∙ ap (λ k. blocks r.1 ++ k)
                (stream ∙ ap (λ c. r.0.buf ++ captured silence c xs) same.channels)
            ∙ sym (append_assoc (blocks r.1) r.0.buf (captured silence t.channels xs))
            ∙ ap (λ k. k ++ captured silence t.channels xs) ended.stream
            ∙ append_assoc t.buf (interleave silence x.planes t.channels 0 x.frames)
                (captured silence t.channels xs),
        omega (arith, short, need),
      )

  capture_none :
      (t : SenderTrack E A) (x : AudioData A)
      → (on_audio_capture silence opus t (some x) false ≡ none)
        ↔ (make_room t.buf_capacity t.buf (x.frames * t.channels) ≡ none)
  unfolding on_audio_capture
  capture_none t x = elim (Option-cases (make_room t.buf_capacity t.buf (x.frames * t.channels))) [
    | inl e ↦ (λ h. e, λ h. rw (on_audio_capture, e) refl)
    | inr (b, e) ↦ rw (on_audio_capture, e) (ground arith)
  ]

  -- A capture runs out of the buffer exactly if it alone has more samples than the buffer holds,
  -- however full the buffer is.
  pub capture_overruns_iff :
      (t : SenderTrack E A) (x : AudioData A)
      → length t.buf ≤ t.buf_capacity
      → (on_audio_capture silence opus t (some x) false ≡ none)
        ↔ (t.buf_capacity < x.frames * t.channels)
  capture_overruns_iff t x h =
      let (a, b) = capture_none t x in
      let (c, d) = make_room-none_iff t.buf_capacity t.buf (x.frames * t.channels) h in
      (λ e. c (a e), λ e. b (d e))
