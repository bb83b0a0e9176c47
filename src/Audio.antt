-- ===== src/Audio.antt =====
-- src/audio.c: the buffer between a captured source and its Opus encoder, and the decoded packets.
-- A sample has an abstract type `A` with a silent value. The Opus encoder and decoder are not part of
-- the repository: an encoder takes a block and gives the bytes of a packet, none if it fails; a
-- decoder gives the number of frames, 0 if it fails, and the samples. Sizes stay below 2^64.
pub mod Buffer
pub mod Planes
pub mod Sources
mod Tests
use tether_obs_plugin.Common.{
  ℕ, zero, suc, ◌+◌, ◌-◌, ◌*◌, ◌/◌, Bool, true, false, not, ◌&&◌, ◌||◌, List, [], ◌∷◌, ◌++◌, Option,
  none, some, if◌then◌else◌, Bytes, ltb, ◌==◌, length, take, drop,
}

abbrev pub Encoder : Type 0 → Type 0 → Type 0
Encoder E A = E → List A → E × Bytes

-- `struct sender_track`: the list holds the `buf_fill` samples of `buf`.
pub record SenderTrack (E A : Type 0) : Type 0 where
  pub track_id : ℕ
  pub enc : E
  pub channels : ℕ
  pub sample_rate : ℕ
  pub buf : List A
  pub buf_capacity : ℕ

-- What a track calls: the encoder on a block, and the network on a packet.
pub data Call (A : Type 0) : Type 0 where
  encoded : List A → Call A
  pushed : ℕ → Bytes → Call A

-- `struct audio_data`: a plane may be NULL.
pub record AudioData (A : Type 0) : Type 0 where
  pub frames : ℕ
  pub planes : ℕ → Option (ℕ → A)

abbrev pub needed : {E A : Type 0} → SenderTrack E A → ℕ
needed t = (t.sample_rate * 20 / 1000) * t.channels

abbrev pub push_calls : {A : Type 0} → ℕ → Bytes → List (Call A)
push_calls id [] = []
push_calls id (b ∷ bs) = pushed id (b ∷ bs) ∷ []

-- `encode_and_send`
unfoldable pub encode_and_send :
    {E A : Type 0} → Encoder E A → SenderTrack E A → SenderTrack E A × List (Call A)
encode_and_send opus t = if ltb (length t.buf) (needed t) then (t, []) else (
  record t { enc = (opus t.enc (take (needed t) t.buf)).0; buf = drop (needed t) t.buf },
  encoded (take (needed t) t.buf) ∷ push_calls t.track_id (opus t.enc (take (needed t) t.buf)).1,
)

-- The loop of `on_audio_capture`: as long as the buffer is not empty and gets shorter
unfoldable pub encode_loop :
    {E A : Type 0} → ℕ → Encoder E A → SenderTrack E A → SenderTrack E A × List (Call A)
unfolding encode_and_send
encode_loop zero opus t = (t, [])
encode_loop (suc fuel) opus t =
    let sent = encode_and_send opus t in
    let rest = encode_loop fuel opus sent.0 in
    if length t.buf == 0
    then (t, [])
    else if length sent.0.buf == length t.buf
    then sent
    else (rest.0, sent.1 ++ rest.1)

-- `plane ? plane[f] : 0.0f`
unfoldable pub sample : {A : Type 0} → A → Option (ℕ → A) → ℕ → A
sample silence none f = silence
sample silence (some plane) f = plane f

-- The samples of frame `f` in channels `c`, `c + 1`, ..., `n` of them
unfoldable pub row : {A : Type 0} → A → (ℕ → Option (ℕ → A)) → ℕ → ℕ → ℕ → List A
unfolding sample
row silence planes f c zero = []
row silence planes f c (suc n) = sample silence (planes c) f ∷ row silence planes f (c + 1) n

-- The frames `f`, `f + 1`, ..., `n` of them
unfoldable pub interleave : {A : Type 0} → A → (ℕ → Option (ℕ → A)) → ℕ → ℕ → ℕ → List A
unfolding row
interleave silence planes channels f zero = []
interleave silence planes channels f (suc n) =
    row silence planes f 0 channels ++ interleave silence planes channels (f + 1) n

-- The room that is made at the head. If not even the whole buffer is enough, `drop` exceeds
-- `buf_fill` and the code leaves the buffer: no result.
unfoldable pub make_room : {A : Type 0} → ℕ → List A → ℕ → Option (List A)
make_room capacity buf add =
    if ltb capacity (length buf + add)
    then if ltb (length buf) (length buf + add - capacity)
      then none
      else some (drop (length buf + add - capacity) buf)
    else some buf

-- `on_audio_capture`
unfoldable pub on_audio_capture :
    {E A : Type 0}
    → A
    → Encoder E A
    → SenderTrack E A
    → Option (AudioData A)
    → Bool
    → Option (SenderTrack E A × List (Call A))
unfolding make_room interleave encode_loop
on_audio_capture silence opus t none muted = some (t, [])
on_audio_capture silence opus t (some data') true = some (t, [])
on_audio_capture silence opus t (some data') false =
    elim (make_room t.buf_capacity t.buf (data'.frames * t.channels)) [
      | none ↦ none
      | some buf ↦
          let full = buf ++ interleave silence data'.planes t.channels 0 data'.frames in
          some (encode_loop (length full) opus (record t { buf = full }))
    ]

-- `struct receiver_track`
pub record ReceiverTrack (D : Type 0) : Type 0 where
  pub track_id : ℕ
  pub dec : D

-- `struct tether_audio_receiver`, and whether a source is bound
pub record Receiver (D : Type 0) : Type 0 where
  pub sample_rate : ℕ
  pub channels : ℕ
  pub tracks : List (ReceiverTrack D)
  pub bound : Bool

-- `struct obs_source_audio` as it is filled in
pub record SourceAudio (A : Type 0) : Type 0 where
  pub frames : ℕ
  pub samples_per_sec : ℕ
  pub mono : Bool
  pub planes : List (List A)
  pub timestamp : ℕ

unfoldable pub find_track : {D : Type 0} → ℕ → List (ReceiverTrack D) → Option D
find_track id [] = none
find_track id (t ∷ ts) = if t.track_id == id then some t.dec else find_track id ts

-- The decoder's state after a packet is kept in its track.
unfoldable pub store_track : {D : Type 0} → ℕ → D → List (ReceiverTrack D) → List (ReceiverTrack D)
store_track id dec [] = []
store_track id dec (t ∷ ts) =
    if t.track_id == id then record t { dec = dec } ∷ ts else t ∷ store_track id dec ts

-- `get_or_create_track`; `created` is what `opus_decoder_create` gives.
unfoldable pub get_or_create_track :
    {D : Type 0} → Option D → Receiver D → ℕ → Option (Receiver D × D)
unfolding find_track
get_or_create_track created r id = elim (find_track id r.tracks) [
  | some dec ↦ some (r, dec)
  | none ↦ elim created [
    | none ↦ none
    | some dec ↦
        some (record r { tracks = r.tracks ++ record { track_id = id; dec = dec } ∷ [] }, dec)
  ]
]

-- The samples of channel `c` in the frames `f`, `f + 1`, ..., `n` of them
unfoldable pub plane : {A : Type 0} → (ℕ → A) → ℕ → ℕ → ℕ → ℕ → List A
plane pcm channels c f zero = []
plane pcm channels c f (suc n) = pcm (f * channels + c) ∷ plane pcm channels c (f + 1) n

-- The planes of the channels `c`, `c + 1`, ..., `n` of them
unfoldable pub deinterleave : {A : Type 0} → (ℕ → A) → ℕ → ℕ → ℕ → ℕ → List (List A)
unfolding plane
deinterleave pcm channels frames c zero = []
deinterleave pcm channels frames c (suc n) =
    plane pcm channels c 0 frames ∷ deinterleave pcm channels frames (c + 1) n

abbrev pub source_audio : {D A : Type 0} → Receiver D → ℕ → (ℕ → A) → ℕ → SourceAudio A
unfolding deinterleave
source_audio r frames pcm now = record {
  frames = frames;
  samples_per_sec = r.sample_rate;
  mono = r.channels == 1;
  planes = deinterleave pcm r.channels frames 0 r.channels;
  timestamp = now;
}

-- `tether_audio_receiver_push_packet`: what goes to the bound source
unfoldable pub push_packet :
    {D A : Type 0}
    → (D → Bytes → ℕ → D × (ℕ × (ℕ → A)))
    → Option D
    → Receiver D
    → ℕ
    → Bytes
    → ℕ
    → Receiver D × Option (SourceAudio A)
unfolding get_or_create_track store_track
push_packet opus created r id data' now =
    if length data' == 0 || not r.bound
    then (r, none)
    else elim (get_or_create_track created r id) [
      | none ↦ (r, none)
      | some (r', dec) ↦
          let (dec', (frames, pcm)) = opus dec data' (r.sample_rate * 120 / 1000) in
          let kept = record r' { tracks = store_track id dec' r'.tracks } in
          if frames == 0 then (kept, none) else (kept, some (source_audio r frames pcm now))
    ]

-- `tether_audio_sender_create` and `_receiver_create`: a value of the configuration, or the default
unfoldable pub or_default : ℕ → ℕ → ℕ
or_default value default = if value == 0 then default else value
