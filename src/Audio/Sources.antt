-- ===== src/Audio/Sources.antt =====
-- src/audio.c: the tracks of a sender, attached and detached by the name of a source.
use tether_obs_plugin.Common.{
  ℕ, zero, suc, ◌*◌, ◌/◌, ◌<◌, ◌≡◌, refl, Bool, true, false, List, [], ◌∷◌, ◌++◌, Option, none,
  some, arith, ◌==◌, if◌then◌else◌, Bytes, length, ℤ, pos, negsuc,
}
use tether_obs_plugin.Webrtc.{Webrtc}
use tether_obs_plugin.Webrtc as Network
use tether_obs_plugin.Webrtc.Calls.{add_audio_track, Added}
use tether_obs_plugin.Audio.{Encoder, SenderTrack, Call, AudioData, needed}
use tether_obs_plugin.Audio.Buffer.{blocks, capture_all, captured, FitAll, capture_all-stream}

-- `struct tether_audio_sender`; the connection that it borrows is passed along.
pub record AudioSender (E A : Type 0) : Type 0 where
  pub sample_rate : ℕ
  pub channels : ℕ
  pub bitrate_kbps : ℕ
  pub tracks : List (SenderTrack E A)

-- A value of the configuration, or the default
unfoldable pub positive_or : ℤ → ℕ → ℕ
positive_or (negsuc n) d = d
positive_or (pos zero) d = d
positive_or (pos (suc n)) d = suc n

-- `tether_audio_sender_create`
unfoldable pub create : {E A : Type 0} → ℤ → ℤ → ℤ → AudioSender E A
unfolding positive_or
create sample_rate channels bitrate = record {
  sample_rate = positive_or sample_rate 48000;
  channels = positive_or channels 2;
  bitrate_kbps = positive_or bitrate 96;
  tracks = [];
}

-- What an attachment leaves: the sender, the connection, and the track's id or -1.
pub record Attached (E A : Type 0) : Type 0 where
  pub sender : AudioSender E A
  pub webrtc : Webrtc
  pub id : Option ℕ
  pub calls : List Network.Call

-- A buffer of 200 ms
abbrev pub new_track : {E A : Type 0} → AudioSender E A → ℕ → E → SenderTrack E A
new_track s id enc = record {
  track_id = id;
  enc = enc;
  channels = s.channels;
  sample_rate = s.sample_rate;
  buf = [];
  buf_capacity = s.sample_rate * 200 / 1000 * s.channels;
}

unfoldable pub attach_encoder :
    {E A : Type 0} → AudioSender E A → Added → Option ℕ → Option E → Attached E A
attach_encoder s a none enc = record { sender = s; webrtc = a.webrtc; id = none; calls = a.calls }
attach_encoder s a (some id) none = record {
  sender = s;
  webrtc = a.webrtc;
  id = none;
  calls = a.calls;
}
attach_encoder s a (some id) (some enc) = record {
  sender = record s { tracks = s.tracks ++ new_track s id enc ∷ [] };
  webrtc = a.webrtc;
  id = some id;
  calls = a.calls;
}

-- `tether_audio_sender_attach`: whether OBS has the source, what `rtcAddTrackEx` returns and the
-- encoder, if there is one, are arguments. Without an encoder the connection keeps the track.
unfoldable pub attach :
    {E A : Type 0}
    → (ℕ → Bytes)
    → AudioSender E A
    → Webrtc
    → Option Bytes
    → Option Bytes
    → Bool
    → ℤ
    → Option E
    → Attached E A
unfolding attach_encoder add_audio_track
attach decimal s w none label found rc enc = record {
  sender = s;
  webrtc = w;
  id = none;
  calls = [];
}
attach decimal s w (some name) label false rc enc = record {
  sender = s;
  webrtc = w;
  id = none;
  calls = [];
}
attach decimal s w (some name) label true rc enc =
    attach_encoder s (add_audio_track decimal w label rc) (add_audio_track decimal w label rc).id
      enc

unfoldable pub erase_track : {E A : Type 0} → ℕ → List (SenderTrack E A) → List (SenderTrack E A)
erase_track id [] = []
erase_track id (t ∷ ts) = if t.track_id == id then ts else t ∷ erase_track id ts

-- `tether_audio_sender_detach`
unfoldable pub detach : {E A : Type 0} → AudioSender E A → ℕ → AudioSender E A
unfolding erase_track
detach s id = record s { tracks = erase_track id s.tracks }

attach-tracks :
    {E A : Type 0} (decimal : ℕ → Bytes) (s : AudioSender E A) (w : Webrtc) (name : Bytes)
    (label : Option Bytes) (n : ℕ) (enc : E)
    → ((attach decimal s w (some name) label true (pos (suc n)) (some enc)).id
        ≡ some w.next_track_id)
      × ((attach decimal s w (some name) label true (pos (suc n)) (some enc)).sender.tracks
          ≡ s.tracks ++ new_track s w.next_track_id enc ∷ [])
unfolding attach
attach-tracks decimal s w name label n enc = (refl, refl)

new_track-stream :
    {E A : Type 0} (silence : A) (opus : Encoder E A) (s : AudioSender E A) (id k : ℕ) (enc : E)
    (xs : List (AudioData A))
    → s.sample_rate ≡ 50 * k
    → 0 < k * s.channels
    → FitAll (9 * (k * s.channels)) s.channels xs
    → (t : SenderTrack E A) × (cs : List (Call A)) × (capture_all silence opus
          (new_track s id enc)
          xs
        ≡ some (t, cs))
      × (blocks cs ++ t.buf ≡ captured silence s.channels xs)
      × (length t.buf < k * s.channels)
new_track-stream silence opus s id k enc xs rate some_size fit =
    let block : s.sample_rate * 20 / 1000 ≡ k = omega (arith, rate) in
    let whole : s.sample_rate * 200 / 1000 ≡ 10 * k = omega (arith, rate) in
    let need : needed (new_track s id enc) ≡ k * s.channels = rw block refl in
    let cap : s.sample_rate * 200 / 1000 * s.channels ≡ 10 * (k * s.channels) =
      rw whole (ten k s.channels) in
    let (t, cs, e, stream, short) =
      capture_all-stream silence opus (new_track s id enc) (9 * (k * s.channels)) xs
        (omega (arith, need)) (omega (arith, need, cap)) fit in
    (t, cs, e, stream, omega (arith, short, need))
  where
    ten : (a b : ℕ) → 10 * a * b ≡ 10 * (a * b)
    ten a b = grind arith

-- A source that OBS has, with a track and an encoder, is attached as the last track, under the
-- connection's id. At a rate that is a multiple of 50 Hz, with blocks that are not empty, this track
-- takes every list of captures of at most 180 ms each, and loses, adds and reorders no sample on the way
-- to its encoder.
pub attach-stream :
    {E A : Type 0} (decimal : ℕ → Bytes) (silence : A) (opus : Encoder E A) (s : AudioSender E A)
    (w : Webrtc) (name : Bytes) (label : Option Bytes) (n k : ℕ) (enc : E) (xs : List (AudioData A))
    → s.sample_rate ≡ 50 * k
    → 0 < k * s.channels
    → FitAll (9 * (k * s.channels)) s.channels xs
    → (t t' : SenderTrack E A) × (cs : List (Call A)) × ((attach decimal s w
          (some name)
          label
          true
          (pos (suc n))
          (some enc)).id
        ≡ some t.track_id)
      × ((attach decimal s w (some name) label true (pos (suc n)) (some enc)).sender.tracks
          ≡ s.tracks ++ t ∷ [])
      × (capture_all silence opus t xs ≡ some (t', cs))
      × (blocks cs ++ t'.buf ≡ captured silence s.channels xs)
      × (length t'.buf < k * s.channels)
attach-stream decimal silence opus s w name label n k enc xs rate some_size fit =
    let (given, last) = attach-tracks decimal s w name label n enc in
    let (t', cs, e, stream, short) =
      new_track-stream silence opus s w.next_track_id k enc xs rate some_size fit in
    (new_track s w.next_track_id enc, t', cs, given, last, e, stream, short)
