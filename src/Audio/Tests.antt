-- ===== src/Audio/Tests.antt =====
-- Runs of src/audio.c, and each theorem at an input.
use tether_obs_plugin.Common.{
  ℕ, zero, ◌+◌, ◌<◌, ◌≡◌, ◌↔◌, ◌*◌, refl, true, false, List, [], ◌∷◌, ◌++◌, Option, none, some,
  arith, length, get_or, pos,
}
use tether_obs_plugin.Audio.{
  Encoder, SenderTrack, Call, encoded, pushed, AudioData, needed, sample, interleave, plane,
  make_room, on_audio_capture,
}
use tether_obs_plugin.Audio.Buffer.{
  blocks, capture_all, captured, capture_all-stream, capture_overruns_iff,
}
use tether_obs_plugin.Audio.Planes.{samples, plane-interleave}
use tether_obs_plugin.ReceiveSession.{WrtcState}
use tether_obs_plugin.Webrtc
use tether_obs_plugin.Audio.Sources.{AudioSender, attach, attach-stream}

-- An encoder that counts its packets
abbrev counting : Encoder ℕ ℕ
counting = λ e block. (e + 1, e ∷ [])

-- Two channels, and blocks of two frames
abbrev track : List ℕ → SenderTrack ℕ ℕ
track buf = record {
  track_id = 4;
  enc = 9;
  channels = 2;
  sample_rate = 100;
  buf = buf;
  buf_capacity = 40;
}

abbrev planes : ℕ → Option (ℕ → ℕ)
planes zero = some (λ f. 10 + f)
planes _ = none

abbrev data' : AudioData ℕ
data' = record { frames = 3; planes = planes }

taken :
    on_audio_capture 0 counting (track []) (some data') false
    ≡ some (
      record (track (12 ∷ 0 ∷ [])) { enc = 10 },
      encoded (10 ∷ 0 ∷ 11 ∷ 0 ∷ []) ∷ pushed 4 (9 ∷ []) ∷ [],
    )
unfolding on_audio_capture interleave
taken = refl

oldest_dropped : make_room {A = ℕ} 4 (1 ∷ 2 ∷ 3 ∷ []) 3 ≡ some (3 ∷ [])
unfolding make_room
oldest_dropped = refl

-- A capture that is larger than the buffer leaves it.
too_large : make_room {A = ℕ} 4 (1 ∷ []) 6 ≡ none
unfolding make_room
too_large = refl

capture_all-stream_example :
    (t' : SenderTrack ℕ ℕ) × (cs : List (Call ℕ)) × (capture_all 0 counting
        (track (7 ∷ []))
        (data' ∷ data' ∷ [])
      ≡ some (t', cs))
    × (blocks cs ++ t'.buf ≡ (7 ∷ []) ++ captured 0 2 (data' ∷ data' ∷ []))
    × (length t'.buf < needed (track (7 ∷ [])))
capture_all-stream_example =
    capture_all-stream 0 counting (track (7 ∷ [])) 6 (data' ∷ data' ∷ []) (omega arith)
      (omega arith) (omega arith, (omega arith, tt))

plane-interleave_example :
    plane (λ i. get_or (interleave 0 planes 2 0 3) i 0) 2 0 0 3 ≡ samples (sample 0 (planes 0)) 0 3
plane-interleave_example = plane-interleave 0 planes 2 3 0 (omega arith)

capture_overruns_iff_example :
    (on_audio_capture 0 counting (track (7 ∷ [])) (some (record data' { frames = 21 })) false
      ≡ none)
    ↔ (40 < 21 * 2)
capture_overruns_iff_example =
    capture_overruns_iff 0 counting (track (7 ∷ [])) (record data' { frames = 21 }) (omega arith)

abbrev at_100 : AudioSender ℕ ℕ
at_100 = record { sample_rate = 100; channels = 2; bitrate_kbps = 96; tracks = [] }

abbrev network : Webrtc.Webrtc
network = record {
  cfg = record {
    stun_url = none;
    turn_url = none;
    turn_username = none;
    turn_credential = none;
    video_codec = Webrtc.h264;
    on_local_sdp = false;
    on_local_ice = false;
    on_state = false;
    on_video = false;
    on_audio = false;
  };
  pc = 1;
  state = WrtcState.new;
  tracks = [];
  next_track_id = 1;
  local_fingerprint = [];
}

-- A source that OBS does not have is not attached.
no_source :
    (attach (λ n. n ∷ []) at_100 network (some (1 ∷ [])) none false (pos 5) (some 9)).id ≡ none
unfolding attach
no_source = refl

attach-stream_example :
    (t t' : SenderTrack ℕ ℕ) × (cs : List (Call ℕ)) × ((attach
        (λ n. n ∷ [])
        at_100
        network
        (some (1 ∷ []))
        none
        true
        (pos 6)
        (some 9)).id
      ≡ some t.track_id)
    × ((attach
          (λ n. n ∷ [])
          at_100
          network
          (some (1 ∷ []))
          none
          true
          (pos 6)
          (some 9)).sender.tracks
        ≡ t ∷ [])
    × (capture_all 0 counting t (data' ∷ data' ∷ []) ≡ some (t', cs))
    × (blocks cs ++ t'.buf ≡ captured 0 2 (data' ∷ data' ∷ []))
    × (length t'.buf < 2 * 2)
attach-stream_example =
    attach-stream (λ n. n ∷ []) 0 counting at_100 network (1 ∷ []) none 5 2 9 (data' ∷ data' ∷ [])
      refl (omega arith) (omega arith, (omega arith, tt))
