-- ===== src/Source/Playing.antt =====
-- src/source.c: what a source plays of the packets that its session hands on.
use tether_obs_plugin.Common.{
  ℕ, suc, Bool, true, false, not, ◌||◌, List, [], ◌∷◌, ◌++◌, Option, none, some, ◌==◌,
  if◌then◌else◌, Bytes, str_eq, is_blank, ℤ, pos, negsuc, take,
}
use tether_obs_plugin.Audio
use tether_obs_plugin.Audio.{SourceAudio}
use tether_obs_plugin.Source.{Source}

-- `enum AVPixelFormat`, as far as it is told apart
pub data PixelFormat : Type 0 where
  yuv420p yuvj420p nv12 yuv422p yuv444p unhandled : PixelFormat

-- `enum video_format` of OBS, as far as it is used
pub data VideoFormat : Type 0 where
  format_none i420 nv12 i422 i444 : VideoFormat

-- The fields of `AVFrame` that are read: the planes before the first that is NULL, with their line sizes
pub record AvFrame : Type 0 where
  pub format : PixelFormat
  pub width : ℕ
  pub height : ℕ
  pub is_jpeg : Bool
  pub planes : List (Bytes × ℕ)

-- `struct obs_source_frame`
pub record SourceFrame : Type 0 where
  pub format : VideoFormat
  pub width : ℕ
  pub height : ℕ
  pub timestamp : ℕ
  pub full_range : Bool
  pub planes : List (Bytes × ℕ)

-- What libavcodec does with a packet: `avcodec_send_packet` returns `rc`, and `avcodec_receive_frame`
-- then gives the frames, one to a call, before it fails.
pub record Decoded (V : Type 0) : Type 0 where
  pub decoder : V
  pub rc : ℤ
  pub frames : List AvFrame

-- What a source outputs to OBS
pub data Output (A : Type 0) : Type 0 where
  video : SourceFrame → Output A
  audio : SourceAudio A → Output A

-- `av_to_obs_video_format`
unfoldable pub av_to_obs_video_format : PixelFormat → VideoFormat
av_to_obs_video_format yuv420p = i420
av_to_obs_video_format yuvj420p = i420
av_to_obs_video_format PixelFormat.nv12 = VideoFormat.nv12
av_to_obs_video_format yuv422p = i422
av_to_obs_video_format yuv444p = i444
av_to_obs_video_format unhandled = format_none

unfoldable pub timestamp_of : ℤ → ℕ → ℕ
timestamp_of (pos (suc n)) now = suc n
timestamp_of _ now = now

-- EAGAIN of the platform, and MAX_AV_PLANES of OBS
pub record Platform : Type 0 where
  pub eagain : ℕ
  pub max_av_planes : ℕ

unfoldable pub output_as : {A : Type 0} → Platform → VideoFormat → AvFrame → ℤ → ℕ → List (Output A)
unfolding timestamp_of
output_as pl format_none f pts now = []
output_as pl fmt f pts now =
    video (record {
      format = fmt;
      width = f.width;
      height = f.height;
      timestamp = timestamp_of pts now;
      full_range = f.is_jpeg;
      planes = take pl.max_av_planes f.planes;
    })
    ∷ []

-- `deliver_decoded_frame` at the time `now`
unfoldable pub deliver_decoded_frame : {A : Type 0} → Platform → AvFrame → ℤ → ℕ → List (Output A)
unfolding output_as av_to_obs_video_format
deliver_decoded_frame pl f pts now = output_as pl (av_to_obs_video_format f.format) f pts now

unfoldable pub deliver_all : {A : Type 0} → Platform → List AvFrame → ℤ → ℕ → List (Output A)
unfolding deliver_decoded_frame
deliver_all pl [] pts now = []
deliver_all pl (f ∷ fs) pts now = deliver_decoded_frame pl f pts now ++ deliver_all pl fs pts now

-- `s->video_mid && *s->video_mid && mid && strcmp(s->video_mid, mid) != 0` does not hold.
unfoldable pub accepts : Option Bytes → Option Bytes → Bool
unfolding is_blank str_eq
accepts none mid = true
accepts (some pinned) none = true
accepts (some pinned) (some mid) = is_blank (some pinned) || str_eq pinned mid

-- `rc < 0 && rc != AVERROR(EAGAIN)`
unfoldable pub is_fatal : ℕ → ℤ → Bool
is_fatal eagain (pos n) = false
is_fatal eagain (negsuc n) = not (suc n == eagain)

-- The decoder on a packet
unfoldable pub decode :
    {V D A : Type 0} → Platform → Source V D → Decoded V → ℤ → ℕ → Source V D × List (Output A)
unfolding is_fatal deliver_all
decode pl s a pts now = (
  record s { decoder = some a.decoder },
  if is_fatal pl.eagain a.rc then [] else deliver_all pl a.frames pts now,
)

unfoldable pub decode_with :
    {V D A : Type 0}
    → Platform
    → (V → Bytes → ℤ → Decoded V)
    → Source V D
    → Option V
    → Bytes
    → ℤ
    → ℕ
    → Source V D × List (Output A)
unfolding decode
decode_with pl av s none data' pts now = (s, [])
decode_with pl av s (some v) data' pts now = decode pl s (av v data' pts) pts now

-- `on_session_video`; the size is that of the bytes.
unfoldable pub on_session_video :
    {V D A : Type 0}
    → Platform
    → (V → Bytes → ℤ → Decoded V)
    → Source V D
    → Option Bytes
    → ℤ
    → Option Bytes
    → ℕ
    → Source V D × List (Output A)
unfolding accepts decode_with
on_session_video pl av s none pts mid now = (s, [])
on_session_video pl av s (some []) pts mid now = (s, [])
on_session_video pl av s (some (b ∷ bs)) pts mid now =
    if accepts s.video_mid mid then decode_with pl av s s.decoder (b ∷ bs) pts now else (s, [])

abbrev pub outputs : {A : Type 0} → Option (SourceAudio A) → List (Output A)
outputs none = []
outputs (some a) = audio a ∷ []

-- `on_session_audio`: all sound is one stream for the Opus decoder.
unfoldable pub on_session_audio :
    {V D A : Type 0}
    → (D → Bytes → ℕ → D × (ℕ × (ℕ → A)))
    → Option D
    → Source V D
    → Bytes
    → Option Bytes
    → ℕ
    → Source V D × List (Output A)
unfolding accepts
on_session_audio opus created s data' mid now =
    let got = Audio.push_packet opus created s.audio 0 data' now in
    if accepts s.audio_mid mid then (record s { audio = got.0 }, outputs got.1) else (s, [])
