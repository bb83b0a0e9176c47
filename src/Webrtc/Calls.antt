-- ===== src/Webrtc/Calls.antt =====
-- src/webrtc.c: the calls that the two ends make: descriptions, candidates, tracks and media.
use tether_obs_plugin.Common.{
  ℕ, zero, suc, Bool, true, false, not, List, [], ◌∷◌, ◌++◌, Option, none, some, ◌==◌,
  if◌then◌else◌, Bytes, codes, str_eq, is_blank, copy_into, length, ℤ, pos, negsuc,
}
use tether_obs_plugin.ReceiveSession.{WrtcState}
use tether_obs_plugin.Webrtc.{
  Webrtc, TrackEntry, VideoCodec, h264, vp9, av1, Call, set_local, set_remote, added_candidate,
  added_track, sent, deleted_track, deleted_connection, push_entry,
}

-- `rc < 0`
unfoldable pub is_error : ℤ → Bool
is_error (pos n) = false
is_error (negsuc n) = true

-- `tether_webrtc_negotiate`
unfoldable pub negotiate : Option Webrtc → ℤ → Bool × List Call
unfolding is_error
negotiate none rc = (false, [])
negotiate (some w) rc = (not (is_error rc), set_local w.pc ∷ [])

-- `tether_webrtc_apply_remote_sdp`; an offer is answered.
unfoldable pub apply_remote_sdp :
    Option Webrtc → Option Bytes → Option Bytes → ℤ → ℤ → Bool × List Call
unfolding is_error str_eq
apply_remote_sdp (some w) (some sdp_type) (some sdp) rc rc2 =
    if is_error rc
    then (false, set_remote w.pc sdp sdp_type ∷ [])
    else if str_eq sdp_type (codes "offer")
    then (not (is_error rc2), set_remote w.pc sdp sdp_type ∷ set_local w.pc ∷ [])
    else (true, set_remote w.pc sdp sdp_type ∷ [])
apply_remote_sdp _ _ _ rc rc2 = (false, [])

-- `tether_webrtc_add_remote_ice`
unfoldable pub add_remote_ice : Option Webrtc → Option Bytes → Option Bytes → ℤ → Bool × List Call
unfolding is_error
add_remote_ice (some w) (some candidate) mid rc =
    (not (is_error rc), added_candidate w.pc candidate mid ∷ [])
add_remote_ice _ _ mid rc = (false, [])

unfoldable pub payload_type_for : VideoCodec → ℕ
payload_type_for h264 = 96
payload_type_for vp9 = 98
payload_type_for av1 = 100

-- A new state, the id of the new track or -1, and the call of the library
pub record Added : Type 0 where
  pub webrtc : Webrtc
  pub id : Option ℕ
  pub calls : List Call

-- The table after `rtcAddTrackEx` has returned `rc`
unfoldable pub added : Webrtc → ℤ → Bool → Bytes → List Call → Added
unfolding push_entry copy_into
added w (pos (suc n)) is_video mid calls = record {
  webrtc = push_entry w (suc n) is_video (copy_into 64 mid);
  id = some w.next_track_id;
  calls = calls;
}
added w _ is_video mid calls = record { webrtc = w; id = none; calls = calls }

unfoldable pub video_mid : (ℕ → Bytes) → Webrtc → Option Bytes → Bytes
unfolding is_blank copy_into
video_mid decimal w none = copy_into 64 (codes "video" ++ decimal (length w.tracks))
video_mid decimal w (some mid) =
    if is_blank (some mid) then copy_into 64 (codes "video" ++ decimal (length w.tracks)) else mid

unfoldable pub filled_or : Option Bytes → Bytes → Bytes
unfolding is_blank
filled_or none d = d
filled_or (some s) d = if is_blank (some s) then d else s

-- `tether_webrtc_add_video_track_ex`, on a connection
unfoldable pub add_video_track_ex : (ℕ → Bytes) → Webrtc → Option Bytes → Option Bytes → ℤ → Added
unfolding added video_mid filled_or payload_type_for
add_video_track_ex decimal w mid label rc = added w rc true (video_mid decimal w mid) (
    added_track w.pc true (payload_type_for w.cfg.video_codec) (video_mid decimal w mid)
      (filled_or label (codes "tether-video"))
    ∷ [])

-- `tether_webrtc_add_video_track`
unfoldable pub add_video_track : (ℕ → Bytes) → Webrtc → ℤ → Added
unfolding add_video_track_ex
add_video_track decimal w rc =
    add_video_track_ex decimal w (some (codes "video")) (some (codes "tether-video")) rc

unfoldable pub audio_mid : (ℕ → Bytes) → Webrtc → Bytes
unfolding copy_into
audio_mid decimal w = copy_into 64 (codes "audio" ++ decimal w.next_track_id)

unfoldable pub label_or : Option Bytes → Bytes → Bytes
label_or none d = d
label_or (some s) d = s

-- `tether_webrtc_add_audio_track`, on a connection
unfoldable pub add_audio_track : (ℕ → Bytes) → Webrtc → Option Bytes → ℤ → Added
unfolding added audio_mid label_or
add_audio_track decimal w label rc =
    added w rc false (audio_mid decimal w) (
      added_track w.pc false 111 (audio_mid decimal w) (label_or label (codes "tether-audio")) ∷ [])

unfoldable pub find_id : ℕ → List TrackEntry → Option TrackEntry
find_id id [] = none
find_id id (e ∷ es) = if e.track_id == id then some e else find_id id es

unfoldable pub handle_of : Option TrackEntry → Option ℕ
handle_of none = none
handle_of (some e) = some e.handle

-- `track_handle_for`, where `none` is -1
unfoldable pub track_handle_for : Webrtc → ℕ → Option ℕ
unfolding find_id handle_of
track_handle_for w id = handle_of (find_id id w.tracks)

-- `tether_webrtc_push_video` and `_push_audio`, which are one code: a blank packet is not sent.
unfoldable pub push_packet : Option Webrtc → ℕ → Bytes → ℤ → Bool × List Call
unfolding track_handle_for is_error
push_packet none id payload rc = (false, [])
push_packet (some w) id [] rc = (false, [])
push_packet (some w) id (b ∷ bs) rc = elim (track_handle_for w id) [
  | none ↦ (false, [])
  | some handle ↦ (not (is_error rc), sent handle (b ∷ bs) ∷ [])
]

unfoldable pub deleted_tracks : List TrackEntry → List Call
deleted_tracks [] = []
deleted_tracks (e ∷ es) = deleted_track e.handle ∷ deleted_tracks es

-- `tether_webrtc_release`
unfoldable pub release : Option Webrtc → List Call
unfolding deleted_tracks
release none = []
release (some w) = deleted_tracks w.tracks ++ deleted_connection w.pc ∷ []

-- `tether_webrtc_local_fingerprint` into a buffer of `out_size` bytes
unfoldable pub local_fingerprint : Option Webrtc → ℕ → Option Bytes
unfolding copy_into
local_fingerprint none out_size = none
local_fingerprint (some w) zero = none
local_fingerprint (some w) (suc n) = elim w.local_fingerprint [
  | [] ↦ none
  | b ∷ bs ↦ some (copy_into (suc n) (b ∷ bs))
]

-- `tether_webrtc_state`
unfoldable pub state_of : Option Webrtc → WrtcState
state_of none = WrtcState.closed
state_of (some w) = w.state
