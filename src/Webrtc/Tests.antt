-- ===== src/Webrtc/Tests.antt =====
-- Runs of src/webrtc.c, and each theorem at an input.
use tether_obs_plugin.Common.{
  ℕ, ◌≡◌, ◌+◌, ap, List, refl, true, false, [], ◌∷◌, none, some, Bytes, codes, str_eq, copy_into,
  after_first, strip_prefix, is_blank, pos, negsuc,
}
use tether_obs_plugin.ReceiveSession.{Session, WrtcState, awaiting_accept}
use tether_obs_plugin.Webrtc.{
  Webrtc, WebrtcConfig, Environment, RtcState, told_state, told_video, made_connection, vp9, create,
  on_state_change, on_local_description, on_track, on_track_message, parse_mid, turn_text, line,
  deliver, find_handle, names_video, push_entry, mid_after, fingerprint_after, without_scheme,
  turn_servers, stun_servers, bind_address,
}
use tether_obs_plugin.Webrtc.Calls.{
  add_audio_track, add_video_track_ex, local_fingerprint, apply_remote_sdp,
}
use tether_obs_plugin.Webrtc.Tracks.{
  adds_video, adds_audio, meets, changes, apply_all, Reaches, push-add_track,
}
use tether_obs_plugin.Webrtc.Streams.{Input, uses, hears, hear_all, streams-IsDistinct}
use tether_obs_plugin.ReceiveSession.Streams as Seen

abbrev config : WebrtcConfig
config = record {
  stun_url = some (codes "stun:s");
  turn_url = some (codes "turn:t:1");
  turn_username = some (codes "u");
  turn_credential = none;
  video_codec = vp9;
  on_local_sdp = true;
  on_local_ice = true;
  on_state = true;
  on_video = true;
  on_audio = true;
}

abbrev env : Environment
env = record { no_stun = some (codes "0"); bind_loopback = none; bind_ip = some (codes "10.0.0.1") }

abbrev fresh : Webrtc
fresh = record {
  cfg = config;
  pc = 8;
  state = WrtcState.new;
  tracks = [];
  next_track_id = 1;
  local_fingerprint = [];
}

-- One digit
abbrev decimal : ℕ → Bytes
decimal n = (48 + n) ∷ []

abbrev video_section : Bytes
video_section = codes "m=video 9\r\na=mid:video0\r\na=sendonly"

servers : create env (some config) (pos 8) ≡ (
  some fresh,
  made_connection (codes "stun:s" ∷ codes "turn:u:@t:1" ∷ []) (some (codes "10.0.0.1")) ∷ [],
)
unfolding create stun_servers turn_servers bind_address turn_text without_scheme strip_prefix str_eq
    is_blank
servers = refl

no_connection : (create env (some config) (negsuc 0)).0 ≡ none
unfolding create
no_connection = refl

lost :
    on_state_change fresh RtcState.disconnected
    ≡ (record fresh { state = WrtcState.failed }, told_state WrtcState.failed ∷ [])
unfolding on_state_change
lost = refl

mid_of_section : parse_mid (some video_section) ≡ codes "video0"
unfolding parse_mid mid_after line after_first strip_prefix
mid_of_section = refl

fingerprint_of_sdp :
    local_fingerprint
      (some
        (on_local_description fresh
          (codes "v=0\r\na=fingerprint:sha-256 AB\r\n")
          (codes "offer")).0)
      12
    ≡ some (codes "sha-256 AB")
unfolding local_fingerprint on_local_description fingerprint_after line after_first strip_prefix
    copy_into
fingerprint_of_sdp = refl

-- A frame on a track that is known is handed on with its mid.
frame_on_track :
    on_track_message (on_track fresh 5 (some video_section)) 5 (some (1 ∷ [])) (pos 1)
    ≡ told_video 5 (1 ∷ []) (some (codes "video0")) ∷ []
unfolding on_track_message on_track deliver find_handle names_video push_entry parse_mid mid_after
    line after_first strip_prefix copy_into
frame_on_track = refl

refused_answer :
    (apply_remote_sdp (some fresh) (some (codes "answer")) (some []) (negsuc 0) (pos 0)).0 ≡ false
unfolding apply_remote_sdp
refused_answer = refl

abbrev used : Webrtc
used = apply_all decimal fresh (adds_video none none (pos 3) ∷ adds_audio none (negsuc 0) ∷ [])

push-add_track_example :
    Reaches decimal
      (add_video_track_ex decimal used (some (codes "cam")) none (pos 7))
      7
      (changes RtcState.connected ∷ meets 9 none ∷ [])
    × Reaches decimal
        (add_audio_track decimal used none (pos 7))
        7
        (changes RtcState.connected ∷ meets 9 none ∷ [])
push-add_track_example =
    push-add_track decimal env config (pos 8) fresh
      (adds_video none none (pos 3) ∷ adds_audio none (negsuc 0) ∷ [])
      (changes RtcState.connected ∷ meets 9 none ∷ []) (some (codes "cam")) none 6
      (ap (λ p. p.0) servers)

abbrev session : Session
session = record {
  id = 0;
  token = codes "TTHR-ABCD-EFGH-2345";
  refcount = 2;
  state = awaiting_accept;
  subs = [];
  seen_mids = [];
  stats = record {
    video_bytes = 0;
    audio_bytes = 0;
    video_packets = 0;
    audio_packets = 0;
    last_update_ns = 0;
  };
}

abbrev heard : List Input
heard =
    uses (meets 5 (some video_section))
    ∷ hears 5 (some (1 ∷ [])) (pos 1) 7
    ∷ hears 5 (some (2 ∷ [])) (pos 1) 8
    ∷ []

streams-IsDistinct_example : Seen.IsDistinct (hear_all decimal fresh session heard).seen_mids
streams-IsDistinct_example =
    streams-IsDistinct decimal env config (pos 8) fresh session heard (ap (λ p. p.0) servers) refl
