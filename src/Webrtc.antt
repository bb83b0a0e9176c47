-- ===== src/Webrtc.antt =====
-- src/webrtc.c: one peer connection: its configuration, its table of tracks, the callbacks of
-- libdatachannel and the calls of it. What the library and the environment return are arguments; what
-- is called is a list of `Call`s. `decimal` is the text that `snprintf` writes for `%d`.
pub mod Calls
pub mod Tracks
pub mod Streams
mod Tests
use tether_obs_plugin.Common.{
  ℕ, zero, suc, ◌+◌, Bool, true, false, not, ◌&&◌, ◌||◌, List, [], ◌∷◌, ◌++◌, Option, none, some,
  ◌==◌, if◌then◌else◌, Bytes, codes, str_eq, is_blank, copy_into, strip_prefix, after_first, take,
  length, ℤ, pos, negsuc,
}
use tether_obs_plugin.ReceiveSession.{WrtcState}

pub data VideoCodec : Type 0 where
  h264 vp9 av1 : VideoCodec

-- `rtcState` of libdatachannel, and any other value
pub data RtcState : Type 0 where
  new connecting connected disconnected failed closed other : RtcState

-- `struct track_entry`
pub record TrackEntry : Type 0 where
  pub handle : ℕ
  pub track_id : ℕ
  pub is_video : Bool
  pub mid : Bytes

-- `tether_webrtc_config_t`, and which of its callbacks are set
pub record WebrtcConfig : Type 0 where
  pub stun_url : Option Bytes
  pub turn_url : Option Bytes
  pub turn_username : Option Bytes
  pub turn_credential : Option Bytes
  pub video_codec : VideoCodec
  pub on_local_sdp : Bool
  pub on_local_ice : Bool
  pub on_state : Bool
  pub on_video : Bool
  pub on_audio : Bool

-- `struct tether_webrtc`
pub record Webrtc : Type 0 where
  pub cfg : WebrtcConfig
  pub pc : ℕ
  pub state : WrtcState
  pub tracks : List TrackEntry
  pub next_track_id : ℕ
  pub local_fingerprint : Bytes

-- The variables of the environment that are read
pub record Environment : Type 0 where
  pub no_stun : Option Bytes
  pub bind_loopback : Option Bytes
  pub bind_ip : Option Bytes

-- A call of the owner's callback, or of libdatachannel
pub data Call : Type 0 where
  told_sdp : Bytes → Bytes → Call
  told_ice : Bytes → Bytes → Call
  told_state : WrtcState → Call
  told_video told_audio : ℕ → Bytes → Option Bytes → Call
  made_connection : List Bytes → Option Bytes → Call
  set_local : ℕ → Call
  set_remote : ℕ → Bytes → Bytes → Call
  added_candidate : ℕ → Bytes → Option Bytes → Call
  added_track : ℕ → Bool → ℕ → Bytes → Bytes → Call
  sent : ℕ → Bytes → Call
  deleted_track deleted_connection : ℕ → Call

-- `on_state_change`
unfoldable pub map_state : RtcState → WrtcState
map_state RtcState.new = WrtcState.new
map_state RtcState.connecting = WrtcState.connecting
map_state RtcState.connected = WrtcState.connected
map_state RtcState.disconnected = WrtcState.failed
map_state RtcState.failed = WrtcState.failed
map_state RtcState.closed = WrtcState.closed
map_state RtcState.other = WrtcState.new

unfoldable pub on_state_change : Webrtc → RtcState → Webrtc × List Call
unfolding map_state
on_state_change w st = (
  record w { state = map_state st },
  if w.cfg.on_state then told_state (map_state st) ∷ [] else [],
)

-- The bytes up to the end of the line, at most `n`
unfoldable pub line : ℕ → Bytes → Bytes
line zero s = []
line (suc n) [] = []
line (suc n) (c ∷ s) = if c == 13 || c == 10 then [] else c ∷ line n s

abbrev pub fingerprint_key : Bytes
fingerprint_key = codes "a=fingerprint:"

abbrev pub mid_key : Bytes
mid_key = codes "a=mid:"

unfoldable pub fingerprint_after : Bytes → Option Bytes → Bytes
unfolding line
fingerprint_after old none = old
fingerprint_after old (some s) = line 127 s

-- `on_local_description`
unfoldable pub on_local_description : Webrtc → Bytes → Bytes → Webrtc × List Call
unfolding fingerprint_after after_first
on_local_description w sdp sdp_type = (
  record w {
    local_fingerprint = fingerprint_after w.local_fingerprint (after_first fingerprint_key sdp);
  },
  if w.cfg.on_local_sdp then told_sdp sdp_type sdp ∷ [] else [],
)

-- `on_local_candidate`
unfoldable pub on_local_candidate : Webrtc → Bytes → Bytes → List Call
on_local_candidate w candidate mid = if w.cfg.on_local_ice then told_ice candidate mid ∷ [] else []

unfoldable pub mid_after : Option Bytes → Bytes
unfolding line
mid_after none = []
mid_after (some s) = line 63 s

-- `parse_mid_from_desc` into a buffer of 64 bytes; `none` for a description that could not be had
unfoldable pub parse_mid : Option Bytes → Bytes
unfolding mid_after after_first
parse_mid none = []
parse_mid (some desc) = mid_after (after_first mid_key desc)

unfoldable pub find_handle : ℕ → List TrackEntry → Option TrackEntry
find_handle tr [] = none
find_handle tr (e ∷ es) = if e.handle == tr then some e else find_handle tr es

-- The call of `on_video` or `on_audio`; a track that is not in the table counts as audio, with no mid.
unfoldable pub deliver : Webrtc → ℕ → Bytes → Option TrackEntry → List Call
deliver w tr msg none = if w.cfg.on_audio then told_audio tr msg none ∷ [] else []
deliver w tr msg (some e) =
    if e.is_video
    then if w.cfg.on_video then told_video tr msg (some e.mid) ∷ [] else []
    else if w.cfg.on_audio
    then told_audio tr msg (some e.mid) ∷ []
    else []

-- `on_track_message`: a binary frame has a positive size.
unfoldable pub on_track_message : Webrtc → ℕ → Option Bytes → ℤ → List Call
unfolding deliver find_handle
on_track_message w tr none size = []
on_track_message w tr (some msg) (negsuc n) = []
on_track_message w tr (some msg) (pos zero) = []
on_track_message w tr (some msg) (pos (suc n)) = deliver w tr msg (find_handle tr w.tracks)

-- `strstr(desc, "m=video") != NULL`
unfoldable pub names_video : Option Bytes → Bool
unfolding after_first
names_video none = false
names_video (some desc) = elim (after_first (codes "m=video") desc) [ none ↦ false | some s ↦ true ]

unfoldable pub push_entry : Webrtc → ℕ → Bool → Bytes → Webrtc
push_entry w handle is_video mid = record w {
  tracks =
      w.tracks
      ++ record { handle = handle; track_id = w.next_track_id; is_video = is_video; mid = mid }
        ∷ [];
  next_track_id = w.next_track_id + 1;
}

-- `on_track`: `desc` is what `rtcGetTrackDescription` gives, if it gives anything.
unfoldable pub on_track : Webrtc → ℕ → Option Bytes → Webrtc
unfolding push_entry names_video parse_mid
on_track w tr desc = push_entry w tr (names_video desc) (parse_mid desc)

abbrev pub is_one : Option Bytes → Bool
is_one none = false
is_one (some s) = str_eq s (codes "1")

abbrev pub or_nothing : Option Bytes → Bytes
or_nothing none = []
or_nothing (some s) = s

unfoldable pub without_scheme : Bytes → Bytes
unfolding strip_prefix
without_scheme url = elim (strip_prefix (codes "turn:") url) [ some s ↦ s | none ↦ url ]

-- The text that `snprintf` leaves in `turn_buf`
unfoldable pub turn_text : WebrtcConfig → Bytes → Bytes
unfolding without_scheme copy_into
turn_text cfg url = copy_into 512 (
    codes "turn:"
    ++ (or_nothing cfg.turn_username
        ++ (codes ":" ++ (or_nothing cfg.turn_credential ++ (codes "@" ++ without_scheme url)))))

unfoldable pub turn_servers : WebrtcConfig → Option Bytes → List Bytes
unfolding is_blank turn_text
turn_servers cfg none = []
turn_servers cfg (some url) = if is_blank (some url) then [] else turn_text cfg url ∷ []

unfoldable pub stun_servers : Environment → Option Bytes → List Bytes
unfolding is_blank str_eq
stun_servers env none = []
stun_servers env (some url) = if is_blank (some url) || is_one env.no_stun then [] else url ∷ []

unfoldable pub bind_address : Environment → Option Bytes
unfolding is_blank str_eq
bind_address env =
    if is_one env.bind_loopback
    then some (codes "127.0.0.1")
    else if is_blank env.bind_ip
    then none
    else env.bind_ip

-- `tether_webrtc_create`; `rc` is what `rtcCreatePeerConnection` returns.
unfoldable pub create : Environment → Option WebrtcConfig → ℤ → Option Webrtc × List Call
unfolding stun_servers turn_servers bind_address
create env none rc = (none, [])
create env (some cfg) rc = (
  elim rc [
    | negsuc n ↦ none
    | pos zero ↦ none
    | pos (suc n) ↦ some (record {
      cfg = cfg;
      pc = suc n;
      state = WrtcState.new;
      tracks = [];
      next_track_id = 1;
      local_fingerprint = [];
    })
  ],
  made_connection (stun_servers env cfg.stun_url ++ turn_servers cfg cfg.turn_url)
        (bind_address env)
      ∷ [],
)
