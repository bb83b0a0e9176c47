-- ===== src/ReceiveSession.antt =====
-- src/receive-session.c: one session: its state machine, its subscribers, its streams and counters.
-- Each function is one callback of the network or one call; the notices are the subscribers' calls.
pub mod Transitions
pub mod Offers
pub mod Streams
mod Tests
use tether_obs_plugin.Common.{
  ℕ, suc, ◌+◌, ◌%◌, Bool, true, false, not, ◌&&◌, ◌||◌, List, [], ◌∷◌, ◌++◌, Option, none, some,
  ◌==◌, if◌then◌else◌, Bytes, codes, str_eq, is_blank, copy_into,
}
use tether_obs_plugin.Signaling.{
  EventKind, request_accepted, token_invalid, token_locked_out, sdp_offer, ice_candidate,
}
use tether_obs_plugin.Sdp.{offer_of, ice_of}

pub data RxState : Type 0 where
  connecting awaiting_accept accepted negotiating connected failed closed : RxState

-- The states of the peer connection (src/webrtc.h)
pub data WrtcState : Type 0 where
  new connecting connected failed closed : WrtcState

-- A subscription, and which of its callbacks are set.
pub record Subscription : Type 0 where
  pub sub_id : ℕ
  pub on_video : Bool
  pub on_audio : Bool
  pub on_state : Bool

pub record MidEntry : Type 0 where
  pub mid : Bytes
  pub is_video : Bool

pub record Stats : Type 0 where
  pub video_bytes : ℕ
  pub audio_bytes : ℕ
  pub video_packets : ℕ
  pub audio_packets : ℕ
  pub last_update_ns : ℕ

pub record Session : Type 0 where
  pub id : ℕ
  pub token : Bytes
  pub refcount : ℕ
  pub state : RxState
  pub subs : List Subscription
  pub seen_mids : List MidEntry
  pub stats : Stats

-- A call of one subscriber's callback
pub data Notice : Type 0 where
  state_notice : ℕ → RxState → Notice
  video_notice : ℕ → Bytes → Option Bytes → Notice
  audio_notice : ℕ → Bytes → Option Bytes → Notice

-- A call of src/webrtc.c
pub data Applied : Type 0 where
  remote_offer : Bytes → Applied
  remote_ice : Bytes → Bytes → Applied

abbrev pub u64_mod : ℕ
u64_mod = 18446744073709551616

abbrev pub mid_max : ℕ
mid_max = 64

-- The numbers of the enumeration, by which states are compared
unfoldable pub code_of : RxState → ℕ
code_of connecting = 0
code_of awaiting_accept = 1
code_of accepted = 2
code_of negotiating = 3
code_of connected = 4
code_of failed = 5
code_of closed = 6

unfoldable pub rx_eq : RxState → RxState → Bool
unfolding code_of
rx_eq a b = code_of a == code_of b

-- `tether_receive_state_name`
unfoldable pub state_name : RxState → Bytes
state_name connecting = codes "connecting"
state_name awaiting_accept = codes "awaiting accept"
state_name accepted = codes "accepted"
state_name negotiating = codes "negotiating"
state_name connected = codes "connected"
state_name failed = codes "failed"
state_name closed = codes "closed"

unfoldable pub has_mid : Bytes → List MidEntry → Bool
has_mid m [] = false
has_mid m (e ∷ es) = str_eq e.mid m || has_mid m es

-- `remember_mid_locked`
unfoldable pub remember_mid : Session → Option Bytes → Bool → Session
unfolding is_blank has_mid copy_into
remember_mid s none is_video = s
remember_mid s (some m) is_video =
    if is_blank (some m) || has_mid m s.seen_mids then s else record s {
      seen_mids = s.seen_mids ++ record { mid = copy_into mid_max m; is_video = is_video } ∷ [];
    }

unfoldable pub state_notices : RxState → List Subscription → List Notice
state_notices st [] = []
state_notices st (u ∷ us) =
    if u.on_state then state_notice u.sub_id st ∷ state_notices st us else state_notices st us

-- `set_state`
unfoldable pub set_state : Session → RxState → Session × List Notice
unfolding rx_eq state_notices
set_state s new_state =
    if rx_eq s.state new_state
    then (s, [])
    else (record s { state = new_state }, state_notices new_state s.subs)

unfoldable pub video_notices : Bytes → Option Bytes → List Subscription → List Notice
video_notices payload mid [] = []
video_notices payload mid (u ∷ us) =
    if u.on_video
    then video_notice u.sub_id payload mid ∷ video_notices payload mid us
    else video_notices payload mid us

unfoldable pub audio_notices : Bytes → Option Bytes → List Subscription → List Notice
audio_notices payload mid [] = []
audio_notices payload mid (u ∷ us) =
    if u.on_audio
    then audio_notice u.sub_id payload mid ∷ audio_notices payload mid us
    else audio_notices payload mid us

-- `wrtc_video_cb`: a packet of `size` bytes, at a reading of the clock
unfoldable pub wrtc_video_cb : Session → Bytes → ℕ → Option Bytes → ℕ → Session × List Notice
unfolding remember_mid video_notices
wrtc_video_cb s payload size mid now = (
  remember_mid
      (record s {
        stats = record (s.stats) {
          video_bytes = (s.stats.video_bytes + size) % u64_mod;
          video_packets = (s.stats.video_packets + 1) % u64_mod;
          last_update_ns = now;
        };
      })
      mid true,
  video_notices payload mid s.subs,
)

-- `wrtc_audio_cb`
unfoldable pub wrtc_audio_cb : Session → Bytes → ℕ → Option Bytes → ℕ → Session × List Notice
unfolding remember_mid audio_notices
wrtc_audio_cb s payload size mid now = (
  remember_mid
      (record s {
        stats = record (s.stats) {
          audio_bytes = (s.stats.audio_bytes + size) % u64_mod;
          audio_packets = (s.stats.audio_packets + 1) % u64_mod;
          last_update_ns = now;
        };
      })
      mid false,
  audio_notices payload mid s.subs,
)

-- `wrtc_state_cb`
unfoldable pub rx_state_of : WrtcState → RxState
rx_state_of new = negotiating
rx_state_of WrtcState.connecting = negotiating
rx_state_of WrtcState.connected = RxState.connected
rx_state_of WrtcState.failed = RxState.failed
rx_state_of WrtcState.closed = RxState.closed

unfoldable pub wrtc_state_cb : Session → WrtcState → Session × List Notice
unfolding set_state rx_state_of
wrtc_state_cb s st = set_state s (rx_state_of st)

-- What an event comes to.
pub record Reaction : Type 0 where
  pub session : Session
  pub notices : List Notice
  pub applied : List Applied

abbrev ignored : Session → Reaction
ignored s = record { session = s; notices = []; applied = [] }

abbrev moved : Session × List Notice → List Applied → Reaction
moved (s, ns) as' = record { session = s; notices = ns; applied = as' }

unfoldable pub offer_applied : Option Bytes → List Applied
unfolding offer_of
offer_applied none = []
offer_applied (some json) = elim (offer_of json) [ none ↦ [] | some text ↦ remote_offer text ∷ [] ]

unfoldable pub ice_applied : Option Bytes → List Applied
unfolding ice_of
ice_applied none = []
ice_applied (some json) = elim (ice_of json) [
  | none ↦ []
  | some (cand, mid) ↦ remote_ice cand mid ∷ []
]

-- `signaling_event`
unfoldable pub signaling_event : Session → EventKind → Option Bytes → Reaction
unfolding set_state offer_applied ice_applied
signaling_event s request_accepted payload =
    if rx_eq s.state negotiating || rx_eq s.state RxState.connected
    then ignored s
    else moved (set_state s accepted) []
signaling_event s token_invalid payload = moved (set_state s RxState.failed) []
signaling_event s token_locked_out payload = moved (set_state s RxState.failed) []
signaling_event s sdp_offer payload =
    if rx_eq s.state negotiating
      || (rx_eq s.state RxState.connected
          || (rx_eq s.state RxState.failed || rx_eq s.state RxState.closed))
    then ignored s
    else moved (set_state s negotiating) (offer_applied payload)
signaling_event s ice_candidate payload = record {
  session = s;
  notices = [];
  applied = ice_applied payload;
}
signaling_event s _ payload = ignored s

-- `collect_mids_locked`
unfoldable pub collect_mids : Bool → List MidEntry → List Bytes
collect_mids true [] = []
collect_mids true (e ∷ es) =
    if e.is_video then e.mid ∷ collect_mids true es else collect_mids true es
collect_mids false [] = []
collect_mids false (e ∷ es) =
    if e.is_video then collect_mids false es else e.mid ∷ collect_mids false es

-- `tether_receive_session_video_mids` and `_audio_mids`; NULL gives none.
unfoldable pub video_mids : Option Session → List Bytes
unfolding collect_mids
video_mids none = []
video_mids (some s) = collect_mids true s.seen_mids

unfoldable pub audio_mids : Option Session → List Bytes
unfolding collect_mids
audio_mids none = []
audio_mids (some s) = collect_mids false s.seen_mids

-- `tether_receive_session_state`, `_token` and `_get_stats`
unfoldable pub session_state : Option Session → RxState
session_state none = RxState.closed
session_state (some s) = s.state
