-- ===== src/Registry.antt =====
-- src/receive-session.c: the registry of sessions, one to a token, and their reference counts.
-- A session's `id` stands for its address. The live sessions are those of `g_sessions`: a session
-- enters it when it is created and leaves it when it is destroyed. A call on an address that is not
-- live is a use after free, and has no result.
pub mod Sessions
pub mod References
pub mod Lifetime
pub mod Visits
mod Tests
use tether_obs_plugin.Common.{
  ℕ, suc, ◌+◌, ◌-◌, Bool, true, false, not, ◌&&◌, List, [], ◌∷◌, ◌++◌, Option, none, some, ◌==◌,
  leb, if◌then◌else◌, Bytes, is_blank, str_eq,
}
use tether_obs_plugin.Token.{normalise, token_buf}
use tether_obs_plugin.ReceiveSession.{
  Session, Subscription, RxState, awaiting_accept, Notice, state_notice, Stats,
}

pub record Registry : Type 0 where
  pub initialised : Bool
  pub sessions : List Session
  pub next_id : ℕ

unfoldable pub find_token : Bytes → List Session → Option Session
find_token tok [] = none
find_token tok (s ∷ ss) = if str_eq s.token tok then some s else find_token tok ss

unfoldable pub find_id : ℕ → List Session → Option Session
find_id id [] = none
find_id id (s ∷ ss) = if s.id == id then some s else find_id id ss

-- A write to the session at an address.
unfoldable pub update_session : ℕ → (Session → Session) → List Session → List Session
update_session id f [] = []
update_session id f (s ∷ ss) = if s.id == id then f s ∷ ss else s ∷ update_session id f ss

-- `da_erase` of the entry with an address
unfoldable pub erase_session : ℕ → List Session → List Session
erase_session id [] = []
erase_session id (s ∷ ss) = if s.id == id then ss else s ∷ erase_session id ss

abbrev pub bump : Session → Session
bump s = record s { refcount = s.refcount + 1 }

abbrev pub drop_ref : Session → Session
drop_ref s = record s { refcount = s.refcount - 1 }

abbrev pub no_stats : Stats
no_stats = record {
  video_bytes = 0;
  audio_bytes = 0;
  video_packets = 0;
  audio_packets = 0;
  last_update_ns = 0;
}

-- `session_create_locked`: whether the peer connection and the signaling client can be made are
-- arguments. The state has moved on to `awaiting_accept`, with nobody subscribed.
unfoldable pub session_create : ℕ → Bytes → Bool → Bool → Option Session
unfolding normalise
session_create id tok wrtc_made sig_made =
    if (normalise (some tok) token_buf).1 && (wrtc_made && sig_made)
    then some (record {
      id = id;
      token = tok;
      refcount = 1;
      state = awaiting_accept;
      subs = [];
      seen_mids = [];
      stats = no_stats;
    })
    else none

-- The new session goes to the end of the registry.
unfoldable pub register : Registry → Option Session → Registry × Option ℕ
register r none = (r, none)
register r (some s) =
    (record r { sessions = r.sessions ++ s ∷ []; next_id = r.next_id + 1 }, some s.id)

unfoldable pub get_found : Registry → Option Session → Option Session → Registry × Option ℕ
unfolding register update_session
get_found r (some s) made = (record r { sessions = update_session s.id bump r.sessions }, some s.id)
get_found r none made = register r made

-- `tether_receive_session_get`: the address that it returns
unfoldable pub get : Registry → Option Bytes → Bool → Bool → Registry × Option ℕ
unfolding get_found session_create find_token is_blank
get r none wrtc_made sig_made = (r, none)
get r (some tok) wrtc_made sig_made =
    if is_blank (some tok)
    then (r, none)
    else if not r.initialised
    then (r, none)
    else get_found r (find_token tok r.sessions) (session_create r.next_id tok wrtc_made sig_made)

unfoldable pub release_found : Registry → ℕ → Option Session → Option (Registry × Bool)
unfolding update_session erase_session
release_found r id none = none
release_found r id (some s) =
    if leb (s.refcount - 1) 0
    then some (record r { sessions = erase_session id r.sessions }, true)
    else some (record r { sessions = update_session id drop_ref r.sessions }, false)

-- `tether_receive_session_release`, and whether it destroys the session
unfoldable pub release : Registry → ℕ → Option (Registry × Bool)
unfolding release_found find_id
release r id = release_found r id (find_id id r.sessions)

abbrev pub add_sub : Subscription → Session → Session
add_sub u s = record s { subs = s.subs ++ u ∷ []; refcount = s.refcount + 1 }

-- `tether_receive_session_subscribe`: the current state is replayed to the new subscriber.
unfoldable pub subscribe_found :
    Registry → ℕ → Subscription → Option Session → Option (Registry × List Notice)
unfolding update_session
subscribe_found r id u none = none
subscribe_found r id u (some s) = some (
  record r { sessions = update_session id (add_sub u) r.sessions },
  if u.on_state then state_notice u.sub_id s.state ∷ [] else [],
)

unfoldable pub subscribe : Registry → ℕ → Subscription → Option (Registry × List Notice)
unfolding subscribe_found find_id
subscribe r id u = subscribe_found r id u (find_id id r.sessions)

unfoldable pub erase_sub : ℕ → List Subscription → List Subscription
erase_sub sub [] = []
erase_sub sub (u ∷ us) = if u.sub_id == sub then us else u ∷ erase_sub sub us

abbrev pub drop_sub : ℕ → Session → Session
drop_sub sub s = record s { subs = erase_sub sub s.subs }

-- `tether_receive_session_unsubscribe`
unfoldable pub unsubscribe : Registry → ℕ → ℕ → Option (Registry × Bool)
unfolding release update_session erase_sub
unsubscribe r id sub =
    release (record r { sessions = update_session id (drop_sub sub) r.sessions }) id

unfoldable pub bump_all : List Session → List Session
bump_all [] = []
bump_all (s ∷ ss) = bump s ∷ bump_all ss

unfoldable pub release_all : Registry → List Session → Option Registry
unfolding release
release_all r [] = some r
release_all r (s ∷ ss) = elim (release r s.id) [
  | none ↦ none
  | some (r', destroyed) ↦ release_all r' ss
]

-- `tether_receive_session_enumerate` with a callback that only looks: each session is visited once
-- and in order, under a reference of its own. The list is that of the visited sessions.
unfoldable pub enumerate : Registry → Option (Registry × List Session)
unfolding bump_all release_all
enumerate r = elim (release_all (record r { sessions = bump_all r.sessions }) r.sessions) [
  | none ↦ none
  | some r' ↦ some (r', bump_all r.sessions)
]

-- `tether_receive_session_init`
unfoldable pub init : Registry → Registry
init r = if r.initialised then r else record r { initialised = true; sessions = [] }

-- `tether_receive_session_shutdown`
unfoldable pub shutdown : Registry → Registry
shutdown r = record r { initialised = false; sessions = [] }
