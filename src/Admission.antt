-- ===== src/Admission.antt =====
-- src/admission.c: the sender's waiting room, with its peers, pins and rate limit.
-- An operation is one step under the lock. The readings of the clock are arguments.
pub mod RateLimit
pub mod Lockout
pub mod Room
pub mod Peers
pub mod Pins
mod Tests
use tether_obs_plugin.Common.{
  ℕ, zero, suc, ◌+◌, ◌-◌, ◌*◌, ◌/◌, ◌%◌, ◌^◌, Bool, true, false, ◌&&◌, ◌||◌, List, [], ◌∷◌, ◌++◌,
  Option, none, some, leb, ltb, if◌then◌else◌, Bytes, str_eq, copy_into, length, ℤ, pos, negsuc,
}

pub data PeerState : Type 0 where
  pending accepted rejected revoked disconnected : PeerState

pub record Peer : Type 0 where
  pub peer_id : Bytes
  pub display_name : Bytes
  pub fingerprint : Bytes
  pub state : PeerState
  pub pinned : Bool
  pub first_seen_ns : ℕ

-- The `int` fields as they are given.
pub record Request : Type 0 where
  pub max_receivers : ℤ
  pub window_seconds : ℤ
  pub max_attempts : ℤ
  pub lockout_seconds : ℤ
  pub auto_accept_pinned : Bool
  pub has_on_changed : Bool

-- The fields as `tether_admission_create` leaves them.
pub record Config : Type 0 where
  pub max_receivers : ℕ
  pub window_seconds : ℕ
  pub max_attempts : ℕ
  pub lockout_seconds : ℕ
  pub auto_accept_pinned : Bool
  pub has_on_changed : Bool

pub record Admission : Type 0 where
  pub cfg : Config
  pub peers : List Peer
  pub attempts : List ℕ
  pub lockout_until_ns : ℕ

abbrev pub peer_id_max : ℕ
peer_id_max = 64

abbrev pub display_max : ℕ
display_max = 128

abbrev pub fingerprint_max : ℕ
fingerprint_max = 128

abbrev pub u64_mod : ℕ
u64_mod = 18446744073709551616

abbrev pub ns_per_second : ℕ
ns_per_second = 1000000000

unfoldable pub state_eq : PeerState → PeerState → Bool
state_eq pending pending = true
state_eq accepted accepted = true
state_eq rejected rejected = true
state_eq revoked revoked = true
state_eq disconnected disconnected = true
state_eq _ _ = false

-- `find_peer_locked`
unfoldable pub find_peer : Bytes → List Peer → Option Peer
find_peer id [] = none
find_peer id (p ∷ ps) = if str_eq p.peer_id id then some p else find_peer id ps

-- `count_locked`
unfoldable pub count_state : PeerState → List Peer → ℕ
unfolding state_eq
count_state s [] = 0
count_state s (p ∷ ps) = if state_eq p.state s then suc (count_state s ps) else count_state s ps

-- The attempts from the first one that is not before the cutoff.
unfoldable pub drop_before : ℕ → List ℕ → List ℕ
drop_before cutoff [] = []
drop_before cutoff (t ∷ ts) = if leb cutoff t then t ∷ ts else drop_before cutoff ts

-- `now - window * 10^9` in `uint64_t`
unfoldable pub cutoff_of : ℕ → ℕ → ℕ
cutoff_of now window = (now + u64_mod - window * ns_per_second % u64_mod) % u64_mod

-- `prune_attempts_locked`
unfoldable pub prune_attempts : Admission → ℕ → Admission
unfolding drop_before cutoff_of
prune_attempts adm now =
    if leb adm.cfg.window_seconds 0
    then adm
    else record adm { attempts = drop_before (cutoff_of now adm.cfg.window_seconds) adm.attempts }

-- The second half of `rate_limit_blocks_locked`, after the pruning.
unfoldable pub check_attempts : Admission → ℕ → Admission × Bool
check_attempts adm now =
    if ltb 0 adm.cfg.max_attempts && leb adm.cfg.max_attempts (length adm.attempts)
    then (
      record adm {
        lockout_until_ns = (now + adm.cfg.lockout_seconds * ns_per_second % u64_mod) % u64_mod;
      },
      true,
    )
    else (adm, false)

-- `rate_limit_blocks_locked`: its own reading of the clock, and that of the pruning.
unfoldable pub rate_limit_blocks : Admission → ℕ → ℕ → Admission × Bool
unfolding check_attempts prune_attempts
rate_limit_blocks adm now now_prune =
    if ltb now adm.lockout_until_ns
    then (adm, true)
    else check_attempts (prune_attempts adm now_prune) now

-- `if (x <= 0) x = d`
unfoldable pub or_default : ℤ → ℕ → ℕ
or_default (negsuc n) d = d
or_default (pos zero) d = d
or_default (pos (suc n)) d = suc n

-- `tether_admission_create`
unfoldable pub create : Request → Admission
unfolding or_default
create r = record {
  cfg = record {
    max_receivers = or_default r.max_receivers 4;
    window_seconds = or_default r.window_seconds 60;
    max_attempts = or_default r.max_attempts 10;
    lockout_seconds = or_default r.lockout_seconds 300;
    auto_accept_pinned = r.auto_accept_pinned;
    has_on_changed = r.has_on_changed;
  };
  peers = [];
  attempts = [];
  lockout_until_ns = 0;
}

-- An operation's new state, its result, and the peer that `on_changed` is called with.
pub record Outcome : Type 0 where
  pub adm : Admission
  pub result : Bool
  pub changed : Option Peer

-- The readings of the clock that `tether_admission_add_pending` makes, in order.
pub record Clock : Type 0 where
  pub at_check : ℕ
  pub at_prune : ℕ
  pub at_push : ℕ
  pub at_seen : ℕ

unfoldable pub or_empty : ℕ → Option Bytes → Bytes
or_empty size none = []
or_empty size (some s) = copy_into size s

-- The loop over pinned peers: is one of them pinned with this fingerprint?
unfoldable pub pinned_match : Bytes → List Peer → Bool
pinned_match fp [] = false
pinned_match fp (q ∷ qs) = (q.pinned && str_eq q.fingerprint fp) || pinned_match fp qs

-- `auto_accept_pinned && fingerprint`, then the loop.
unfoldable pub auto_accepts : Admission → Option Bytes → Bool
unfolding pinned_match
auto_accepts adm none = false
auto_accepts adm (some fp) = adm.cfg.auto_accept_pinned && pinned_match fp adm.peers

unfoldable pub new_peer : Bytes → Option Bytes → Option Bytes → ℕ → Bool → Peer
unfolding or_empty copy_into
new_peer id name fp seen auto = record {
  peer_id = copy_into peer_id_max id;
  display_name = or_empty display_max name;
  fingerprint = or_empty fingerprint_max fp;
  state = if auto then accepted else pending;
  pinned = auto;
  first_seen_ns = seen;
}

abbrev pub notified : Admission → Peer → Option Peer
notified adm p = if adm.cfg.has_on_changed then some p else none

unfoldable pub is_some {ℓ} : {A : Type ℓ} → Option A → Bool
is_some none = false
is_some (some a) = true

-- `tether_admission_add_pending` behind the rate limit: the attempt is recorded already.
unfoldable pub admit : Admission → Bytes → Option Bytes → Option Bytes → ℕ → Outcome
unfolding find_peer count_state auto_accepts new_peer is_some
admit adm id name fp seen =
    let p = new_peer id name fp seen (auto_accepts adm fp) in
    if is_some (find_peer id adm.peers)
    then record { adm = adm; result = false; changed = none }
    else if leb adm.cfg.max_receivers (count_state accepted adm.peers)
    then record { adm = adm; result = false; changed = none }
    else record {
      adm = record adm { peers = adm.peers ++ p ∷ [] };
      result = true;
      changed = notified adm p;
    }

unfoldable pub record_attempt : Admission → ℕ → Admission
record_attempt adm t = record adm { attempts = adm.attempts ++ t ∷ [] }

-- `tether_admission_add_pending`; `none` for a NULL `peer_id`.
unfoldable pub add_pending :
    Admission → Clock → Option Bytes → Option Bytes → Option Bytes → Outcome
unfolding rate_limit_blocks admit record_attempt
add_pending adm c none name fp = record { adm = adm; result = false; changed = none }
add_pending adm c (some id) name fp =
    let (adm', blocked) = rate_limit_blocks adm c.at_check c.at_prune in
    if blocked
    then record { adm = adm'; result = false; changed = none }
    else admit (record_attempt adm' c.at_push) id name fp c.at_seen

-- The write through the pointer that `find_peer_locked` returns.
unfoldable pub update_peer : Bytes → PeerState → Bool → List Peer → List Peer
update_peer id s pin [] = []
update_peer id s pin (p ∷ ps) =
    if str_eq p.peer_id id
    then (record p { state = s; pinned = p.pinned || pin }) ∷ ps
    else p ∷ update_peer id s pin ps

unfoldable pub changed_peer : Admission → PeerState → Bool → Option Peer → Option Peer
changed_peer adm s pin none = none
changed_peer adm s pin (some p) = notified adm (record p { state = s; pinned = p.pinned || pin })

unfoldable pub set_peer_state : Admission → Option Bytes → PeerState → Bool → Outcome
unfolding find_peer update_peer changed_peer is_some
set_peer_state adm none s pin = record { adm = adm; result = false; changed = none }
set_peer_state adm (some id) s pin = record {
  adm = record adm { peers = update_peer id s pin adm.peers };
  result = is_some (find_peer id adm.peers);
  changed = changed_peer adm s pin (find_peer id adm.peers);
}

unfoldable pub accept : Admission → Option Bytes → Bool → Outcome
unfolding set_peer_state
accept adm id pin = set_peer_state adm id accepted pin

unfoldable pub reject : Admission → Option Bytes → Outcome
unfolding set_peer_state
reject adm id = set_peer_state adm id rejected false

unfoldable pub disconnect_peer : Admission → Option Bytes → Outcome
unfolding set_peer_state
disconnect_peer adm id = set_peer_state adm id disconnected false

unfoldable pub revoke_peers : List Peer → List Peer
revoke_peers [] = []
revoke_peers (p ∷ ps) = record p { state = revoked } ∷ revoke_peers ps

-- `tether_admission_revoke_all`: no call of `on_changed`
unfoldable pub revoke_all : Admission → Admission
unfolding revoke_peers
revoke_all adm = record adm { peers = revoke_peers adm.peers }

-- `tether_admission_iter`: the peers that the callback gets, in order
unfoldable pub iter : Admission → List Peer
iter adm = adm.peers

-- `tether_admission_count`
unfoldable pub count : Admission → PeerState → ℕ
unfolding count_state
count adm s = count_state s adm.peers

unfoldable pub is_locked_out : Admission → ℕ → Bool
is_locked_out adm now = ltb now adm.lockout_until_ns

-- The cast of a uint64_t to an int of 32 bits
unfoldable pub to_int : ℕ → ℤ
to_int n =
    let low = n % 4294967296 in if ltb low 2147483648 then pos low else negsuc (4294967295 - low)

unfoldable pub lockout_remaining : Admission → ℕ → ℤ
unfolding to_int
lockout_remaining adm now =
    if ltb now adm.lockout_until_ns
    then to_int ((adm.lockout_until_ns - now) / ns_per_second)
    else pos 0

unfoldable pub pin_ok : Option Peer → Bytes → Bool
pin_ok none fp = false
pin_ok (some p) fp = p.pinned && str_eq p.fingerprint fp

-- `tether_admission_verify_pinned`
unfoldable pub verify_pinned : Admission → Option Bytes → Option Bytes → Bool
unfolding find_peer pin_ok
verify_pinned adm none fp = false
verify_pinned adm (some id) none = false
verify_pinned adm (some id) (some fp) = pin_ok (find_peer id adm.peers) fp
