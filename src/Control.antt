-- ===== src/Control.antt =====
-- src/control.c: the control socket: one line to a command, and one line to its reply. It drives a
-- sender, and holds sessions of the registry. The socket, its thread and the clock are not part of the
-- state; what arrives while a command runs is in `Met`.
pub mod Lines
pub mod Replies
pub mod Sending
pub mod Receiving
pub mod Commands
pub mod Held
pub mod Runs
pub mod Safety
pub mod Writing
mod Tests
use tether_obs_plugin.Common.{
  ℕ, zero, suc, Bool, true, false, List, [], ◌∷◌, ◌++◌, Option, none, some, if◌then◌else◌, Bytes,
  codes, str_eq, copy_into, ℤ, pos, negsuc,
}
use tether_obs_plugin.ReceiveSession.{RxState, connecting, awaiting_accept, accepted, negotiating}
use tether_obs_plugin.Registry.{Registry}
use tether_obs_plugin.KnownTokens.{Store}
use tether_obs_plugin.Sender.{
  Sender, DialogState, idle, waiting, peer_connected, failed, Effect, told_token, told_pending,
  told_peer_state, told_peer_gone,
}

-- `struct ctrl_peer`
pub record CtrlPeer : Type 0 where
  pub peer_id : Bytes
  pub name : Bytes
  pub fingerprint : Bytes
  pub state : ℤ

-- `struct tether_control` with `g_held_sessions`, and the parts of the program that it drives
pub record Control (E A File : Type 0) : Type 0 where
  pub sender : Option (Sender E A)
  pub current_token : Bytes
  pub peers : List CtrlPeer
  pub held : List ℕ
  pub registry : Registry
  pub known : Store File

-- `on_sender_pending`
abbrev pub new_peer : Bytes → Bytes → Bytes → CtrlPeer
new_peer id name fp = record {
  peer_id = copy_into 64 id;
  name = copy_into 64 name;
  fingerprint = copy_into 160 fp;
  state = pos 0;
}

unfoldable pub state_of : DialogState → ℤ
state_of peer_connected = pos 1
state_of failed = pos 2
state_of idle = pos 0
state_of waiting = pos 0

-- `on_sender_peer_state`
unfoldable pub set_state : Bytes → DialogState → List CtrlPeer → List CtrlPeer
unfolding state_of str_eq
set_state id st [] = []
set_state id st (p ∷ ps) =
    if str_eq p.peer_id id then record p { state = state_of st } ∷ ps else p ∷ set_state id st ps

-- `on_sender_peer_gone`
unfoldable pub erase_peer : Bytes → List CtrlPeer → List CtrlPeer
unfolding str_eq
erase_peer id [] = []
erase_peer id (p ∷ ps) = if str_eq p.peer_id id then ps else p ∷ erase_peer id ps

-- The callbacks of the sender; `on_sender_token` is the first.
unfoldable pub hear : {E A File : Type 0} → Control E A File → Effect → Control E A File
unfolding set_state erase_peer copy_into
hear c (told_token tok) = record c { current_token = copy_into 64 tok }
hear c (told_pending id name fp) = record c { peers = c.peers ++ new_peer id name fp ∷ [] }
hear c (told_peer_state id st) = record c { peers = set_state id st c.peers }
hear c (told_peer_gone id) = record c { peers = erase_peer id c.peers }
hear c _ = c

unfoldable pub hear_all : {E A File : Type 0} → Control E A File → List Effect → Control E A File
unfolding hear
hear_all c [] = c
hear_all c (e ∷ es) = hear_all (hear c e) es

unfoldable pub state_word : ℤ → Bytes
state_word (pos zero) = codes "waiting"
state_word (pos (suc zero)) = codes "connected"
state_word (pos (suc (suc zero))) = codes "failed"
state_word _ = codes "unknown"

unfoldable pub rx_state_word : RxState → Bytes
rx_state_word connecting = codes "connecting"
rx_state_word awaiting_accept = codes "awaiting-accept"
rx_state_word accepted = codes "accepted"
rx_state_word negotiating = codes "negotiating"
rx_state_word RxState.connected = codes "connected"
rx_state_word RxState.failed = codes "failed"
rx_state_word RxState.closed = codes "closed"
