-- ===== src/Control/Commands.antt =====
-- src/control.c: the command of a line, and the end of the control socket.
use tether_obs_plugin.Common.{
  ℕ, List, [], ◌∷◌, ◌++◌, Option, none, some, if◌then◌else◌, Bytes, codes, str_eq,
}
use tether_obs_plugin.Registry.{Registry, release}
use tether_obs_plugin.KnownTokens.{ObsData}
use tether_obs_plugin.Control.{Control}
use tether_obs_plugin.Control.Lines.{parse_line}
use tether_obs_plugin.Control.Replies.{Met, reply}
use tether_obs_plugin.Control.Sending.{
  cmd_sender_create, cmd_sender_status, cmd_sender_accept, cmd_sender_reject, cmd_sender_disconnect,
  cmd_sender_revoke,
}
use tether_obs_plugin.Control.Receiving.{
  cmd_receive_register, cmd_receive_status, cmd_receive_forget,
}

-- The commands by their words
pub data Command : Type 0 where
  sender_create sender_status sender_accept sender_reject sender_disconnect sender_revoke : Command
  receive_register receive_status receive_forget ping : Command
  unknown : Bytes → Command

unfoldable pub command_of : Bytes → Command
unfolding str_eq
command_of w =
    if str_eq w (codes "sender-create")
    then sender_create
    else if str_eq w (codes "sender-status")
    then sender_status
    else if str_eq w (codes "sender-accept")
    then sender_accept
    else if str_eq w (codes "sender-reject")
    then sender_reject
    else if str_eq w (codes "sender-disconnect")
    then sender_disconnect
    else if str_eq w (codes "sender-revoke")
    then sender_revoke
    else if str_eq w (codes "receive-register")
    then receive_register
    else if str_eq w (codes "receive-status")
    then receive_status
    else if str_eq w (codes "receive-forget")
    then receive_forget
    else if str_eq w (codes "ping")
    then ping
    else unknown w

unfoldable pub run_command :
    {E A File Object : Type 0}
    → ObsData Object File
    → Command
    → Control E A File
    → Option Bytes
    → Met E
    → Option (Control E A File × Bytes)
unfolding cmd_sender_create cmd_sender_status cmd_sender_accept cmd_sender_reject
    cmd_sender_disconnect cmd_sender_revoke cmd_receive_register cmd_receive_status
    cmd_receive_forget reply
run_command d sender_create c args met = some (cmd_sender_create c args met)
run_command d sender_status c args met = some (c, cmd_sender_status c)
run_command d sender_accept c args met = some (cmd_sender_accept c args met)
run_command d sender_reject c args met = some (cmd_sender_reject c args met)
run_command d sender_disconnect c args met = some (cmd_sender_disconnect c args met)
run_command d sender_revoke c args met = some (cmd_sender_revoke c)
run_command d receive_register c args met = cmd_receive_register d c args met
run_command d receive_status c args met = cmd_receive_status c
run_command d receive_forget c args met = cmd_receive_forget d c args
run_command d ping c args met = some (c, reply (codes "OK pong"))
run_command d (unknown w) c args met =
    some (c, reply (codes "ERR unknown command '" ++ (w ++ codes "'")))

-- `dispatch`
unfoldable pub dispatch :
    {E A File Object : Type 0}
    → ObsData Object File
    → Control E A File
    → Bytes
    → Met E
    → Option (Control E A File × Bytes)
unfolding parse_line command_of run_command
dispatch d c text met =
    let parsed = parse_line text in run_command d (command_of parsed.0) c parsed.1 met

unfoldable pub release_held : Registry → List ℕ → Option Registry
unfolding release
release_held r [] = some r
release_held r (id ∷ ids) = elim (release r id) [
  | none ↦ none
  | some (r', destroyed) ↦ release_held r' ids
]

-- `tether_control_shutdown`: the references are given up.
unfoldable pub shutdown : {E A File : Type 0} → Control E A File → Option Registry
unfolding release_held
shutdown c = release_held c.registry c.held
