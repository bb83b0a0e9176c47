-- ===== src/Control/Receiving.antt =====
-- src/control.c: the commands on the sessions and their replies. Where a command reads or releases a
-- session that is not alive there is no result.
use tether_obs_plugin.Common.{
  ℕ, List, [], ◌∷◌, ◌++◌, Option, none, some, if◌then◌else◌, Bytes, codes, str_eq, is_blank,
}
use tether_obs_plugin.ReceiveSession.{Session}
use tether_obs_plugin.Registry
use tether_obs_plugin.Registry.{Registry, find_id, release}
use tether_obs_plugin.KnownTokens
use tether_obs_plugin.KnownTokens.{ObsData, Store}
use tether_obs_plugin.Control.{Control, rx_state_word}
use tether_obs_plugin.Control.Replies.{Met, reply, comma_separated}

unfoldable pub registered :
    {E A File : Type 0} → Control E A File → Bytes → Option ℕ → Option (Control E A File × Bytes)
unfolding find_id rx_state_word reply
registered c token none = some (c, reply (codes "ERR session create failed"))
registered c token (some id) = elim (find_id id c.registry.sessions) [
  | none ↦ none
  | some s ↦ some (
    record c { held = c.held ++ id ∷ [] },
    reply (codes "OK registered " ++ (token ++ (codes " state=" ++ rx_state_word s.state))),
  )
]

unfoldable pub register_token :
    {E A File Object : Type 0}
    → ObsData Object File
    → Control E A File
    → Bytes
    → Met E
    → Option (Control E A File × Bytes)
unfolding registered
register_token d c token met =
    let got = Registry.get c.registry (some token) met.wrtc_made met.sig_made in
    registered (record c { registry = got.0; known = (KnownTokens.add d c.known (some token)).0 })
      token got.1

-- `cmd_receive_register`
unfoldable pub cmd_receive_register :
    {E A File Object : Type 0}
    → ObsData Object File
    → Control E A File
    → Option Bytes
    → Met E
    → Option (Control E A File × Bytes)
unfolding register_token is_blank reply
cmd_receive_register d c none met = some (c, reply (codes "ERR missing token"))
cmd_receive_register d c (some token) met =
    if is_blank (some token)
    then some (c, reply (codes "ERR missing token"))
    else register_token d c token met

unfoldable pub session_texts : List Session → List Bytes
unfolding rx_state_word
session_texts [] = []
session_texts (s ∷ ss) = (s.token ++ (codes ":" ++ rx_state_word s.state)) ∷ session_texts ss

-- `cmd_receive_status`
unfoldable pub cmd_receive_status :
    {E A File : Type 0} → Control E A File → Option (Control E A File × Bytes)
unfolding session_texts reply
cmd_receive_status c = elim (Registry.enumerate c.registry) [
  | none ↦ none
  | some (r, visited) ↦ some (
    record c { registry = r },
    reply (codes "OK sessions=" ++ comma_separated (session_texts visited)),
  )
]

-- The body of the loop of `cmd_receive_forget`, on an address and what is left of those after it
unfoldable pub forget_one : Bytes → ℕ → Registry × List ℕ → Option (Registry × List ℕ)
unfolding find_id release str_eq
forget_one token id (r, ids) = elim (find_id id r.sessions) [
  | none ↦ none
  | some s ↦
      if str_eq s.token token
      then (elim (release r id) [ none ↦ none | some (r', destroyed) ↦ some (r', ids) ])
      else some (r, id ∷ ids)
]

-- The loop, from the end of the list to its start
unfoldable pub forget_held : Registry → Bytes → List ℕ → Option (Registry × List ℕ)
unfolding forget_one
forget_held r token [] = some (r, [])
forget_held r token (id ∷ ids) = elim (forget_held r token ids) [
  | none ↦ none
  | some rest ↦ forget_one token id rest
]

unfoldable pub forget_token :
    {E A File Object : Type 0}
    → ObsData Object File
    → Control E A File
    → Bytes
    → Option (Control E A File × Bytes)
unfolding forget_held reply
forget_token d c token = elim (forget_held c.registry token c.held) [
  | none ↦ none
  | some (r, ids) ↦ some (
    record c { registry = r; held = ids; known = (KnownTokens.remove d c.known (some token)).0 },
    reply (codes "OK forgot " ++ token),
  )
]

-- `cmd_receive_forget`
unfoldable pub cmd_receive_forget :
    {E A File Object : Type 0}
    → ObsData Object File
    → Control E A File
    → Option Bytes
    → Option (Control E A File × Bytes)
unfolding forget_token is_blank reply
cmd_receive_forget d c none = some (c, reply (codes "ERR missing token"))
cmd_receive_forget d c (some token) =
    if is_blank (some token)
    then some (c, reply (codes "ERR missing token"))
    else forget_token d c token
