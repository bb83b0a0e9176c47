-- ===== src/Control/Runs.antt =====
-- src/control.c: the control socket among the other users of the sessions, the sender and the tokens.
use tether_obs_plugin.Common.{ℕ, ◌<◌, ◌≡◌, List, ◌∷◌, Option, some, Bytes, Bool}
use tether_obs_plugin.Registry
use tether_obs_plugin.Registry.{Registry, find_id, update_session, release, subscribe, unsubscribe}
use tether_obs_plugin.Registry.Sessions.{KeepsKeys}
use tether_obs_plugin.Registry.References.{occ, remove, grant}
use tether_obs_plugin.Registry.Lifetime.{Run}
use tether_obs_plugin.ReceiveSession.{Session, Subscription, Notice}
use tether_obs_plugin.KnownTokens.{ObsData, Store}
use tether_obs_plugin.Sender.{Sender, Effect}
use tether_obs_plugin.Control.{Control, hear_all}
use tether_obs_plugin.Control.Replies.{Met, Heard}
use tether_obs_plugin.Control.Sending.{hear_event}
use tether_obs_plugin.Control.Commands.{dispatch}
use tether_obs_plugin.Control.Safety.{fresh}

-- The control socket at another registry
abbrev pub at_registry : {E A File : Type 0} → Control E A File → Registry → Control E A File
at_registry c r = record c { registry = r }

-- What the control socket can come to, and the references that the other users of the registry then
-- hold: a line is run; the sender hears of an event, or changes and tells effects for another reason;
-- another user asks for a session, or releases, subscribes to or unsubscribes from one that it holds a
-- reference to; a session changes without its token and its count; the known tokens change.
pub data Runs {E A File Object : Type 0} (d : ObsData Object File)
    : Control E A File → List ℕ → Type 0 where
  starts :
      (r : Registry) (others : List ℕ) (known : Store File)
      → Run r others
      → Runs d (fresh E A r known) others
  runs_line :
      (c c' : Control E A File) (others : List ℕ) (text told : Bytes) (met : Met E)
      → Runs d c others
      → dispatch d c text met ≡ some (c', told)
      → Runs d c' others
  hears :
      (c : Control E A File) (others : List ℕ) (i : Heard E)
      → Runs d c others
      → Runs d (hear_event c i c.sender) others
  sender_moves :
      (c : Control E A File) (others : List ℕ) (s : Sender E A) (es : List Effect)
      → Runs d c others
      → Runs d (hear_all (record c { sender = some s }) es) others
  other_gets :
      (c : Control E A File) (others : List ℕ) (token : Option Bytes) (wrtc_made sig_made : Bool)
      → Runs d c others
      → Runs d
          (at_registry c (Registry.get c.registry token wrtc_made sig_made).0)
          (grant (Registry.get c.registry token wrtc_made sig_made).1 others)
  other_releases :
      (c : Control E A File) (r' : Registry) (others : List ℕ) (id : ℕ) (destroyed : Bool)
      → Runs d c others
      → 0 < occ id others
      → release c.registry id ≡ some (r', destroyed)
      → Runs d (at_registry c r') (remove id others)
  other_subscribes :
      (c : Control E A File) (r' : Registry) (others : List ℕ) (id : ℕ) (u : Subscription)
      (notices : List Notice)
      → Runs d c others
      → 0 < occ id others
      → subscribe c.registry id u ≡ some (r', notices)
      → Runs d (at_registry c r') (id ∷ others)
  other_unsubscribes :
      (c : Control E A File) (r' : Registry) (others : List ℕ) (id sub : ℕ) (destroyed : Bool)
      → Runs d c others
      → 0 < occ id others
      → unsubscribe c.registry id sub ≡ some (r', destroyed)
      → Runs d (at_registry c r') (remove id others)
  session_moves :
      (c : Control E A File) (others : List ℕ) (f : Session → Session) (id : ℕ) (s : Session)
      → Runs d c others
      → KeepsKeys f
      → ((t : Session) → (f t).refcount ≡ t.refcount)
      → find_id id c.registry.sessions ≡ some s
      → Runs d
          (at_registry c (record c.registry { sessions = update_session id f c.registry.sessions }))
          others
  tokens_change :
      (c : Control E A File) (others : List ℕ) (known : Store File)
      → Runs d c others
      → Runs d (record c { known = known }) others
