-- ===== src/Control/Replies.antt =====
-- src/control.c: what the commands meet, and the line of a reply.
use tether_obs_plugin.Common.{
  Bool, false, List, [], ◌∷◌, ◌++◌, ◌==◌, if◌then◌else◌, Bytes, codes, ℤ,
}
use tether_obs_plugin.Admission.{Clock}
use tether_obs_plugin.Signaling.{Event}
use tether_obs_plugin.Sender.{Answers}

-- An event of the signaling client, and what is met while it is handled
pub record Heard (E : Type 0) : Type 0 where
  pub event : Event
  pub clock : Clock
  pub rc : ℤ
  pub answers : Answers E

-- What is met while a command runs: what the libraries return, the events that arrive while
-- `sender-create` waits for the token, and whether the parts of a session can be made
pub record Met (E : Type 0) : Type 0 where
  pub rc : ℤ
  pub answers : Answers E
  pub events : List (Heard E)
  pub wrtc_made : Bool
  pub sig_made : Bool

abbrev pub ends_line : Bytes → Bool
ends_line [] = false
ends_line (c ∷ []) = c == 10
ends_line (c ∷ d ∷ s) = ends_line (d ∷ s)

-- `reply`: the bytes that are written
unfoldable pub reply : Bytes → Bytes
reply s = if ends_line s then s else s ++ 10 ∷ []

abbrev pub comma_separated : List Bytes → Bytes
comma_separated [] = []
comma_separated (t ∷ []) = t
comma_separated (t ∷ u ∷ ts) = t ++ (codes "," ++ comma_separated (u ∷ ts))
