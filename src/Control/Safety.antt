-- ===== src/Control/Safety.antt =====
-- src/control.c: what a command and the end of the socket do to the references that are held.
use tether_obs_plugin.Common.{
  ℕ, ◌<◌, ◌≡◌, refl, sym, ◌∙◌, List, [], ◌∷◌, ◌++◌, append_assoc, Option, none, some, arith, Bytes,
  Bool-cases, Option-cases, inl, inr, is_blank, subst,
}
use tether_obs_plugin.Registry
use tether_obs_plugin.Registry.{Registry, find_id, release}
use tether_obs_plugin.Registry.References.{occ, remove, grant, Counts}
use tether_obs_plugin.Registry.Lifetime.{release-ends, live, get-Counts}
use tether_obs_plugin.Registry.Visits.{enumerate-Counts}
use tether_obs_plugin.KnownTokens
use tether_obs_plugin.KnownTokens.{ObsData, Store}
use tether_obs_plugin.Sender.{
  Sender, Effect, told_token, told_pending, told_peer_state, told_peer_gone, signaled, networked,
}
use tether_obs_plugin.Sender.Events as Sender
use tether_obs_plugin.Sender.Setup as Setup
use tether_obs_plugin.Control.{Control, hear, hear_all}
use tether_obs_plugin.Control.Lines.{sender_lists}
use tether_obs_plugin.Control.Replies.{Met, Heard}
use tether_obs_plugin.Control.Sending.{
  hear_event, hear_events, create_with, create_unless, told_peer, revoke_with, cmd_sender_create,
  on_peer, cmd_sender_accept, cmd_sender_reject, cmd_sender_disconnect, cmd_sender_revoke,
  sender_config, callbacks,
}
use tether_obs_plugin.Control.Receiving.{
  registered, register_token, cmd_receive_register, cmd_receive_status, cmd_receive_forget,
}
use tether_obs_plugin.Control.Commands.{Command, run_command, release_held}
use tether_obs_plugin.Control.Held.{
  InOrder, Counts-reorder, occ-middle, cmd_receive_forget-others_of,
}

-- What the sender's commands leave alone
pub record Same {E A File : Type 0} (c c' : Control E A File) : Type 0 where
  pub registry : c'.registry ≡ c.registry
  pub held : c'.held ≡ c.held

Same-refl : {E A File : Type 0} (c : Control E A File) → Same c c
Same-refl c = record { registry = refl; held = refl }

Same-trans :
    {E A File : Type 0} (c1 c2 c3 : Control E A File) → Same c1 c2 → Same c2 c3 → Same c1 c3
Same-trans c1 c2 c3 f g = record { registry = g.registry ∙ f.registry; held = g.held ∙ f.held }

hear-Same : {E A File : Type 0} (c : Control E A File) (e : Effect) → Same c (hear c e)
unfolding hear
hear-Same c (told_token tok) = record { registry = refl; held = refl }
hear-Same c (told_pending id name fp) = record { registry = refl; held = refl }
hear-Same c (told_peer_state id st) = record { registry = refl; held = refl }
hear-Same c (told_peer_gone id) = record { registry = refl; held = refl }
hear-Same c (signaled e) = record { registry = refl; held = refl }
hear-Same c (networked e) = record { registry = refl; held = refl }

hear_all-Same :
    {E A File : Type 0} (c : Control E A File) (es : List Effect) → Same c (hear_all c es)
unfolding hear_all
hear_all-Same c [] = Same-refl c
hear_all-Same c (e ∷ es) = Same-trans c (hear c e) _ (hear-Same c e) (hear_all-Same (hear c e) es)

-- A new sender, and what it tells
pub told-Same :
    {E A File : Type 0} (c : Control E A File) (s : Sender E A) (es : List Effect)
    → Same c (hear_all (record c { sender = some s }) es)
told-Same c s es =
    let given : Control _ _ _ = record c { sender = some s } in
    Same-trans c given _ (record { registry = refl; held = refl }) (hear_all-Same given es)

pub hear_event-Same :
    {E A File : Type 0} (c : Control E A File) (i : Heard E) (o : Option (Sender E A))
    → Same c (hear_event c i o)
unfolding hear_event
hear_event-Same c i none = Same-refl c
hear_event-Same c i (some s) =
    let r = Sender.on_signaling_event s i.event i.clock i.rc i.answers in told-Same c r.0 r.1

hear_events-Same :
    {E A File : Type 0} (c : Control E A File) (is : List (Heard E)) → Same c (hear_events c is)
unfolding hear_events
hear_events-Same c [] = Same-refl c
hear_events-Same c (i ∷ is) =
    let c1 = hear_event c i c.sender in
    Same-trans c c1 _ (hear_event-Same c i c.sender) (hear_events-Same c1 is)

create_with-Same :
    {E A File : Type 0} (c : Control E A File) (videos audios : List Bytes) (met : Met E)
    → Same c (create_with c videos audios met).0
unfolding create_with
create_with-Same c [] audios met = Same-refl c
create_with-Same {E} {A} c (v ∷ vs) audios met =
    elim (Option-cases (
      Setup.create {E = E} {A = A} met.answers.decimal (some (sender_config (v ∷ vs) audios))
        callbacks met.rc)) [
          | inl e ↦ rw (create_with, e) (Same-refl c)
          | inr (made, e) ↦
              let c1 : Control _ _ _ = hear_all (record c { sender = some made.0 }) made.1 in
              rw (create_with, e)
                (Same-trans c c1 _ (told-Same c made.0 made.1) (hear_events-Same c1 met.events))
        ]

create_unless-Same :
    {E A File : Type 0} (c : Control E A File) (o : Option (Sender E A)) (args : Option Bytes)
    (met : Met E)
    → Same c (create_unless c o args met).0
unfolding create_unless
create_unless-Same c (some s) args met = Same-refl c
create_unless-Same c none none met = Same-refl c
create_unless-Same c none (some args) met = elim (Bool-cases (is_blank (some args))) [
  | inl e ↦ rw (create_unless, e) (Same-refl c)
  | inr e ↦
      rw (create_unless, e) (create_with-Same c (sender_lists args).0 (sender_lists args).1 met)
]

told_peer-Same :
    {E A File : Type 0} (c : Control E A File) (o : Option (Sender E A)) (args : Option Bytes)
    (done : Bytes) (f : Sender E A → Bytes → Sender E A × List Effect)
    → Same c (told_peer c o args done f).0
unfolding told_peer
told_peer-Same c none args done f = Same-refl c
told_peer-Same c (some s) none done f = Same-refl c
told_peer-Same c (some s) (some id) done f = elim (Bool-cases (is_blank (some id))) [
  | inl e ↦ rw (told_peer, e) (Same-refl c)
  | inr e ↦ rw (told_peer, e) (told-Same c (f s id).0 (f s id).1)
]

revoke_with-Same :
    {E A File : Type 0} (c : Control E A File) (o : Option (Sender E A))
    → Same c (revoke_with c o).0
unfolding revoke_with
revoke_with-Same c none = Same-refl c
revoke_with-Same c (some s) = record { registry = refl; held = refl }

-- What a command comes to: it has a result, and the references are in order.
abbrev pub Answered : {E A File : Type 0} → Option (Control E A File × Bytes) → List ℕ → Type 0
Answered {E} {A} {File} o others =
    (c' : Control E A File) × (text : Bytes) × (o ≡ some (c', text)) × InOrder c' others

-- A command of the sender
Same-Answered :
    {E A File : Type 0} (c : Control E A File) (r : Control E A File × Bytes) (others : List ℕ)
    → Same c r.0
    → InOrder c others
    → Answered (some r) others
Same-Answered c r others f k = (
  r.0,
  r.1,
  refl,
  subst (λ x. Counts x (r.0.held ++ others)) (sym f.registry)
      (subst (λ h. Counts c.registry (h ++ others)) (sym f.held) k),
)

registered-Answered :
    {E A File : Type 0} (c : Control E A File) (token : Bytes) (o : Option ℕ) (others : List ℕ)
    → Counts c.registry (grant o (c.held ++ others))
    → Answered (registered c token o) others
unfolding registered
registered-Answered c token none others k = (c, _, refl, k)
registered-Answered c token (some id) others k =
    let here : 0 < occ id (id ∷ (c.held ++ others)) = ground arith in
    let (s, e) = live c.registry (id ∷ (c.held ++ others)) id k here in
    let c' : Control _ _ _ = record c { held = c.held ++ id ∷ [] } in
    rw (registered, e)
      (
        c',
        _,
        refl,
        rw (append_assoc c.held (id ∷ []) others) (
            Counts-reorder c.registry (id ∷ (c.held ++ others)) (c.held ++ id ∷ others)
              (λ j. occ-middle j id c.held others) k),
      )

register-Answered :
    {E A File Object : Type 0} (d : ObsData Object File) (c : Control E A File)
    (args : Option Bytes) (met : Met E) (others : List ℕ)
    → InOrder c others
    → Answered (cmd_receive_register d c args met) others
unfolding cmd_receive_register register_token
register-Answered d c none met others k = (c, _, refl, k)
register-Answered d c (some token) met others k = elim (Bool-cases (is_blank (some token))) [
  | inl e ↦ rw (cmd_receive_register, e) (c, _, refl, k)
  | inr e ↦
      let got = Registry.get c.registry (some token) met.wrtc_made met.sig_made in
      rw (cmd_receive_register, e)
        (registered-Answered
          (record c { registry = got.0; known = (KnownTokens.add d c.known (some token)).0 }) token
          got.1 others
          (get-Counts c.registry (c.held ++ others) (some token) met.wrtc_made met.sig_made k))
]

status-Answered :
    {E A File : Type 0} (c : Control E A File) (others : List ℕ)
    → InOrder c others
    → Answered (cmd_receive_status c) others
unfolding cmd_receive_status
status-Answered c others k =
    let (r, e, k') = enumerate-Counts c.registry (c.held ++ others) k in
    rw (cmd_receive_status, e) (record c { registry = r }, _, refl, k')

forget-Answered :
    {E A File Object : Type 0} (d : ObsData Object File) (c : Control E A File)
    (args : Option Bytes) (others : List ℕ)
    → InOrder c others
    → Answered (cmd_receive_forget d c args) others
unfolding cmd_receive_forget
forget-Answered d c none others k = (c, _, refl, k)
forget-Answered d c (some token) others k = elim (Bool-cases (is_blank (some token))) [
  | inl e ↦ rw (cmd_receive_forget, e) (c, _, refl, k)
  | inr e ↦
      let (c', text, h, _, k') = cmd_receive_forget-others_of d c token others e k in
      (c', text, h, k')
]

pub run_command-Answered :
    {E A File Object : Type 0} (d : ObsData Object File) (cmd : Command) (c : Control E A File)
    (args : Option Bytes) (met : Met E) (others : List ℕ)
    → InOrder c others
    → Answered (run_command d cmd c args met) others
unfolding run_command cmd_sender_create on_peer cmd_sender_accept cmd_sender_reject
    cmd_sender_disconnect cmd_sender_revoke
run_command-Answered d Command.sender_create c args met others k =
    Same-Answered c _ others (create_unless-Same c c.sender args met) k
run_command-Answered d Command.sender_status c args met others k = (c, _, refl, k)
run_command-Answered d Command.sender_accept c args met others k =
    Same-Answered c _ others (told_peer-Same c c.sender args _ _) k
run_command-Answered d Command.sender_reject c args met others k =
    Same-Answered c _ others (told_peer-Same c c.sender args _ _) k
run_command-Answered d Command.sender_disconnect c args met others k =
    Same-Answered c _ others (told_peer-Same c c.sender args _ _) k
run_command-Answered d Command.sender_revoke c args met others k =
    Same-Answered c _ others (revoke_with-Same c c.sender) k
run_command-Answered d Command.receive_register c args met others k =
    register-Answered d c args met others k
run_command-Answered d Command.receive_status c args met others k = status-Answered c others k
run_command-Answered d Command.receive_forget c args met others k =
    forget-Answered d c args others k
run_command-Answered d Command.ping c args met others k = (c, _, refl, k)
run_command-Answered d (Command.unknown w) c args met others k = (c, _, refl, k)

pub release_held-Counts :
    (r : Registry) (held others : List ℕ)
    → Counts r (held ++ others)
    → (r' : Registry) × (release_held r held ≡ some r') × Counts r' others
unfolding release_held
release_held-Counts r [] others k = (r, refl, k)
release_held-Counts r (id ∷ ids) others k =
    let here : 0 < occ id (id ∷ (ids ++ others)) = ground arith in
    let (r1, e, k1) = release-ends r (id ∷ (ids ++ others)) id k here in
    let rest : remove id (id ∷ (ids ++ others)) ≡ ids ++ others = ground arith in
    let (r2, h, k2) = release_held-Counts r1 ids others (subst (Counts r1) rest k1) in
    (r2, rw (release_held, e) h, k2)

-- The control socket before its first line
abbrev pub fresh : (E A : Type 0) → {File : Type 0} → Registry → Store File → Control E A File
fresh E A r known = record {
  sender = none;
  current_token = [];
  peers = [];
  held = [];
  registry = r;
  known = known;
}
