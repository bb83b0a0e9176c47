-- ===== src/Signaling/Connection.antt =====
-- src/signaling.c: the states of the connection under every order of calls and callbacks.
use tether_obs_plugin.Common.{
  Bool-cases, ◌≡◌, ◌⊎◌, inl, inr, refl, ap, true, false, List, [], ◌∷◌, Option, none, some, arith,
  Bytes, ℤ, pos, negsuc, none≢some, subst, sym, ◌∙◌,
}
use mathlib.Core.Bool.{false≢true}
use tether_obs_plugin.Signaling.{
  Signaling, Config, Effect, disconnected, connecting, connected, failed, create, set_state,
  is_open, connect, connect_url, opened, hooked, disconnect, on_open, on_closed, on_error,
  on_message, handle_message, handle, message_of, Message,
}

-- Where the call that runs is: no call runs; a connect has set the state and has no socket yet; it has
-- set the callbacks of the socket and has not stored it in `ws`; a disconnect closes the socket.
pub data Phase : Type 0 where
  idle began : Phase
  unstored : ℤ → Phase
  ending : Phase

-- A client, the call that runs, and the socket that the library holds for it with its callbacks
pub record Client : Type 0 where
  pub sig : Signaling
  pub call : Phase
  pub socket : Option ℤ

-- A client at a change of its state
abbrev pub with_sig : Client → Signaling → Client
with_sig c s = record c { sig = s }

-- The calls of `tether_signaling_connect` and `tether_signaling_disconnect`, one at a time but each in
-- its steps, and the callbacks of the socket, which come between any two steps while the library holds
-- the socket: after its callbacks are set and before it is deleted.
pub data Step (c : Client) : Client → List Effect → Type 0 where
  refuses : c.call ≡ idle → is_open c.sig.ws ≡ true → Step c c []
  begins :
      c.call ≡ idle
      → is_open c.sig.ws ≡ false
      → Step c
          (record (with_sig c (set_state c.sig connecting).0) { call = began })
          (set_state c.sig connecting).1
  fails :
      (rc : ℤ)
      → c.call ≡ began
      → is_open rc ≡ false
      → Step c
          (record (with_sig c (set_state c.sig failed).0) { call = idle })
          (opened (connect_url c.sig) ∷ (set_state c.sig failed).1)
  hooks :
      (rc : ℤ)
      → c.call ≡ began
      → is_open rc ≡ true
      → Step c
          (record c { call = unstored rc; socket = some rc })
          (opened (connect_url c.sig) ∷ hooked rc ∷ [])
  stores :
      (rc : ℤ)
      → c.call ≡ unstored rc
      → Step c (record (with_sig c (record c.sig { ws = rc })) { call = idle }) []
  shuts : c.call ≡ idle → is_open c.sig.ws ≡ true → Step c (record c { call = ending }) []
  ends :
      c.call ≡ ending
      → Step c
          (record (with_sig c (disconnect c.sig).0) { call = idle; socket = none })
          (disconnect c.sig).1
  opens : (h : ℤ) → c.socket ≡ some h → Step c (with_sig c (on_open c.sig).0) (on_open c.sig).1
  closes : (h : ℤ) → c.socket ≡ some h → Step c (with_sig c (on_closed c.sig).0) (on_closed c.sig).1
  errs : (h : ℤ) → c.socket ≡ some h → Step c (with_sig c (on_error c.sig).0) (on_error c.sig).1
  reads :
      (h : ℤ) (msg : Option Bytes) (size : ℤ)
      → c.socket ≡ some h
      → Step c (with_sig c (on_message c.sig msg size).0) (on_message c.sig msg size).1

pub data Reach (c : Client) : Client → Type 0 where
  here : Reach c c
  next : {d e : Client} {es : List Effect} → Reach c d → Step d e es → Reach c e

-- A call of `connect` is such steps without a callback in between.
connect-Reach :
    (s : Signaling) (socket : Option ℤ) (rc : ℤ)
    → (socket' : Option ℤ) × Reach
        (record { sig = s; call = idle; socket = socket })
        (record { sig = (connect s rc).sig; call = idle; socket = socket' })
unfolding connect
connect-Reach s socket rc = elim (Bool-cases (is_open s.ws)) [
  | inl e ↦ (socket, rw (connect, e) here)
  | inr e ↦ elim (Bool-cases (is_open rc)) [
    | inl k ↦ (
      some rc,
      rw (connect, e, k)
          (next (next (next here (begins refl e)) (hooks rc refl k)) (stores rc refl)),
    )
    | inr k ↦ (socket, rw (connect, e, k) (next (next here (begins refl e)) (fails rc refl k)))
  ]
]

-- A client that no call has used
abbrev pub unused : Signaling → Client
unused s = record { sig = s; call = idle; socket = none }

-- The library holds the socket that the client has stored.
abbrev IsLinked : Signaling → Option ℤ → Type 0
IsLinked s socket = (is_open s.ws ≡ true) × (socket ≡ some s.ws)

-- There is no socket, and the state says so.
abbrev IsUnlinked : Signaling → Option ℤ → Type 0
IsUnlinked s socket =
    (is_open s.ws ≡ false) × (socket ≡ none) × ((s.state ≡ disconnected) ⊎ (s.state ≡ failed))

-- What holds of the client and the socket in each phase
abbrev InPhase : Phase → Signaling → Option ℤ → Type 0
InPhase idle s socket = IsLinked s socket ⊎ IsUnlinked s socket
InPhase began s socket = (is_open s.ws ≡ false) × (socket ≡ none)
InPhase (unstored rc) s socket = (is_open rc ≡ true) × (socket ≡ some rc)
InPhase ending s socket = IsLinked s socket

abbrev IsConsistent : Client → Type 0
IsConsistent c = InPhase c.call c.sig c.socket

handle-same :
    (m : Message) (s : Signaling) (json : Bytes)
    → ((handle m s json).0.ws ≡ s.ws) × ((handle m s json).0.state ≡ s.state)
unfolding handle
handle-same Message.token s json = (refl, refl)
handle-same _ s json = (refl, refl)

on_message-same :
    (s : Signaling) (msg : Option Bytes) (size : ℤ)
    → ((on_message s msg size).0.ws ≡ s.ws) × ((on_message s msg size).0.state ≡ s.state)
unfolding on_message handle_message
on_message-same s none size = (refl, refl)
on_message-same s (some m) (pos n) = (refl, refl)
on_message-same s (some m) (negsuc n) = handle-same (message_of m) s m

-- A callback leaves `ws` as it is, so that it keeps what holds in a phase in which there is a socket.
callback-InPhase :
    (p : Phase) (s t : Signaling) (socket : Option ℤ) (h : ℤ)
    → socket ≡ some h
    → t.ws ≡ s.ws
    → InPhase p s socket
    → InPhase p t socket
callback-InPhase idle s t socket h held same (inl (open', e)) =
    inl (ap is_open same ∙ open', e ∙ ap some (sym same))
callback-InPhase idle s t socket h held same (inr (_, e, _)) = absurd (none≢some (sym e ∙ held))
callback-InPhase began s t socket h held same (_, e) = absurd (none≢some (sym e ∙ held))
callback-InPhase (unstored rc) s t socket h held same k = k
callback-InPhase ending s t socket h held same (open', e) =
    (ap is_open same ∙ open', e ∙ ap some (sym same))

idle-cases :
    (c : Client)
    → c.call ≡ idle
    → IsConsistent c
    → IsLinked c.sig c.socket ⊎ IsUnlinked c.sig c.socket
idle-cases c e k = subst (λ p. InPhase p c.sig c.socket) e k

ends-InPhase : (s : Signaling) → is_open s.ws ≡ true → IsUnlinked (disconnect s).0 none
unfolding disconnect set_state is_open
ends-InPhase s k = rw (disconnect, k) (refl, refl, inl refl)

Step-IsConsistent :
    {c d : Client} {es : List Effect} → Step c d es → IsConsistent c → IsConsistent d
unfolding on_open on_closed on_error set_state
Step-IsConsistent (refuses e o) k = k
Step-IsConsistent {c} (begins e o) k = elim (idle-cases c e k) [
  | inl (o', _) ↦ absurd (false≢true (sym o ∙ o'))
  | inr (_, gone, _) ↦ (o, gone)
]
Step-IsConsistent {c} (fails rc e o) k =
    let (shut, gone) = subst (λ p. InPhase p c.sig c.socket) e k in inr (shut, gone, inr refl)
Step-IsConsistent (hooks rc e o) k = (o, refl)
Step-IsConsistent {c} (stores rc e) k = inl (subst (λ p. InPhase p c.sig c.socket) e k)
Step-IsConsistent {c} (shuts e o) k = elim (idle-cases c e k) [
  | inl linked ↦ linked
  | inr (o', _, _) ↦ absurd (false≢true (sym o' ∙ o))
]
Step-IsConsistent {c} (ends e) k =
    let (o, _) = subst (λ p. InPhase p c.sig c.socket) e k in inr (ends-InPhase c.sig o)
Step-IsConsistent {c} (opens h e) k = callback-InPhase c.call c.sig _ c.socket h e refl k
Step-IsConsistent {c} (closes h e) k = callback-InPhase c.call c.sig _ c.socket h e refl k
Step-IsConsistent {c} (errs h e) k = callback-InPhase c.call c.sig _ c.socket h e refl k
Step-IsConsistent {c} (reads h msg size e) k =
    callback-InPhase c.call c.sig _ c.socket h e (on_message-same c.sig msg size).0 k

Reach-IsConsistent : {c d : Client} → IsConsistent c → Reach c d → IsConsistent d
Reach-IsConsistent k here = k
Reach-IsConsistent k (next r st) = Step-IsConsistent st (Reach-IsConsistent k r)

create-state :
    (cfg : Config) (s : Signaling)
    → create cfg ≡ some s
    → (is_open s.ws ≡ false) × (s.state ≡ disconnected)
unfolding create is_open
create-state cfg s made = ground arith

-- In every state that a new client can reach by calls, one at a time, and callbacks between any of
-- their steps, a client that is connecting or connected while no call runs has stored a socket, and
-- the library holds this socket for it. While a connect runs it may have none.
pub reachable-is_open :
    (cfg : Config) (s : Signaling) (c : Client)
    → create cfg ≡ some s
    → Reach (unused s) c
    → c.call ≡ idle
    → (c.sig.state ≡ connecting) ⊎ (c.sig.state ≡ connected)
    → (is_open c.sig.ws ≡ true) × (c.socket ≡ some c.sig.ws)
reachable-is_open cfg s c made r rests busy =
    let (shut, off) = create-state cfg s made in
    elim (idle-cases c rests (Reach-IsConsistent (inr (shut, refl, inl off)) r)) [
      | inl linked ↦ linked
      | inr (_, _, quiet) ↦ absurd (ground arith)
    ]

-- After the server has closed the connection the client is disconnected, and it cannot connect
-- again before it has been disconnected by a call: `connect` refuses whatever the library would say.
pub connect-on_closed :
    (s : Signaling) (rc : ℤ)
    → is_open s.ws ≡ true
    → (connect (on_closed s).0 rc ≡ record { sig = (on_closed s).0; effects = []; result = false })
      × ((on_closed s).0.state ≡ disconnected)
      × (is_open rc ≡ true → (connect (disconnect (on_closed s).0).0 rc).result ≡ true)
unfolding connect on_closed disconnect set_state is_open
connect-on_closed s rc o = (rw o refl, refl, λ k. rw o (rw k refl))
