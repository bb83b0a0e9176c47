-- ===== src/ReceiveSession/Transitions.antt =====
-- src/receive-session.c: what the state machine does with offers, acceptances and failures.
use tether_obs_plugin.Common.{
  ℕ, zero, suc, ◌≡◌, ◌⊎◌, inl, inr, refl, ap, Bool, true, false, ◌||◌, [], ◌∷◌, Option, none, some,
  arith, Bytes, Bool-cases, sym, ◌∙◌,
}
use tether_obs_plugin.Signaling.{request_accepted, sdp_offer}
use tether_obs_plugin.Sdp.{offer_of, sdp_message}
use tether_obs_plugin.Sdp.RoundTrip.{IsUnquoted, offer_of-sdp_message}
use tether_obs_plugin.ReceiveSession.{
  Session, RxState, negotiating, awaiting_accept, Reaction, remote_offer, code_of, rx_eq, set_state,
  signaling_event, offer_applied,
}

-- The states in which an offer has been dealt with, or never will be.
unfoldable pub is_past : RxState → Bool
is_past RxState.connecting = false
is_past awaiting_accept = false
is_past RxState.accepted = false
is_past negotiating = true
is_past RxState.connected = true
is_past RxState.failed = true
is_past RxState.closed = true

pub is_past-eq :
    (st : RxState)
    → (rx_eq st negotiating
        || (rx_eq st RxState.connected || (rx_eq st RxState.failed || rx_eq st RxState.closed)))
      ≡ is_past st
unfolding rx_eq is_past
is_past-eq RxState.connecting = refl
is_past-eq awaiting_accept = refl
is_past-eq RxState.accepted = refl
is_past-eq negotiating = refl
is_past-eq RxState.connected = refl
is_past-eq RxState.failed = refl
is_past-eq RxState.closed = refl

of_code : ℕ → RxState
of_code zero = RxState.connecting
of_code (suc zero) = awaiting_accept
of_code (suc (suc zero)) = RxState.accepted
of_code (suc (suc (suc zero))) = negotiating
of_code (suc (suc (suc (suc zero)))) = RxState.connected
of_code (suc (suc (suc (suc (suc zero))))) = RxState.failed
of_code _ = RxState.closed

of_code-code_of : (st : RxState) → of_code (code_of st) ≡ st
unfolding of_code code_of
of_code-code_of RxState.connecting = refl
of_code-code_of _ = refl

rx_eq→≡ : (a b : RxState) → rx_eq a b ≡ true → a ≡ b
unfolding rx_eq
rx_eq→≡ a b h =
    let e : code_of a ≡ code_of b = ground arith in
    sym (of_code-code_of a) ∙ ap of_code e ∙ of_code-code_of b

pub set_state-state : (s : Session) (st : RxState) → (set_state s st).0.state ≡ st
unfolding set_state
set_state-state s st = elim (Bool-cases (rx_eq s.state st)) [
  | inl e ↦ rw e (rx_eq→≡ s.state st e)
  | inr e ↦ rw e refl
]

pub offer_past :
    (s : Session) (payload : Option Bytes)
    → is_past s.state ≡ true
    → signaling_event s sdp_offer payload ≡ record { session = s; notices = []; applied = [] }
unfolding signaling_event
offer_past s payload h = rw (is_past-eq s.state, h) refl

accept_dead :
    (s : Session) (payload : Option Bytes)
    → (s.state ≡ RxState.failed) ⊎ (s.state ≡ RxState.closed)
    → (signaling_event s request_accepted payload).session.state ≡ RxState.accepted
unfolding signaling_event rx_eq
accept_dead s payload (inl e) = rw (ap code_of e) refl
accept_dead s payload (inr e) = rw (ap code_of e) refl

pub offer_fresh :
    (s : Session) (payload : Option Bytes)
    → is_past s.state ≡ false
    → ((signaling_event s sdp_offer payload).applied ≡ offer_applied payload)
      × ((signaling_event s sdp_offer payload).session.state ≡ negotiating)
unfolding signaling_event
offer_fresh s payload h =
    (rw (is_past-eq s.state, h) refl, rw (is_past-eq s.state, h) (set_state-state s negotiating))

-- The first offer that reaches a session before it negotiates is applied exactly as the sender's
-- description, whatever bytes that holds, and the session negotiates; the peer id and the type in
-- the message hold no quote.
pub offer-sdp_message :
    (s : Session) (peer sdp_type sdp : Bytes)
    → is_past s.state ≡ false
    → IsUnquoted peer
    → IsUnquoted sdp_type
    → ((signaling_event s sdp_offer (some (sdp_message peer sdp_type sdp))).applied
        ≡ remote_offer sdp ∷ [])
      × ((signaling_event s sdp_offer (some (sdp_message peer sdp_type sdp))).session.state
          ≡ negotiating)
unfolding offer_applied
offer-sdp_message s peer sdp_type sdp h a b =
    let (applies, moves) = offer_fresh s (some (sdp_message peer sdp_type sdp)) h in
    (applies ∙ rw (offer_of-sdp_message peer sdp_type sdp a b, offer_applied) refl, moves)

-- An offer without a description moves the session on all the same, and then every later offer is
-- ignored.
pub offer-blank :
    (s : Session) (json : Bytes) (later : Option Bytes)
    → is_past s.state ≡ false
    → offer_of json ≡ none
    → ((signaling_event s sdp_offer (some json)).applied ≡ [])
      × ((signaling_event (signaling_event s sdp_offer (some json)).session sdp_offer later).applied
          ≡ [])
unfolding offer_applied is_past
offer-blank s json later h e =
    let (applies, moves) = offer_fresh s (some json) h in
    (
      applies ∙ rw (e, offer_applied) refl,
      ap (λ (r : Reaction). r.applied) (offer_past _ later (rw moves refl)),
    )

-- After a failure an acceptance takes the session back, and the next offer is applied to the peer
-- connection that has failed.
pub offer-revived :
    (s : Session) (payload offer : Option Bytes)
    → (s.state ≡ RxState.failed) ⊎ (s.state ≡ RxState.closed)
    → (signaling_event (signaling_event s request_accepted payload).session sdp_offer offer).applied
      ≡ offer_applied offer
offer-revived s payload offer h =
    (offer_fresh _ offer (rw (accept_dead s payload h) (unfold is_past in refl))).0
