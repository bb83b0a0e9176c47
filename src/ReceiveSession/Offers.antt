-- ===== src/ReceiveSession/Offers.antt =====
-- src/receive-session.c: how often an offer is applied in a whole run.
use tether_obs_plugin.Common.{
  ℕ, suc, ◌+◌, ◌≤◌, ◌≡◌, inl, inr, refl, Bool, true, false, ◌||◌, List, [], ◌∷◌, Option, none, some,
  arith, if◌then◌else◌, Bytes, Bool-cases,
}
use tether_obs_plugin.Signaling.{
  EventKind, request_accepted, token_invalid, token_locked_out, sdp_offer, ice_candidate,
}
use tether_obs_plugin.ReceiveSession.{
  Session, RxState, negotiating, awaiting_accept, WrtcState, Reaction, Applied, remote_offer,
  remote_ice, rx_eq, set_state, wrtc_state_cb, rx_state_of, signaling_event, offer_applied,
  ice_applied,
}
use tether_obs_plugin.ReceiveSession.Transitions.{is_past, set_state-state, offer_past, offer_fresh}

-- An event of the signaling client, or a change of the peer connection.
pub data Input : Type 0 where
  signal : EventKind → Option Bytes → Input
  network : WrtcState → Input

unfoldable pub react : Session → Input → Reaction
react s (signal kind payload) = signaling_event s kind payload
react s (network st) = record {
  session = (wrtc_state_cb s st).0;
  notices = (wrtc_state_cb s st).1;
  applied = [];
}

-- An acceptance after a failure.
unfoldable pub revives : Session → Input → Bool
revives s (signal request_accepted payload) =
    rx_eq s.state RxState.failed || rx_eq s.state RxState.closed
revives s _ = false

abbrev pub IsOrderly : Session → List Input → Type 0
IsOrderly s [] = Unit
IsOrderly s (i ∷ is) = (revives s i ≡ false) × IsOrderly (react s i).session is

pub count_offers : List Applied → ℕ
count_offers [] = 0
count_offers (remote_offer text ∷ as') = suc (count_offers as')
count_offers (remote_ice cand mid ∷ as') = count_offers as'

-- The offers that a run applies to the peer connection.
unfoldable pub offers : Session → List Input → ℕ
offers s [] = 0
offers s (i ∷ is) = count_offers (react s i).applied + offers (react s i).session is

-- The offers that a state still leaves room for.
slack : RxState → ℕ
slack st = if is_past st then 0 else 1

count-offer_applied : (payload : Option Bytes) → count_offers (offer_applied payload) ≤ 1
unfolding count_offers offer_applied
count-offer_applied none = omega arith
count-offer_applied (some json) = ground arith

count-ice_applied : (payload : Option Bytes) → count_offers (ice_applied payload) ≡ 0
unfolding count_offers ice_applied
count-ice_applied none = refl
count-ice_applied (some json) = ground arith

abbrev Budget : Session → Reaction → Type 0
Budget s r = count_offers r.applied + slack r.session.state ≤ slack s.state

slack-le : (st : RxState) → slack st ≤ 1
unfolding slack
slack-le st = ground arith

slack_fresh : (st : RxState) → is_past st ≡ false → slack st ≡ 1
unfolding slack
slack_fresh st h = rw h refl

slack_past : (st : RxState) → is_past st ≡ true → slack st ≡ 0
unfolding slack
slack_past st h = rw h refl

slack_network : (st : WrtcState) → slack (rx_state_of st) ≡ 0
unfolding slack is_past rx_state_of
slack_network WrtcState.new = refl
slack_network _ = refl

offer-Budget :
    (s : Session) (payload : Option Bytes) → Budget s (signaling_event s sdp_offer payload)
offer-Budget s payload = elim (Bool-cases (is_past s.state)) [
  | inl e ↦ rw (offer_past s payload e) (unfold count_offers in omega arith)
  | inr e ↦
      let (applies, moves) = offer_fresh s payload e in
      rw (applies, moves)
        (omega (
          arith,
          count-offer_applied payload,
          slack_past negotiating (unfold is_past in refl),
          slack_fresh s.state e,
        ))
]

accept_alive :
    (st : RxState)
    → (rx_eq st RxState.failed || rx_eq st RxState.closed) ≡ false
    → (rx_eq st negotiating || rx_eq st RxState.connected) ≡ false
    → is_past st ≡ false
unfolding rx_eq is_past
accept_alive RxState.connecting h k = refl
accept_alive awaiting_accept h k = refl
accept_alive RxState.accepted h k = refl
accept_alive negotiating h k = cc
accept_alive RxState.connected h k = cc
accept_alive RxState.failed h k = cc
accept_alive RxState.closed h k = cc

fail_budget : (s : Session) → slack (set_state s RxState.failed).0.state ≤ slack s.state
fail_budget s = rw (set_state-state s RxState.failed) (unfold slack is_past in omega arith)

signal-Budget :
    (s : Session) (kind : EventKind) (payload : Option Bytes)
    → revives s (signal kind payload) ≡ false
    → Budget s (signaling_event s kind payload)
unfolding signaling_event count_offers revives
signal-Budget s request_accepted payload h =
    elim (Bool-cases (rx_eq s.state negotiating || rx_eq s.state RxState.connected)) [
      | inl e ↦ rw e (omega arith)
      | inr e ↦
          let fresh = accept_alive s.state h e in
          rw e (
            omega
              (arith, slack_fresh s.state fresh, slack-le (set_state s RxState.accepted).0.state))
    ]
signal-Budget s token_invalid payload h = omega (arith, fail_budget s)
signal-Budget s token_locked_out payload h = omega (arith, fail_budget s)
signal-Budget s sdp_offer payload h = offer-Budget s payload
signal-Budget s ice_candidate payload h = omega (arith, count-ice_applied payload)
signal-Budget s _ payload h = omega arith

network_budget : (s : Session) (st : WrtcState) → slack (wrtc_state_cb s st).0.state ≤ slack s.state
unfolding wrtc_state_cb rx_state_of
network_budget s st = rw (set_state-state s (rx_state_of st)) (omega (arith, slack_network st))

react-Budget : (s : Session) (i : Input) → revives s i ≡ false → Budget s (react s i)
react-Budget s (signal kind payload) h = unfold react in signal-Budget s kind payload h
react-Budget s (network st) h = unfold react count_offers in omega (arith, network_budget s st)

offers-le-slack : (s : Session) (is : List Input) → IsOrderly s is → offers s is ≤ slack s.state
unfolding offers
offers-le-slack s [] o = omega arith
offers-le-slack s (i ∷ is) o =
    omega (arith, react-Budget s i o.0, offers-le-slack (react s i).session is o.1)

-- In any run of signaling events and network changes in which no acceptance arrives after a failure,
-- at most one offer is applied to the peer connection, and none once the session negotiates, is
-- connected, has failed or is closed.
pub offers-le :
    (s : Session) (is : List Input)
    → IsOrderly s is
    → offers s is ≤ (if is_past s.state then 0 else 1)
offers-le s is o = unfold slack in offers-le-slack s is o
