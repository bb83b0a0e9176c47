-- ===== src/ReceiveSession/Tests.antt =====
-- Runs of a session of src/receive-session.c, and each theorem at an input.
use tether_obs_plugin.Common.{
  ℕ, ◌≡◌, ◌≤◌, refl, Bool, true, false, List, [], ◌∷◌, none, some, Bytes, codes, if◌then◌else◌,
  str_eq,
}
use tether_obs_plugin.Signaling.{request_accepted, sdp_offer, token_invalid}
use tether_obs_plugin.Sdp.{sdp_message, offer_of}
use tether_obs_plugin.ReceiveSession.{
  Session, RxState, awaiting_accept, WrtcState, signaling_event, rx_eq, wrtc_state_cb, video_mids,
  audio_mids, wrtc_video_cb, wrtc_audio_cb, state_notice,
}
use tether_obs_plugin.ReceiveSession.Transitions.{is_past}
use tether_obs_plugin.ReceiveSession.Offers.{
  Input, signal, network, offers, revives, react, IsOrderly, offers-le,
}
use tether_obs_plugin.ReceiveSession.Streams.{Packet, deliver, deliver_all}

abbrev in_state : RxState → Session
in_state st = record {
  id = 0;
  token = codes "TTHR-ABCD-EFGH-2345";
  refcount = 2;
  state = st;
  subs = record { sub_id = 1; on_video = true; on_audio = false; on_state = true } ∷ [];
  seen_mids = [];
  stats = record {
    video_bytes = 0;
    audio_bytes = 0;
    video_packets = 0;
    audio_packets = 0;
    last_update_ns = 0;
  };
}

abbrev offer : Bytes
offer = sdp_message (codes "p1") (codes "offer") (codes "v=0")

abbrev packet : Bool → Bytes → ℕ → Packet
packet v m n = record { payload = codes "xyz"; size = n; mid = some m; now = 5; is_video = v }

abbrev packets : List Packet
packets = packet true (codes "v0") 3 ∷ packet false (codes "a0") 4 ∷ packet true (codes "v0") 5 ∷ []

listed :
    (video_mids (some (deliver_all (in_state RxState.connected) packets)) ≡ codes "v0" ∷ [])
    × (audio_mids (some (deliver_all (in_state RxState.connected) packets)) ≡ codes "a0" ∷ [])
unfolding video_mids audio_mids deliver_all deliver wrtc_video_cb wrtc_audio_cb str_eq
listed = (refl, refl)

told :
    (signaling_event (in_state awaiting_accept) token_invalid none).notices
    ≡ state_notice 1 RxState.failed ∷ []
unfolding signaling_event
told = refl

no_description : offer_of (codes "{}") ≡ none
unfolding offer_of
no_description = refl

abbrev inputs : List Input
inputs =
    signal request_accepted none
    ∷ signal sdp_offer (some offer)
    ∷ network WrtcState.connected
    ∷ signal sdp_offer (some offer)
    ∷ []

inputs-IsOrderly : IsOrderly (in_state awaiting_accept) inputs
unfolding revives react rx_eq signaling_event wrtc_state_cb
inputs-IsOrderly = (refl, (refl, (refl, (refl, tt))))

offers-le_example :
    offers (in_state awaiting_accept) inputs ≤ (if is_past awaiting_accept then 0 else 1)
offers-le_example = offers-le (in_state awaiting_accept) inputs inputs-IsOrderly
