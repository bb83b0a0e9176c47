-- ===== src/Sender/Tests.antt =====
-- Runs of src/sender.c, and each theorem at an input.
use tether_obs_plugin.Common.{
  ◌*◌, ◌-◌, ◌/◌, ◌%◌, ◌<◌, ◌≤◌, ◌∙◌, sym, ap, ℕ, ℤ, zero, suc, ◌+◌, ◌≡◌, refl, arith, true, false,
  List, [], ◌∷◌, ◌++◌, none, some, Bytes, codes, str_eq, str_eq_iff, ltb, if◌then◌else◌, length,
  length-append, Bool-cases, inl, inr, copy_into, is_blank, pos, negsuc,
}
use tether_obs_plugin.Admission
use tether_obs_plugin.Admission.{Peer, pending, Clock}
use tether_obs_plugin.Signaling
use tether_obs_plugin.Signaling.{Event, token_issued, request_pending, sdp_answer}
use tether_obs_plugin.Sdp.{answer_of, ice_of}
use tether_obs_plugin.Json.Fields.{plain_byte}
use tether_obs_plugin.Sdp.{sdp_message}
use tether_obs_plugin.Signaling.{handle_message}
use tether_obs_plugin.ReceiveSession.{
  WrtcState, Session, awaiting_accept, negotiating, remote_offer, signaling_event,
}
use tether_obs_plugin.Sender.{signaled}
use tether_obs_plugin.Sender.Events.{session_local_sdp}
use tether_obs_plugin.ReceiveSession.Transitions.{is_past}
use tether_obs_plugin.Sender.Frames.{
  Frames, encoding, capture, store, take_from, go_on, work_at, work, work_all, Has,
}
use tether_obs_plugin.Sender.HandOver.{work_all-capture}
use tether_obs_plugin.Sender.Offer.{offer-session_local_sdp}
use tether_obs_plugin.Webrtc
use tether_obs_plugin.Webrtc.{set_remote, added_candidate, h264}
use tether_obs_plugin.Audio.Sources.{AudioSender, positive_or}
use tether_obs_plugin.Sender.{
  Sender, ReceiverSession, VideoCapture, SourceEncoder, Callbacks, MediaConfig, Answers, networked,
  create_session, webrtc_config, fallback_or, signals,
}
use tether_obs_plugin.Sender.Events.{
  on_ice_candidate, on_sdp_answer, accept, disconnect_peer, find_session,
}
use tether_obs_plugin.Sender.Setup.{
  SenderConfig, default_server_url, create, IsDecimal, HasDistinctMids, captures_of, captures_from,
  first_source, first_filled, filled, or_single, capture_of, admission_request,
}
use tether_obs_plugin.Sender.Consent.{
  signal, connection, user_revokes, user_disconnects, react_all, create-no_session,
}
use tether_obs_plugin.Sender.Routing.{on_sdp_answer-on_ice_candidate, answer-accept-disconnect}
use tether_obs_plugin.Sender.Setup.{create-HasDistinctMids}
use tether_obs_plugin.Sender.Media.{Routed, create_session-Routed}

-- The digits of a number below 10 ^ fuel
unfoldable digits : ℕ → ℕ → Bytes
digits zero n = []
digits (suc fuel) n =
    let front = digits fuel (n / 10) in
    if ltb n 10 then (48 + n) ∷ [] else front ++ (48 + n % 10) ∷ []

abbrev decimal : ℕ → Bytes
decimal n = digits 10 n

abbrev value : ℕ → Bytes → ℕ
value acc [] = acc
value acc (c ∷ cs) = value (acc * 10 + (c - 48)) cs

abbrev power : ℕ → ℕ
power zero = 1
power (suc fuel) = 10 * power fuel

value-append :
    (acc : ℕ) (cs : Bytes) (c : ℕ) → value acc (cs ++ c ∷ []) ≡ value acc cs * 10 + (c - 48)
value-append acc [] c = refl
value-append acc (d ∷ cs) c = value-append (acc * 10 + (d - 48)) cs c

value-digits : (fuel n : ℕ) → n < power fuel → value 0 (digits fuel n) ≡ n
unfolding digits
value-digits zero n h = omega (arith, h)
value-digits (suc fuel) n h = elim (Bool-cases (ltb n 10)) [
  | inl e ↦ rw (digits, e) (omega arith)
  | inr e ↦
      let rest = value-digits fuel (n / 10) (omega (arith, h)) in
      rw (digits, e, value-append 0 (digits fuel (n / 10)) (48 + n % 10), rest) (omega arith)
]

length-digits : (fuel n : ℕ) → length (digits fuel n) ≤ fuel
unfolding digits
length-digits zero n = omega arith
length-digits (suc fuel) n = elim (Bool-cases (ltb n 10)) [
  | inl e ↦ rw (digits, e) (omega arith)
  | inr e ↦
      rw (digits, e)
        (omega (
          arith,
          length-append (digits fuel (n / 10)) ((48 + n % 10) ∷ []),
          length-digits fuel (n / 10),
        ))
]

abbrev media : MediaConfig
media = record {
  stun_url = none;
  turn_url = none;
  turn_username = none;
  turn_credential = none;
  twitch_st_mode = true;
}

abbrev config : SenderConfig
config = record {
  server_url = none;
  media = media;
  source_name = none;
  video_source_names = some (codes "Cam" ∷ [] ∷ codes "Game" ∷ []);
  audio_source_names = some (codes "Mic/Aux" ∷ codes "Desktop" ∷ []);
  max_receivers = pos 2;
  token_ttl_minutes = pos 0;
  reusable_token = false;
}

abbrev cbs : Callbacks
cbs = record { on_token = true; on_pending = true; on_peer_state = true; on_peer_gone = true }

abbrev captures : List VideoCapture
captures =
    record { source_name = codes "Cam"; mid = codes "video0" }
    ∷ record { source_name = codes "Game"; mid = codes "video1" }
    ∷ []

abbrev connecting : Signaling.Outcome
connecting =
    Signaling.connect
      (record {
        server_url = default_server_url;
        display_name = codes "Cam";
        token = none;
        role = Signaling.Role.sender;
        ttl_text = decimal 30;
        reusable_token = false;
        has_cb = true;
        ws = negsuc 0;
        state = Signaling.State.disconnected;
      })
      (pos 3)

abbrev sender : Sender ℕ ℕ
sender = record {
  media = media;
  audio_source_names = codes "Mic/Aux" ∷ codes "Desktop" ∷ [];
  captures = captures;
  cbs = cbs;
  sig = connecting.sig;
  adm = Admission.create (admission_request config);
  sessions = [];
  current_token = [];
}

created : create decimal (some config) cbs (pos 3) ≡ some (sender, signals connecting.effects)
unfolding create captures_of captures_from first_source first_filled filled or_single capture_of
    copy_into is_blank Signaling.create fallback_or Signaling.or_nothing Signaling.filled_or_null
    positive_or digits
created = refl

texts : IsDecimal decimal
texts = record {
  apart = λ m n h k. elim (Bool-cases (str_eq (decimal m) (decimal n))) [
    | inl e ↦
        let same : m ≡ n =
          sym (value-digits 10 m (omega (arith, h, k)))
          ∙ ap (value 0) ((str_eq_iff (decimal m) (decimal n)).0 e)
          ∙ value-digits 10 n (omega (arith, k)) in
        absurd (omega (arith, h, same))
    | inr e ↦ e
  ];
  short = λ n k. omega (arith, length-digits 10 n);
}

create-HasDistinctMids_example : HasDistinctMids captures
create-HasDistinctMids_example =
    create-HasDistinctMids decimal config cbs (pos 3) sender (signals connecting.effects) texts
      (omega arith) created

abbrev clock : Clock
clock = record { at_check = 5; at_prune = 6; at_push = 7; at_seen = 8 }

abbrev env : Webrtc.Environment
env = record { no_stun = none; bind_loopback = none; bind_ip = none }

abbrev answers : Answers ℕ
answers = record {
  env = env;
  decimal = decimal;
  connection = pos 40;
  track = λ i. pos (suc (i + 6));
  found = λ name. true;
  encoder = λ i. some i;
  negotiated = pos 0;
}

abbrev asks : Event
asks = record { kind = request_pending; peer_id = some (codes "p1"); payload = some (codes "{}") }

create-no_session_example :
    (react_all sender (
      signal asks clock (pos 0) answers
      ∷ connection (codes "p1") WrtcState.connected answers
      ∷ user_revokes
      ∷ user_disconnects (some (codes "p1")) answers
      ∷ [])).sessions
    ≡ []
create-no_session_example =
    create-no_session decimal config cbs (pos 3) sender (signals connecting.effects)
      (signal asks clock (pos 0) answers
        ∷ connection (codes "p1") WrtcState.connected answers
        ∷ user_revokes
        ∷ user_disconnects (some (codes "p1")) answers
        ∷ [])
      created

-- The peer that asked is accepted.
abbrev peer : Peer
peer = record {
  peer_id = codes "p1";
  display_name = [];
  fingerprint = [];
  state = pending;
  pinned = false;
  first_seen_ns = 8;
}

abbrev connection_of : Webrtc.Webrtc
connection_of = record {
  cfg = webrtc_config media;
  pc = 40;
  state = WrtcState.new;
  tracks = [];
  next_track_id = 1;
  local_fingerprint = [];
}

connected : (Webrtc.create env (some (webrtc_config media)) (pos 40)).0 ≡ some connection_of
unfolding Webrtc.create
connected = refl

create_session-Routed_example :
    (u : Webrtc.Webrtc) × (audio : AudioSender ℕ ℕ) × (es : List SourceEncoder) × ((create_session
        sender peer answers).0.sessions
      ≡ record {
        peer_id = copy_into 64 (codes "p1");
        wrtc = some u;
        audio = some audio;
        src_encoders = es;
      }
        ∷ [])
    × Routed (λ i. i + 6) 0 u captures es
unfolding is_blank
create_session-Routed_example =
    create_session-Routed sender peer answers (λ i. i + 6) connection_of connected (λ i. refl)
      (refl, (refl, tt))

abbrev session : ReceiverSession ℕ ℕ
session = record {
  peer_id = codes "p1";
  wrtc = some connection_of;
  audio = none;
  src_encoders = [];
}

abbrev streaming : Sender ℕ ℕ
streaming = record sender { sessions = session ∷ [] }

session_found : find_session (codes "p1") (session ∷ []) ≡ some session
unfolding find_session str_eq
session_found = refl

-- The session of another peer stands before it.
abbrev other : ReceiverSession ℕ ℕ
other = record session { peer_id = codes "p0"; wrtc = some (record connection_of { pc = 39 }) }

others_differ : str_eq (codes "p0") (codes "p1") ≡ false
unfolding str_eq
others_differ = refl

on_sdp_answer-on_ice_candidate_example :
    (on_sdp_answer
        (record sender { sessions = other ∷ session ∷ [] })
        (some (codes "p1"))
        (some (codes "{\"sdp\":\"v=0\"}"))
        (pos 0)
      ≡ (elim (answer_of (codes "{\"sdp\":\"v=0\"}")) [
        | none ↦ []
        | some sdp ↦ networked (set_remote 40 sdp (codes "answer")) ∷ []
      ]))
    × (on_ice_candidate
          (record sender { sessions = other ∷ session ∷ [] })
          (some (codes "p1"))
          (some (codes "{\"sdp\":\"v=0\"}"))
          (pos 0)
        ≡ (elim (ice_of (codes "{\"sdp\":\"v=0\"}")) [
          | none ↦ []
          | some (cand, mid) ↦ networked (added_candidate 40 cand (some mid)) ∷ []
        ]))
on_sdp_answer-on_ice_candidate_example =
    on_sdp_answer-on_ice_candidate (record sender { sessions = other ∷ session ∷ [] })
      (codes "{\"sdp\":\"v=0\"}") (pos 0) (other ∷ []) [] session connection_of refl
      (others_differ, tt) refl

answer-accept-disconnect_example :
    on_sdp_answer
      (accept
        (disconnect_peer streaming (some (codes "p1")) answers).0
        (some (codes "p1"))
        false
        answers).0
      (some (codes "p1"))
      (some (codes "{\"sdp\":\"v=0\"}"))
      (pos 0)
    ≡ []
answer-accept-disconnect_example =
    answer-accept-disconnect streaming (codes "p1") (codes "{\"sdp\":\"v=0\"}") false (pos 0)
      answers answers session session_found

-- A receiver that listens
abbrev listener : Signaling.Signaling
listener = record connecting.sig { role = Signaling.Role.receiver }

abbrev waiting_session : Session
waiting_session = record {
  id = 0;
  token = codes "TTHR-ABCD-EFGH-2345";
  refcount = 1;
  state = awaiting_accept;
  subs = [];
  seen_mids = [];
  stats = record {
    video_bytes = 0;
    audio_bytes = 0;
    video_packets = 0;
    audio_packets = 0;
    last_update_ns = 0;
  };
}

offer-session_local_sdp_example :
    (n : ℤ) × (session_local_sdp sender (codes "p1") (codes "offer") (codes "v=0\r\n")
      ≡ signaled (
          Signaling.sent sender.sig.ws
            (sdp_message (codes "p1") (codes "offer") (codes "v=0\r\n"))
            n)
        ∷ [])
    × ((handle_message listener (sdp_message (codes "s") (codes "offer") (codes "v=0\r\n"))).1
        ≡ Signaling.emitted (record {
          kind = Signaling.sdp_offer;
          peer_id = some (codes "s");
          payload = some (sdp_message (codes "s") (codes "offer") (codes "v=0\r\n"));
        })
          ∷ [])
    × ((signaling_event waiting_session Signaling.sdp_offer
          (some (sdp_message (codes "s") (codes "offer") (codes "v=0\r\n")))).applied
        ≡ remote_offer (codes "v=0\r\n") ∷ [])
    × ((signaling_event waiting_session Signaling.sdp_offer
          (some (sdp_message (codes "s") (codes "offer") (codes "v=0\r\n")))).session.state
        ≡ negotiating)
unfolding Signaling.is_open Signaling.connect Signaling.set_state plain_byte is_past
offer-session_local_sdp_example =
    offer-session_local_sdp sender listener waiting_session (codes "p1") (codes "s")
      (codes "v=0\r\n") refl refl refl (refl, tt)

-- Two captures; the encoder thread encodes the first, and the second is ready.
abbrev frames : Frames ℕ
frames = record {
  slots =
      record { latest_frame = 4; frame_ready = false }
      ∷ record { latest_frame = 5; frame_ready = true }
      ∷ [];
  worker = encoding 1;
  worker_running = true;
}

in_turn : work_all 5 (capture frames 0 6) ≡ (1, 5) ∷ (0, 6) ∷ []
unfolding work_all work work_at go_on take_from capture store
in_turn = refl

work_all-capture_example : Has (0, 6) (work_all (2 * 2 + 1) (capture frames 0 6))
work_all-capture_example = work_all-capture frames 0 6 refl tt (omega arith)
