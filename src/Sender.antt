-- ===== src/Sender.antt =====
-- src/sender.c: the sender's receivers: sessions, the events of the signaling client, and the user's
-- decisions. It is built from Admission, Signaling, Webrtc and Audio; a call that the admission makes
-- of `on_changed` is answered here, within the operation that caused it. What OBS, libdatachannel and
-- Opus return is in `Answers`. `E` is the state of an Opus encoder and `A` a sample.
pub mod Events
pub mod Setup
pub mod Consent
pub mod Routing
pub mod Media
pub mod Offer
pub mod Frames
pub mod HandOver
mod Tests
use tether_obs_plugin.Common.{
  ℕ, zero, suc, ◌+◌, Bool, true, false, not, ◌&&◌, ◌||◌, List, [], ◌∷◌, ◌++◌, Option, none, some,
  if◌then◌else◌, Bytes, codes, str_eq, is_blank, copy_into, strip_prefix, after_first, map, ℤ, pos,
  negsuc,
}
use tether_obs_plugin.Admission
use tether_obs_plugin.Admission.{
  Peer, PeerState, pending, accepted, rejected, revoked, disconnected, Clock,
}
use tether_obs_plugin.Signaling
use tether_obs_plugin.Signaling.{
  Event, EventKind, token_issued, request_pending, peer_gone, sdp_answer, ice_candidate,
}
use tether_obs_plugin.Sdp.{answer_of, ice_of, quoted_after}
use tether_obs_plugin.ReceiveSession.{WrtcState}
use tether_obs_plugin.Webrtc
use tether_obs_plugin.Webrtc.{WebrtcConfig, Environment, h264}
use tether_obs_plugin.Webrtc.Calls.{
  add_video_track_ex, apply_remote_sdp, add_remote_ice, negotiate, release,
}
use tether_obs_plugin.Audio.Sources.{AudioSender, attach}
use tether_obs_plugin.Audio.Sources as Audio

-- `tether_sender_state_t`
pub data DialogState : Type 0 where
  idle waiting peer_connected failed : DialogState

-- The part of `struct video_capture` that names the stream
pub record VideoCapture : Type 0 where
  pub source_name : Bytes
  pub mid : Bytes

-- The part of `struct source_encoder` that addresses the track; no id is -1.
pub record SourceEncoder : Type 0 where
  pub mid : Bytes
  pub video_track_id : Option ℕ

-- `struct receiver_session`, with the id of its `session_ctx`
pub record ReceiverSession (E A : Type 0) : Type 0 where
  pub peer_id : Bytes
  pub wrtc : Option Webrtc.Webrtc
  pub audio : Option (AudioSender E A)
  pub src_encoders : List SourceEncoder

-- Which callbacks of the dialog are set
pub record Callbacks : Type 0 where
  pub on_token : Bool
  pub on_pending : Bool
  pub on_peer_state : Bool
  pub on_peer_gone : Bool

-- The fields of the configuration that a session uses
pub record MediaConfig : Type 0 where
  pub stun_url : Option Bytes
  pub turn_url : Option Bytes
  pub turn_username : Option Bytes
  pub turn_credential : Option Bytes
  pub twitch_st_mode : Bool

-- `struct tether_sender`
pub record Sender (E A : Type 0) : Type 0 where
  pub media : MediaConfig
  pub audio_source_names : List Bytes
  pub captures : List VideoCapture
  pub cbs : Callbacks
  pub sig : Signaling.Signaling
  pub adm : Admission.Admission
  pub sessions : List (ReceiverSession E A)
  pub current_token : Bytes

-- What the libraries return while a session is made: the connection, the track of each call of
-- `rtcAddTrackEx`, the sources that OBS has, the encoder of each audio track, and the start of the offer
pub record Answers (E : Type 0) : Type 0 where
  pub env : Environment
  pub decimal : ℕ → Bytes
  pub connection : ℤ
  pub track : ℕ → ℤ
  pub found : Bytes → Bool
  pub encoder : ℕ → Option E
  pub negotiated : ℤ

pub data Effect : Type 0 where
  signaled : Signaling.Effect → Effect
  networked : Webrtc.Call → Effect
  told_token : Bytes → Effect
  told_pending : Bytes → Bytes → Bytes → Effect
  told_peer_state : Bytes → DialogState → Effect
  told_peer_gone : Bytes → Effect

-- `fallback_or`
unfoldable pub fallback_or : Option Bytes → Bytes → Bytes
unfolding is_blank
fallback_or none fallback = fallback
fallback_or (some s) fallback = if is_blank (some s) then fallback else s

unfoldable pub webrtc_config : MediaConfig → WebrtcConfig
unfolding fallback_or
webrtc_config m = record {
  stun_url = some (fallback_or m.stun_url (codes "stun:stun.cloudflare.com:3478"));
  turn_url = m.turn_url;
  turn_username = m.turn_username;
  turn_credential = m.turn_credential;
  video_codec = h264;
  on_local_sdp = true;
  on_local_ice = true;
  on_state = true;
  on_video = false;
  on_audio = false;
}

-- The connection and what is on it, as tracks are added; `calls` counts those of `rtcAddTrackEx`.
pub record Building (E A : Type 0) : Type 0 where
  pub webrtc : Webrtc.Webrtc
  pub audio : AudioSender E A
  pub encoders : List SourceEncoder
  pub calls : ℕ
  pub made : List Webrtc.Call

-- The loop over the captures: a video track for each
unfoldable pub add_videos :
    {E A : Type 0} → Answers E → List VideoCapture → Building E A → Building E A
unfolding copy_into
add_videos ans [] b = b
add_videos ans (cap ∷ caps) b =
    let a =
      add_video_track_ex ans.decimal b.webrtc (some cap.mid) (some cap.source_name)
        (ans.track b.calls) in
    add_videos ans caps (record b {
      webrtc = a.webrtc;
      encoders = b.encoders ++ record { mid = copy_into 64 cap.mid; video_track_id = a.id } ∷ [];
      calls = b.calls + 1;
      made = b.made ++ a.calls;
    })

-- `strstr(name, "Mic")`
unfoldable pub names_mic : Bytes → Bool
unfolding after_first strip_prefix
names_mic name = elim (after_first (codes "Mic") name) [ none ↦ false | some s ↦ true ]

unfoldable pub attach_one : {E A : Type 0} → Answers E → Bytes → Building E A → Building E A
attach_one ans name b =
    let a =
      attach ans.decimal b.audio b.webrtc (some name) (some name) (ans.found name)
        (ans.track b.calls) (ans.encoder b.calls) in
    record b {
      webrtc = a.webrtc;
      audio = a.sender;
      calls = if ans.found name then b.calls + 1 else b.calls;
      made = b.made ++ a.calls;
    }

-- The loop over the audio sources, which leaves out microphones in the mode for streams
unfoldable pub attach_all :
    {E A : Type 0} → Answers E → Bool → List Bytes → Building E A → Building E A
unfolding names_mic attach_one
attach_all ans twitch [] b = b
attach_all ans twitch (name ∷ names) b =
    attach_all ans twitch names (if twitch && names_mic name then b else attach_one ans name b)

unfoldable pub networks : List Webrtc.Call → List Effect
networks [] = []
networks (c ∷ cs) = networked c ∷ networks cs

unfoldable pub signals : List Signaling.Effect → List Effect
signals [] = []
signals (e ∷ es) = signaled e ∷ signals es

unfoldable pub build : {E A : Type 0} → Sender E A → Answers E → Webrtc.Webrtc → Building E A
unfolding add_videos attach_all
build s ans w = attach_all ans s.media.twitch_st_mode s.audio_source_names (
    add_videos ans s.captures (record {
      webrtc = w;
      audio = Audio.create (pos 48000) (pos 2) (pos 96);
      encoders = [];
      calls = 0;
      made = [];
    }))

-- `create_session` once the connection is there
unfoldable pub add_session :
    {E A : Type 0} → Sender E A → Bytes → Answers E → Webrtc.Webrtc → Sender E A × List Effect
unfolding build networks copy_into
add_session s id ans w =
    let b = build s ans w in
    (
      record s {
        sessions =
            s.sessions
            ++ record {
              peer_id = copy_into 64 id;
              wrtc = some b.webrtc;
              audio = some b.audio;
              src_encoders = b.encoders;
            }
              ∷ [];
      },
      networks (b.made ++ (negotiate (some b.webrtc) ans.negotiated).1),
    )

-- `create_session`
unfoldable pub create_session :
    {E A : Type 0} → Sender E A → Peer → Answers E → Sender E A × List Effect
unfolding add_session webrtc_config
create_session s p ans =
    let made = Webrtc.create ans.env (some (webrtc_config s.media)) ans.connection in
    elim made.0 [
      | none ↦ (s, networks made.1)
      | some w ↦ let r = add_session s p.peer_id ans w in (r.0, networks made.1 ++ r.1)
    ]

unfoldable pub tell_gone : {E A : Type 0} → Sender E A → Bytes → List Effect
tell_gone s id = if s.cbs.on_peer_gone then told_peer_gone id ∷ [] else []

-- `on_admission_changed`, by the state of the peer
unfoldable pub on_state :
    {E A : Type 0} → PeerState → Sender E A → Peer → Answers E → Sender E A × List Effect
unfolding create_session signals tell_gone
on_state accepted s p ans =
    let r = create_session s p ans in
    (r.0, signals (Signaling.accept s.sig (some p.peer_id)).0 ++ r.1)
on_state rejected s p ans =
    (s, signals (Signaling.reject s.sig (some p.peer_id)).0 ++ tell_gone s p.peer_id)
on_state revoked s p ans =
    (s, signals (Signaling.reject s.sig (some p.peer_id)).0 ++ tell_gone s p.peer_id)
on_state pending s p ans = (s, [])
on_state disconnected s p ans = (s, [])

unfoldable pub on_admission_changed :
    {E A : Type 0} → Sender E A → Peer → Answers E → Sender E A × List Effect
unfolding on_state
on_admission_changed s p ans = on_state p.state s p ans

-- An operation of the admission, and its call of `on_changed`
unfoldable pub settle :
    {E A : Type 0} → Sender E A → Admission.Outcome → Answers E → Sender E A × List Effect
unfolding on_admission_changed
settle s o ans = elim o.changed [
  | none ↦ (record s { adm = o.adm }, [])
  | some p ↦ on_admission_changed (record s { adm = o.adm }) p ans
]
