-- ===== src/Webrtc/Streams.antt =====
-- src/webrtc.c with src/receive-session.c: the packets of a connection in the session that owns it.
use tether_obs_plugin.Common.{
  ℕ, zero, suc, ◌<◌, ◌≡◌, ap, true, false, List, [], ◌∷◌, Option, none, some, arith, ◌==◌,
  if◌then◌else◌, Bytes, length, All, ℤ, pos, negsuc, Bool-cases, inl, inr, Option-cases, some_inj,
}
use tether_obs_plugin.ReceiveSession.{Session}
use tether_obs_plugin.ReceiveSession.Streams as Seen
use tether_obs_plugin.ReceiveSession.Streams.{Packet, Fits, deliver_all, deliver_all-IsDistinct}
use tether_obs_plugin.Webrtc.{
  Webrtc, WebrtcConfig, Environment, TrackEntry, Call, told_video, told_audio, create, find_handle,
  deliver, on_track_message,
}
use tether_obs_plugin.Webrtc.Tracks.{Op, apply, IsTable, apply-IsTable, create-IsTable}

-- The calls of `wrtc_video_cb` and `wrtc_audio_cb` at a reading of the clock
unfoldable pub packets : ℕ → List Call → List Packet
packets now [] = []
packets now (told_video tr msg mid ∷ cs) =
    record { payload = msg; size = length msg; mid = mid; now = now; is_video = true }
    ∷ packets now cs
packets now (told_audio tr msg mid ∷ cs) =
    record { payload = msg; size = length msg; mid = mid; now = now; is_video = false }
    ∷ packets now cs
packets now (c ∷ cs) = packets now cs

-- A use of the connection, or a frame that arrives on a track.
pub data Input : Type 0 where
  uses : Op → Input
  hears : ℕ → Option Bytes → ℤ → ℕ → Input

unfoldable pub hear_all : (ℕ → Bytes) → Webrtc → Session → List Input → Session
unfolding packets
hear_all decimal w s [] = s
hear_all decimal w s (uses o ∷ is) = hear_all decimal (apply decimal w o) s is
hear_all decimal w s (hears tr msg size now ∷ is) =
    hear_all decimal w (deliver_all s (packets now (on_track_message w tr msg size))) is

find_handle-short :
    (tr : ℕ) (es : List TrackEntry) (e : TrackEntry)
    → All (λ (d : TrackEntry). length d.mid < 64) es
    → find_handle tr es ≡ some e
    → length e.mid < 64
unfolding find_handle
find_handle-short tr [] e a h = cc
find_handle-short tr (d ∷ es) e a h = elim (Bool-cases (d.handle == tr)) [
  | inl k ↦ omega (arith, a.0, ap (λ (x : TrackEntry). length x.mid) (some_inj (rw k at h)))
  | inr k ↦ find_handle-short tr es e a.1 (rw k at h)
]

deliver-Fits :
    (w : Webrtc) (tr now : ℕ) (msg : Bytes)
    → All (λ (d : TrackEntry). length d.mid < 64) w.tracks
    → All (λ p. Fits p.mid) (packets now (deliver w tr msg (find_handle tr w.tracks)))
unfolding packets deliver
deliver-Fits w tr now msg a = elim (Option-cases (find_handle tr w.tracks)) [
  | inl h ↦ rw h (audio none tt)
  | inr (e, h) ↦
      let short : length e.mid < 64 = find_handle-short tr w.tracks e a h in
      elim (Bool-cases e.is_video) [
        | inl v ↦ rw (h, v) (video (some e.mid) short)
        | inr v ↦ rw (h, v) (audio (some e.mid) short)
      ]
]
  where
    audio :
        (mid : Option Bytes)
        → Fits mid
        → All
            (λ p. Fits p.mid)
            (packets now (if w.cfg.on_audio then told_audio tr msg mid ∷ [] else []))
    audio mid f = elim (Bool-cases w.cfg.on_audio) [ inl on ↦ rw on (f, tt) | inr off ↦ rw off tt ]

    video :
        (mid : Option Bytes)
        → Fits mid
        → All
            (λ p. Fits p.mid)
            (packets now (if w.cfg.on_video then told_video tr msg mid ∷ [] else []))
    video mid f = elim (Bool-cases w.cfg.on_video) [ inl on ↦ rw on (f, tt) | inr off ↦ rw off tt ]

message-Fits :
    (w : Webrtc) (tr now : ℕ) (msg : Option Bytes) (size : ℤ)
    → All (λ (d : TrackEntry). length d.mid < 64) w.tracks
    → All (λ p. Fits p.mid) (packets now (on_track_message w tr msg size))
unfolding on_track_message
message-Fits w tr now none size a = unfold packets in tt
message-Fits w tr now (some msg) (negsuc n) a = unfold packets in tt
message-Fits w tr now (some msg) (pos zero) a = unfold packets in tt
message-Fits w tr now (some msg) (pos (suc n)) a = deliver-Fits w tr now msg a

hear_all-IsDistinct :
    (decimal : ℕ → Bytes) (w : Webrtc) (s : Session) (is : List Input)
    → IsTable w
    → Seen.IsDistinct s.seen_mids
    → Seen.IsDistinct (hear_all decimal w s is).seen_mids
unfolding hear_all
hear_all-IsDistinct decimal w s [] t d = d
hear_all-IsDistinct decimal w s (uses o ∷ is) t d =
    hear_all-IsDistinct decimal (apply decimal w o) s is (apply-IsTable decimal w o t) d
hear_all-IsDistinct decimal w s (hears tr msg size now ∷ is) t d =
    hear_all-IsDistinct decimal w _ is t (
      deliver_all-IsDistinct s (packets now (on_track_message w tr msg size))
        (message-Fits w tr now msg size t.short) d)

-- However a connection is used and whatever frames arrive on its tracks, the session that owns it
-- lists each stream once; the connection is created with the session, which has seen no stream.
pub streams-IsDistinct :
    (decimal : ℕ → Bytes) (env : Environment) (cfg : WebrtcConfig) (rc : ℤ) (w : Webrtc)
    (s : Session) (is : List Input)
    → (create env (some cfg) rc).0 ≡ some w
    → s.seen_mids ≡ []
    → Seen.IsDistinct (hear_all decimal w s is).seen_mids
streams-IsDistinct decimal env cfg rc w s is h e =
    hear_all-IsDistinct decimal w s is (create-IsTable env cfg rc w h) (rw e tt)
