-- ===== src/Source/Streams.antt =====
-- src/source.c: the streams that a source plays, of those that its session hands on.
use tether_obs_plugin.Common.{
  ℕ, ◌≡◌, ◌⊎◌, refl, ap, sym, arith, ◌∙◌, Bool, true, false, List, [], ◌∷◌, ◌++◌, Option, none,
  some, if◌then◌else◌, Bytes, ℤ, Bool-cases, inl, inr, str_eq_iff, str_eq_refl, some_inj, none≢some,
  is_blank,
}
use tether_obs_plugin.Audio
use tether_obs_plugin.Source.{Source}
use tether_obs_plugin.Source.Playing.{
  Platform, Decoded, Output, accepts, outputs, decode, decode_with, on_session_video,
  on_session_audio,
}

-- A packet that the session hands on, and what is met then
pub record Packet : Type 0 where
  pub is_video : Bool
  pub payload : Bytes
  pub pts : ℤ
  pub mid : Option Bytes
  pub now : ℕ

-- The libraries that a source plays with
pub record Players (V D A : Type 0) : Type 0 where
  pub platform : Platform
  pub av : V → Bytes → ℤ → Decoded V
  pub opus : D → Bytes → ℕ → D × (ℕ × (ℕ → A))
  pub created : Option D

unfoldable pub play :
    {V D A : Type 0} → Players V D A → Source V D → Packet → Source V D × List (Output A)
unfolding on_session_video on_session_audio
play l s p =
    if p.is_video
    then on_session_video l.platform l.av s (some p.payload) p.pts p.mid p.now
    else on_session_audio l.opus l.created s p.payload p.mid p.now

unfoldable pub play_all :
    {V D A : Type 0} → Players V D A → Source V D → List Packet → Source V D × List (Output A)
unfolding play
play_all l s [] = (s, [])
play_all l s (p ∷ ps) =
    let first = play l s p in let rest = play_all l first.0 ps in (rest.0, first.1 ++ rest.1)

-- A packet with this mid belongs to the stream that is set: none is set, or the packet has no mid, or
-- its mid is the one that is set.
abbrev pub IsOwn : Option Bytes → Option Bytes → Type 0
IsOwn pinned mid = (pinned ≡ none) ⊎ ((pinned ≡ some []) ⊎ ((mid ≡ none) ⊎ (pinned ≡ mid)))

-- The first packets without those that do not belong to the stream that is set for their kind
pub data Keeps (v a : Option Bytes) : List Packet → List Packet → Type 0 where
  none_left : Keeps v a [] []
  keeps :
      (p : Packet) (ps qs : List Packet)
      → IsOwn (if p.is_video then v else a) p.mid
      → Keeps v a ps qs
      → Keeps v a (p ∷ ps) (p ∷ qs)
  leaves :
      (p : Packet) (ps qs : List Packet)
      → ¬ IsOwn (if p.is_video then v else a) p.mid
      → Keeps v a ps qs
      → Keeps v a (p ∷ ps) qs

-- The decoders on the bytes of a packet, whatever its mid
unfoldable pub decode_video :
    {V D A : Type 0} → Players V D A → Source V D → Bytes → ℤ → ℕ → Source V D × List (Output A)
unfolding decode_with
decode_video l s [] pts now = (s, [])
decode_video l s (b ∷ bs) pts now = decode_with l.platform l.av s s.decoder (b ∷ bs) pts now

unfoldable pub feed :
    {V D A : Type 0} → Players V D A → Source V D → Packet → Source V D × List (Output A)
unfolding decode_video
feed l s p =
    let got = Audio.push_packet l.opus l.created s.audio 0 p.payload p.now in
    if p.is_video
    then decode_video l s p.payload p.pts p.now
    else (record s { audio = got.0 }, outputs got.1)

unfoldable pub feed_all :
    {V D A : Type 0} → Players V D A → Source V D → List Packet → Source V D × List (Output A)
unfolding feed
feed_all l s [] = (s, [])
feed_all l s (p ∷ ps) =
    let first = feed l s p in let rest = feed_all l first.0 ps in (rest.0, first.1 ++ rest.1)

IsOwn-accepts : (pinned mid : Option Bytes) → IsOwn pinned mid → accepts pinned mid ≡ true
unfolding accepts is_blank
IsOwn-accepts none mid h = refl
IsOwn-accepts (some p) none h = refl
IsOwn-accepts (some p) (some m) (inl e) = absurd (none≢some (sym e))
IsOwn-accepts (some p) (some m) (inr (inl e)) = rw (some_inj e) refl
IsOwn-accepts (some p) (some m) (inr (inr (inl e))) = absurd (none≢some (sym e))
IsOwn-accepts (some p) (some m) (inr (inr (inr e))) =
    ground (arith, some_inj e, str_eq_refl p, str_eq_iff p m)

blank-or_same : (p m : Bytes) → accepts (some p) (some m) ≡ true → (p ≡ []) ⊎ (p ≡ m)
unfolding accepts is_blank
blank-or_same [] m h = inl refl
blank-or_same (c ∷ cs) m h = inr ((str_eq_iff (c ∷ cs) m).0 h)

accepts-IsOwn : (pinned mid : Option Bytes) → accepts pinned mid ≡ true → IsOwn pinned mid
accepts-IsOwn none mid h = inl refl
accepts-IsOwn (some p) none h = inr (inr (inl refl))
accepts-IsOwn (some p) (some m) h = elim (blank-or_same p m h) [
  | inl e ↦ inr (inl (ap some e))
  | inr e ↦ inr (inr (inr (ap some e)))
]

IsOwn-refused : (pinned mid : Option Bytes) → ¬ IsOwn pinned mid → accepts pinned mid ≡ false
IsOwn-refused pinned mid h = elim (Bool-cases (accepts pinned mid)) [
  | inl e ↦ absurd (h (accepts-IsOwn pinned mid e))
  | inr e ↦ e
]

video_played :
    {V D A : Type 0} (l : Players V D A) (s : Source V D) (data' : Bytes) (pts : ℤ)
    (mid : Option Bytes) (now : ℕ)
    → accepts s.video_mid mid ≡ true
    → on_session_video l.platform l.av s (some data') pts mid now ≡ decode_video l s data' pts now
unfolding on_session_video decode_video
video_played l s [] pts mid now h = refl
video_played l s (b ∷ bs) pts mid now h = rw (on_session_video, h) refl

play-feed :
    {V D A : Type 0} (l : Players V D A) (s : Source V D) (p : Packet)
    → accepts (if p.is_video then s.video_mid else s.audio_mid) p.mid ≡ true
    → play l s p ≡ feed l s p
unfolding play feed on_session_audio
play-feed l s p h = elim (Bool-cases p.is_video) [
  | inl e ↦ rw (play, feed, e) (video_played l s p.payload p.pts p.mid p.now (rw e at h))
  | inr e ↦ rw (play, feed, e) (rw (on_session_audio, (rw e at h)) refl)
]

video_refused :
    {V D A : Type 0} (pl : Platform) (av : V → Bytes → ℤ → Decoded V) (s : Source V D)
    (data' : Bytes) (pts : ℤ) (mid : Option Bytes) (now : ℕ)
    → accepts s.video_mid mid ≡ false
    → on_session_video {A = A} pl av s (some data') pts mid now ≡ (s, [])
unfolding on_session_video
video_refused pl av s [] pts mid now h = refl
video_refused pl av s (b ∷ bs) pts mid now h = rw (on_session_video, h) refl

audio_refused :
    {V D A : Type 0} (opus : D → Bytes → ℕ → D × (ℕ × (ℕ → A))) (created : Option D)
    (s : Source V D) (data' : Bytes) (mid : Option Bytes) (now : ℕ)
    → accepts s.audio_mid mid ≡ false
    → on_session_audio opus created s data' mid now ≡ (s, [])
unfolding on_session_audio
audio_refused opus created s data' mid now h = rw (on_session_audio, h) refl

play-refused :
    {V D A : Type 0} (l : Players V D A) (s : Source V D) (p : Packet)
    → accepts (if p.is_video then s.video_mid else s.audio_mid) p.mid ≡ false
    → play l s p ≡ (s, [])
unfolding play
play-refused l s p h = elim (Bool-cases p.is_video) [
  | inl e ↦ rw (play, e) (video_refused l.platform l.av s p.payload p.pts p.mid p.now (rw e at h))
  | inr e ↦ rw (play, e) (audio_refused l.opus l.created s p.payload p.mid p.now (rw e at h))
]

-- A packet does not change which streams are played.
abbrev SameMids : {V D : Type 0} → Source V D → Source V D → Type 0
SameMids s t = (t.video_mid ≡ s.video_mid) × (t.audio_mid ≡ s.audio_mid)

decode_with-SameMids :
    {V D : Type 0} (A : Type 0) (pl : Platform) (av : V → Bytes → ℤ → Decoded V) (s : Source V D)
    (o : Option V) (data' : Bytes) (pts : ℤ) (now : ℕ)
    → SameMids s (decode_with {A = A} pl av s o data' pts now).0
unfolding decode_with decode
decode_with-SameMids A pl av s none data' pts now = (refl, refl)
decode_with-SameMids A pl av s (some v) data' pts now = (refl, refl)

video-SameMids :
    {V D : Type 0} (A : Type 0) (pl : Platform) (av : V → Bytes → ℤ → Decoded V) (s : Source V D)
    (data' : Bytes) (pts : ℤ) (mid : Option Bytes) (now : ℕ)
    → SameMids s (on_session_video {A = A} pl av s (some data') pts mid now).0
unfolding on_session_video
video-SameMids A pl av s [] pts mid now = (refl, refl)
video-SameMids A pl av s (b ∷ bs) pts mid now = elim (Bool-cases (accepts s.video_mid mid)) [
  | inl h ↦ rw (on_session_video, h) (decode_with-SameMids A pl av s s.decoder (b ∷ bs) pts now)
  | inr h ↦ rw (on_session_video, h) (refl, refl)
]

audio-SameMids :
    {V D A : Type 0} (opus : D → Bytes → ℕ → D × (ℕ × (ℕ → A))) (created : Option D)
    (s : Source V D) (data' : Bytes) (mid : Option Bytes) (now : ℕ)
    → SameMids s (on_session_audio opus created s data' mid now).0
unfolding on_session_audio
audio-SameMids opus created s data' mid now = elim (Bool-cases (accepts s.audio_mid mid)) [
  | inl h ↦ rw (on_session_audio, h) (refl, refl)
  | inr h ↦ rw (on_session_audio, h) (refl, refl)
]

play-SameMids :
    {V D A : Type 0} (l : Players V D A) (s : Source V D) (p : Packet) → SameMids s (play l s p).0
unfolding play
play-SameMids {A} l s p = elim (Bool-cases p.is_video) [
  | inl e ↦ rw (play, e) (video-SameMids A l.platform l.av s p.payload p.pts p.mid p.now)
  | inr e ↦ rw (play, e) (audio-SameMids l.opus l.created s p.payload p.mid p.now)
]

abbrev after_outputs :
    {V D A : Type 0} → List (Output A) → Source V D × List (Output A) → Source V D × List (Output A)
after_outputs out rest = (rest.0, out ++ rest.1)

mids-feed_all :
    {V D A : Type 0} (l : Players V D A) (v a : Option Bytes) (s : Source V D) (ps qs : List Packet)
    → Keeps v a ps qs
    → s.video_mid ≡ v
    → s.audio_mid ≡ a
    → play_all l s ps ≡ feed_all l s qs
unfolding play_all feed_all
mids-feed_all l v a s _ _ none_left hv ha = refl
mids-feed_all l v a s _ _ (keeps p ps qs own rest) hv ha =
    let (ev, ea) = play-SameMids l s p in
    let same : play l s p ≡ feed l s p =
      play-feed l s p (rw (hv, ha) (IsOwn-accepts (if p.is_video then v else a) p.mid own)) in
    ap (after_outputs (play l s p).1)
      (mids-feed_all l v a (play l s p).0 ps qs rest (ev ∙ hv) (ea ∙ ha))
    ∙ ap (λ first. after_outputs first.1 (feed_all l first.0 qs)) same
mids-feed_all l v a s _ _ (leaves p ps qs other rest) hv ha =
    let refused =
      play-refused l s p (rw (hv, ha) (IsOwn-refused (if p.is_video then v else a) p.mid other)) in
    ap (λ first. after_outputs first.1 (play_all l first.0 ps)) refused
    ∙ mids-feed_all l v a s ps qs rest hv ha

-- A source plays exactly its own streams: of any packets that its session hands on, it outputs, in
-- order, what the decoders make of those packets that belong to the stream set for their kind, or that
-- have no mid, or for whose kind no mid or an empty one is set, and ends as these packets leave the
-- decoders; it gives the decoders no other packet, and of an empty video packet it makes nothing.
pub play_all-feed_all :
    {V D A : Type 0} (l : Players V D A) (s : Source V D) (ps qs : List Packet)
    → Keeps s.video_mid s.audio_mid ps qs
    → play_all l s ps ≡ feed_all l s qs
play_all-feed_all l s ps qs k = mids-feed_all l s.video_mid s.audio_mid s ps qs k refl refl
