-- ===== src/ReceiveSession/Streams.antt =====
-- src/receive-session.c: the streams that a session has seen, and its counters.
use tether_obs_plugin.Common.{
  ℕ, ◌+◌, ◌%◌, ◌<◌, ◌≡◌, refl, ap, Bool, true, false, ◌||◌, List, [], ◌∷◌, ◌++◌, Option, none, some,
  arith, if◌then◌else◌, Bytes, str_eq, str_eq_iff, is_blank, take, take_all, length, Bool-cases,
  inl, inr, ◌∙◌, All,
}
use tether_obs_plugin.ReceiveSession.{
  Session, MidEntry, Stats, has_mid, remember_mid, wrtc_video_cb, wrtc_audio_cb, u64_mod, mid_max,
}

-- A packet as the callbacks get it.
pub record Packet : Type 0 where
  pub payload : Bytes
  pub size : ℕ
  pub mid : Option Bytes
  pub now : ℕ
  pub is_video : Bool

unfoldable pub deliver : Session → Packet → Session
deliver s p =
    if p.is_video
    then (wrtc_video_cb s p.payload p.size p.mid p.now).0
    else (wrtc_audio_cb s p.payload p.size p.mid p.now).0

unfoldable pub deliver_all : Session → List Packet → Session
deliver_all s [] = s
deliver_all s (p ∷ ps) = deliver_all (deliver s p) ps

abbrev pub IsDistinct : List MidEntry → Type 0
IsDistinct [] = Unit
IsDistinct (e ∷ es) = (has_mid e.mid es ≡ false) × IsDistinct es

has_mid-append :
    (m : Bytes) (es : List MidEntry) (e : MidEntry)
    → has_mid m (es ++ e ∷ []) ≡ (has_mid m es || str_eq e.mid m)
unfolding has_mid
has_mid-append m [] e = ground arith
has_mid-append m (d ∷ es) e = ground (arith, has_mid-append m es e)

append-IsDistinct :
    (es : List MidEntry) (e : MidEntry)
    → IsDistinct es
    → has_mid e.mid es ≡ false
    → IsDistinct (es ++ e ∷ [])
unfolding has_mid
append-IsDistinct [] e d h = (refl, tt)
append-IsDistinct (c ∷ es) e d h =
    let apart : str_eq e.mid c.mid ≡ false =
      ground (arith, str_eq_iff e.mid c.mid, str_eq_iff c.mid e.mid) in
    (has_mid-append c.mid es e ∙ rw (d.0, apart) refl, append-IsDistinct es e d.1 (ground arith))

-- The mids that fit into the 64 bytes of `mid`.
abbrev pub Fits : Option Bytes → Type 0
Fits none = Unit
Fits (some m) = length m < mid_max

remember_mid-IsDistinct :
    (s : Session) (mid : Option Bytes) (v : Bool)
    → Fits mid
    → IsDistinct s.seen_mids
    → IsDistinct (remember_mid s mid v).seen_mids
unfolding remember_mid
remember_mid-IsDistinct s none v f d = d
remember_mid-IsDistinct s (some m) v f d =
    elim (Bool-cases (is_blank (some m) || has_mid m s.seen_mids)) [
      | inl e ↦ rw e d
      | inr e ↦
          let whole : take 63 m ≡ m = take_all 63 m (omega arith) in
          let fresh : has_mid m s.seen_mids ≡ false = ground arith in
          rw e (append-IsDistinct s.seen_mids _ d (rw whole fresh))
    ]

deliver-IsDistinct :
    (s : Session) (p : Packet)
    → Fits p.mid
    → IsDistinct s.seen_mids
    → IsDistinct (deliver s p).seen_mids
unfolding deliver wrtc_video_cb wrtc_audio_cb
deliver-IsDistinct s p f d = elim (Bool-cases p.is_video) [
  | inl e ↦ rw e (remember_mid-IsDistinct _ p.mid true f d)
  | inr e ↦ rw e (remember_mid-IsDistinct _ p.mid false f d)
]

-- However many packets arrive, each stream is listed once, if the mids are shorter than 64 bytes.
pub deliver_all-IsDistinct :
    (s : Session) (ps : List Packet)
    → All (λ p. Fits p.mid) ps
    → IsDistinct s.seen_mids
    → IsDistinct (deliver_all s ps).seen_mids
unfolding deliver_all
deliver_all-IsDistinct s [] f d = d
deliver_all-IsDistinct s (p ∷ ps) f d =
    deliver_all-IsDistinct (deliver s p) ps f.1 (deliver-IsDistinct s p f.0 d)

video_size : Packet → ℕ
video_size p = if p.is_video then p.size else 0

-- The bytes of the video packets of a list.
pub video_total : List Packet → ℕ
video_total [] = 0
video_total (p ∷ ps) = video_size p + video_total ps

remember_mid-stats :
    (s : Session) (mid : Option Bytes) (v : Bool) → (remember_mid s mid v).stats ≡ s.stats
unfolding remember_mid
remember_mid-stats s none v = refl
remember_mid-stats s (some m) v = ground arith

deliver-video_bytes :
    (s : Session) (p : Packet)
    → s.stats.video_bytes < u64_mod
    → (deliver s p).stats.video_bytes ≡ (s.stats.video_bytes + video_size p) % u64_mod
unfolding deliver wrtc_video_cb wrtc_audio_cb video_size
deliver-video_bytes s p h = elim (Bool-cases p.is_video) [
  | inl e ↦ rw e (ap (λ (k : Stats). k.video_bytes) (remember_mid-stats _ p.mid true))
  | inr e ↦
      rw e (ap (λ (k : Stats). k.video_bytes) (remember_mid-stats _ p.mid false) ∙ omega arith)
]

-- The counter of video bytes is the sum over the video packets, modulo 2^64; audio packets do not
-- count.
pub deliver_all-video_bytes :
    (s : Session) (ps : List Packet)
    → s.stats.video_bytes < u64_mod
    → (deliver_all s ps).stats.video_bytes ≡ (s.stats.video_bytes + video_total ps) % u64_mod
unfolding deliver_all video_total
deliver_all-video_bytes s [] h = omega arith
deliver_all-video_bytes s (p ∷ ps) h =
    let e = deliver-video_bytes s p h in
    let ih = deliver_all-video_bytes (deliver s p) ps (omega (arith, e)) in omega (arith, e, ih)
