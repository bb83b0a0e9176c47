-- ===== src/Webrtc/Tracks.antt =====
-- src/webrtc.c: the table of tracks over the life of a connection.
use tether_obs_plugin.Common.{
  ℕ, zero, suc, ◌≤◌, ◌<◌, ◌≡◌, refl, ap, sym, ◌∙◌, Bool, true, false, not, List, [], ◌∷◌, ◌++◌,
  Option, none, some, arith, ◌==◌, if◌then◌else◌, Bytes, codes, subst, copy_into, after_first,
  length, length-take, All, All-append, ℤ, pos, negsuc, some_inj,
}
use tether_obs_plugin.Webrtc.{
  Webrtc, WebrtcConfig, Environment, TrackEntry, Call, sent, added_track, RtcState, line, mid_after,
  parse_mid, on_track, on_state_change, on_local_description, push_entry, create, names_video,
  mid_key,
}
use tether_obs_plugin.Webrtc.Calls.{
  is_error, Added, added, video_mid, audio_mid, filled_or, label_or, payload_type_for,
  add_video_track_ex, add_audio_track, find_id, handle_of, track_handle_for, push_packet,
}

-- What happens to a connection.
pub data Op : Type 0 where
  adds_video : Option Bytes → Option Bytes → ℤ → Op
  adds_audio : Option Bytes → ℤ → Op
  meets : ℕ → Option Bytes → Op
  changes : RtcState → Op
  describes : Bytes → Bytes → Op

unfoldable pub apply : (ℕ → Bytes) → Webrtc → Op → Webrtc
apply decimal w (adds_video mid label rc) = (add_video_track_ex decimal w mid label rc).webrtc
apply decimal w (adds_audio label rc) = (add_audio_track decimal w label rc).webrtc
apply decimal w (meets tr desc) = on_track w tr desc
apply decimal w (changes st) = (on_state_change w st).0
apply decimal w (describes sdp sdp_type) = (on_local_description w sdp sdp_type).0

unfoldable pub apply_all : (ℕ → Bytes) → Webrtc → List Op → Webrtc
apply_all decimal w [] = w
apply_all decimal w (o ∷ os) = apply_all decimal (apply decimal w o) os

-- The numbers below the next one are those in use, and no mid fills its buffer.
pub record IsTable (w : Webrtc) : Type 0 where
  pub fresh : (id : ℕ) → w.next_track_id ≤ id → find_id id w.tracks ≡ none
  pub short : All (λ (e : TrackEntry). length e.mid < 64) w.tracks

find_id-append :
    (id : ℕ) (es : List TrackEntry) (e : TrackEntry)
    → find_id id (es ++ e ∷ []) ≡ (elim (find_id id es) [
      | some d ↦ some d
      | none ↦ if e.track_id == id then some e else none
    ])
unfolding find_id
find_id-append id [] e = refl
find_id-append id (d ∷ es) e = ground (arith, find_id-append id es e)

line-le : (n : ℕ) (s : Bytes) → length (line n s) ≤ n
unfolding line
line-le zero s = omega arith
line-le (suc n) [] = omega arith
line-le (suc n) (c ∷ s) = ground (arith, line-le n s)

mid_after-lt : (s : Option Bytes) → length (mid_after s) < 64
unfolding mid_after
mid_after-lt none = omega arith
mid_after-lt (some s) = omega (arith, line-le 63 s)

parse_mid-lt : (desc : Option Bytes) → length (parse_mid desc) < 64
unfolding parse_mid
parse_mid-lt none = omega arith
parse_mid-lt (some desc) = mid_after-lt (after_first mid_key desc)

copy_into-lt : (s : Bytes) → length (copy_into 64 s) < 64
unfolding copy_into
copy_into-lt s = omega (arith, length-take 63 s)

-- An operation leaves every entry where it is.
abbrev pub Keeps : Webrtc → Webrtc → Type 0
Keeps w w' =
    (id : ℕ) (e : TrackEntry) → find_id id w.tracks ≡ some e → find_id id w'.tracks ≡ some e

-- One step of the table
pub record Grown (w w' : Webrtc) : Type 0 where
  pub table : IsTable w'
  pub keeps : Keeps w w'

pub same-Grown :
    (w w' : Webrtc)
    → w'.tracks ≡ w.tracks
    → w'.next_track_id ≡ w.next_track_id
    → IsTable w
    → Grown w w'
same-Grown w w' e n t = record {
  table = record {
    fresh = λ id h. ap (find_id id) e ∙ t.fresh id (omega (arith, n));
    short = rw e (t.short);
  };
  keeps = λ id d h. ap (find_id id) e ∙ h;
}

push_entry-Grown :
    (w : Webrtc) (tr : ℕ) (v : Bool) (mid : Bytes)
    → length mid < 64
    → IsTable w
    → Grown w (push_entry w tr v mid)
unfolding push_entry
push_entry-Grown w tr v mid h t = record {
  table = record {
    fresh = λ id k. find_id-append id w.tracks _ ∙ rw (t.fresh id (omega arith)) (ground arith);
    short = All-append _ w.tracks _ t.short (h, tt);
  };
  keeps = λ id d k. find_id-append id w.tracks _ ∙ rw k refl;
}

pub added-Grown :
    (w : Webrtc) (rc : ℤ) (v : Bool) (mid : Bytes) (cs : List Call)
    → IsTable w
    → Grown w (added w rc v mid cs).webrtc
unfolding added
added-Grown w (pos zero) v mid cs t = same-Grown w w refl refl t
added-Grown w (pos (suc n)) v mid cs t =
    push_entry-Grown w (suc n) v (copy_into 64 mid) (copy_into-lt mid) t
added-Grown w (negsuc n) v mid cs t = same-Grown w w refl refl t

pub apply-Grown :
    (decimal : ℕ → Bytes) (w : Webrtc) (o : Op) → IsTable w → Grown w (apply decimal w o)
unfolding apply
apply-Grown decimal w (adds_video mid label rc) t =
    unfold add_video_track_ex in added-Grown w rc true _ _ t
apply-Grown decimal w (adds_audio label rc) t =
    unfold add_audio_track in added-Grown w rc false _ _ t
apply-Grown decimal w (meets tr desc) t =
    unfold on_track in
    push_entry-Grown w tr (names_video desc) (parse_mid desc) (parse_mid-lt desc) t
apply-Grown decimal w (changes st) t = unfold on_state_change in same-Grown w _ refl refl t
apply-Grown decimal w (describes sdp sdp_type) t =
    unfold on_local_description in same-Grown w _ refl refl t

apply_all-Grown :
    (decimal : ℕ → Bytes) (w : Webrtc) (os : List Op) → IsTable w → Grown w (apply_all decimal w os)
unfolding apply_all
apply_all-Grown decimal w [] t = same-Grown w w refl refl t
apply_all-Grown decimal w (o ∷ os) t =
    let first = apply-Grown decimal w o t in
    let rest = apply_all-Grown decimal (apply decimal w o) os first.table in
    record { table = rest.table; keeps = λ id e h. rest.keeps id e (first.keeps id e h) }

pub create-IsTable :
    (env : Environment) (cfg : WebrtcConfig) (rc : ℤ) (w : Webrtc)
    → (create env (some cfg) rc).0 ≡ some w
    → IsTable w
unfolding create find_id
create-IsTable env cfg (negsuc n) w h = cc
create-IsTable env cfg (pos zero) w h = cc
create-IsTable env cfg (pos (suc n)) w h = record {
  fresh = λ id k. ap (λ (x : Webrtc). find_id id x.tracks) (sym (some_inj h));
  short = rw (← some_inj h) tt;
}

-- The mids that a connection hands on fit into the 64 bytes of the receiver's `mid`.
pub apply_all-IsTable :
    (decimal : ℕ → Bytes) (env : Environment) (cfg : WebrtcConfig) (rc : ℤ) (w : Webrtc)
    (os : List Op)
    → (create env (some cfg) rc).0 ≡ some w
    → IsTable (apply_all decimal w os)
apply_all-IsTable decimal env cfg rc w os h =
    (apply_all-Grown decimal w os (create-IsTable env cfg rc w h)).table

pub added-find :
    (w : Webrtc) (n : ℕ) (v : Bool) (mid : Bytes) (cs : List Call)
    → IsTable w
    → ((added w (pos (suc n)) v mid cs).id ≡ some w.next_track_id)
      × (find_id w.next_track_id (added w (pos (suc n)) v mid cs).webrtc.tracks
          ≡ some (record {
            handle = suc n;
            track_id = w.next_track_id;
            is_video = v;
            mid = copy_into 64 mid;
          }))
unfolding added push_entry
added-find w n v mid cs t = (
  refl,
  find_id-append w.next_track_id w.tracks _
      ∙ rw (t.fresh w.next_track_id (omega arith)) (ground arith),
)

push-found :
    (w : Webrtc) (id : ℕ) (e : TrackEntry) (b : ℕ) (bs : Bytes) (rc : ℤ)
    → find_id id w.tracks ≡ some e
    → push_packet (some w) id (b ∷ bs) rc ≡ (not (is_error rc), sent e.handle (b ∷ bs) ∷ [])
unfolding push_packet track_handle_for handle_of
push-found w id e b bs rc h = rw (push_packet, h) refl

pub apply-IsTable :
    (decimal : ℕ → Bytes) (w : Webrtc) (o : Op) → IsTable w → IsTable (apply decimal w o)
apply-IsTable decimal w o t = (apply-Grown decimal w o t).table

-- What an added track promises: a packet for its id is sent on its handle from then on.
abbrev pub Reaches : (ℕ → Bytes) → Added → ℕ → List Op → Type 0
Reaches decimal a handle after =
    (id : ℕ) × (a.id ≡ some id)
    × ((b : ℕ) (bs : Bytes) (rc : ℤ)
        → push_packet (some (apply_all decimal a.webrtc after)) id (b ∷ bs) rc
          ≡ (not (is_error rc), sent handle (b ∷ bs) ∷ []))

added-Reaches :
    (decimal : ℕ → Bytes) (u : Webrtc) (n : ℕ) (v : Bool) (mid : Bytes) (cs : List Call)
    (after : List Op)
    → IsTable u
    → Reaches decimal (added u (pos (suc n)) v mid cs) (suc n) after
added-Reaches decimal u n v mid cs after t =
    let (given, found) = added-find u n v mid cs t in
    let a = (added u (pos (suc n)) v mid cs).webrtc in
    let grown = apply_all-Grown decimal a after ((added-Grown u (pos (suc n)) v mid cs t).table) in
    (
      u.next_track_id,
      given,
      λ b bs rc.
          push-found (apply_all decimal a after) u.next_track_id
            (record {
              handle = suc n;
              track_id = u.next_track_id;
              is_video = v;
              mid = copy_into 64 mid;
            })
            b bs rc (grown.keeps u.next_track_id _ found),
    )

pub add_video-added :
    (decimal : ℕ → Bytes) (w : Webrtc) (mid label : Option Bytes) (rc : ℤ)
    → (cs : List Call) × (add_video_track_ex decimal w mid label rc
        ≡ added w rc true (video_mid decimal w mid) cs)
unfolding add_video_track_ex
add_video-added decimal w mid label rc = (
  added_track w.pc true (payload_type_for w.cfg.video_codec) (video_mid decimal w mid)
        (filled_or label (codes "tether-video"))
      ∷ [],
  refl,
)

add_audio-added :
    (decimal : ℕ → Bytes) (w : Webrtc) (label : Option Bytes) (rc : ℤ)
    → (m : Bytes) × (cs : List Call) × (add_audio_track decimal w label rc ≡ added w rc false m cs)
unfolding add_audio_track
add_audio-added decimal w label rc = (
  audio_mid decimal w,
  added_track w.pc false 111 (audio_mid decimal w) (label_or label (codes "tether-audio")) ∷ [],
  refl,
)

-- A packet goes to its track: on a connection that was created and used in any way, a video or an
-- audio track that the library makes is given an id, and however the connection is used afterwards, a
-- packet that is pushed to this id is sent on the handle that the library gave for the track.
pub push-add_track :
    (decimal : ℕ → Bytes) (env : Environment) (cfg : WebrtcConfig) (rc : ℤ) (w : Webrtc)
    (before after : List Op) (mid label : Option Bytes) (n : ℕ)
    → (create env (some cfg) rc).0 ≡ some w
    → Reaches decimal
        (add_video_track_ex decimal (apply_all decimal w before) mid label (pos (suc n)))
        (suc n)
        after
      × Reaches decimal
          (add_audio_track decimal (apply_all decimal w before) label (pos (suc n)))
          (suc n)
          after
push-add_track decimal env cfg rc w before after mid label n h =
    let u = apply_all decimal w before in
    let t : IsTable u = apply_all-IsTable decimal env cfg rc w before h in
    let (cs, e) = add_video-added decimal u mid label (pos (suc n)) in
    let m = video_mid decimal u mid in
    let (m', cs', e') = add_audio-added decimal u label (pos (suc n)) in
    (
      subst (λ a. Reaches decimal a (suc n) after) (sym e)
          (added-Reaches decimal u n true m cs after t),
      subst (λ a. Reaches decimal a (suc n) after) (sym e')
          (added-Reaches decimal u n false m' cs' after t),
    )
