-- ===== src/Sender/Media.antt =====
-- src/sender.c with src/webrtc.c and src/audio.c: the tracks of a new session.
use tether_obs_plugin.Common.{
  ℕ, suc, ◌+◌, ◌≡◌, refl, ap, sym, subst, ◌∙◌, Bool, true, false, ◌&&◌, List, [], ◌∷◌, ◌++◌,
  append-nil, append_assoc, Option, none, some, if◌then◌else◌, Bytes, is_blank, copy_into, All, ℤ,
  pos,
}
use tether_obs_plugin.Admission.{Peer}
use tether_obs_plugin.Webrtc
use tether_obs_plugin.Webrtc.{TrackEntry}
use tether_obs_plugin.Webrtc.Calls.{
  add_video_track_ex, add_audio_track, Added, added, find_id, video_mid,
}
use tether_obs_plugin.Webrtc.Tracks.{
  IsTable, Keeps, Grown, same-Grown, apply, adds_audio, apply-Grown, added-find, added-Grown,
  add_video-added, create-IsTable,
}
use tether_obs_plugin.Audio.Sources as Audio
use tether_obs_plugin.Audio.Sources.{AudioSender, attach, attach_encoder}
use tether_obs_plugin.Sender.{
  Sender, VideoCapture, SourceEncoder, Answers, Building, add_videos, attach_one, attach_all,
  names_mic, build, create_session, add_session, webrtc_config,
}

-- Each encoder belongs to its capture, and its track id leads to the handle of the track that the
-- library made for it, under the capture's mid. The tracks are counted from `k`.
abbrev pub Routed : (ℕ → ℕ) → ℕ → Webrtc.Webrtc → List VideoCapture → List SourceEncoder → Type 0
Routed handle k w [] [] = Unit
Routed handle k w [] (e ∷ es) = ⊥
Routed handle k w (c ∷ cs) [] = ⊥
Routed handle k w (c ∷ cs) (e ∷ es) =
    (e.mid ≡ copy_into 64 c.mid)
    × ((id : ℕ) × (e.video_track_id ≡ some id)
        × (find_id id w.tracks
            ≡ some (record {
              handle = suc (handle k);
              track_id = id;
              is_video = true;
              mid = copy_into 64 c.mid;
            })))
    × Routed handle (k + 1) w cs es

Routed-Keeps :
    (handle : ℕ → ℕ) (k : ℕ) (w w' : Webrtc.Webrtc) (cs : List VideoCapture)
    (es : List SourceEncoder)
    → Keeps w w'
    → Routed handle k w cs es
    → Routed handle k w' cs es
Routed-Keeps handle k w w' [] [] g r = tt
Routed-Keeps handle k w w' [] (e ∷ es) g r = r
Routed-Keeps handle k w w' (c ∷ cs) [] g r = r
Routed-Keeps handle k w w' (c ∷ cs) (e ∷ es) g (m, (id, given, found), rest) =
    (m, (id, given, g id _ found), Routed-Keeps handle (k + 1) w w' cs es g rest)

video_mid-filled :
    (decimal : ℕ → Bytes) (w : Webrtc.Webrtc) (mid : Bytes)
    → is_blank (some mid) ≡ false
    → video_mid decimal w (some mid) ≡ mid
unfolding video_mid
video_mid-filled decimal w mid h = rw h refl

-- A video track that the library makes, as it stands in the table.
record NewTrack (w : Webrtc.Webrtc) (n : ℕ) (mid : Bytes) (a : Added) : Type 0 where
  given : a.id ≡ some w.next_track_id
  found :
      find_id w.next_track_id a.webrtc.tracks
      ≡ some (record {
        handle = suc n;
        track_id = w.next_track_id;
        is_video = true;
        mid = copy_into 64 mid;
      })
  grown : Grown w a.webrtc

add_video-NewTrack :
    (decimal : ℕ → Bytes) (w : Webrtc.Webrtc) (mid : Bytes) (label : Option Bytes) (rc : ℤ) (n : ℕ)
    → rc ≡ pos (suc n)
    → is_blank (some mid) ≡ false
    → IsTable w
    → NewTrack w n mid (add_video_track_ex decimal w (some mid) label rc)
add_video-NewTrack decimal w mid label rc n e h t =
    let (cs, k) = add_video-added decimal w (some mid) label rc in
    let plain : add_video_track_ex decimal w (some mid) label rc
        ≡ added w (pos (suc n)) true mid cs =
      k
      ∙ ap (λ m. added w rc true m cs) (video_mid-filled decimal w mid h)
      ∙ ap (λ i. added w i true mid cs) e in
    let (given, found) = added-find w n true mid cs t in
    subst (NewTrack w n mid) (sym plain)
      (record { given = given; found = found; grown = added-Grown w (pos (suc n)) true mid cs t })

-- What the loop over the captures leaves
record Videos {E A : Type 0} (handle : ℕ → ℕ) (caps : List VideoCapture) (b b' : Building E A)
    : Type 0 where
  new : List SourceEncoder
  encoders : b'.encoders ≡ b.encoders ++ new
  routed : Routed handle b.calls b'.webrtc caps new
  grown : Grown b.webrtc b'.webrtc

Grown-trans : (u v w : Webrtc.Webrtc) → Grown u v → Grown v w → Grown u w
Grown-trans u v w g h = record { table = h.table; keeps = λ id e k. h.keeps id e (g.keeps id e k) }

add_videos-Videos :
    {E A : Type 0} (ans : Answers E) (handle : ℕ → ℕ) (caps : List VideoCapture) (b : Building E A)
    → ((i : ℕ) → ans.track i ≡ pos (suc (handle i)))
    → All (λ (c : VideoCapture). is_blank (some c.mid) ≡ false) caps
    → IsTable b.webrtc
    → Videos handle caps b (add_videos ans caps b)
unfolding add_videos
add_videos-Videos ans handle [] b made filled t = record {
  new = [];
  encoders = sym (append-nil b.encoders);
  routed = tt;
  grown = same-Grown b.webrtc b.webrtc refl refl t;
}
add_videos-Videos ans handle (c ∷ cs) b made filled t =
    let a =
      add_video_track_ex ans.decimal b.webrtc (some c.mid) (some c.source_name)
        (ans.track b.calls) in
    let here : NewTrack b.webrtc (handle b.calls) c.mid a =
      add_video-NewTrack ans.decimal b.webrtc c.mid (some c.source_name) (ans.track b.calls)
        (handle b.calls) (made b.calls) filled.0 t in
    let one : SourceEncoder = record { mid = copy_into 64 c.mid; video_track_id = a.id } in
    let b1 = record b {
      webrtc = a.webrtc;
      encoders = b.encoders ++ one ∷ [];
      calls = b.calls + 1;
      made = b.made ++ a.calls;
    } in
    let rest = add_videos-Videos ans handle cs b1 made filled.1 (here.grown.table) in
    record {
      new = one ∷ rest.new;
      encoders = rest.encoders ∙ append_assoc b.encoders (one ∷ []) rest.new;
      routed = (
        refl,
        (b.webrtc.next_track_id, here.given, rest.grown.keeps _ _ here.found),
        rest.routed,
      );
      grown = Grown-trans b.webrtc a.webrtc _ here.grown rest.grown;
    }

attach_encoder-webrtc :
    {E A : Type 0} (s : AudioSender E A) (a : Added) (id : Option ℕ) (enc : Option E)
    → (attach_encoder s a id enc).webrtc ≡ a.webrtc
unfolding attach_encoder
attach_encoder-webrtc s a none enc = refl
attach_encoder-webrtc s a (some id) none = refl
attach_encoder-webrtc s a (some id) (some enc) = refl

attach-Grown :
    {E A : Type 0} (decimal : ℕ → Bytes) (s : AudioSender E A) (w : Webrtc.Webrtc)
    (name label : Option Bytes) (found : Bool) (rc : ℤ) (enc : Option E)
    → IsTable w
    → Grown w (attach decimal s w name label found rc enc).webrtc
unfolding attach apply
attach-Grown decimal s w none label found rc enc t = same-Grown w w refl refl t
attach-Grown decimal s w (some name) label false rc enc t = same-Grown w w refl refl t
attach-Grown decimal s w (some name) label true rc enc t =
    subst (Grown w) (sym (attach_encoder-webrtc s (add_audio_track decimal w label rc) _ enc))
      (apply-Grown decimal w (adds_audio label rc) t)

-- What the loop over the audio sources leaves
record Audios {E A : Type 0} (b b' : Building E A) : Type 0 where
  encoders : b'.encoders ≡ b.encoders
  grown : Grown b.webrtc b'.webrtc

attach_one-Audios :
    {E A : Type 0} (ans : Answers E) (name : Bytes) (b : Building E A)
    → IsTable b.webrtc
    → Audios b (attach_one ans name b)
unfolding attach_one
attach_one-Audios ans name b t = record {
  encoders = refl;
  grown = attach-Grown ans.decimal b.audio b.webrtc (some name) (some name) (ans.found name) _ _ t;
}

next-Audios :
    {E A : Type 0} (ans : Answers E) (skip : Bool) (name : Bytes) (b : Building E A)
    → IsTable b.webrtc
    → Audios b (if skip then b else attach_one ans name b)
next-Audios ans true name b t = record {
  encoders = refl;
  grown = same-Grown b.webrtc b.webrtc refl refl t;
}
next-Audios ans false name b t = attach_one-Audios ans name b t

attach_all-Audios :
    {E A : Type 0} (ans : Answers E) (twitch : Bool) (names : List Bytes) (b : Building E A)
    → IsTable b.webrtc
    → Audios b (attach_all ans twitch names b)
unfolding attach_all
attach_all-Audios ans twitch [] b t = record {
  encoders = refl;
  grown = same-Grown b.webrtc b.webrtc refl refl t;
}
attach_all-Audios ans twitch (name ∷ names) b t =
    let b1 = if twitch && names_mic name then b else attach_one ans name b in
    let first = next-Audios ans (twitch && names_mic name) name b t in
    let rest = attach_all-Audios ans twitch names b1 first.grown.table in
    record {
      encoders = rest.encoders ∙ first.encoders;
      grown = Grown-trans b.webrtc b1.webrtc _ first.grown rest.grown;
    }

add_session-Routed :
    {E A : Type 0} (s : Sender E A) (id : Bytes) (ans : Answers E) (handle : ℕ → ℕ)
    (w : Webrtc.Webrtc)
    → ((i : ℕ) → ans.track i ≡ pos (suc (handle i)))
    → All (λ (c : VideoCapture). is_blank (some c.mid) ≡ false) s.captures
    → IsTable w
    → (b : Building E A) × ((add_session s id ans w).0.sessions
        ≡ s.sessions
          ++ record {
            peer_id = copy_into 64 id;
            wrtc = some b.webrtc;
            audio = some b.audio;
            src_encoders = b.encoders;
          }
            ∷ [])
      × IsTable b.webrtc
      × Routed handle 0 b.webrtc s.captures b.encoders
unfolding add_session build
add_session-Routed s id ans handle w made filled t =
    let start : Building _ _ = record {
      webrtc = w;
      audio = Audio.create (pos 48000) (pos 2) (pos 96);
      encoders = [];
      calls = 0;
      made = [];
    } in
    let v = add_videos-Videos ans handle s.captures start made filled t in
    let b1 = add_videos ans s.captures start in
    let a = attach_all-Audios ans s.media.twitch_st_mode s.audio_source_names b1 v.grown.table in
    let b = attach_all ans s.media.twitch_st_mode s.audio_source_names b1 in
    (
      b,
      refl,
      a.grown.table,
      rw (a.encoders, v.encoders)
          (Routed-Keeps handle 0 b1.webrtc b.webrtc s.captures v.new a.grown.keeps v.routed),
    )

create_session-made :
    {E A : Type 0} (s : Sender E A) (p : Peer) (ans : Answers E) (w : Webrtc.Webrtc)
    → (Webrtc.create ans.env (some (webrtc_config s.media)) ans.connection).0 ≡ some w
    → (create_session s p ans).0 ≡ (add_session s p.peer_id ans w).0
unfolding create_session
create_session-made s p ans w h = rw (create_session, h) refl

-- Every capture of a new session has its track: when the connection can be made and the library makes
-- every track, and each capture has a mid, `create_session` puts one session at the end of the list;
-- it has one encoder for each capture, in their order, under the capture's mid, and the track id of
-- each leads, in the finished table with the audio tracks, to the handle that the library returned for
-- that capture, as a video track with that mid.
pub create_session-Routed :
    {E A : Type 0} (s : Sender E A) (p : Peer) (ans : Answers E) (handle : ℕ → ℕ)
    (w : Webrtc.Webrtc)
    → (Webrtc.create ans.env (some (webrtc_config s.media)) ans.connection).0 ≡ some w
    → ((i : ℕ) → ans.track i ≡ pos (suc (handle i)))
    → All (λ (c : VideoCapture). is_blank (some c.mid) ≡ false) s.captures
    → (u : Webrtc.Webrtc) × (audio : AudioSender E A) × (es : List SourceEncoder) × ((create_session
          s p ans).0.sessions
        ≡ s.sessions
          ++ record {
            peer_id = copy_into 64 p.peer_id;
            wrtc = some u;
            audio = some audio;
            src_encoders = es;
          }
            ∷ [])
      × Routed handle 0 u s.captures es
create_session-Routed s p ans handle w h made filled =
    let t = create-IsTable ans.env (webrtc_config s.media) ans.connection w h in
    let (b, e, table, routed) = add_session-Routed s p.peer_id ans handle w made filled t in
    (
      b.webrtc,
      b.audio,
      b.encoders,
      ap (λ (x : Sender _ _). x.sessions) (create_session-made s p ans w h) ∙ e,
      routed,
    )
