-- ===== src/Source/Tests.antt =====
-- Runs of src/source.c, and each theorem at an input.
use tether_obs_plugin.Common.{
  ℕ, suc, ◌≡◌, refl, inl, inr, sym, ◌∙◌, str_eq_iff, arith, some_inj, none≢some, true, false, List,
  [], ◌∷◌, none, some, Bytes, codes, str_eq, is_blank, strip_prefix, pos, negsuc,
}
use mathlib.Core.Bool.{false≢true}
use tether_obs_plugin.Registry
use tether_obs_plugin.Registry.{Registry}
use tether_obs_plugin.Registry.References.{occ, refs}
use tether_obs_plugin.Registry.Lifetime.{Run, cold, started}
use tether_obs_plugin.KnownTokens.{ObsData, Store}
use tether_obs_plugin.Source.{Source, Settings, World, Making, unbound, attach_session, update}
use tether_obs_plugin.Source.References.{life, life-refcounts, update-attach_session}
use tether_obs_plugin.Source.Playing.{
  video, i420, yuvj420p, on_session_video, deliver_all, output_as, accepts,
}
use tether_obs_plugin.Source.Streams.{
  Packet, Players, IsOwn, keeps, leaves, none_left, play_all, feed_all, play_all-feed_all,
}

-- A store of tokens that keeps nothing
abbrev data' : ObsData Unit Unit
data' = record {
  create = tt;
  set_string = λ o k v. tt;
  get_string = λ o k. none;
  save_json = λ os. tt;
  load_json = λ f. none;
}

abbrev known : Store Unit
known = record { initialised = true; entries = []; has_path = false; file = none }

abbrev token : Bytes
token = codes "TTHR-ABCD-EFGH-2345"

abbrev settings : Bytes → Settings
settings tok = record { token = some tok; video_mid = some (codes "video1"); audio_mid = some [] }

abbrev makes : ℕ → Making
makes n = record { wrtc_made = true; sig_made = true; sub_id = n }

abbrev fails : Making
fails = record { wrtc_made = true; sig_made = false; sub_id = 1 }

life-refcounts_example :
    (r' : Registry) × (life {V = ℕ} ℕ data'
        (Registry.init cold)
        known
        (some 3)
        (settings token, fails)
        ((settings (codes "TTHR-ABCD-EFGH-2346"), makes 2) ∷ (settings token, makes 3) ∷ [])
      ≡ some r')
    × Run r' []
    × ((id : ℕ) → refs (Registry.find_id id r'.sessions) ≡ occ id [])
life-refcounts_example =
    life-refcounts ℕ data' (Registry.init cold) known (some 3) (settings token, fails)
      ((settings (codes "TTHR-ABCD-EFGH-2346"), makes 2) ∷ (settings token, makes 3) ∷ []) []
      started

abbrev start : World ℕ ℕ Unit
start = unbound (Registry.init cold) known (some 3)

update-attach_session_example :
    (v w : World ℕ ℕ Unit) × (attach_session data' start (some token) fails ≡ some v)
    × (update data' v (settings token) (makes 2) ≡ some w)
    × (w.source.sub ≡ none)
    × (w.registry ≡ v.registry)
unfolding is_blank Registry.get Registry.init Registry.get_found Registry.register
    Registry.session_create Registry.find_token strip_prefix
update-attach_session_example =
    update-attach_session data' start token fails (makes 2) (settings token) refl refl refl refl

-- A decoder that gives a frame for every packet, and counts
abbrev players : Players ℕ ℕ ℕ
players = record {
  platform = record { eagain = 11; max_av_planes = 8 };
  av = λ v data' pts. record {
    decoder = suc v;
    rc = negsuc 10;
    frames = record { format = yuvj420p; width = v; height = 2; is_jpeg = true; planes = [] } ∷ [];
  };
  opus = λ n bytes max. (suc n, (2, λ i. i));
  created = some 0;
}

abbrev pinned : Source ℕ ℕ
pinned = record start.source { video_mid = some (codes "video1"); audio_mid = none }

abbrev packet : Bytes → Packet
packet mid = record { is_video = true; payload = 1 ∷ []; pts = pos 0; mid = some mid; now = 50 }

abbrev packets : List Packet
packets =
    packet (codes "video0")
    ∷ packet (codes "video1")
    ∷ record (packet (codes "audio0")) { is_video = false }
    ∷ []

-- The code EAGAIN of the decoder is no failure.
again :
    (on_session_video {A = ℕ} players.platform players.av pinned
      (some (1 ∷ []))
      (pos 0)
      (some (codes "video1"))
      50).1
    ≡ video (record {
      format = i420;
      width = 3;
      height = 2;
      timestamp = 50;
      full_range = true;
      planes = [];
    })
      ∷ []
unfolding on_session_video deliver_all output_as accepts is_blank str_eq
again = refl

apart : str_eq (codes "video1") (codes "video0") ≡ false
unfolding str_eq
apart = refl

another : ¬ IsOwn (some (codes "video1")) (some (codes "video0"))
another (inl e) = absurd (none≢some (sym e))
another (inr (inl e)) = absurd (ground (arith, some_inj e))
another (inr (inr (inl e))) = absurd (none≢some (sym e))
another (inr (inr (inr e))) =
    absurd (false≢true (sym apart ∙ (str_eq_iff (codes "video1") (codes "video0")).1 (some_inj e)))

play_all-feed_all_example :
    play_all players pinned packets
    ≡ feed_all players pinned
        (packet (codes "video1") ∷ record (packet (codes "audio0")) { is_video = false } ∷ [])
play_all-feed_all_example =
    play_all-feed_all players pinned packets
      (packet (codes "video1") ∷ record (packet (codes "audio0")) { is_video = false } ∷ [])
      (leaves (packet (codes "video0")) _ _ another (
        keeps (packet (codes "video1")) _ _ (inr (inr (inr refl)))
          (keeps (record (packet (codes "audio0")) { is_video = false }) _ _ (inl refl) none_left)))
