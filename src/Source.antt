-- ===== src/Source.antt =====
-- src/source.c: a source of OBS, which is bound to the session of a token, and plays what the session
-- hands on. It is built from Registry, KnownTokens and Audio. The decoder of libavcodec and its frames
-- are not part of the repository: what it returns is in `Decoded`. `V` is the state of the video
-- decoder, `D` that of an Opus decoder and `A` a sample.
pub mod References
pub mod Playing
pub mod Streams
mod Tests
use tether_obs_plugin.Common.{
  ℕ, zero, suc, Bool, true, false, not, ◌&&◌, ◌||◌, List, [], ◌∷◌, ◌++◌, Option, none, some, ◌==◌,
  if◌then◌else◌, Bytes, str_eq, is_blank, ℤ, pos, negsuc,
}
use tether_obs_plugin.ReceiveSession.{Subscription}
use tether_obs_plugin.Registry
use tether_obs_plugin.Registry.{Registry, unsubscribe, subscribe, release}
use tether_obs_plugin.KnownTokens
use tether_obs_plugin.KnownTokens.{ObsData, Store}
use tether_obs_plugin.Audio.{Receiver}
use tether_obs_plugin.Audio

-- `struct tether_source`; a subscription is kept with the address of its session, and `decoder` is
-- what `vctx` points to.
pub record Source (V D : Type 0) : Type 0 where
  pub token : Option Bytes
  pub video_mid : Option Bytes
  pub audio_mid : Option Bytes
  pub session : Option ℕ
  pub sub : Option (ℕ × ℕ)
  pub audio : Receiver D
  pub decoder : Option V

-- The strings of the settings
pub record Settings : Type 0 where
  pub token : Option Bytes
  pub video_mid : Option Bytes
  pub audio_mid : Option Bytes

-- The source with the parts of the program that it changes
pub record World (V D File : Type 0) : Type 0 where
  pub source : Source V D
  pub registry : Registry
  pub known : Store File

-- What is met while a session is attached: whether its parts can be made, and the address of the
-- subscription
pub record Making : Type 0 where
  pub wrtc_made : Bool
  pub sig_made : Bool
  pub sub_id : ℕ

-- `(s && *s) ? bstrdup(s) : NULL`
unfoldable pub filled : Option Bytes → Option Bytes
unfolding is_blank
filled o = if is_blank o then none else o

-- The first step of `attach_session`: the subscription is given up.
unfoldable pub leave :
    {V D File : Type 0} → World V D File → Option (ℕ × ℕ) → Option (World V D File)
leave u none = some u
leave u (some (id, sub)) = elim (unsubscribe u.registry id sub) [
  | none ↦ none
  | some (r, destroyed) ↦
      some (record u { source = record u.source { sub = none; session = none }; registry = r })
]

abbrev pub subscription : Making → Subscription
subscription m = record { sub_id = m.sub_id; on_video = true; on_audio = true; on_state = true }

-- The last step, on the session that the registry returned: it is subscribed to and then released.
unfoldable pub join :
    {V D File Object : Type 0}
    → ObsData Object File
    → World V D File
    → Bytes
    → Making
    → Option ℕ
    → Option (World V D File)
join d u token m none = some (record u { source = record u.source { session = none } })
join d u token m (some id) = elim (subscribe u.registry id (subscription m)) [
  | none ↦ none
  | some (r, notices) ↦ elim (release r id) [
    | none ↦ none
    | some (r', destroyed) ↦ some (record {
      source = record u.source { session = some id; sub = some (id, m.sub_id) };
      registry = r';
      known = (KnownTokens.add d u.known (some token)).0;
    })
  ]
]

unfoldable pub enter :
    {V D File Object : Type 0}
    → ObsData Object File
    → World V D File
    → Making
    → Option Bytes
    → Option (World V D File)
unfolding join
enter d u m none = some (record u { source = record u.source { token = none } })
enter d u m (some token) =
    let got = Registry.get u.registry (some token) m.wrtc_made m.sig_made in
    join d (record u { source = record u.source { token = some token }; registry = got.0 }) token m
      got.1

-- `attach_session`; none is a call on a session that is not alive.
unfoldable pub attach_session :
    {V D File Object : Type 0}
    → ObsData Object File
    → World V D File
    → Option Bytes
    → Making
    → Option (World V D File)
unfolding leave enter filled
attach_session d u token m = elim (leave u u.source.sub) [
  | none ↦ none
  | some v ↦ enter d v m (filled token)
]

abbrev pub with_mids : {V D File : Type 0} → Settings → World V D File → World V D File
with_mids set u = record u {
  source = record u.source { video_mid = filled set.video_mid; audio_mid = filled set.audio_mid };
}

-- A source before it is bound: zeroes, and a receiver for its sound
abbrev pub unbound : {V D File : Type 0} → Registry → Store File → Option V → World V D File
unbound r known decoder = record {
  source = record {
    token = none;
    video_mid = none;
    audio_mid = none;
    session = none;
    sub = none;
    audio = record { sample_rate = 48000; channels = 2; tracks = []; bound = true };
    decoder = decoder;
  };
  registry = r;
  known = known;
}

-- `create`; `decoder` is what `init_video_decoder` makes.
unfoldable pub create :
    {V D File Object : Type 0}
    → ObsData Object File
    → Registry
    → Store File
    → Option V
    → Settings
    → Making
    → Option (World V D File)
unfolding attach_session
create d r known decoder set m =
    attach_session d (with_mids set (unbound r known decoder)) set.token m

unfoldable pub is_same : Option Bytes → Option Bytes → Bool
unfolding str_eq
is_same (some a) (some b) = str_eq a b
is_same _ _ = false

-- `update`
unfoldable pub update :
    {V D File Object : Type 0}
    → ObsData Object File
    → World V D File
    → Settings
    → Making
    → Option (World V D File)
unfolding is_same attach_session
update d u set m =
    if is_same u.source.token set.token
    then some (with_mids set u)
    else elim (attach_session d u set.token m) [ none ↦ none | some v ↦ some (with_mids set v) ]

-- `destroy`
unfoldable pub destroy : {V D File : Type 0} → World V D File → Option Registry
destroy u = elim u.source.sub [
  | none ↦ some u.registry
  | some (id, sub) ↦ elim (unsubscribe u.registry id sub) [
    | none ↦ none
    | some (r, destroyed) ↦ some r
  ]
]
