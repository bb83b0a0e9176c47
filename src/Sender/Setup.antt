-- ===== src/Sender/Setup.antt =====
-- src/sender.c: `tether_sender_create`, the streams that it names, and the default server of
-- src/properties.c. The threads that it starts are not part of the state.
use tether_obs_plugin.Common.{
  ℕ, ◌+◌, ◌≤◌, ◌<◌, ◌≡◌, refl, ap, sym, ◌∙◌, Bool, true, false, List, [], ◌∷◌, ◌++◌, Option, none,
  some, arith, if◌then◌else◌, Bytes, codes, str_eq, is_blank, copy_into, take_all, length, ℤ, pos,
  Bool-cases, Option-cases, some_inj, none≢some, inl, inr,
}
use tether_obs_plugin.Admission
use tether_obs_plugin.Signaling
use tether_obs_plugin.Audio.Sources.{positive_or}
use tether_obs_plugin.Sender.{
  Sender, VideoCapture, Callbacks, MediaConfig, Effect, fallback_or, signals,
}

-- `tether_sender_config_t`; the arrays end before their NULL.
pub record SenderConfig : Type 0 where
  pub server_url : Option Bytes
  pub media : MediaConfig
  pub source_name : Option Bytes
  pub video_source_names : Option (List Bytes)
  pub audio_source_names : Option (List Bytes)
  pub max_receivers : ℤ
  pub token_ttl_minutes : ℤ
  pub reusable_token : Bool

abbrev pub default_server_url : Bytes
default_server_url = codes "wss://tether-signaling.tether-plugin.workers.dev/v1"

unfoldable pub first_filled : List Bytes → Option Bytes
unfolding is_blank
first_filled [] = none
first_filled (p ∷ ps) = if is_blank (some p) then first_filled ps else some p

abbrev pub names_of : Option (List Bytes) → List Bytes
names_of none = []
names_of (some ps) = ps

unfoldable pub filled : Option Bytes → Option Bytes
unfolding is_blank
filled o = if is_blank o then none else o

-- The source that `first` points to
unfoldable pub first_source : SenderConfig → Option Bytes
unfolding first_filled filled
first_source cfg = elim (first_filled (names_of cfg.video_source_names)) [
  | some p ↦ some p
  | none ↦ filled cfg.source_name
]

unfoldable pub capture_of : (ℕ → Bytes) → ℕ → Bytes → VideoCapture
unfolding copy_into
capture_of decimal idx name = record {
  source_name = copy_into 256 name;
  mid = copy_into 64 (codes "video" ++ decimal idx);
}

-- The loop over the array: a blank name is passed over, and the others are numbered.
unfoldable pub captures_from : (ℕ → Bytes) → ℕ → List Bytes → List VideoCapture
unfolding is_blank capture_of
captures_from decimal idx [] = []
captures_from decimal idx (p ∷ ps) =
    let next = capture_of decimal idx p ∷ captures_from decimal (idx + 1) ps in
    let skip = captures_from decimal idx ps in if is_blank (some p) then skip else next

unfoldable pub or_single : Bytes → List VideoCapture → List VideoCapture
unfolding copy_into
or_single first [] = record { source_name = copy_into 256 first; mid = codes "video0" } ∷ []
or_single first (c ∷ cs) = c ∷ cs

unfoldable pub captures_of : (ℕ → Bytes) → SenderConfig → Bytes → List VideoCapture
unfolding captures_from or_single
captures_of decimal cfg first =
    or_single first (captures_from decimal 0 (names_of cfg.video_source_names))

abbrev pub shown_name : List VideoCapture → Bytes
shown_name [] = codes "tether"
shown_name (c ∷ cs) = c.source_name

abbrev pub admission_request : SenderConfig → Admission.Request
admission_request cfg = record {
  max_receivers = pos (positive_or cfg.max_receivers 4);
  window_seconds = pos 60;
  max_attempts = pos 10;
  lockout_seconds = pos 300;
  auto_accept_pinned = true;
  has_on_changed = true;
}

abbrev pub signaling_config : (ℕ → Bytes) → SenderConfig → List VideoCapture → Signaling.Config
signaling_config decimal cfg caps = record {
  server_url = some (fallback_or cfg.server_url default_server_url);
  display_name = some (shown_name caps);
  token = none;
  role = Signaling.Role.sender;
  ttl_text = decimal (positive_or cfg.token_ttl_minutes 30);
  reusable_token = cfg.reusable_token;
  has_cb = true;
}

-- `tether_sender_create`; `rc` is what the WebSocket library returns.
unfoldable pub create :
    {E A : Type 0}
    → (ℕ → Bytes)
    → Option SenderConfig
    → Callbacks
    → ℤ
    → Option (Sender E A × List Effect)
unfolding first_source captures_of signals
create decimal none cbs rc = none
create decimal (some cfg) cbs rc = elim (first_source cfg) [
  | none ↦ none
  | some first ↦
      elim (Signaling.create (signaling_config decimal cfg (captures_of decimal cfg first))) [
        | none ↦ none
        | some sig ↦
            let o = Signaling.connect sig rc in
            some (
              record {
                media = cfg.media;
                audio_source_names = names_of cfg.audio_source_names;
                captures = captures_of decimal cfg first;
                cbs = cbs;
                sig = o.sig;
                adm = Admission.create (admission_request cfg);
                sessions = [];
                current_token = [];
              },
              signals o.effects,
            )
      ]
]

-- No stream has this mid.
abbrev pub IsFreshMid : Bytes → List VideoCapture → Type 0
IsFreshMid mid [] = Unit
IsFreshMid mid (c ∷ cs) = (str_eq mid c.mid ≡ false) × IsFreshMid mid cs

abbrev pub HasDistinctMids : List VideoCapture → Type 0
HasDistinctMids [] = Unit
HasDistinctMids (c ∷ cs) = IsFreshMid c.mid cs × HasDistinctMids cs

-- What is used of `%d`: different numbers that an int holds have different texts, of at most 58 bytes.
pub record IsDecimal (decimal : ℕ → Bytes) : Type 0 where
  pub apart : (m n : ℕ) → m < n → n < 2147483648 → str_eq (decimal m) (decimal n) ≡ false
  pub short : (n : ℕ) → n < 2147483648 → length (decimal n) ≤ 58

str_eq-append : (p a b : Bytes) → str_eq (p ++ a) (p ++ b) ≡ str_eq a b
unfolding str_eq
str_eq-append [] a b = refl
str_eq-append (c ∷ p) a b = ground (arith, str_eq-append p a b)

mid_whole :
    (decimal : ℕ → Bytes) (n : ℕ)
    → IsDecimal decimal
    → n < 2147483648
    → (copy_into 64 (codes "video" ++ decimal n)) ≡ codes "video" ++ decimal n
unfolding copy_into
mid_whole decimal n d k = take_all 63 (codes "video" ++ decimal n) (omega (arith, d.short n k))

mids_apart :
    (decimal : ℕ → Bytes) (m n : ℕ)
    → IsDecimal decimal
    → m < n
    → n < 2147483648
    → str_eq (copy_into 64 (codes "video" ++ decimal m)) (copy_into 64 (codes "video" ++ decimal n))
      ≡ false
mids_apart decimal m n d h k =
    rw (mid_whole decimal m d (omega arith), mid_whole decimal n d k)
      (str_eq-append (codes "video") (decimal m) (decimal n) ∙ d.apart m n h k)

captures-IsFreshMid :
    (decimal : ℕ → Bytes) (m idx : ℕ) (ps : List Bytes)
    → IsDecimal decimal
    → m < idx
    → idx + length ps ≤ 2147483647
    → IsFreshMid (copy_into 64 (codes "video" ++ decimal m)) (captures_from decimal idx ps)
unfolding captures_from
captures-IsFreshMid decimal m idx [] d h k = tt
captures-IsFreshMid decimal m idx (p ∷ ps) d h k = elim (Bool-cases (is_blank (some p))) [
  | inl e ↦ rw e (captures-IsFreshMid decimal m idx ps d h (omega (arith, k)))
  | inr e ↦ rw e (
    mids_apart decimal m idx d h (omega (arith, k)),
    captures-IsFreshMid decimal m (idx + 1) ps d (omega arith) (omega (arith, k)),
  )
]

captures-HasDistinctMids :
    (decimal : ℕ → Bytes) (idx : ℕ) (ps : List Bytes)
    → IsDecimal decimal
    → idx + length ps ≤ 2147483647
    → HasDistinctMids (captures_from decimal idx ps)
unfolding captures_from
captures-HasDistinctMids decimal idx [] d k = tt
captures-HasDistinctMids decimal idx (p ∷ ps) d k = elim (Bool-cases (is_blank (some p))) [
  | inl e ↦ rw e (captures-HasDistinctMids decimal idx ps d (omega (arith, k)))
  | inr e ↦ rw e (
    captures-IsFreshMid decimal idx (idx + 1) ps d (omega arith) (omega (arith, k)),
    captures-HasDistinctMids decimal (idx + 1) ps d (omega (arith, k)),
  )
]

or_single-HasDistinctMids :
    (first : Bytes) (cs : List VideoCapture)
    → HasDistinctMids cs
    → HasDistinctMids (or_single first cs)
unfolding or_single
or_single-HasDistinctMids first [] h = (tt, tt)
or_single-HasDistinctMids first (c ∷ cs) h = h

pub create-parts :
    {E A : Type 0} (decimal : ℕ → Bytes) (cfg : SenderConfig) (cbs : Callbacks) (rc : ℤ)
    (s : Sender E A) (es : List Effect)
    → create decimal (some cfg) cbs rc ≡ some (s, es)
    → (first : Bytes) × (s.captures ≡ captures_of decimal cfg first)
      × (s.adm ≡ Admission.create (admission_request cfg))
      × (s.sessions ≡ [])
unfolding create Signaling.create
create-parts decimal cfg cbs rc s es h = elim (Option-cases (first_source cfg)) [
  | inl e ↦ absurd (none≢some (rw (create, e) at h))
  | inr (first, e) ↦
      let same = some_inj (rw (create, e) at h) in
      (
        first,
        sym (ap (λ (p : Sender _ _ × List Effect). p.0.captures) same),
        sym (ap (λ (p : Sender _ _ × List Effect). p.0.adm) same),
        sym (ap (λ (p : Sender _ _ × List Effect). p.0.sessions) same),
      )
]

-- The streams of a sender that is created have pairwise different mids, so that a receiver can address
-- each of them, whatever names its configuration lists, as long as their number fits an int; `%d` is
-- relied on to write different numbers differently, in at most 58 bytes.
pub create-HasDistinctMids :
    {E A : Type 0} (decimal : ℕ → Bytes) (cfg : SenderConfig) (cbs : Callbacks) (rc : ℤ)
    (s : Sender E A) (es : List Effect)
    → IsDecimal decimal
    → length (names_of cfg.video_source_names) ≤ 2147483647
    → create decimal (some cfg) cbs rc ≡ some (s, es)
    → HasDistinctMids s.captures
unfolding captures_of
create-HasDistinctMids decimal cfg cbs rc s es d k h =
    let (first, e, _, _) = create-parts decimal cfg cbs rc s es h in
    rw e (
      or_single-HasDistinctMids first (captures_from decimal 0 (names_of cfg.video_source_names))
        (captures-HasDistinctMids decimal 0 (names_of cfg.video_source_names) d (omega (arith, k))))
