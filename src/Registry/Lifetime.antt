-- ===== src/Registry/Lifetime.antt =====
-- src/receive-session.c: the sessions that are alive, over the whole life of the registry.
use tether_obs_plugin.Common.{
  none≢some, ℕ, ◌-◌, ◌<◌, ◌≡◌, ◌↔◌, refl, ap, Bool, false, not, ◌&&◌, List, [], ◌∷◌, Option, none,
  some, arith, ◌==◌, leb, if◌then◌else◌, Bytes, is_blank, Bool-cases, Option-cases, inl, inr, sym,
  ◌∙◌, some_inj,
}
use tether_obs_plugin.Token.{normalise, token_buf}
use tether_obs_plugin.ReceiveSession.{Session, Subscription, Notice, state_notice}
use tether_obs_plugin.Registry.{
  Registry, find_token, find_id, update_session, bump, drop_ref, add_sub, drop_sub, get, get_found,
  register, session_create, release, release_found, subscribe, subscribe_found, unsubscribe, init,
}
use tether_obs_plugin.Registry.Sessions.{IsDistinct, find_token-find_id}
use tether_obs_plugin.Registry.References.{
  occ, remove, refs, grant, Counts, bump-KeepsKeys, drop_ref-KeepsKeys, add_sub-KeepsKeys,
  drop_sub-KeepsKeys, modify-Counts, acquire-Counts, neutral-Counts, erase-Counts, register-Counts,
  occ-remove,
}

session_create-new :
    (id : ℕ) (tok : Bytes) (w g : Bool) (s : Session)
    → session_create id tok w g ≡ some s
    → (s.id ≡ id) × (s.refcount ≡ 1) × (s.token ≡ tok)
unfolding session_create
session_create-new id tok w g s h =
    elim (Bool-cases ((normalise (some tok) token_buf).1 && (w && g))) [
      | inl e ↦
          let same = some_inj (rw e at h) in
          (
            sym (ap (λ (x : Session). x.id) same),
            sym (ap (λ (x : Session). x.refcount) same),
            sym (ap (λ (x : Session). x.token) same),
          )
      | inr e ↦ absurd (none≢some (rw e at h))
    ]

get_found-Counts :
    (r : Registry) (held : List ℕ) (tok : Bytes) (w g : Bool)
    → Counts r held
    → Counts
        (get_found r (find_token tok r.sessions) (session_create r.next_id tok w g)).0
        (grant (get_found r (find_token tok r.sessions) (session_create r.next_id tok w g)).1 held)
get_found-Counts r held tok w g c = elim (Option-cases (find_token tok r.sessions)) [
  | inr (s, e) ↦ rw e (
      unfold get_found in
      acquire-Counts bump bump-KeepsKeys r held s.id s (λ t. refl)
        (find_token-find_id tok r.sessions s c.distinct e) c)
  | inl e ↦ elim (Option-cases (session_create r.next_id tok w g)) [
    | inl d ↦ rw (e, d) (unfold get_found register in c)
    | inr (s, d) ↦
        let (at, one, named) = session_create-new r.next_id tok w g s d in
        rw (e, d)
          (unfold get_found in
            register-Counts r held s at one (ap (λ k. find_token k r.sessions) named ∙ e) c)
  ]
]

pub get-Counts :
    (r : Registry) (held : List ℕ) (token : Option Bytes) (w g : Bool)
    → Counts r held
    → Counts (get r token w g).0 (grant (get r token w g).1 held)
unfolding get
get-Counts r held none w g c = c
get-Counts r held (some tok) w g c = elim (Bool-cases (is_blank (some tok))) [
  | inl e ↦ rw e c
  | inr e ↦ elim (Bool-cases (not r.initialised)) [
    | inl d ↦ rw (e, d) c
    | inr d ↦ rw (e, d) (get_found-Counts r held tok w g c)
  ]
]

pub live :
    (r : Registry) (held : List ℕ) (id : ℕ)
    → Counts r held
    → 0 < occ id held
    → (s : Session) × (find_id id r.sessions ≡ some s)
live r held id c h = elim (Option-cases (find_id id r.sessions)) [
  | inl e ↦ absurd (omega (arith, c.counted id, ap refs e))
  | inr found ↦ found
]

-- What a release of a held reference comes to.
pub release-ends :
    (r : Registry) (held : List ℕ) (id : ℕ)
    → Counts r held
    → 0 < occ id held
    → (r' : Registry) × (release r id ≡ some (r', occ id held == 1)) × Counts r' (remove id held)
unfolding release
release-ends r held id c h =
    let (s, e) = live r held id c h in
    let count : s.refcount ≡ occ id held = ap refs (sym e) ∙ c.counted id in
    elim (Bool-cases (leb (s.refcount - 1) 0)) [
      | inl d ↦
          let one : occ id held ≡ 1 = ground arith in
          (_, rw e (unfold release_found in rw d (ground arith)), erase-Counts r held id one c)
      | inr d ↦ (
        _,
        rw e (unfold release_found in rw d (ground arith)),
        modify-Counts drop_ref drop_ref-KeepsKeys r held (remove id held) id s e c
            (ground (arith, occ-remove id id held)) (ground arith)
            (λ j k. occ-remove id j held ∙ rw k refl),
      )
    ]

pub subscribe-ends :
    (r : Registry) (held : List ℕ) (id : ℕ) (u : Subscription)
    → Counts r held
    → 0 < occ id held
    → (r' : Registry) × (ns : List Notice) × (subscribe r id u ≡ some (r', ns))
      × Counts r' (id ∷ held)
unfolding subscribe subscribe_found
subscribe-ends r held id u c h =
    let (s, e) = live r held id c h in
    (
      record r { sessions = update_session id (add_sub u) r.sessions },
      if u.on_state then state_notice u.sub_id s.state ∷ [] else [],
      rw e refl,
      acquire-Counts (add_sub u) (add_sub-KeepsKeys u) r held id s (λ t. refl) e c,
    )

pub unsubscribe-ends :
    (r : Registry) (held : List ℕ) (id sub : ℕ)
    → Counts r held
    → 0 < occ id held
    → (r' : Registry) × (unsubscribe r id sub ≡ some (r', occ id held == 1))
      × Counts r' (remove id held)
unfolding unsubscribe
unsubscribe-ends r held id sub c h =
    let (s, e) = live r held id c h in
    release-ends _ held id
      (neutral-Counts (drop_sub sub) (drop_sub-KeepsKeys sub) r held id s (λ t. refl) e c) h

-- The registry before it is initialised
abbrev pub cold : Registry
cold = record { initialised = false; sessions = []; next_id = 0 }

-- The registries that can be reached, and the references that the callers then hold. A caller passes
-- only an address that it holds a reference to; a release gives one up, a subscription is one.
pub data Run : Registry → List ℕ → Type 0 where
  started : Run (init cold) []
  got :
      (r : Registry) (held : List ℕ) (token : Option Bytes) (wrtc_made sig_made : Bool)
      → Run r held
      → Run (get r token wrtc_made sig_made).0 (grant (get r token wrtc_made sig_made).1 held)
  released :
      (r r' : Registry) (held : List ℕ) (id : ℕ) (destroyed : Bool)
      → Run r held
      → 0 < occ id held
      → release r id ≡ some (r', destroyed)
      → Run r' (remove id held)
  subscribed :
      (r r' : Registry) (held : List ℕ) (id : ℕ) (u : Subscription) (notices : List Notice)
      → Run r held
      → 0 < occ id held
      → subscribe r id u ≡ some (r', notices)
      → Run r' (id ∷ held)
  unsubscribed :
      (r r' : Registry) (held : List ℕ) (id sub : ℕ) (destroyed : Bool)
      → Run r held
      → 0 < occ id held
      → unsubscribe r id sub ≡ some (r', destroyed)
      → Run r' (remove id held)

start-Counts : Counts (init cold) []
unfolding init find_id
start-Counts = record {
  distinct = tt;
  fresh = λ j h. refl;
  counted = λ j. refl;
  positive = λ j s h. absurd (none≢some h);
}

pub same_registry :
    {B : Type 0} {o : Option (Registry × B)} (r r' : Registry) (b b' : B) (held : List ℕ)
    → o ≡ some (r, b)
    → o ≡ some (r', b')
    → Counts r held
    → Counts r' held
same_registry r r' b b' held h k c = rw (ap (λ (p : Registry × _). p.0) (some_inj (sym h ∙ k))) at c

pub Run-Counts : (r : Registry) (held : List ℕ) → Run r held → Counts r held
Run-Counts _ _ started = start-Counts
Run-Counts _ _ (got r held token w g p) = get-Counts r held token w g (Run-Counts r held p)
Run-Counts _ _ (released r r' held id b p h e) =
    let (_, k, c) = release-ends r held id (Run-Counts r held p) h in same_registry _ r' _ b _ k e c
Run-Counts _ _ (subscribed r r' held id u ns p h e) =
    let (_, _, k, c) = subscribe-ends r held id u (Run-Counts r held p) h in
    same_registry _ r' _ ns _ k e c
Run-Counts _ _ (unsubscribed r r' held id sub b p h e) =
    let (_, k, c) = unsubscribe-ends r held id sub (Run-Counts r held p) h in
    same_registry _ r' _ b _ k e c

-- In every registry that can be reached, no two sessions have one token or one address, each session
-- counts exactly the references that are held to it, and a session is alive exactly while there is
-- one.
pub Run-refcounts :
    (r : Registry) (held : List ℕ)
    → Run r held
    → IsDistinct r.sessions
      × ((id : ℕ) → refs (find_id id r.sessions) ≡ occ id held)
      × ((id : ℕ) → (find_id id r.sessions ≡ none) ↔ (occ id held ≡ 0))
Run-refcounts r held p =
    let c = Run-Counts r held p in
    (
      c.distinct,
      c.counted,
      λ id. (
        λ h. sym (c.counted id) ∙ ap refs h,
        λ h. elim (Option-cases (find_id id r.sessions)) [
          | inl e ↦ e
          | inr (s, e) ↦ absurd (omega (arith, c.positive id s e, c.counted id, ap refs e, h))
        ],
      ),
    )

-- In every registry that can be reached, the release of a reference that is held finds its session,
-- destroys it exactly if the reference is the last one, and so does an unsubscription, while a
-- subscription finds it too.
pub Run-release_alive :
    (r : Registry) (held : List ℕ) (id sub : ℕ) (u : Subscription)
    → Run r held
    → 0 < occ id held
    → ((r' : Registry) × (release r id ≡ some (r', occ id held == 1)))
      × ((r' : Registry) × (unsubscribe r id sub ≡ some (r', occ id held == 1)))
      × ((r' : Registry) × (ns : List Notice) × (subscribe r id u ≡ some (r', ns)))
Run-release_alive r held id sub u p h =
    let c = Run-Counts r held p in
    let (r1, e1, _) = release-ends r held id c h in
    let (r2, e2, _) = unsubscribe-ends r held id sub c h in
    let (r3, ns, e3, _) = subscribe-ends r held id u c h in ((r1, e1), (r2, e2), (r3, ns, e3))
