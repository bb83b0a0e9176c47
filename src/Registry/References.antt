-- ===== src/Registry/References.antt =====
-- src/receive-session.c: the reference counts against the references that are held.
use tether_obs_plugin.Common.{
  ℕ, suc, ◌+◌, ◌-◌, ◌<◌, ◌≤◌, ◌≡◌, refl, ap, true, false, List, [], ◌∷◌, Option, none, some, arith,
  ◌==◌, if◌then◌else◌, Bool-cases, Option-cases, inl, inr, sym, ◌∙◌, some_inj, none≢some,
}
use mathlib.Core.Option
use tether_obs_plugin.ReceiveSession.{Session, Subscription}
use tether_obs_plugin.Registry.{
  Registry, find_token, find_id, update_session, erase_session, bump, drop_ref, add_sub, drop_sub,
  register,
}
use tether_obs_plugin.Registry.Sessions.{
  IsDistinct, KeepsKeys, find_id-update, update_session-IsDistinct, find_id-erase,
  erase_session-IsDistinct, find_id-append, append-IsDistinct,
}

-- How often an address stands in the list of held references.
abbrev pub occ : ℕ → List ℕ → ℕ
occ id [] = 0
occ id (h ∷ hs) = if h == id then suc (occ id hs) else occ id hs

abbrev pub remove : ℕ → List ℕ → List ℕ
remove id [] = []
remove id (h ∷ hs) = if h == id then hs else h ∷ remove id hs

pub occ-remove :
    (id j : ℕ) (hs : List ℕ) → occ j (remove id hs) ≡ (if id == j then occ j hs - 1 else occ j hs)
occ-remove id j [] = ground arith
occ-remove id j (h ∷ hs) = ground (arith, occ-remove id j hs)

abbrev pub refs : Option Session → ℕ
refs none = 0
refs (some s) = s.refcount

-- The registry agrees with the references that are held: each session counts its own.
pub record Counts (r : Registry) (held : List ℕ) : Type 0 where
  pub distinct : IsDistinct r.sessions
  pub fresh : (j : ℕ) → r.next_id ≤ j → find_id j r.sessions ≡ none
  pub counted : (j : ℕ) → refs (find_id j r.sessions) ≡ occ j held
  pub positive : (j : ℕ) (s : Session) → find_id j r.sessions ≡ some s → 0 < s.refcount

pub bump-KeepsKeys : KeepsKeys bump
bump-KeepsKeys = record { id = λ s. refl; token = λ s. refl }

pub drop_ref-KeepsKeys : KeepsKeys drop_ref
drop_ref-KeepsKeys = record { id = λ s. refl; token = λ s. refl }

pub add_sub-KeepsKeys : (u : Subscription) → KeepsKeys (add_sub u)
add_sub-KeepsKeys u = record { id = λ s. refl; token = λ s. refl }

pub drop_sub-KeepsKeys : (sub : ℕ) → KeepsKeys (drop_sub sub)
drop_sub-KeepsKeys sub = record { id = λ s. refl; token = λ s. refl }

pub ==-true : (i j : ℕ) → (i == j) ≡ true → i ≡ j
==-true i j h = ground arith

-- A write to a live session after which its count is right again.
module _ (f : Session → Session) (k : KeepsKeys f) (r : Registry) (held held' : List ℕ) (id : ℕ)
    (s : Session) where
  update_find :
      (j : ℕ)
      → find_id id r.sessions ≡ some s
      → find_id j (update_session id f r.sessions)
        ≡ (if id == j then some (f s) else find_id j r.sessions)
  unfolding Option.map
  update_find j live = find_id-update id j f r.sessions k ∙ elim (Bool-cases (id == j)) [
    | inl e ↦ rw (e, sym (==-true id j e), live) refl
    | inr e ↦ rw e refl
  ]

  pub modify-Counts :
      find_id id r.sessions ≡ some s
      → Counts r held
      → (f s).refcount ≡ occ id held'
      → 0 < (f s).refcount
      → ((j : ℕ) → (id == j) ≡ false → occ j held' ≡ occ j held)
      → Counts (record r { sessions = update_session id f r.sessions }) held'
  modify-Counts live c now pos others = record {
    distinct = update_session-IsDistinct id f r.sessions k c.distinct;
    fresh = λ j h. update_find j live ∙ elim (Bool-cases (id == j)) [
      | inl e ↦ absurd (none≢some (sym (c.fresh id (rw (==-true id j e) h)) ∙ live))
      | inr e ↦ rw e (c.fresh j h)
    ];
    counted = λ j. ap refs (update_find j live) ∙ elim (Bool-cases (id == j)) [
      | inl e ↦ rw e (now ∙ ap (λ i. occ i held') (==-true id j e))
      | inr e ↦ rw e (c.counted j ∙ sym (others j e))
    ];
    positive = λ j t h. elim (Bool-cases (id == j)) [
      | inl e ↦
          let same : some (f s) ≡ some t = rw e at (sym (update_find j live) ∙ h) in
          omega (arith, ap (λ (x : Session). x.refcount) (some_inj same), pos)
      | inr e ↦ c.positive j t (rw e at (sym (update_find j live) ∙ h))
    ];
  }

occ-head : (id : ℕ) (hs : List ℕ) → occ id (id ∷ hs) ≡ suc (occ id hs)
occ-head id hs = ground arith

-- A new reference to a live session.
pub acquire-Counts :
    (f : Session → Session) (k : KeepsKeys f) (r : Registry) (held : List ℕ) (id : ℕ) (s : Session)
    → ((t : Session) → (f t).refcount ≡ t.refcount + 1)
    → find_id id r.sessions ≡ some s
    → Counts r held
    → Counts (record r { sessions = update_session id f r.sessions }) (id ∷ held)
acquire-Counts f k r held id s more live c =
    let now : s.refcount ≡ occ id held = ap refs (sym live) ∙ c.counted id in
    modify-Counts f k r held (id ∷ held) id s live c (omega (arith, more s, now, occ-head id held))
      (omega (arith, more s)) (λ j e. rw e refl)

-- A write that leaves the count of a live session alone.
pub neutral-Counts :
    (f : Session → Session) (k : KeepsKeys f) (r : Registry) (held : List ℕ) (id : ℕ) (s : Session)
    → ((t : Session) → (f t).refcount ≡ t.refcount)
    → find_id id r.sessions ≡ some s
    → Counts r held
    → Counts (record r { sessions = update_session id f r.sessions }) held
neutral-Counts f k r held id s same live c =
    let now : s.refcount ≡ occ id held = ap refs (sym live) ∙ c.counted id in
    modify-Counts f k r held held id s live c (same s ∙ now)
      (omega (arith, same s, c.positive id s live)) (λ j e. refl)

-- The end of a session that has one reference left.
pub erase-Counts :
    (r : Registry) (held : List ℕ) (id : ℕ)
    → occ id held ≡ 1
    → Counts r held
    → Counts (record r { sessions = erase_session id r.sessions }) (remove id held)
erase-Counts r held id one c = record {
  distinct = erase_session-IsDistinct id r.sessions c.distinct;
  fresh = λ j h. find_id-erase id j r.sessions c.distinct ∙ rw (c.fresh j h) (ground arith);
  counted = λ j. ap refs (find_id-erase id j r.sessions c.distinct) ∙ elim (Bool-cases (id == j)) [
    | inl e ↦ rw e (ground (arith, occ-remove id j held, ap (λ i. occ i held) (==-true id j e)))
    | inr e ↦ rw e (c.counted j ∙ sym (occ-remove id j held ∙ rw e refl))
  ];
  positive = λ j t h. elim (Bool-cases (id == j)) [
    | inl e ↦
        let gone : none ≡ some t = rw e at (sym (find_id-erase id j r.sessions c.distinct) ∙ h) in
        absurd (none≢some gone)
    | inr e ↦ c.positive j t (rw e at (sym (find_id-erase id j r.sessions c.distinct) ∙ h))
  ];
}

-- The references held once a call has returned an address, or none.
abbrev pub grant : Option ℕ → List ℕ → List ℕ
grant none held = held
grant (some id) held = id ∷ held

pub register-Counts :
    (r : Registry) (held : List ℕ) (s : Session)
    → s.id ≡ r.next_id
    → s.refcount ≡ 1
    → find_token s.token r.sessions ≡ none
    → Counts r held
    → Counts (register r (some s)).0 (grant (register r (some s)).1 held)
unfolding register
register-Counts r held s at one new c =
    let absent : find_id s.id r.sessions ≡ none = c.fresh s.id (omega (arith, at)) in
    record {
      distinct = append-IsDistinct r.sessions s c.distinct absent new;
      fresh =
          λ j h. find_id-append j r.sessions s ∙ rw (c.fresh j (omega arith)) (ground (arith, at));
      counted = λ j. elim (Bool-cases (s.id == j)) [
        | inl e ↦
            let gone : find_id j r.sessions ≡ none =
              ap (λ i. find_id i r.sessions) (sym (==-true s.id j e)) ∙ absent in
            ap refs (find_id-append j r.sessions s)
            ∙ rw (gone, e) (omega (arith, one, c.counted j, ap refs gone))
        | inr e ↦ ap refs (find_id-append j r.sessions s) ∙ rw e (ground (arith, c.counted j))
      ];
      positive = λ j t h. elim (Option-cases (find_id j r.sessions)) [
        | inl e ↦ ground (arith, one, sym (find_id-append j r.sessions s) ∙ h)
        | inr (u, e) ↦ c.positive j t (e ∙ rw e at (sym (find_id-append j r.sessions s) ∙ h))
      ];
    }
