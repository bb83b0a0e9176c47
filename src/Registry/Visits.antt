-- ===== src/Registry/Visits.antt =====
-- src/receive-session.c: a visit of all sessions, each under a reference of its own.
use tether_obs_plugin.Common.{
  ℕ, suc, ◌+◌, ◌<◌, ◌≡◌, refl, ap, sym, ◌∙◌, List, [], ◌∷◌, ◌++◌, Option, none, some, arith, ◌==◌,
  Bytes, Bool-cases, inl, inr, some_inj, none≢some, subst,
}
use mathlib.Core.Option
use tether_obs_plugin.ReceiveSession.{Session}
use tether_obs_plugin.Registry.{
  Registry, find_id, find_token, bump, bump_all, release_all, enumerate,
}
use tether_obs_plugin.Registry.Sessions.{IsDistinct}
use tether_obs_plugin.Registry.References.{occ, remove, refs, Counts}
use tether_obs_plugin.Registry.Lifetime.{release-ends}

find_id-bump_all :
    (j : ℕ) (ss : List Session) → find_id j (bump_all ss) ≡ Option.map bump (find_id j ss)
unfolding find_id bump_all Option.map
find_id-bump_all j [] = refl
find_id-bump_all j (s ∷ ss) = ground (arith, find_id-bump_all j ss)

find_token-bump_all :
    (t : Bytes) (ss : List Session) → find_token t (bump_all ss) ≡ Option.map bump (find_token t ss)
unfolding find_token bump_all Option.map
find_token-bump_all t [] = refl
find_token-bump_all t (s ∷ ss) = ground (arith, find_token-bump_all t ss)

bump_all-IsDistinct : (ss : List Session) → IsDistinct ss → IsDistinct (bump_all ss)
unfolding bump_all
bump_all-IsDistinct [] d = tt
bump_all-IsDistinct (s ∷ ss) (a, b, d) = (
  find_id-bump_all s.id ss ∙ ap (Option.map bump) a ∙ unfold Option.map in refl,
  find_token-bump_all s.token ss ∙ ap (Option.map bump) b ∙ unfold Option.map in refl,
  bump_all-IsDistinct ss d,
)

abbrev ids_of : List Session → List ℕ
ids_of [] = []
ids_of (s ∷ ss) = s.id ∷ ids_of ss

abbrev once : Option Session → ℕ
once none = 0
once (some s) = 1

occ-absent :
    (j : ℕ) (ss : List Session) (held : List ℕ)
    → find_id j ss ≡ none
    → occ j (ids_of ss ++ held) ≡ occ j held
unfolding find_id
occ-absent j [] held h = refl
occ-absent j (s ∷ ss) held h = elim (Bool-cases (s.id == j)) [
  | inl e ↦ absurd (none≢some (sym (rw e at h)))
  | inr e ↦ rw e (occ-absent j ss held (rw e at h))
]

occ-ids_of :
    (j : ℕ) (ss : List Session) (held : List ℕ)
    → IsDistinct ss
    → occ j (ids_of ss ++ held) ≡ once (find_id j ss) + occ j held
unfolding find_id
occ-ids_of j [] held d = ground arith
occ-ids_of j (s ∷ ss) held (a, b, d) = elim (Bool-cases (s.id == j)) [
  | inl e ↦
      let at : s.id ≡ j = ground arith in
      rw e (ap suc (occ-absent j ss held (subst (λ i. find_id i ss ≡ none) at a)) ∙ ground arith)
  | inr e ↦ rw e (occ-ids_of j ss held d)
]

refs-bump : (o : Option Session) → refs (Option.map bump o) ≡ once o + refs o
unfolding Option.map
refs-bump none = ground arith
refs-bump (some s) = ground arith

bumped_positive : (o : Option Session) (t : Session) → Option.map bump o ≡ some t → 0 < t.refcount
unfolding Option.map
bumped_positive none t h = absurd (none≢some h)
bumped_positive (some s) t h = omega (arith, ap (λ (x : Session). x.refcount) (some_inj h))

bump_all-Counts :
    (r : Registry) (held : List ℕ)
    → Counts r held
    → Counts (record r { sessions = bump_all r.sessions }) (ids_of r.sessions ++ held)
bump_all-Counts r held c = record {
  distinct = bump_all-IsDistinct r.sessions c.distinct;
  fresh = λ j h.
      find_id-bump_all j r.sessions
      ∙ ap (Option.map bump) (c.fresh j h)
      ∙ unfold Option.map in refl;
  counted = λ j.
      ap refs (find_id-bump_all j r.sessions)
      ∙ refs-bump (find_id j r.sessions)
      ∙ ap (λ n. once (find_id j r.sessions) + n) (c.counted j)
      ∙ sym (occ-ids_of j r.sessions held c.distinct);
  positive =
      λ j t h. bumped_positive (find_id j r.sessions) t (sym (find_id-bump_all j r.sessions) ∙ h);
}

release_all-Counts :
    (r : Registry) (ss : List Session) (held : List ℕ)
    → Counts r (ids_of ss ++ held)
    → (r' : Registry) × (release_all r ss ≡ some r') × Counts r' held
unfolding release_all
release_all-Counts r [] held c = (r, refl, c)
release_all-Counts r (s ∷ ss) held c =
    let first : 0 < occ s.id (s.id ∷ (ids_of ss ++ held)) = ground arith in
    let (r1, e, c1) = release-ends r (s.id ∷ (ids_of ss ++ held)) s.id c first in
    let rest : remove s.id (s.id ∷ (ids_of ss ++ held)) ≡ ids_of ss ++ held = ground arith in
    let (r2, k, c2) = release_all-Counts r1 ss held (subst (Counts r1) rest c1) in
    (r2, rw (release_all, e) k, c2)

-- A visit of a registry that counts the references has an end, visits the sessions that are alive, and
-- leaves a registry that counts the same references.
pub enumerate-Counts :
    (r : Registry) (held : List ℕ)
    → Counts r held
    → (r' : Registry) × (enumerate r ≡ some (r', bump_all r.sessions)) × Counts r' held
unfolding enumerate
enumerate-Counts r held c =
    let (r', e, c') =
      release_all-Counts (record r { sessions = bump_all r.sessions }) r.sessions held
        (bump_all-Counts r held c) in
    (r', rw (enumerate, e) refl, c')
