-- ===== src/Control/Held.antt =====
-- src/control.c with src/receive-session.c: the references that the control socket holds.
use tether_obs_plugin.Common.{
  ℕ, ◌+◌, ◌-◌, ◌<◌, ◌≡◌, refl, ap, sym, ◌∙◌, Bool, true, false, List, [], ◌∷◌, ◌++◌, Option, none,
  some, arith, ◌==◌, leb, if◌then◌else◌, Bytes, Bool-cases, Option-cases, inl, inr, some_inj,
  none≢some, str_eq, is_blank, codes,
}
use mathlib.Core.Option
use tether_obs_plugin.ReceiveSession.{Session}
use tether_obs_plugin.Registry.{Registry, find_id, release, release_found, drop_ref}
use tether_obs_plugin.Registry.Sessions.{IsDistinct, find_id-update, find_id-erase}
use tether_obs_plugin.Registry.References.{occ, occ-remove, remove, Counts, drop_ref-KeepsKeys}
use tether_obs_plugin.Registry.Lifetime.{release-ends, live}
use tether_obs_plugin.KnownTokens
use tether_obs_plugin.KnownTokens.{ObsData}
use tether_obs_plugin.Control.{Control}
use tether_obs_plugin.Control.Replies.{reply}
use tether_obs_plugin.Control.Receiving.{forget_one, forget_held, forget_token, cmd_receive_forget}

pub occ-append : (j : ℕ) (a b : List ℕ) → occ j (a ++ b) ≡ occ j a + occ j b
occ-append j [] b = ground arith
occ-append j (i ∷ a) b = ground (arith, occ-append j a b)

-- The order in which the references are listed does not matter.
pub Counts-reorder :
    (r : Registry) (held held' : List ℕ)
    → ((j : ℕ) → occ j held ≡ occ j held')
    → Counts r held
    → Counts r held'
Counts-reorder r held held' e c = record {
  distinct = c.distinct;
  fresh = c.fresh;
  counted = λ j. c.counted j ∙ e j;
  positive = c.positive;
}

-- The sessions of the second registry are sessions of the first, with their tokens.
abbrev pub Stays : Registry → Registry → Type 0
Stays r r' =
    (j : ℕ) (s' : Session)
    → find_id j r'.sessions ≡ some s'
    → (s : Session) × (find_id j r.sessions ≡ some s) × (s.token ≡ s'.token)

dropped :
    (o : Option Session) (s' : Session)
    → Option.map drop_ref o ≡ some s'
    → (s : Session) × (o ≡ some s) × (s.token ≡ s'.token)
unfolding Option.map
dropped none s' h = absurd (none≢some h)
dropped (some s) s' h = (s, refl, ap (λ (x : Session). x.token) (some_inj h))

release_found-Stays :
    (r r' : Registry) (id : ℕ) (b : Bool) (s : Session)
    → IsDistinct r.sessions
    → release_found r id (some s) ≡ some (r', b)
    → Stays r r'
unfolding release_found
release_found-Stays r r' id b s d h j s' e = elim (Bool-cases (leb (s.refcount - 1) 0)) [
  | inl k ↦
      let same = ap (λ (p : Registry × Bool). p.0) (some_inj (rw k at h)) in
      let found =
        sym (find_id-erase id j r.sessions d)
        ∙ ap (λ (x : Registry). find_id j x.sessions) same
        ∙ e in
      elim (Bool-cases (id == j)) [
        | inl i ↦ absurd (none≢some (rw i at found))
        | inr i ↦ (s', rw i at found, refl)
      ]
  | inr k ↦
      let same = ap (λ (p : Registry × Bool). p.0) (some_inj (rw k at h)) in
      let found =
        sym (find_id-update id j drop_ref r.sessions drop_ref-KeepsKeys)
        ∙ ap (λ (x : Registry). find_id j x.sessions) same
        ∙ e in
      elim (Bool-cases (id == j)) [
        | inl i ↦ dropped (find_id j r.sessions) s' (rw i at found)
        | inr i ↦ (s', rw i at found, refl)
      ]
]

release-Stays :
    (r r' : Registry) (id : ℕ) (b : Bool)
    → IsDistinct r.sessions
    → release r id ≡ some (r', b)
    → Stays r r'
unfolding release
release-Stays r r' id b d h = elim (Option-cases (find_id id r.sessions)) [
  | inl e ↦ absurd (none≢some (sym (ap (release_found r id) e ∙ unfold release_found in refl) ∙ h))
  | inr (s, e) ↦ release_found-Stays r r' id b s d (sym (ap (release_found r id) e) ∙ h)
]

Stays-trans : (r1 r2 r3 : Registry) → Stays r1 r2 → Stays r2 r3 → Stays r1 r3
Stays-trans r1 r2 r3 f g j s h = let (t, k, e) = g j s h in let (u, m, i) = f j t k in (u, m, i ∙ e)

-- Whether an address is that of a session of the token
unfoldable pub is_of : Registry → Bytes → ℕ → Bool
is_of r token id = elim (find_id id r.sessions) [ none ↦ false | some s ↦ str_eq s.token token ]

-- The addresses that are kept when a token is forgotten
abbrev pub others_of : Registry → Bytes → List ℕ → List ℕ
others_of r token [] = []
others_of r token (id ∷ ids) =
    if is_of r token id then others_of r token ids else id ∷ others_of r token ids

is_of-Stays :
    (r r' : Registry) (token : Bytes) (id : ℕ) (s : Session)
    → Stays r r'
    → find_id id r'.sessions ≡ some s
    → is_of r token id ≡ str_eq s.token token
unfolding is_of
is_of-Stays r r' token id s f h = let (t, k, e) = f id s h in rw (is_of, k, e) refl

-- What the loop leaves, under the references `held` of the others
record Forgotten (r : Registry) (token : Bytes) (ids held : List ℕ) : Type 0 where
  registry : Registry
  ends : forget_held r token ids ≡ some (registry, others_of r token ids)
  counts : Counts registry (others_of r token ids ++ held)
  stays : Stays r registry

pub occ-middle : (j id : ℕ) (a b : List ℕ) → occ j (id ∷ (a ++ b)) ≡ occ j (a ++ id ∷ b)
occ-middle j id a b = ground (arith, occ-append j a b, occ-append j a (id ∷ b))

occ-taken : (j id : ℕ) (a b : List ℕ) → occ j (remove id (a ++ id ∷ b)) ≡ occ j (a ++ b)
occ-taken j id a b =
    ground (arith, occ-remove id j (a ++ id ∷ b), occ-append j a b, occ-append j a (id ∷ b))

occ-some : (id : ℕ) (a b : List ℕ) → 0 < occ id (a ++ id ∷ b)
occ-some id a b = ground (arith, occ-append id a (id ∷ b))

forget_one-taken :
    (r r' : Registry) (token : Bytes) (id : ℕ) (ids : List ℕ) (s : Session) (b : Bool)
    → find_id id r.sessions ≡ some s
    → str_eq s.token token ≡ true
    → release r id ≡ some (r', b)
    → forget_one token id (r, ids) ≡ some (r', ids)
unfolding forget_one
forget_one-taken r r' token id ids s b h k e = rw (forget_one, h, k, e) refl

forget_one-kept :
    (r : Registry) (token : Bytes) (id : ℕ) (ids : List ℕ) (s : Session)
    → find_id id r.sessions ≡ some s
    → str_eq s.token token ≡ false
    → forget_one token id (r, ids) ≡ some (r, id ∷ ids)
unfolding forget_one
forget_one-kept r token id ids s h k = rw (forget_one, h, k) refl

forget_held-Forgotten :
    (r : Registry) (token : Bytes) (ids held : List ℕ)
    → Counts r (ids ++ held)
    → Forgotten r token ids held
unfolding forget_held
forget_held-Forgotten r token [] held c = record {
  registry = r;
  ends = refl;
  counts = c;
  stays = λ j s h. (s, h, refl);
}
forget_held-Forgotten r token (id ∷ ids) held c =
    let f = forget_held-Forgotten r token ids (id ∷ held) (
      Counts-reorder r (id ∷ (ids ++ held)) (ids ++ id ∷ held) (λ j. occ-middle j id ids held) c) in
    let kept = others_of r token ids in
    let (s, found) = live f.registry (kept ++ id ∷ held) id f.counts (occ-some id kept held) in
    let same : is_of r token id ≡ str_eq s.token token =
      is_of-Stays r f.registry token id s f.stays found in
    elim (Bool-cases (str_eq s.token token)) [
      | inl h ↦
          let (r2, e, c2) =
            release-ends f.registry (kept ++ id ∷ held) id f.counts (occ-some id kept held) in
          record {
            registry = r2;
            ends =
                rw (forget_held, f.ends, same, h)
                  (forget_one-taken f.registry r2 token id kept s _ found h e);
            counts =
                rw (same, h)
                  (Counts-reorder r2 (remove id (kept ++ id ∷ held)) (kept ++ held)
                    (λ j. occ-taken j id kept held) c2);
            stays =
                Stays-trans r f.registry r2 f.stays
                  (release-Stays f.registry r2 id _ (f.counts.distinct) e);
          }
      | inr h ↦ record {
        registry = f.registry;
        ends =
            rw (forget_held, f.ends, same, h) (forget_one-kept f.registry token id kept s found h);
        counts =
            rw (same, h)
              (Counts-reorder f.registry (kept ++ id ∷ held) (id ∷ (kept ++ held))
                (λ j. sym (occ-middle j id kept held)) f.counts);
        stays = f.stays;
      }
    ]

-- The registry counts the references of the control socket and those of the others.
abbrev pub InOrder : {E A File : Type 0} → Control E A File → List ℕ → Type 0
InOrder c others = Counts c.registry (c.held ++ others)

forget_token-Forgotten :
    {E A File Object : Type 0} (d : ObsData Object File) (c : Control E A File) (token : Bytes)
    (r : Registry) (ids : List ℕ)
    → forget_held c.registry token c.held ≡ some (r, ids)
    → (reply' : Bytes) × (forget_token d c token
        ≡ some (
          record c {
            registry = r;
            held = ids;
            known = (KnownTokens.remove d c.known (some token)).0;
          },
          reply',
        ))
unfolding forget_token
forget_token-Forgotten d c token r ids h =
    (reply (codes "OK forgot " ++ token), rw (forget_token, h) refl)

-- `receive-forget` gives up what the socket holds of a token, and nothing else: in a registry that
-- counts the references of the socket and of the others, the command on a token that is not blank has a
-- result, so that it calls only sessions that are alive; the socket then holds, in their order, its
-- addresses of the sessions of other tokens, and the registry counts these and those of the others.
pub cmd_receive_forget-others_of :
    {E A File Object : Type 0} (d : ObsData Object File) (c : Control E A File) (token : Bytes)
    (others : List ℕ)
    → is_blank (some token) ≡ false
    → InOrder c others
    → (c' : Control E A File) × (text : Bytes) × (cmd_receive_forget d c (some token)
        ≡ some (c', text))
      × (c'.held ≡ others_of c.registry token c.held)
      × InOrder c' others
unfolding cmd_receive_forget
cmd_receive_forget-others_of d c token others h k =
    let f = forget_held-Forgotten c.registry token c.held others k in
    let (text, e) =
      forget_token-Forgotten d c token f.registry (others_of c.registry token c.held) f.ends in
    let c' : Control _ _ _ = record c {
      registry = f.registry;
      held = others_of c.registry token c.held;
      known = (KnownTokens.remove d c.known (some token)).0;
    } in
    (c', text, rw (cmd_receive_forget, h) e, refl, f.counts)
