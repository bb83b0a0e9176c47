-- ===== src/Source/References.antt =====
-- src/source.c with src/receive-session.c: the references that a source holds.
use tether_obs_plugin.Common.{
  ℕ, ◌<◌, ◌≡◌, refl, ap, sym, Bool, true, false, List, [], ◌∷◌, Option, none, some, arith, ◌==◌,
  Bytes, Bool-cases, inl, inr, subst, str_eq_refl, is_blank, ◌⊎◌,
}
use tether_obs_plugin.ReceiveSession.{Notice}
use tether_obs_plugin.Registry
use tether_obs_plugin.Registry.{Registry, unsubscribe, subscribe, release}
use tether_obs_plugin.Registry.References.{occ, remove, grant, refs}
use tether_obs_plugin.Registry.Lifetime.{
  Run, got, released, subscribed, unsubscribed, Run-release_alive, Run-refcounts,
}
use tether_obs_plugin.KnownTokens
use tether_obs_plugin.KnownTokens.{ObsData, Store}
use tether_obs_plugin.Source.{
  Settings, World, Making, filled, leave, join, enter, attach_session, subscription, with_mids,
  unbound, create, update, is_same, destroy,
}

-- The address that a subscription refers to
abbrev pub address : Option (ℕ × ℕ) → Option ℕ
address none = none
address (some (id, sub)) = some id

-- The world is in order: its registry can be reached, and the references that are held are those of
-- the others and the one of the source's subscription, if it has one.
abbrev pub InOrder : {V D File : Type 0} → World V D File → List ℕ → Type 0
InOrder u others = Run u.registry (grant (address u.source.sub) others)

held_here : (id : ℕ) (others : List ℕ) → 0 < occ id (id ∷ others)
held_here id others = ground arith

remove_here : (id : ℕ) (others : List ℕ) → remove id (id ∷ others) ≡ others
remove_here id others = ground arith

leave_registry :
    (r : Registry) (id sub : ℕ) (others : List ℕ)
    → Run r (id ∷ others)
    → (r' : Registry) × (b : Bool) × (unsubscribe r id sub ≡ some (r', b)) × Run r' others
leave_registry r id sub others run =
    let (_, (r', e), _) =
      Run-release_alive r (id ∷ others) id sub
        (subscription (record { wrtc_made = true; sig_made = true; sub_id = sub })) run
        (held_here id others) in
    (
      r',
      occ id (id ∷ others) == 1,
      e,
      subst (Run r') (remove_here id others)
          (unsubscribed r r' (id ∷ others) id sub _ run (held_here id others) e),
    )

-- A subscription to a session that is held, and the release of it
join_registry :
    (r : Registry) (id : ℕ) (m : Making) (others : List ℕ)
    → Run r (id ∷ others)
    → (r1 r2 : Registry) × (ns : List Notice) × (b : Bool) × (subscribe r id (subscription m)
        ≡ some (r1, ns))
      × (release r1 id ≡ some (r2, b))
      × Run r2 (id ∷ others)
join_registry r id m others run =
    let (_, _, (r1, ns, e1)) =
      Run-release_alive r (id ∷ others) id m.sub_id (subscription m) run (held_here id others) in
    let run1 = subscribed r r1 (id ∷ others) id (subscription m) ns run (held_here id others) e1 in
    let ((r2, e2), _, _) =
      Run-release_alive r1 (id ∷ id ∷ others) id m.sub_id (subscription m) run1
        (held_here id (id ∷ others)) in
    (
      r1,
      r2,
      ns,
      occ id (id ∷ id ∷ others) == 1,
      e1,
      e2,
      subst (Run r2) (remove_here id (id ∷ others))
          (released r1 r2 (id ∷ id ∷ others) id _ run1 (held_here id (id ∷ others)) e2),
    )

-- What a step of the source comes to: it has a result, which is in order.
abbrev pub Ends : {V D File : Type 0} → Option (World V D File) → List ℕ → Type 0
Ends {V} {D} {File} o others = (v : World V D File) × (o ≡ some v) × InOrder v others

leave_found :
    {V D File : Type 0} (u : World V D File) (id sub : ℕ) (r : Registry) (b : Bool)
    → unsubscribe u.registry id sub ≡ some (r, b)
    → leave u (some (id, sub))
      ≡ some (record u { source = record u.source { sub = none; session = none }; registry = r })
unfolding leave
leave_found u id sub r b h = rw (leave, h) refl

join_found :
    {V D File Object : Type 0} (d : ObsData Object File) (u : World V D File) (token : Bytes)
    (m : Making) (id : ℕ) (r1 r2 : Registry) (ns : List Notice) (b : Bool)
    → subscribe u.registry id (subscription m) ≡ some (r1, ns)
    → release r1 id ≡ some (r2, b)
    → join d u token m (some id)
      ≡ some (record {
        source = record u.source { session = some id; sub = some (id, m.sub_id) };
        registry = r2;
        known = (KnownTokens.add d u.known (some token)).0;
      })
unfolding join
join_found d u token m id r1 r2 ns b h k = rw (join, h, k) refl

leave-Ends :
    {V D File : Type 0} (u : World V D File) (others : List ℕ) (o : Option (ℕ × ℕ))
    → u.source.sub ≡ o
    → Run u.registry (grant (address o) others)
    → (v : World V D File) × (leave u o ≡ some v) × (v.source.sub ≡ none) × Run v.registry others
unfolding leave
leave-Ends u others none e run = (u, refl, e, run)
leave-Ends u others (some (id, sub)) e run =
    let (r, b, h, run') = leave_registry u.registry id sub others run in
    (_, leave_found u id sub r b h, refl, run')

join-Ends :
    {V D File Object : Type 0} (d : ObsData Object File) (u : World V D File) (token : Bytes)
    (m : Making) (others : List ℕ) (o : Option ℕ)
    → u.source.sub ≡ none
    → Run u.registry (grant o others)
    → Ends (join d u token m o) others
unfolding join
join-Ends d u token m others none e run =
    (_, refl, subst (λ x. Run u.registry (grant (address x) others)) (sym e) run)
join-Ends d u token m others (some id) e run =
    let (r1, r2, ns, b, h, k, run') = join_registry u.registry id m others run in
    (_, join_found d u token m id r1 r2 ns b h k, run')

enter-Ends :
    {V D File Object : Type 0} (d : ObsData Object File) (u : World V D File) (m : Making)
    (token : Option Bytes) (others : List ℕ)
    → u.source.sub ≡ none
    → Run u.registry others
    → Ends (enter d u m token) others
unfolding enter
enter-Ends d u m none others e run =
    (_, refl, subst (λ x. Run u.registry (grant (address x) others)) (sym e) run)
enter-Ends d u m (some token) others e run =
    let got_it = Registry.get u.registry (some token) m.wrtc_made m.sig_made in
    join-Ends d (record u { source = record u.source { token = some token }; registry = got_it.0 })
      token m others got_it.1 e (got u.registry others (some token) m.wrtc_made m.sig_made run)

-- A source is attached
attach_session-Ends :
    {V D File Object : Type 0} (d : ObsData Object File) (u : World V D File) (token : Option Bytes)
    (m : Making) (others : List ℕ)
    → InOrder u others
    → Ends (attach_session d u token m) others
unfolding attach_session
attach_session-Ends d u token m others run =
    let (v, e, left, k) = leave-Ends u others u.source.sub refl run in
    let (w, h, k') = enter-Ends d v m (filled token) others left k in
    (w, rw (attach_session, e) h, k')

update-Ends :
    {V D File Object : Type 0} (d : ObsData Object File) (u : World V D File) (set : Settings)
    (m : Making) (others : List ℕ)
    → InOrder u others
    → Ends (update d u set m) others
unfolding update
update-Ends d u set m others run = elim (Bool-cases (is_same u.source.token set.token)) [
  | inl e ↦ (with_mids set u, rw (update, e) refl, run)
  | inr e ↦
      let (v, h, run') = attach_session-Ends d u set.token m others run in
      (with_mids set v, rw (update, e, h) refl, run')
]

destroy-Ends :
    {V D File : Type 0} (u : World V D File) (others : List ℕ)
    → InOrder u others
    → (r : Registry) × (destroy u ≡ some r) × Run r others
unfolding destroy
destroy-Ends u others run = elim (sub-cases u.source.sub) [
  | inl e ↦ (
    u.registry,
    rw (destroy, e) refl,
    subst (λ o. Run u.registry (grant (address o) others)) e run,
  )
  | inr (id, sub, e) ↦
      let held = subst (λ o. Run u.registry (grant (address o) others)) e run in
      let (r, b, h, run') = leave_registry u.registry id sub others held in
      (r, rw (destroy, e, h) refl, run')
]
  where
    sub-cases : (o : Option (ℕ × ℕ)) → (o ≡ none) ⊎ ((id sub : ℕ) × (o ≡ some (id, sub)))
    sub-cases none = inl refl
    sub-cases (some (id, sub)) = inr (id, sub, refl)

unfoldable pub update_all :
    {V D File Object : Type 0}
    → ObsData Object File
    → World V D File
    → List (Settings × Making)
    → Option (World V D File)
unfolding update
update_all d u [] = some u
update_all d u ((set, m) ∷ ss) = elim (update d u set m) [
  | none ↦ none
  | some v ↦ update_all d v ss
]

-- The life of a source: it is created, updated and destroyed.
unfoldable pub life :
    {V File Object : Type 0}
    → (D : Type 0) → ObsData Object File
    → Registry
    → Store File
    → Option V
    → Settings × Making
    → List (Settings × Making)
    → Option Registry
unfolding create update_all destroy
life {V} D d r known decoder (set, m) ss = elim (create {V = V} {D = D} d r known decoder set m) [
  | none ↦ none
  | some u ↦ elim (update_all d u ss) [ none ↦ none | some v ↦ destroy v ]
]

update_all-Ends :
    {V D File Object : Type 0} (d : ObsData Object File) (u : World V D File)
    (ss : List (Settings × Making)) (others : List ℕ)
    → InOrder u others
    → Ends (update_all d u ss) others
unfolding update_all
update_all-Ends d u [] others run = (u, refl, run)
update_all-Ends d u ((set, m) ∷ ss) others run =
    let (v, h, run') = update-Ends d u set m others run in
    let (w, k, run2) = update_all-Ends d v ss others run' in (w, rw (update_all, h) k, run2)

create-Ends :
    {V D File Object : Type 0} (d : ObsData Object File) (r : Registry) (known : Store File)
    (decoder : Option V) (set : Settings) (m : Making) (others : List ℕ)
    → Run r others
    → Ends (create {D = D} d r known decoder set m) others
unfolding create
create-Ends d r known decoder set m others run =
    attach_session-Ends d (with_mids set (unbound r known decoder)) set.token m others run

-- A source gives back what it takes: in a registry that can be reached, a source that is created,
-- updated with any settings and destroyed, whatever can be made meanwhile, calls only sessions that are
-- alive, and leaves a registry that can be reached in which each session counts exactly the references
-- of the others.
pub life-refcounts :
    {V File Object : Type 0} (D : Type 0) (d : ObsData Object File) (r : Registry)
    (known : Store File) (decoder : Option V) (first : Settings × Making)
    (ss : List (Settings × Making)) (others : List ℕ)
    → Run r others
    → (r' : Registry) × (life D d r known decoder first ss ≡ some r')
      × Run r' others
      × ((id : ℕ) → refs (Registry.find_id id r'.sessions) ≡ occ id others)
unfolding life
life-refcounts D d r known decoder (set, m) ss others run =
    let (u, e, run1) = create-Ends {D = D} d r known decoder set m others run in
    let (v, h, run2) = update_all-Ends d u ss others run1 in
    let (r', k, run3) = destroy-Ends v others run2 in
    (r', rw (life, e, h) k, run3, (Run-refcounts r' others run3).1)

no_session :
    {V D File Object : Type 0} (d : ObsData Object File) (u : World V D File) (tok : Bytes)
    (m : Making)
    → u.source.sub ≡ none
    → is_blank (some tok) ≡ false
    → (Registry.get u.registry (some tok) m.wrtc_made m.sig_made).1 ≡ none
    → attach_session d u (some tok) m
      ≡ some (record {
        source = record u.source { token = some tok; session = none };
        registry = (Registry.get u.registry (some tok) m.wrtc_made m.sig_made).0;
        known = u.known;
      })
unfolding attach_session filled enter leave join
no_session d u tok m e h k =
    let left : leave u u.source.sub ≡ some u = ap (leave u) e in
    rw (attach_session, left, filled, h, join, k) refl

-- A source whose session could not be made does not try again: while it is not subscribed, an attach to
-- a token that is not blank, for which the registry returns no session, ends, and an update with the
-- same token after it leaves the source without a subscription and the registry as it is, whatever could
-- be made by then.
pub update-attach_session :
    {V D File Object : Type 0} (d : ObsData Object File) (u : World V D File) (tok : Bytes)
    (m m' : Making) (set : Settings)
    → u.source.sub ≡ none
    → is_blank (some tok) ≡ false
    → (Registry.get u.registry (some tok) m.wrtc_made m.sig_made).1 ≡ none
    → set.token ≡ some tok
    → (v w : World V D File) × (attach_session d u (some tok) m ≡ some v)
      × (update d v set m' ≡ some w)
      × (w.source.sub ≡ none)
      × (w.registry ≡ v.registry)
unfolding update
update-attach_session d u tok m m' set e h k same =
    let v : World _ _ _ = record {
      source = record u.source { token = some tok; session = none };
      registry = (Registry.get u.registry (some tok) m.wrtc_made m.sig_made).0;
      known = u.known;
    } in
    let again : is_same (some tok) set.token ≡ true = rw same (unfold is_same in str_eq_refl tok) in
    (v, with_mids set v, no_session d u tok m e h k, rw (update, again) refl, e, refl)
