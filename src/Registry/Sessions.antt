-- ===== src/Registry/Sessions.antt =====
-- src/receive-session.c: lookups in the registry after each kind of write.
use tether_obs_plugin.Common.{
  ℕ, ◌≡◌, refl, ap, false, List, [], ◌∷◌, ◌++◌, none, some, arith, ◌==◌, if◌then◌else◌, Bytes,
  str_eq, str_eq_iff, Bool-cases, inl, inr, ◌∙◌, some_inj,
}
use mathlib.Core.Option
use tether_obs_plugin.ReceiveSession.{Session}
use tether_obs_plugin.Registry.{find_token, find_id, update_session, erase_session}

-- No two sessions have one address, and no two have one token.
abbrev pub IsDistinct : List Session → Type 0
IsDistinct [] = Unit
IsDistinct (s ∷ ss) = (find_id s.id ss ≡ none) × (find_token s.token ss ≡ none) × IsDistinct ss

-- A write that leaves the address and the token alone.
pub record KeepsKeys (f : Session → Session) : Type 0 where
  pub id : (s : Session) → (f s).id ≡ s.id
  pub token : (s : Session) → (f s).token ≡ s.token

pub find_id-update :
    (id j : ℕ) (f : Session → Session) (ss : List Session)
    → KeepsKeys f
    → find_id j (update_session id f ss)
      ≡ (if id == j then Option.map f (find_id j ss) else find_id j ss)
unfolding find_id update_session Option.map
find_id-update id j f [] k = ground arith
find_id-update id j f (s ∷ ss) k = ground (arith, find_id-update id j f ss k, k.id s)

find_token-update :
    (id : ℕ) (tok : Bytes) (f : Session → Session) (ss : List Session)
    → KeepsKeys f
    → find_token tok ss ≡ none
    → find_token tok (update_session id f ss) ≡ none
unfolding find_token update_session
find_token-update id tok f [] k h = refl
find_token-update id tok f (s ∷ ss) k h = ground (arith, find_token-update id tok f ss k, k.token s)

find_id-update_none :
    (id j : ℕ) (f : Session → Session) (ss : List Session)
    → KeepsKeys f
    → find_id j ss ≡ none
    → find_id j (update_session id f ss) ≡ none
unfolding Option.map
find_id-update_none id j f ss k h = ground (arith, find_id-update id j f ss k)

pub update_session-IsDistinct :
    (id : ℕ) (f : Session → Session) (ss : List Session)
    → KeepsKeys f
    → IsDistinct ss
    → IsDistinct (update_session id f ss)
unfolding update_session
update_session-IsDistinct id f [] k d = tt
update_session-IsDistinct id f (s ∷ ss) k (a, b, d) = elim (Bool-cases (s.id == id)) [
  | inl e ↦ rw e (rw (k.id s) a, rw (k.token s) b, d)
  | inr e ↦ rw e (
    find_id-update_none id s.id f ss k a,
    find_token-update id s.token f ss k b,
    update_session-IsDistinct id f ss k d,
  )
]

find_id-erase_none :
    (id j : ℕ) (ss : List Session) → find_id j ss ≡ none → find_id j (erase_session id ss) ≡ none
unfolding find_id erase_session
find_id-erase_none id j [] h = refl
find_id-erase_none id j (s ∷ ss) h = ground (arith, find_id-erase_none id j ss)

find_token-erase_none :
    (id : ℕ) (tok : Bytes) (ss : List Session)
    → find_token tok ss ≡ none
    → find_token tok (erase_session id ss) ≡ none
unfolding find_token erase_session
find_token-erase_none id tok [] h = refl
find_token-erase_none id tok (s ∷ ss) h = ground (arith, find_token-erase_none id tok ss)

pub find_id-erase :
    (id j : ℕ) (ss : List Session)
    → IsDistinct ss
    → find_id j (erase_session id ss) ≡ (if id == j then none else find_id j ss)
unfolding find_id erase_session
find_id-erase id j [] d = ground arith
find_id-erase id j (s ∷ ss) (a, b, d) = elim (Bool-cases (s.id == id)) [
  | inl e ↦
      let at : s.id ≡ id = ground arith in
      let gone : find_id id ss ≡ none = rw at at a in ground (arith, ap (λ k. find_id k ss) at)
  | inr e ↦ ground (arith, find_id-erase id j ss d)
]

pub erase_session-IsDistinct :
    (id : ℕ) (ss : List Session) → IsDistinct ss → IsDistinct (erase_session id ss)
unfolding erase_session
erase_session-IsDistinct id [] d = tt
erase_session-IsDistinct id (s ∷ ss) (a, b, d) = elim (Bool-cases (s.id == id)) [
  | inl e ↦ rw e d
  | inr e ↦ rw e (
    find_id-erase_none id s.id ss a,
    find_token-erase_none id s.token ss b,
    erase_session-IsDistinct id ss d,
  )
]

pub find_id-append :
    (j : ℕ) (ss : List Session) (s : Session)
    → find_id j (ss ++ s ∷ [])
      ≡ (elim (find_id j ss) [ some t ↦ some t | none ↦ if s.id == j then some s else none ])
unfolding find_id
find_id-append j [] s = refl
find_id-append j (t ∷ ss) s = ground (arith, find_id-append j ss s)

find_token-append :
    (tok : Bytes) (ss : List Session) (s : Session)
    → find_token tok ss ≡ none
    → str_eq s.token tok ≡ false
    → find_token tok (ss ++ s ∷ []) ≡ none
unfolding find_token
find_token-append tok [] s h k = rw k
find_token-append tok (t ∷ ss) s h k = ground (arith, find_token-append tok ss s)

find_id-none-head :
    (j : ℕ) (t : Session) (ss : List Session)
    → find_id j (t ∷ ss) ≡ none
    → ((t.id == j) ≡ false) × (find_id j ss ≡ none)
unfolding find_id
find_id-none-head j t ss h = ground arith

find_token-none-head :
    (tok : Bytes) (t : Session) (ss : List Session)
    → find_token tok (t ∷ ss) ≡ none
    → (str_eq t.token tok ≡ false) × (find_token tok ss ≡ none)
unfolding find_token
find_token-none-head tok t ss h = ground arith

pub append-IsDistinct :
    (ss : List Session) (s : Session)
    → IsDistinct ss
    → find_id s.id ss ≡ none
    → find_token s.token ss ≡ none
    → IsDistinct (ss ++ s ∷ [])
append-IsDistinct [] s d h k = unfold find_id find_token in (refl, refl, tt)
append-IsDistinct (t ∷ ss) s (a, b, d) h k =
    let (h0, h1) = find_id-none-head s.id t ss h in
    let (k0, k1) = find_token-none-head s.token t ss k in
    let apart : str_eq s.token t.token ≡ false =
      ground (arith, str_eq_iff s.token t.token, str_eq_iff t.token s.token) in
    (
      find_id-append t.id ss s ∙ rw a (ground arith),
      find_token-append t.token ss s b apart,
      append-IsDistinct ss s d h1 k1,
    )

-- The session that a token leads to is the one at its address.
pub find_token-find_id :
    (tok : Bytes) (ss : List Session) (s : Session)
    → IsDistinct ss
    → find_token tok ss ≡ some s
    → find_id s.id ss ≡ some s
unfolding find_token find_id
find_token-find_id tok [] s d h = cc
find_token-find_id tok (t ∷ ss) s (a, b, d) h = elim (Bool-cases (str_eq t.token tok)) [
  | inl e ↦ ground (arith, some_inj (rw e at h))
  | inr e ↦
      let ih = find_token-find_id tok ss s d (rw e at h) in ground (arith, ap (λ k. find_id k ss))
]
