-- ===== src/KnownTokens/Lookup.antt =====
-- src/known-tokens.c: what the list holds after each of its operations.
use tether_obs_plugin.Common.{
  ◌≡◌, ◌⊎◌, refl, ap, Bool, true, false, not, ◌&&◌, ◌||◌, List, [], ◌∷◌, ◌++◌, Option, none, some,
  arith, if◌then◌else◌, Bytes, str_eq, str_eq_iff, is_blank, Bool-cases, inl, inr, sym, ◌∙◌,
}
use tether_obs_plugin.KnownTokens.{
  TokenEntry, Store, ObsData, named, contains, erase, rename, find_name, add, remove, set_name,
  get_name, save_to_disk,
}

-- No token stands twice in the list.
abbrev pub IsDistinct : List TokenEntry → Type 0
IsDistinct [] = Unit
IsDistinct (e ∷ es) = (contains e.token es ≡ false) × IsDistinct es

contains-append :
    (tok : Bytes) (es : List TokenEntry) (e : TokenEntry)
    → contains tok (es ++ e ∷ []) ≡ (contains tok es || str_eq e.token tok)
unfolding contains
contains-append tok [] e = ground arith
contains-append tok (c ∷ es) e = ground (arith, contains-append tok es e)

pub append-IsDistinct :
    (es : List TokenEntry) (e : TokenEntry)
    → IsDistinct es
    → contains e.token es ≡ false
    → IsDistinct (es ++ e ∷ [])
unfolding contains
append-IsDistinct [] e d h = (refl, tt)
append-IsDistinct (c ∷ es) e d h =
    let apart : str_eq e.token c.token ≡ false =
      ground (arith, str_eq_iff e.token c.token, str_eq_iff c.token e.token) in
    (contains-append c.token es e ∙ rw (d.0, apart) refl, append-IsDistinct es e d.1 (ground arith))

pub contains-rename :
    (q tok : Bytes) (nm : Option Bytes) (es : List TokenEntry)
    → contains q (rename tok nm es) ≡ contains q es
unfolding contains rename
contains-rename q tok nm [] = refl
contains-rename q tok nm (e ∷ es) = ground (arith, contains-rename q tok nm es)

pub rename-IsDistinct :
    (tok : Bytes) (nm : Option Bytes) (es : List TokenEntry)
    → IsDistinct es
    → IsDistinct (rename tok nm es)
unfolding rename
rename-IsDistinct tok nm [] d = tt
rename-IsDistinct tok nm (e ∷ es) d = elim (Bool-cases (str_eq e.token tok)) [
  | inl h ↦ rw h d
  | inr h ↦ rw h (contains-rename e.token tok nm es ∙ d.0, rename-IsDistinct tok nm es d.1)
]

pub contains-erase :
    (q tok : Bytes) (es : List TokenEntry)
    → IsDistinct es
    → contains q (erase tok es) ≡ (contains q es && not (str_eq tok q))
unfolding contains erase
contains-erase q tok [] d = refl
contains-erase q tok (e ∷ es) d = elim (Bool-cases (str_eq e.token tok)) [
  | inl h ↦
      let same : e.token ≡ tok = (str_eq_iff e.token tok).0 h in
      let gone : contains tok es ≡ false = rw same at d.0 in
      ground (arith, str_eq_iff tok q, ap (λ t. contains t es), same)
  | inr h ↦ ground (
    arith,
    contains-erase q tok es d.1,
    str_eq_iff e.token q,
    str_eq_iff tok q,
    str_eq_iff e.token tok,
  )
]

pub erase-IsDistinct :
    (tok : Bytes) (es : List TokenEntry) → IsDistinct es → IsDistinct (erase tok es)
unfolding erase
erase-IsDistinct tok [] d = tt
erase-IsDistinct tok (e ∷ es) d = elim (Bool-cases (str_eq e.token tok)) [
  | inl h ↦ rw h (d.1)
  | inr h ↦ rw h (contains-erase e.token tok es d.1 ∙ rw (d.0) refl, erase-IsDistinct tok es d.1)
]

find_name-rename :
    (q tok : Bytes) (nm : Option Bytes) (es : List TokenEntry)
    → find_name q (rename tok nm es)
      ≡ (if str_eq tok q && contains tok es then named nm else find_name q es)
unfolding find_name rename contains
find_name-rename q tok nm [] = ground arith
find_name-rename q tok nm (e ∷ es) = ground (
  arith,
  find_name-rename q tok nm es,
  str_eq_iff e.token q,
  str_eq_iff tok q,
  str_eq_iff e.token tok,
)

pub save_to_disk-entries :
    {Object File : Type 0} (d : ObsData Object File) (st : Store File)
    → ((save_to_disk d st).entries ≡ st.entries)
      × ((save_to_disk d st).initialised ≡ st.initialised)
unfolding save_to_disk
save_to_disk-entries d st = (ground arith, ground arith)

get_name-save_to_disk :
    {Object File : Type 0} (d : ObsData Object File) (st : Store File) (q : Option Bytes)
    → get_name (save_to_disk d st) q ≡ get_name st q
unfolding save_to_disk get_name
get_name-save_to_disk d st none = refl
get_name-save_to_disk d st (some q) = elim (Bool-cases st.has_path) [
  | inl h ↦ rw h refl
  | inr h ↦ rw h refl
]

pub set_name_known :
    {Object File : Type 0} (d : ObsData Object File) (st : Store File) (tok : Bytes)
    (nm : Option Bytes)
    → st.initialised ≡ true
    → contains tok st.entries ≡ true
    → set_name d st (some tok) nm
      ≡ (save_to_disk d (record st { entries = rename tok nm st.entries }), true)
unfolding set_name
set_name_known d st tok nm on h = rw (on, h) refl

pub set_name_unknown :
    {Object File : Type 0} (d : ObsData Object File) (st : Store File) (tok : Bytes)
    (nm : Option Bytes)
    → (st.initialised && contains tok st.entries) ≡ false
    → set_name d st (some tok) nm ≡ (st, false)
unfolding set_name
set_name_unknown d st tok nm h = rw h refl

pub remove_known :
    {Object File : Type 0} (d : ObsData Object File) (st : Store File) (tok : Bytes)
    → st.initialised ≡ true
    → contains tok st.entries ≡ true
    → remove d st (some tok) ≡ (save_to_disk d (record st { entries = erase tok st.entries }), true)
unfolding remove
remove_known d st tok on h = rw (on, h) refl

pub remove_unknown :
    {Object File : Type 0} (d : ObsData Object File) (st : Store File) (tok : Bytes)
    → (st.initialised && contains tok st.entries) ≡ false
    → remove d st (some tok) ≡ (st, false)
unfolding remove
remove_unknown d st tok h = rw h refl

pub add_new :
    {Object File : Type 0} (d : ObsData Object File) (st : Store File) (tok : Bytes)
    → is_blank (some tok) ≡ false
    → (st.initialised && not (contains tok st.entries)) ≡ true
    → add d st (some tok) ≡ (
      save_to_disk d
          (record st { entries = st.entries ++ record { token = tok; name = none } ∷ [] }),
      true,
    )
unfolding add
add_new d st tok b h = rw (b, h) refl

pub add_refused :
    {Object File : Type 0} (d : ObsData Object File) (st : Store File) (tok : Bytes)
    → (is_blank (some tok) ≡ true) ⊎ ((st.initialised && not (contains tok st.entries)) ≡ false)
    → add d st (some tok) ≡ (st, false)
unfolding add
add_refused d st tok (inl b) = rw b refl
add_refused d st tok (inr h) = rw h (ground arith)

-- A rename of a known token gives it the new name, an empty name none, and changes no other token's
-- name; a rename of an unknown token changes nothing.
pub get_name-set_name :
    {Object File : Type 0} (d : ObsData Object File) (st : Store File) (tok q : Bytes)
    (nm : Option Bytes)
    → st.initialised ≡ true
    → get_name (set_name d st (some tok) nm).0 (some q)
      ≡ (if str_eq tok q && contains tok st.entries then named nm else get_name st (some q))
get_name-set_name d st tok q nm on = elim (Bool-cases (contains tok st.entries)) [
  | inl h ↦
      ap (λ (p : Store _ × Bool). get_name p.0 (some q)) (set_name_known d st tok nm on h)
      ∙ get_name-save_to_disk d (record st { entries = rename tok nm st.entries }) (some q)
      ∙ unfold get_name in rw (on, find_name-rename q tok nm st.entries, h) refl
  | inr h ↦
      ap (λ (p : Store _ × Bool). get_name p.0 (some q))
        (set_name_unknown d st tok nm (rw (on, h) refl))
      ∙ rw h (ground arith)
]

-- Removing a token from a list without duplicates takes out that token and no other, and reports
-- whether it was there.
pub contains-remove :
    {Object File : Type 0} (d : ObsData Object File) (st : Store File) (tok q : Bytes)
    → st.initialised ≡ true
    → IsDistinct st.entries
    → (contains q (remove d st (some tok)).0.entries
        ≡ (contains q st.entries && not (str_eq tok q)))
      × ((remove d st (some tok)).1 ≡ contains tok st.entries)
contains-remove d st tok q on u = elim (Bool-cases (contains tok st.entries)) [
  | inl h ↦
      let e = remove_known d st tok on h in
      let (kept, _) = save_to_disk-entries d (record st { entries = erase tok st.entries }) in
      (
        ap (λ (p : Store _ × Bool). contains q p.0.entries) e
            ∙ ap (contains q) kept
            ∙ contains-erase q tok st.entries u,
        ap (λ (p : Store _ × Bool). p.1) e ∙ sym h,
      )
  | inr h ↦
      let e = remove_unknown d st tok (rw (on, h) refl) in
      (
        ap (λ (p : Store _ × Bool). contains q p.0.entries) e
            ∙ ground (arith, str_eq_iff tok q, ap (λ t. contains t st.entries)),
        ap (λ (p : Store _ × Bool). p.1) e ∙ sym h,
      )
]
