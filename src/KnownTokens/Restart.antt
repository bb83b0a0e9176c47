-- ===== src/KnownTokens/Restart.antt =====
-- src/known-tokens.c: the list after a restart, where the file can be written.
use tether_obs_plugin.Common.{
  ◌≡◌, refl, ap, true, false, List, [], ◌∷◌, Option, none, some, arith, Bytes, str_eq, is_blank,
  Bool-cases, inl, inr, sym, ◌∙◌, All, All-append,
}
use tether_obs_plugin.KnownTokens.{
  TokenEntry, Store, ObsData, HasText, created, with_string, SameStrings, ObsDataLaws, token_key,
  name_key, named, push_item, load_items, load_file, load_from_disk, item_of, items, contains,
  erase, rename, add, remove, set_name, save_to_disk, init, shutdown,
}
use tether_obs_plugin.KnownTokens.Lookup.{
  IsDistinct, append-IsDistinct, rename-IsDistinct, erase-IsDistinct, add_new, add_refused,
  remove_known, remove_unknown, set_name_known, set_name_unknown,
}

-- Nothing, or a text
abbrev pub IsTextName : (Bytes → Type 0) → Option Bytes → Type 0
IsTextName IsText none = Unit
IsTextName IsText (some nm) = IsText nm

-- The entries that survive being written and read: with a token, without an empty name, and of texts.
abbrev pub IsWritable : (Bytes → Type 0) → TokenEntry → Type 0
IsWritable IsText e =
    (is_blank (some e.token) ≡ false)
    × (named e.name ≡ e.name)
    × IsText e.token
    × IsTextName IsText e.name

keys_apart : str_eq token_key name_key ≡ false
unfolding str_eq
keys_apart = refl

keys_apart_sym : str_eq name_key token_key ≡ false
unfolding str_eq
keys_apart_sym = refl

push_writable :
    (tok : Bytes) (nm : Option Bytes) (rest : List TokenEntry)
    → is_blank (some tok) ≡ false
    → push_item (some tok) nm rest ≡ record { token = tok; name = named nm } ∷ rest
unfolding push_item
push_writable tok nm rest h = rw h refl

named_blank : (nm : Option Bytes) → is_blank nm ≡ true → named nm ≡ none
unfolding named
named_blank nm h = rw h refl

erase-IsWritable :
    (IsText : Bytes → Type 0) (tok : Bytes) (es : List TokenEntry)
    → All (IsWritable IsText) es
    → All (IsWritable IsText) (erase tok es)
unfolding erase
erase-IsWritable IsText tok [] w = tt
erase-IsWritable IsText tok (e ∷ es) w = elim (Bool-cases (str_eq e.token tok)) [
  | inl h ↦ rw h (w.1)
  | inr h ↦ rw h (w.0, erase-IsWritable IsText tok es w.1)
]

named-named : (nm : Option Bytes) → named (named nm) ≡ named nm
unfolding named is_blank
named-named nm = ground arith

named-IsTextName :
    (IsText : Bytes → Type 0) (nm : Option Bytes)
    → IsTextName IsText nm
    → IsTextName IsText (named nm)
unfolding named is_blank
named-IsTextName IsText none h = tt
named-IsTextName IsText (some []) h = tt
named-IsTextName IsText (some (c ∷ s)) h = h

rename-IsWritable :
    (IsText : Bytes → Type 0) (tok : Bytes) (nm : Option Bytes) (es : List TokenEntry)
    → IsTextName IsText nm
    → All (IsWritable IsText) es
    → All (IsWritable IsText) (rename tok nm es)
unfolding rename
rename-IsWritable IsText tok nm [] t w = tt
rename-IsWritable IsText tok nm (e ∷ es) t w = elim (Bool-cases (str_eq e.token tok)) [
  | inl h ↦ rw h ((w.0.0, named-named nm, w.0.2, named-IsTextName IsText nm t), w.1)
  | inr h ↦ rw h (w.0, rename-IsWritable IsText tok nm es t w.1)
]

new-IsWritable :
    (IsText : Bytes → Type 0) (tok : Bytes)
    → is_blank (some tok) ≡ false
    → IsText tok
    → IsWritable IsText (record { token = tok; name = none })
unfolding named is_blank
new-IsWritable IsText tok h t = (h, refl, t, tt)

-- A call that may change the list
pub data Call : Type 0 where
  add_call : Option Bytes → Call
  remove_call : Option Bytes → Call
  rename_call : Option Bytes → Option Bytes → Call

-- What a call writes is a text.
abbrev pub IsTextual : (Bytes → Type 0) → Call → Type 0
IsTextual IsText (add_call tok) = IsTextName IsText tok
IsTextual IsText (remove_call tok) = Unit
IsTextual IsText (rename_call tok nm) = IsTextName IsText nm

unfoldable pub call : {Object File : Type 0} → ObsData Object File → Store File → Call → Store File
call d st (add_call tok) = (add d st tok).0
call d st (remove_call tok) = (remove d st tok).0
call d st (rename_call tok nm) = (set_name d st tok nm).0

unfoldable pub call_all :
    {Object File : Type 0} → ObsData Object File → Store File → List Call → Store File
unfolding call
call_all d st [] = st
call_all d st (c ∷ cs) = call_all d (call d st c) cs

-- The variables before the first start, with no file yet
abbrev pub untouched : {File : Type 0} → Store File
untouched = record { initialised = false; entries = []; has_path = true; file = none }

module _ {Object File : Type 0} (d : ObsData Object File) (IsText : Bytes → Type 0)
    (laws : ObsDataLaws d IsText) where
  item_token :
      (tok : Bytes) (nm : Option Bytes)
      → IsText tok
      → IsTextName IsText nm
      → d.get_string (item_of d (record { token = tok; name = nm })) token_key ≡ some tok
  unfolding item_of
  item_token tok none t u = laws.get-set d.create token_key tok t
  item_token tok (some nm) t u =
      laws.get-set_other _ name_key nm token_key u keys_apart_sym
      ∙ laws.get-set d.create token_key tok t

  item_name :
      (tok : Bytes) (nm : Option Bytes)
      → IsText tok
      → IsTextName IsText nm
      → named nm ≡ nm
      → named (d.get_string (item_of d (record { token = tok; name = nm })) name_key) ≡ nm
  unfolding item_of
  item_name tok none t u h = named_blank _ (
      ap is_blank (laws.get-set_other d.create token_key tok name_key t keys_apart)
      ∙ laws.get-create name_key)
  item_name tok (some nm) t u h = ap named (laws.get-set _ name_key nm u) ∙ h

  item-HasText :
      (tok : Bytes) (nm : Option Bytes)
      → IsText tok
      → IsTextName IsText nm
      → HasText d IsText (item_of d (record { token = tok; name = nm }))
  unfolding item_of
  item-HasText tok none t u = with_string d.create token_key tok created laws.keys.0 t
  item-HasText tok (some nm) t u =
      with_string _ name_key nm (with_string d.create token_key tok created laws.keys.0 t)
        laws.keys.1 u

  items-HasText :
      (es : List TokenEntry) → All (IsWritable IsText) es → All (HasText d IsText) (items d es)
  unfolding items
  items-HasText [] w = tt
  items-HasText (e ∷ es) ((_, _, t, u), w) = (item-HasText e.token e.name t u, items-HasText es w)

  -- Objects in which the strings of the items are read
  load_items-items :
      (es : List TokenEntry) (ps : List Object)
      → All (IsWritable IsText) es
      → SameStrings d (items d es) ps
      → load_items d ps ≡ es
  unfolding load_items items
  load_items-items [] [] w same = refl
  load_items-items [] (p ∷ ps) w same = elim same [ ]
  load_items-items (e ∷ es) [] w same = elim same [ ]
  load_items-items (e ∷ es) (p ∷ ps) ((full, short, t, u), w) (here, same) =
      rw (here token_key, item_token e.token e.name t u, load_items-items es ps w same)
        (push_writable e.token (d.get_string p name_key) es full
          ∙ ap (λ k. record { token = e.token; name = k } ∷ es)
              (ap named (here name_key) ∙ item_name e.token e.name t u short))

  load_file-save :
      (es : List TokenEntry)
      → All (IsWritable IsText) es
      → load_file d (some (d.save_json (items d es))) ≡ es
  unfolding load_file
  load_file-save es w =
      let (ps, e, same) = laws.load-save (items d es) (items-HasText es w) in
      rw (load_file, e) (load_items-items es ps w same)

  -- The list is ready to be written, without duplicates, and is what a start would read.
  pub record Kept (st : Store File) : Type 0 where
    pub on : st.initialised ≡ true
    pub path : st.has_path ≡ true
    pub writable : All (IsWritable IsText) st.entries
    pub distinct : IsDistinct st.entries
    pub saved : load_file d st.file ≡ st.entries

  save_known :
      (st : Store File)
      → st.has_path ≡ true
      → save_to_disk d st ≡ record st { file = some (d.save_json (items d st.entries)) }
  unfolding save_to_disk
  save_known st h = rw h refl

  -- A call changes the list, and writes it.
  write-Kept :
      (st : Store File) (es : List TokenEntry)
      → Kept st
      → All (IsWritable IsText) es
      → IsDistinct es
      → Kept (save_to_disk d (record st { entries = es }))
  write-Kept st es k w u =
      rw (save_known (record st { entries = es }) k.path) (record {
        on = k.on;
        path = k.path;
        writable = w;
        distinct = u;
        saved = load_file-save es w;
      })

  add-Kept : (st : Store File) (tok : Bytes) → IsText tok → Kept st → Kept (add d st (some tok)).0
  add-Kept st tok t k = elim (Bool-cases (is_blank (some tok))) [
    | inl b ↦ rw (add_refused d st tok (inl b)) k
    | inr b ↦ elim (Bool-cases (contains tok st.entries)) [
      | inl h ↦ rw (add_refused d st tok (inr (rw h (ground arith)))) k
      | inr h ↦ rw (add_new d st tok b (rw (k.on, h) refl)) (
          write-Kept st _ k
            (All-append (IsWritable IsText) st.entries _ k.writable
              (new-IsWritable IsText tok b t, tt))
            (append-IsDistinct st.entries _ k.distinct h))
    ]
  ]

  remove-Kept : (st : Store File) (tok : Bytes) → Kept st → Kept (remove d st (some tok)).0
  remove-Kept st tok k = elim (Bool-cases (contains tok st.entries)) [
    | inl h ↦ rw (remove_known d st tok k.on h) (
        write-Kept st _ k (erase-IsWritable IsText tok st.entries k.writable)
          (erase-IsDistinct tok st.entries k.distinct))
    | inr h ↦ rw (remove_unknown d st tok (rw h (ground arith))) k
  ]

  set_name-Kept :
      (st : Store File) (tok : Bytes) (nm : Option Bytes)
      → IsTextName IsText nm
      → Kept st
      → Kept (set_name d st (some tok) nm).0
  set_name-Kept st tok nm t k = elim (Bool-cases (contains tok st.entries)) [
    | inl h ↦ rw (set_name_known d st tok nm k.on h) (
        write-Kept st _ k (rename-IsWritable IsText tok nm st.entries t k.writable)
          (rename-IsDistinct tok nm st.entries k.distinct))
    | inr h ↦ rw (set_name_unknown d st tok nm (rw h (ground arith))) k
  ]

  call-Kept : (st : Store File) (c : Call) → IsTextual IsText c → Kept st → Kept (call d st c)
  unfolding call
  call-Kept st (add_call none) t k = unfold add in k
  call-Kept st (add_call (some tok)) t k = add-Kept st tok t k
  call-Kept st (remove_call none) t k = unfold remove in k
  call-Kept st (remove_call (some tok)) t k = remove-Kept st tok k
  call-Kept st (rename_call none nm) t k = unfold set_name in k
  call-Kept st (rename_call (some tok) nm) t k = set_name-Kept st tok nm t k

  call_all-Kept :
      (st : Store File) (cs : List Call)
      → All (IsTextual IsText) cs
      → Kept st
      → Kept (call_all d st cs)
  unfolding call_all
  call_all-Kept st [] t k = k
  call_all-Kept st (c ∷ cs) (t, ts) k = call_all-Kept (call d st c) cs ts (call-Kept st c t k)

  start-Kept : Kept (init d untouched)
  unfolding init load_from_disk load_file
  start-Kept = record { on = refl; path = refl; writable = tt; distinct = tt; saved = refl }

  restart : (st : Store File) → Kept st → init d (shutdown st) ≡ st
  unfolding init load_from_disk shutdown
  restart st k =
      rw (k.path, k.saved) (ap (λ b. record st { initialised = b; has_path = true }) (sym k.on))

  -- The list is kept on disk, against the comment of known-tokens.h, which promises it for the session
  -- only: where the path of the configuration is known, the calls give tokens and names that a JSON file
  -- can hold, and no save of the file fails, then after the first start, without a file, and any calls
  -- that add, remove and rename, no token stands twice, and a shutdown followed by a start gives back
  -- the same list with the same names.
  pub shutdown-restart :
      (cs : List Call)
      → All (IsTextual IsText) cs
      → IsDistinct (call_all d (init d untouched) cs).entries
        × (init d (shutdown (call_all d (init d untouched) cs)) ≡ call_all d (init d untouched) cs)
  shutdown-restart cs t =
      let k = call_all-Kept (init d untouched) cs t start-Kept in
      (k.distinct, restart (call_all d (init d untouched) cs) k)
