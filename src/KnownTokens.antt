-- ===== src/KnownTokens.antt =====
-- src/known-tokens.c: the list of known receive tokens, and the file that it is kept in.
-- obs_data and the file system are not part of the repository: `ObsData` lists what is called of
-- them, and `ObsDataLaws` what is relied on.
pub mod Lookup
pub mod Restart
mod Tests
use tether_obs_plugin.Common.{
  ℕ, Bool, true, false, not, ◌&&◌, ◌||◌, List, [], ◌∷◌, ◌++◌, ◌≡◌, Option, none, some,
  if◌then◌else◌, Bytes, codes, str_eq, is_blank, All,
}

-- `obs_data_create`, `obs_data_set_string`, `obs_data_get_string`, `obs_data_save_json` and
-- `obs_data_create_from_json_file` on the array under "tokens"
pub record ObsData (Object File : Type 0) : Type 0 where
  pub create : Object
  pub set_string : Object → Bytes → Bytes → Object
  pub get_string : Object → Bytes → Option Bytes
  pub save_json : List Object → File
  pub load_json : File → Option (List Object)

abbrev pub token_key : Bytes
token_key = codes "token"

abbrev pub name_key : Bytes
name_key = codes "name"

-- An object with texts only: what was set in it are texts under keys that are texts.
pub data HasText {Object File : Type 0} (d : ObsData Object File) (IsText : Bytes → Type 0)
    : Object → Type 0 where
  created : HasText d IsText d.create
  with_string :
      (o : Object) (k v : Bytes)
      → HasText d IsText o
      → IsText k
      → IsText v
      → HasText d IsText (d.set_string o k v)

-- Objects in which the same strings are read
abbrev pub SameStrings :
    {Object File : Type 0} → ObsData Object File → List Object → List Object → Type 0
SameStrings d [] [] = Unit
SameStrings d (o ∷ os) (p ∷ ps) =
    ((k : Bytes) → d.get_string p k ≡ d.get_string o k) × SameStrings d os ps
SameStrings d _ _ = ⊥

-- What is relied on of obs_data, of the texts that a JSON file can hold: such a string is read as it
-- was set, one that was not set is empty, and the strings of a saved file are read back. A save does
-- not fail.
pub record ObsDataLaws {Object File : Type 0} (d : ObsData Object File) (IsText : Bytes → Type 0)
    : Type 0 where
  pub keys : IsText token_key × IsText name_key
  pub get-set : (o : Object) (k v : Bytes) → IsText v → d.get_string (d.set_string o k v) k ≡ some v
  pub get-set_other :
      (o : Object) (k v q : Bytes)
      → IsText v
      → str_eq k q ≡ false
      → d.get_string (d.set_string o k v) q ≡ d.get_string o q
  pub get-create : (k : Bytes) → is_blank (d.get_string d.create k) ≡ true
  pub load-save :
      (os : List Object)
      → All (HasText d IsText) os
      → (ps : List Object) × (d.load_json (d.save_json os) ≡ some ps) × SameStrings d os ps

-- `struct token_entry`
pub record TokenEntry : Type 0 where
  pub token : Bytes
  pub name : Option Bytes

-- The module's variables, whether the configuration path is known, and the file there.
pub record Store (File : Type 0) : Type 0 where
  pub initialised : Bool
  pub entries : List TokenEntry
  pub has_path : Bool
  pub file : Option File

-- `(nm && *nm) ? bstrdup(nm) : NULL`
unfoldable pub named : Option Bytes → Option Bytes
unfolding is_blank
named nm = if is_blank nm then none else nm

unfoldable pub push_item : Option Bytes → Option Bytes → List TokenEntry → List TokenEntry
unfolding is_blank named
push_item none nm rest = rest
push_item (some tok) nm rest =
    if is_blank (some tok) then rest else record { token = tok; name = named nm } ∷ rest

unfoldable pub load_items :
    {Object File : Type 0} → ObsData Object File → List Object → List TokenEntry
unfolding push_item
load_items d [] = []
load_items d (o ∷ os) =
    push_item (d.get_string o token_key) (d.get_string o name_key) (load_items d os)

unfoldable pub load_file :
    {Object File : Type 0} → ObsData Object File → Option File → List TokenEntry
unfolding load_items
load_file d none = []
load_file d (some f) = elim (d.load_json f) [ none ↦ [] | some os ↦ load_items d os ]

-- `load_from_disk_locked`
unfoldable pub load_from_disk :
    {Object File : Type 0} → ObsData Object File → Store File → Store File
unfolding load_file
load_from_disk d st =
    if st.has_path then record st { entries = st.entries ++ load_file d st.file } else st

unfoldable pub item_of : {Object File : Type 0} → ObsData Object File → TokenEntry → Object
item_of d e = elim e.name [
  | none ↦ d.set_string d.create token_key e.token
  | some nm ↦ d.set_string (d.set_string d.create token_key e.token) name_key nm
]

unfoldable pub items : {Object File : Type 0} → ObsData Object File → List TokenEntry → List Object
unfolding item_of
items d [] = []
items d (e ∷ es) = item_of d e ∷ items d es

-- `save_to_disk_locked`
unfoldable pub save_to_disk : {Object File : Type 0} → ObsData Object File → Store File → Store File
unfolding items
save_to_disk d st =
    if st.has_path then record st { file = some (d.save_json (items d st.entries)) } else st

-- `tether_known_tokens_init`
unfoldable pub init : {Object File : Type 0} → ObsData Object File → Store File → Store File
unfolding load_from_disk
init d st =
    if st.initialised then st else load_from_disk d (record st { initialised = true; entries = [] })

-- `tether_known_tokens_shutdown`
unfoldable pub shutdown : {File : Type 0} → Store File → Store File
shutdown st = record st { initialised = false; entries = [] }

unfoldable pub contains : Bytes → List TokenEntry → Bool
contains tok [] = false
contains tok (e ∷ es) = str_eq e.token tok || contains tok es

-- `tether_known_tokens_add`
unfoldable pub add :
    {Object File : Type 0} → ObsData Object File → Store File → Option Bytes → Store File × Bool
unfolding is_blank contains save_to_disk
add d st none = (st, false)
add d st (some tok) =
    if is_blank (some tok)
    then (st, false)
    else if st.initialised && not (contains tok st.entries)
    then (
      save_to_disk d
          (record st { entries = st.entries ++ record { token = tok; name = none } ∷ [] }),
      true,
    )
    else (st, false)

unfoldable pub erase : Bytes → List TokenEntry → List TokenEntry
erase tok [] = []
erase tok (e ∷ es) = if str_eq e.token tok then es else e ∷ erase tok es

-- `tether_known_tokens_remove`
unfoldable pub remove :
    {Object File : Type 0} → ObsData Object File → Store File → Option Bytes → Store File × Bool
unfolding contains erase save_to_disk
remove d st none = (st, false)
remove d st (some tok) =
    if st.initialised && contains tok st.entries
    then (save_to_disk d (record st { entries = erase tok st.entries }), true)
    else (st, false)

unfoldable pub rename : Bytes → Option Bytes → List TokenEntry → List TokenEntry
unfolding named
rename tok nm [] = []
rename tok nm (e ∷ es) =
    if str_eq e.token tok then record e { name = named nm } ∷ es else e ∷ rename tok nm es

-- `tether_known_tokens_set_name`
unfoldable pub set_name :
    {Object File : Type 0}
    → ObsData Object File
    → Store File
    → Option Bytes
    → Option Bytes
    → Store File × Bool
unfolding contains rename save_to_disk
set_name d st none nm = (st, false)
set_name d st (some tok) nm =
    if st.initialised && contains tok st.entries
    then (save_to_disk d (record st { entries = rename tok nm st.entries }), true)
    else (st, false)

unfoldable pub find_name : Bytes → List TokenEntry → Option Bytes
find_name tok [] = none
find_name tok (e ∷ es) = if str_eq e.token tok then e.name else find_name tok es

-- `tether_known_tokens_get_name`
unfoldable pub get_name : {File : Type 0} → Store File → Option Bytes → Option Bytes
unfolding find_name
get_name st none = none
get_name st (some tok) = if st.initialised then find_name tok st.entries else none

unfoldable pub tokens_of : List TokenEntry → List Bytes
tokens_of [] = []
tokens_of (e ∷ es) = e.token ∷ tokens_of es

unfoldable pub names_of : List TokenEntry → List (Option Bytes)
names_of [] = []
names_of (e ∷ es) = e.name ∷ names_of es

-- `tether_known_tokens_snapshot`
unfoldable pub snapshot : {File : Type 0} → Store File → List Bytes
unfolding tokens_of
snapshot st = if st.initialised then tokens_of st.entries else []

-- `tether_known_tokens_snapshot_with_names`
unfoldable pub snapshot_with_names : {File : Type 0} → Store File → List Bytes × List (Option Bytes)
unfolding tokens_of names_of
snapshot_with_names st =
    if st.initialised then (tokens_of st.entries, names_of st.entries) else ([], [])
