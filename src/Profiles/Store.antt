-- ===== src/Profiles/Store.antt =====
-- Profiles of profiles.go: its methods as programs over the state directory.
pub mod Sorting
pub mod Strict
pub mod Listing
pub mod Active
pub mod Renaming
pub mod Saving
use Prim.Native.Nat.{compare, Ordering}
use tswipoexp.Prelude.{
  Bool, true, false, not, ◌||◌, Option, none, some, List, [], ◌∷◌, ◌++◌, Bytes, codes,
  if◌then◌else◌, ◌==◌, nat_eq, list_eq, trim_space,
}
use tswipoexp.Program.{
  Error, not_exist, bad_json, panic, invalid_name, already_exists, Result, ok, err, ◌>>=◌, ◌>>◌,
  pure, fail, attempt,
}
use tswipoexp.Disk.{M, root, inside}
use tswipoexp.Disk.Calls.{
  contains, mkdir_root, stat, mkdir_all, read_dir, read_file, rename_dir, remove_all,
  write_file_atomic,
}
use tswipoexp.Profiles.Names.{
  default_profile_name, active_profile_file, config_file_name, valid_profile_name,
}
use tswipoexp.Profiles.Config.{Config, zero_config}
use tswipoexp.Profiles.Config.Json.{Fields, encode, decode}

-- `for _, e := range ents`, over the directories
unfoldable pub keep_valid : List Bytes → List Bytes
keep_valid [] = []
keep_valid (n ∷ ns) = let rest = keep_valid ns in if valid_profile_name n then n ∷ rest else rest

-- `sort.Strings` orders by bytes.
pub bytes_le : Bytes → Bytes → Bool
bytes_le [] t = true
bytes_le (c ∷ cs) [] = false
bytes_le (c ∷ cs) (d ∷ ds) = elim (compare c d) [
  | Ordering.lt ↦ true
  | Ordering.eq ↦ bytes_le cs ds
  | Ordering.gt ↦ false
]

pub insert : Bytes → List Bytes → List Bytes
unfolding bytes_le
insert n [] = n ∷ []
insert n (m ∷ ms) = if bytes_le n m then n ∷ m ∷ ms else m ∷ insert n ms

unfoldable pub sort_strings : List Bytes → List Bytes
unfolding insert
sort_strings [] = []
sort_strings (n ∷ ns) = insert n (sort_strings ns)

-- The rest of `Create`, by whether `os.Stat` found the name; any error of it counts as not found.
abbrev create_unless : Bytes → Result (Unit {0}) → M (Unit {0})
create_unless name (ok u) = fail (already_exists name)
create_unless name (err e) = mkdir_all name

unfoldable pub create : Bytes → M (Unit {0})
create name =
    if valid_profile_name name
    then (do found ← attempt (stat name); create_unless name found)
    else fail (invalid_name name)

-- `if len(names) == 0`
abbrev or_default : List Bytes → M (List Bytes)
or_default [] = do create default_profile_name; pure (default_profile_name ∷ [])
or_default (n ∷ ns) = pure (n ∷ ns)

-- `List`
unfoldable pub list_profiles : M (List Bytes)
unfolding keep_valid create
list_profiles = do
  mkdir_root
  ents ← read_dir
  names ← or_default (keep_valid ents)
  pure (sort_strings names)

abbrev names_first : List Bytes → M Bytes
names_first [] = fail panic
names_first (n ∷ ns) = pure n

-- `for _, n := range names`, then `return names[0], nil`
abbrev choose : List Bytes → Result Bytes → M Bytes
choose names (err e) = names_first names
choose names (ok b) =
    if contains names (trim_space b) then pure (trim_space b) else names_first names

-- `Active`
unfoldable pub active : M Bytes
unfolding list_profiles
active = do
  names ← list_profiles
  b ← attempt (read_file (root active_profile_file))
  choose names b

-- `SetActive`
unfoldable pub set_active : Bytes → M (Unit {0})
set_active name =
    if valid_profile_name name
    then write_file_atomic (root active_profile_file) (name ++ (b'\n' ∷ []))
    else fail (invalid_name name)

-- The end of `Rename`: `active, _ := p.Active()`, with "" for an error.
abbrev active_or_empty : Result Bytes → Bytes
active_or_empty (ok name) = name
active_or_empty (err e) = []

abbrev rename_unless : Bytes → Bytes → Result (Unit {0}) → M (Unit {0})
rename_unless from to (ok u) = fail (already_exists to)
rename_unless from to (err e) = do
  rename_dir from to
  found ← attempt active
  let name = active_or_empty found
  if name == from || name == [] then set_active to else pure tt

-- `Rename`
unfoldable pub rename : Bytes → Bytes → M (Unit {0})
rename from to =
    if valid_profile_name to
    then (do found ← attempt (stat to); rename_unless from to found)
    else fail (invalid_name to)

-- `Delete`
unfoldable pub delete : Bytes → M (Unit {0})
delete name = if valid_profile_name name then remove_all name else fail (invalid_name name)

-- The text of a JSON file: encoding/json around the fields.
pub record JsonText : Type 0 where
  pub render : Fields → Bytes
  pub parse : Bytes → Option Fields

abbrev pub decoded : Option Config → M Config
decoded none = fail bad_json
decoded (some c) = pure c

abbrev pub parsed : Option Fields → M Config
parsed none = fail bad_json
parsed (some fields) = decoded (decode fields zero_config)

module _ (json : JsonText) where
  abbrev pub parse_config : Bytes → M Config
  parse_config b = parsed (json.parse b)

  abbrev config_of : Result Bytes → M Config
  config_of (ok b) = parse_config b
  config_of (err not_exist) = pure zero_config
  config_of (err e) = fail e

  -- `LoadConfig`
  unfoldable pub load_config : Bytes → M Config
  load_config name = do b ← attempt (read_file (inside name config_file_name)); config_of b

  -- `SaveConfig`
  unfoldable pub save_config : Bytes → Config → M (Unit {0})
  save_config name c =
      write_file_atomic (inside name config_file_name) (json.render (encode c) ++ (b'\n' ∷ []))
