-- ===== src/Profiles/Names.antt =====
-- Profile names and the directory of a profile, profiles.go.
pub mod Valid
use tswipoexp.Prelude.{
  ℕ, Bool, true, false, not, ◌||◌, List, [], ◌∷◌, ◌++◌, Bytes, codes, length, ltb, if◌then◌else◌,
  ◌==◌, nat_eq, list_eq, has_prefix, contains_any, trim_space,
}

abbrev pub default_profile_name : Bytes
default_profile_name = codes "Default"

abbrev pub active_profile_file : Bytes
active_profile_file = codes "active-profile.txt"

abbrev pub config_file_name : Bytes
config_file_name = codes "tswipoexp.json"

abbrev pub last_status_file : Bytes
last_status_file = codes "last-status.json"

-- `\/:*?"<>|`
abbrev pub forbidden : Bytes
forbidden = b'\\' ∷ b'/' ∷ b':' ∷ b'*' ∷ b'?' ∷ b'"' ∷ b'<' ∷ b'>' ∷ b'|' ∷ []

unfoldable pub valid_profile_name : Bytes → Bool
valid_profile_name name =
    if name == [] || ltb 64 (length name) || not (name == trim_space name)
    then false
    else if contains_any name forbidden || has_prefix name (b'.' ∷ [])
    then false
    else true

-- Paths as lists of names, for the cleaning that `filepath.Join` does on Windows.
abbrev is_separator : ℕ → Bool
is_separator c = c == b'/' || c == b'\\'

-- Splits at the separators; `word` is the name read so far.
pub split_path : Bytes → Bytes → List Bytes
split_path word [] = word ∷ []
split_path word (c ∷ cs) = elim (is_separator c) [
  | true ↦ word ∷ split_path [] cs
  | false ↦ split_path (word ++ (c ∷ [])) cs
]

drop_last : List Bytes → List Bytes
drop_last [] = []
drop_last (d ∷ []) = []
drop_last (d ∷ e ∷ ds) = d ∷ drop_last (e ∷ ds)

-- `filepath.Clean` on the names that follow `done`.
pub clean_from : List Bytes → List Bytes → List Bytes
unfolding drop_last
clean_from done [] = done
clean_from done (w ∷ ws) =
    clean_from
      (if w == [] || w == codes "."
        then done
        else if w == codes ".."
        then drop_last done
        else done ++ (w ∷ []))
      ws

-- `Dir`: `filepath.Join(p.Root, name)`, for an absolute root without a final separator.
unfoldable pub dir_of : List Bytes → Bytes → List Bytes
unfolding split_path clean_from
dir_of top name = clean_from top (split_path [] name)
