-- ===== src/Profiles/Tests.antt =====
-- profiles.go at concrete names, settings and directories.
use tswipoexp.Prelude.{
  map, ◌≡◌, refl, true, false, ◌&&◌, ◌≢◌, some, none, [], ◌∷◌, Bytes, codes, ◌==◌, nat_eq, list_eq,
  list_eqb, has_prefix, contains_any, trim_space, if◌then◌else◌,
}
use tswipoexp.Program.{ok, syscall_with}
use tswipoexp.Disk.{root, path_eq, path_eqb, Tree, Disk}
use tswipoexp.Disk.Calls.{contains, read_file, mkdir_root, read_dir}
use tswipoexp.Profiles.Names.{valid_profile_name, dir_of, active_profile_file}
use tswipoexp.Profiles.Names.Valid.{dir_of-valid}
use tswipoexp.Profiles.Config.{Config, zero_config}
use tswipoexp.Profiles.Config.Json.{encode, decode}
use tswipoexp.Profiles.Config.Json.RoundTrip.{decode-encode}
use tswipoexp.Profiles.Store.{list_profiles, active, rename, create, sort_strings, keep_valid}
use tswipoexp.Profiles.Store.Sorting.{IsSorted}
use tswipoexp.Profiles.Store.Listing.{list_profiles-eq-ok}
use tswipoexp.Profiles.Store.Active.{Picks, active-Picks}
use tswipoexp.Profiles.Store.Renaming.{clean, renamed, rename_keeps_active_file}

abbrev work : Bytes
work = codes "Work"

abbrev home : Bytes
home = codes "Home 2"

work_valid : valid_profile_name work ≡ true
unfolding valid_profile_name trim_space has_prefix contains_any list_eqb
work_valid = refl

home_valid : valid_profile_name home ≡ true
unfolding valid_profile_name trim_space has_prefix contains_any list_eqb
home_valid = refl

rejects_slash : valid_profile_name (codes "a/b") ≡ false
unfolding valid_profile_name trim_space has_prefix contains_any list_eqb
rejects_slash = refl

rejects_lead : valid_profile_name (codes " lead") ≡ false
unfolding valid_profile_name trim_space has_prefix contains_any list_eqb
rejects_lead = refl

rejects_marks :
    map
      (λ c. valid_profile_name (b'a' ∷ c ∷ b'b' ∷ []))
      (b'\\' ∷ b'/' ∷ b':' ∷ b'*' ∷ b'?' ∷ b'"' ∷ b'<' ∷ b'>' ∷ b'|' ∷ b'.' ∷ [])
    ≡ false ∷ false ∷ false ∷ false ∷ false ∷ false ∷ false ∷ false ∷ false ∷ true ∷ []
unfolding valid_profile_name trim_space has_prefix contains_any list_eqb
rejects_marks = refl

dir_of-valid_example : dir_of (codes "state" ∷ []) work ≡ codes "state" ∷ work ∷ []
dir_of-valid_example = dir_of-valid (codes "state" ∷ []) work work_valid

abbrev laptop : Config
laptop = record zero_config { hostname = codes "laptop"; register_proxy = some false }

decode-encode_example : decode (encode laptop) zero_config ≡ some laptop
decode-encode_example = decode-encode laptop

-- Two profiles, the first of them recorded as the active one.
abbrev two : Tree
two = record {
  dirs = work ∷ codes "Alpha" ∷ [];
  files = λ p.
      if p == root active_profile_file
      then some (record { content = codes "Work\n"; synced = true })
      else none;
}

-- What List returns on that disk, by the code.
listed : list_profiles (clean two []) ≡ (ok (codes "Alpha" ∷ work ∷ []), clean two (two ∷ two ∷ []))
unfolding list_profiles create valid_profile_name trim_space has_prefix contains_any list_eqb
    sort_strings keep_valid mkdir_root read_dir syscall_with
listed = refl

list_profiles-eq-ok_example :
    ((codes "Alpha" ∷ work ∷ []) ≢ [])
    × IsSorted (codes "Alpha" ∷ work ∷ [])
    × ((n : Bytes)
        → contains (codes "Alpha" ∷ work ∷ []) n ≡ (contains two.dirs n && valid_profile_name n))
list_profiles-eq-ok_example = list_profiles-eq-ok (clean two []) listed

active-Picks_example :
    let file = read_file (root active_profile_file) (clean two (two ∷ two ∷ [])) in
    (name : Bytes) × (active (clean two []) ≡ (ok name, file.1))
    × Picks (codes "Alpha" ∷ work ∷ []) file.0 name
active-Picks_example = active-Picks (clean two []) listed

rename_keeps_active_file_example :
    (e : Disk) × (rename work home (clean two []) ≡ (ok tt, e))
    × (e.state ≡ renamed work home two)
    × (e.state.files (root active_profile_file) ≡ two.files (root active_profile_file))
unfolding contains list_eqb path_eqb
rename_keeps_active_file_example =
    rename_keeps_active_file two [] work home home_valid refl refl refl
