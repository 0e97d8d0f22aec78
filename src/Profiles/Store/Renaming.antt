-- ===== src/Profiles/Store/Renaming.antt =====
-- Profiles.Rename of profiles.go, when no call fails.
use tswipoexp.Prelude.{
  ◌≡◌, ◌≢◌, refl, ap, true, false, ◌||◌, none, List, [], ◌∷◌, ◌++◌, Bytes, list_eqb, ◌==◌, nat_eq,
  list_eq, eq_iff, eq_refl, if◌then◌else◌, arith,
}
use tswipoexp.Program.{ok, syscall_with}
use tswipoexp.Disk.{Disk, Tree, FilePath, root}
use tswipoexp.Disk.Calls.{
  contains, without, move_files, mkdir_root, read_dir, read_file, read_effect, stat, stat_effect,
  rename_dir, rename_dir_effect,
}
use tswipoexp.Profiles.Names.{valid_profile_name, active_profile_file}
use tswipoexp.Profiles.Store.{keep_valid, sort_strings, list_profiles, active, rename}
use tswipoexp.Profiles.Store.Sorting.{contains-append, contains-keep_valid, contains-sort_strings}
use tswipoexp.Profiles.Store.Active.{active-Picks}

-- A disk on which no call fails.
abbrev pub clean : Tree → List Tree → Disk
clean t past = record { state = t; fates = []; past = past }

-- The tree after `from` became `to`.
abbrev pub renamed : Bytes → Bytes → Tree → Tree
renamed from to t = record {
  dirs = without from t.dirs ++ (to ∷ []);
  files = move_files from to t.files;
}

contains-without :
    (n : Bytes) (ns : List Bytes) (m : Bytes)
    → contains (without n ns) m ≡ (if n == m then false else contains ns m)
unfolding contains without
contains-without n [] m = ground arith
contains-without n (x ∷ ns) m =
    ground (arith, contains-without n ns m, eq_iff x n, eq_iff x m, eq_iff n m)

not_empty :
    (ns : List Bytes) (n : Bytes)
    → contains ns n ≡ true
    → valid_profile_name n ≡ true
    → keep_valid ns ≢ []
unfolding contains
not_empty ns n there valid e =
    let q : contains (keep_valid ns) n ≡ true = rw (contains-keep_valid ns n, there) valid in
    let r : contains [] n ≡ true = rw e at q in cc

contains_to : (from to : Bytes) (t : Tree) → contains (renamed from to t).dirs to ≡ true
unfolding contains
contains_to from to t =
    ground (arith, contains-append (without from t.dirs) (to ∷ []) to, eq_refl to)

not_contains_from :
    (from to : Bytes) (t : Tree) → from ≢ to → contains (renamed from to t).dirs from ≡ false
unfolding contains
not_contains_from from to t ne = ground (
  arith,
  contains-append (without from t.dirs) (to ∷ []) from,
  contains-without from t.dirs from,
  eq_refl from,
  eq_iff to from,
)

-- Where a valid profile is there and no call fails, `List` changes nothing.
list_clean :
    (t : Tree) (past : List Tree) (n : Bytes)
    → contains t.dirs n ≡ true
    → valid_profile_name n ≡ true
    → list_profiles (clean t past) ≡ (ok (sort_strings (keep_valid t.dirs)), clean t (t ∷ t ∷ past))
unfolding list_profiles mkdir_root read_dir syscall_with
list_clean t past n there valid = go (keep_valid t.dirs) refl
  where
    go :
        (ns : List Bytes)
        → keep_valid t.dirs ≡ ns
        → list_profiles (clean t past)
          ≡ (ok (sort_strings (keep_valid t.dirs)), clean t (t ∷ t ∷ past))
    go [] e = absurd (not_empty t.dirs n there valid e)
    go (m ∷ ns) e = rw (e, list_profiles)

read_effect-tree : (p : FilePath) (t : Tree) → (read_effect p t).1 ≡ t
unfolding read_effect
read_effect-tree p t = ground arith

empty_invalid : valid_profile_name [] ≡ false
unfolding valid_profile_name list_eqb
empty_invalid = refl

listed_ne :
    (t : Tree) (gone name : Bytes)
    → contains t.dirs gone ≡ false
    → contains (sort_strings (keep_valid t.dirs)) name ≡ true
    → (name == gone || name == []) ≡ false
listed_ne t gone name absent listed = ground (
  arith,
  contains-sort_strings (keep_valid t.dirs) name,
  contains-keep_valid t.dirs name,
  eq_iff name gone,
  eq_iff name [],
  empty_invalid,
)

-- `Active` names a profile that is there, so not one that is gone, nor "".
active-clean :
    (t : Tree) (past : List Tree) (gone n : Bytes)
    → contains t.dirs n ≡ true
    → valid_profile_name n ≡ true
    → contains t.dirs gone ≡ false
    → (name : Bytes) × (e : Disk) × (active (clean t past) ≡ (ok name, e))
      × (e.state ≡ t)
      × ((name == gone || name == []) ≡ false)
unfolding read_file read_effect syscall_with
active-clean t past gone n there valid absent =
    let l = list_clean t past n there valid in
    let (name, a, p) = active-Picks (clean t past) l in
    (name, _, a, read_effect-tree _ t, listed_ne t gone name absent p.listed)

-- `Rename` when no call fails, to a valid name that is free: the directory moves with its files, and
-- the active file stays as it was, even if it names the old profile.
pub rename_keeps_active_file :
    (t : Tree) (past : List Tree) (from to : Bytes)
    → valid_profile_name to ≡ true
    → contains t.dirs to ≡ false
    → t.files (root to) ≡ none
    → contains t.dirs from ≡ true
    → (e : Disk) × (rename from to (clean t past) ≡ (ok tt, e))
      × (e.state ≡ renamed from to t)
      × (e.state.files (root active_profile_file) ≡ t.files (root active_profile_file))
unfolding rename stat stat_effect rename_dir rename_dir_effect syscall_with
rename_keeps_active_file t past from to valid free no_file there =
    let ne : from ≢ to = λ q. cc (ap (contains t.dirs) q) in
    let (name, e, a, same, other) =
      active-clean (renamed from to t) (t ∷ t ∷ past) from to (contains_to from to t) valid
        (not_contains_from from to t ne) in
    (e, rw (valid, free, no_file, there, rename) (rw (a, rename) (rw other)), same, rw same)
