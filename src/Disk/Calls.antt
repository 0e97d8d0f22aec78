-- ===== src/Disk/Calls.antt =====
-- The calls of package os that the program makes on the state directory, and writeFileAtomic of
-- profiles.go.
use tswipoexp.Prelude.{
  Bool, true, false, ◌||◌, Option, none, some, List, [], ◌∷◌, ◌++◌, Bytes, codes, ◌==◌, nat_eq,
  list_eq, if◌then◌else◌,
}
use tswipoexp.Program.{
  not_exist, is_dir, Result, ok, err, ◌>>=◌, ◌>>◌, pure, or_else, attempt, syscall_with, syscall,
}
use tswipoexp.Disk.{FilePath, root, inside, path_eq, File, Tree, M}

unfoldable pub contains : List Bytes → Bytes → Bool
contains [] n = false
contains (x ∷ xs) n = x == n || contains xs n

abbrev pub write_at : FilePath → File → Tree → Tree
write_at p f t = record t { files = λ q. if q == p then some f else t.files q }

abbrev pub remove_at : FilePath → Tree → Tree
remove_at p t = record t { files = λ q. if q == p then none else t.files q }

-- Whether a directory stands where the path points.
unfoldable pub names_dir : FilePath → Tree → Bool
unfolding contains
names_dir (root n) t = contains t.dirs n
names_dir (inside e n) t = false

unfoldable pub has_parent : FilePath → Tree → Bool
unfolding contains
has_parent (root n) t = true
has_parent (inside e n) t = contains t.dirs e

-- The effects of the calls on a tree. `os.OpenFile` with O_CREATE and O_TRUNC:
unfoldable pub open_effect : FilePath → Tree → Result (Unit {0}) × Tree
open_effect p t =
    if names_dir p t
    then (err is_dir, t)
    else if has_parent p t
    then (ok tt, write_at p (record { content = []; synced = false }) t)
    else (err not_exist, t)

-- `f.Write` of all the data to the empty file
unfoldable pub write_effect : FilePath → Bytes → Tree → Tree
write_effect p text t = write_at p (record { content = text; synced = false }) t

-- `f.Sync`
unfoldable pub sync_effect : FilePath → Tree → Tree
sync_effect p t = elim (t.files p) [ none ↦ t | some f ↦ write_at p (record f { synced = true }) t ]

unfoldable pub remove_effect : FilePath → Tree → Result (Unit {0}) × Tree
remove_effect p t = elim (t.files p) [ none ↦ (err not_exist, t) | some f ↦ (ok tt, remove_at p t) ]

-- `os.Rename` of a file, over a file that may be there.
unfoldable pub rename_effect : FilePath → FilePath → Tree → Result (Unit {0}) × Tree
rename_effect p q t = elim (t.files p) [
  | none ↦ (err not_exist, t)
  | some f ↦ if names_dir q t then (err is_dir, t) else (ok tt, remove_at p (write_at q f t))
]

-- `os.MkdirAll` of the root, which is there
unfoldable pub mkdir_root : M (Unit {0})
mkdir_root = syscall (λ t. (ok tt, t))

-- `os.Stat` of a name in the root
unfoldable pub stat_effect : Bytes → Tree → Result (Unit {0}) × Tree
stat_effect name t =
    if contains t.dirs name
    then (ok tt, t)
    else elim (t.files (root name)) [ none ↦ (err not_exist, t) | some f ↦ (ok tt, t) ]

-- `os.MkdirAll` of a directory in the root
unfoldable pub mkdir_effect : Bytes → Tree → Result (Unit {0}) × Tree
mkdir_effect name t = if contains t.dirs name then (ok tt, t) else elim (t.files (root name)) [
  | none ↦ (ok tt, record t { dirs = t.dirs ++ (name ∷ []) })
  | some f ↦ (err is_dir, t)
]

unfoldable pub read_effect : FilePath → Tree → Result Bytes × Tree
read_effect p t = elim (t.files p) [ none ↦ (err not_exist, t) | some f ↦ (ok f.content, t) ]

unfoldable pub without : Bytes → List Bytes → List Bytes
without n [] = []
without n (x ∷ xs) = let rest = without n xs in if x == n then rest else x ∷ rest

abbrev pub move_files : Bytes → Bytes → (FilePath → Option File) → FilePath → Option File
move_files from to files (root n) = files (root n)
move_files from to files (inside e n) =
    if e == to then files (inside from n) else if e == from then none else files (inside e n)

abbrev pub drop_files : Bytes → (FilePath → Option File) → FilePath → Option File
drop_files name files (root n) = files (root n)
drop_files name files (inside e n) = if e == name then none else files (inside e n)

-- `os.Rename` of a directory to a name that stands for nothing yet
unfoldable pub rename_dir_effect : Bytes → Bytes → Tree → Result (Unit {0}) × Tree
unfolding without
rename_dir_effect from to t =
    if contains t.dirs from
    then (
      ok tt,
      record { dirs = without from t.dirs ++ (to ∷ []); files = move_files from to t.files },
    )
    else (err not_exist, t)

-- `os.RemoveAll` of a directory in the root, or of a file there
unfoldable pub remove_all_effect : Bytes → Tree → Tree
unfolding without
remove_all_effect name t =
    if contains t.dirs name
    then record { dirs = without name t.dirs; files = drop_files name t.files }
    else remove_at (root name) t

unfoldable pub stat : Bytes → M (Unit {0})
stat name = syscall (stat_effect name)

unfoldable pub mkdir_all : Bytes → M (Unit {0})
mkdir_all name = syscall (mkdir_effect name)

-- `os.ReadDir` of the root: its directories
unfoldable pub read_dir : M (List Bytes)
read_dir = syscall (λ t. (ok t.dirs, t))

unfoldable pub read_file : FilePath → M Bytes
read_file p = syscall (read_effect p)

unfoldable pub rename_dir : Bytes → Bytes → M (Unit {0})
rename_dir from to = syscall (rename_dir_effect from to)

unfoldable pub remove_all : Bytes → M (Unit {0})
remove_all name = syscall (λ t. (ok tt, remove_all_effect name t))

unfoldable pub open_file : FilePath → M (Unit {0})
open_file p = syscall (open_effect p)

unfoldable pub write_file : FilePath → Bytes → M (Unit {0})
write_file p text =
    syscall_with (λ t. (ok tt, write_effect p text t)) (λ junk t. write_effect p junk t)

unfoldable pub sync_file : FilePath → M (Unit {0})
sync_file p = syscall (λ t. (ok tt, sync_effect p t))

unfoldable pub close_file : M (Unit {0})
close_file = syscall (λ t. (ok tt, t))

unfoldable pub remove_file : FilePath → M (Unit {0})
remove_file p = syscall (remove_effect p)

unfoldable pub rename_file : FilePath → FilePath → M (Unit {0})
rename_file p q = syscall (rename_effect p q)

abbrev pub tmp_of : FilePath → FilePath
tmp_of (root n) = root (n ++ codes ".tmp")
tmp_of (inside e n) = inside e (n ++ codes ".tmp")

-- `f.Close(); os.Remove(tmp)`, their errors dropped
unfoldable pub discard : FilePath → M (Unit {0})
discard tmp = do closed ← attempt close_file; removed ← attempt (remove_file tmp); pure tt

unfoldable pub write_file_atomic : FilePath → Bytes → M (Unit {0})
write_file_atomic path text = do
  open_file (tmp_of path)
  or_else (write_file (tmp_of path) text) (discard (tmp_of path))
  or_else (sync_file (tmp_of path)) (discard (tmp_of path))
  or_else close_file (remove_file (tmp_of path))
  or_else (rename_file (tmp_of path) path) (remove_file (tmp_of path))
