-- ===== src/Disk.antt =====
-- The state directory of profiles.go. There are two levels: files and directories in the root, and
-- files in such a directory. Names are compared byte by byte.
pub mod Calls
pub mod Guard
pub mod Atomic
mod Tests
use tswipoexp.Program.{Machine, Program}
use tswipoexp.Prelude.{
  ℕ, ◌≡◌, ◌↔◌, Bool, true, false, ◌&&◌, ◌||◌, Option, none, some, List, [], ◌∷◌, ◌++◌, Bytes, codes,
  Comparable, ◌==◌, nat_eq, list_eq, eq_iff, if◌then◌else◌, arith,
}

-- A file below the root, or below a directory of the root.
pub data FilePath : Type 0 where
  root : Bytes → FilePath
  inside : Bytes → Bytes → FilePath

unfoldable pub path_eqb : FilePath → FilePath → Bool
path_eqb (root m) (root n) = m == n
path_eqb (root m) (inside e n) = false
path_eqb (inside d m) (root n) = false
path_eqb (inside d m) (inside e n) = d == e && m == n

pub path_eqb_iff : (p q : FilePath) → (path_eqb p q ≡ true) ↔ (p ≡ q)
unfolding path_eqb
path_eqb_iff (root m) (root n) = ground (arith, eq_iff m n)
path_eqb_iff (root m) (inside e n) = ground arith
path_eqb_iff (inside d m) (root n) = ground arith
path_eqb_iff (inside d m) (inside e n) = ground (arith, eq_iff d e, eq_iff m n)

instance abbrev pub path_eq : Comparable FilePath
path_eq = record { same = path_eqb; same_iff = path_eqb_iff }

-- What a power cut leaves of a file is its content only if it is synced.
pub record File : Type 0 where
  pub content : Bytes
  pub synced : Bool

pub record Tree : Type 0 where
  pub dirs : List Bytes
  pub files : FilePath → Option File

abbrev pub Disk : Type 0
Disk = Machine Tree

abbrev pub M {ℓ} : Type ℓ → Type ℓ
M = Program Tree
