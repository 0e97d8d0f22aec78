-- ===== src/Profiles/Store/Sorting.antt =====
-- What the loop and the sort of Profiles.List, profiles.go, do to a list of names.
use tswipoexp.Prelude.{
  ◌≡◌, ◌≢◌, refl, true, false, ◌&&◌, ◌||◌, List, [], ◌∷◌, ◌++◌, Bytes, ◌==◌, nat_eq, list_eq,
  eq_iff, Bool-cases, arith, inl, inr,
}
use tswipoexp.Disk.Calls.{contains}
use tswipoexp.Profiles.Names.{valid_profile_name}
use tswipoexp.Profiles.Store.{keep_valid, bytes_le, insert, sort_strings}

insert-ne-nil : (a : Bytes) (ms : List Bytes) → insert a ms ≢ []
unfolding insert
insert-ne-nil a [] = ground arith
insert-ne-nil a (m ∷ ms) = ground arith

pub contains-insert :
    (a : Bytes) (ms : List Bytes) (n : Bytes) → contains (insert a ms) n ≡ (a == n || contains ms n)
unfolding contains insert
contains-insert a [] n = refl
contains-insert a (m ∷ ms) n = ground (arith, contains-insert a ms n)

pub contains-sort_strings :
    (ns : List Bytes) (n : Bytes) → contains (sort_strings ns) n ≡ contains ns n
unfolding contains sort_strings
contains-sort_strings [] n = refl
contains-sort_strings (m ∷ ns) n =
    ground (arith, contains-sort_strings ns n, contains-insert m (sort_strings ns) n)

pub sort_strings-ne-nil : (ns : List Bytes) → ns ≢ [] → sort_strings ns ≢ []
unfolding sort_strings
sort_strings-ne-nil [] h e = h refl
sort_strings-ne-nil (n ∷ ns) h e = insert-ne-nil n (sort_strings ns) e

pub contains-keep_valid :
    (ns : List Bytes) (n : Bytes)
    → contains (keep_valid ns) n ≡ (contains ns n && valid_profile_name n)
unfolding contains keep_valid
contains-keep_valid [] n = refl
contains-keep_valid (m ∷ ns) n = ground (arith, eq_iff m n, contains-keep_valid ns n)

pub contains-append :
    (ns ms : List Bytes) (n : Bytes) → contains (ns ++ ms) n ≡ (contains ns n || contains ms n)
unfolding contains
contains-append [] ms n = refl
contains-append (m ∷ ns) ms n = ground (arith, contains-append ns ms n)

abbrev LeHead : Bytes → List Bytes → Type 0
LeHead a [] = Unit
LeHead a (m ∷ ms) = bytes_le a m ≡ true

-- In the order of `sort.Strings`.
abbrev pub IsSorted : List Bytes → Type 0
IsSorted [] = Unit
IsSorted (m ∷ ms) = LeHead m ms × IsSorted ms

pub bytes_le_total : (s t : Bytes) → bytes_le s t ≡ false → bytes_le t s ≡ true
unfolding bytes_le
bytes_le_total [] t h = cc
bytes_le_total (c ∷ cs) [] h = refl
bytes_le_total (c ∷ cs) (d ∷ ds) h = ground (arith, bytes_le_total cs ds)

LeHead-insert :
    (b a : Bytes) (ms : List Bytes) → bytes_le b a ≡ true → LeHead b ms → LeHead b (insert a ms)
unfolding insert
LeHead-insert b a [] h k = h
LeHead-insert b a (m ∷ ms) h k = ground arith

insert-IsSorted : (a : Bytes) (ms : List Bytes) → IsSorted ms → IsSorted (insert a ms)
unfolding insert
insert-IsSorted a [] s = (tt, tt)
insert-IsSorted a (m ∷ ms) s = elim (Bool-cases (bytes_le a m)) [
  | inl h ↦ rw h (h, s)
  | inr h ↦ rw h (LeHead-insert m a ms (bytes_le_total a m h) s.0, insert-IsSorted a ms s.1)
]

pub sort_strings-IsSorted : (ns : List Bytes) → IsSorted (sort_strings ns)
unfolding sort_strings
sort_strings-IsSorted [] = tt
sort_strings-IsSorted (n ∷ ns) = insert-IsSorted n (sort_strings ns) (sort_strings-IsSorted ns)
