-- ===== src/Profiles/Store/Listing.antt =====
-- Profiles.List and Profiles.Create, profiles.go, on any disk, whichever calls fail.
use tswipoexp.Prelude.{
  trim_space, has_prefix, contains_any, list_eqb, ◌≡◌, ◌≢◌, refl, ap, ◌∙◌, true, ◌&&◌, List, [],
  ◌∷◌, ◌++◌, Bytes, nat_eq, list_eq, eq_iff, if◌then◌else◌, Bool-cases, arith, ◌⊎◌, inl, inr,
}
use tswipoexp.Program.{Error, Result, ok, err, pure, caught, then_run}
use tswipoexp.Disk.{Disk, Tree}
use tswipoexp.Disk.Guard.{syscall-ok, syscall-err, >>=-eq-ok}
use tswipoexp.Disk.Calls.{
  contains, mkdir_root, read_dir, stat, stat_effect, mkdir_all, mkdir_effect,
}
use tswipoexp.Profiles.Names.{default_profile_name, valid_profile_name}
use tswipoexp.Profiles.Store.{
  keep_valid, sort_strings, create, create_unless, or_default, list_profiles,
}
use tswipoexp.Profiles.Store.Sorting.{
  sort_strings-ne-nil, contains-sort_strings, contains-keep_valid, contains-append, IsSorted,
  sort_strings-IsSorted,
}

-- The tree with one more directory, if it was not there.
abbrev pub with_dir : Bytes → Tree → Tree
with_dir name t = if contains t.dirs name then t else record t { dirs = t.dirs ++ (name ∷ []) }

mkdir_effect-ok :
    (name : Bytes) (t : Tree)
    → (mkdir_effect name t).0 ≡ ok tt
    → (mkdir_effect name t).1 ≡ with_dir name t
unfolding mkdir_effect
mkdir_effect-ok name t h = ground arith

stat_effect-tree : (name : Bytes) (t : Tree) → (stat_effect name t).1 ≡ t
unfolding stat_effect
stat_effect-tree name t = ground arith

stat-err :
    (name : Bytes) (d : Disk) {x : Error} {e : Disk} → stat name d ≡ (err x, e) → e.state ≡ d.state
unfolding stat
stat-err name d {x} {e} h = go (syscall-err (stat_effect name) (λ _ t. t) d h).0
  where
    go :
        (e.state ≡ (stat_effect name d.state).1) × ((stat_effect name d.state).0 ≡ err x)
          ⊎ (Bytes × (e.state ≡ d.state))
        → e.state ≡ d.state
    go (inl (p, q)) = p ∙ stat_effect-tree name d.state
    go (inr (junk, p)) = p

create_checked :
    (name : Bytes) (d : Disk) {e : Disk} (x : Result (Unit {0}) × Disk)
    → stat name d ≡ x
    → then_run (create_unless name) (caught x) ≡ (ok tt, e)
    → e.state ≡ with_dir name d.state
unfolding mkdir_all
create_checked name d (ok u, d') q h = cc
create_checked name d {e} (err x, d') q h =
    let (tree_eq, done, _) = syscall-ok (mkdir_effect name) (λ _ t. t) d' h in
    let same : d'.state ≡ d.state = stat-err name d q in
    tree_eq ∙ mkdir_effect-ok name d'.state done ∙ ap (with_dir name) same

-- A successful `Create` has made the directory of a valid name and done nothing else.
pub create-eq-ok :
    (name : Bytes) (d : Disk) {e : Disk}
    → create name d ≡ (ok tt, e)
    → (valid_profile_name name ≡ true) × (e.state ≡ with_dir name d.state)
unfolding create
create-eq-ok name d {e} h = elim (Bool-cases (valid_profile_name name)) [
  | inr bad ↦ let q = rw bad at h in cc
  | inl good ↦ (good, create_checked name d (stat name d) refl (rw good at h))
]

default_valid : valid_profile_name default_profile_name ≡ true
unfolding valid_profile_name trim_space has_prefix contains_any list_eqb
default_valid = refl

only_default :
    (ents : List Bytes) (t : Tree) (n : Bytes)
    → t.dirs ≡ ents
    → keep_valid ents ≡ []
    → contains (default_profile_name ∷ []) n
      ≡ (contains (with_dir default_profile_name t).dirs n && valid_profile_name n)
unfolding contains
only_default ents t n here none_valid = ground (
  arith,
  eq_iff default_profile_name n,
  contains-keep_valid ents n,
  contains-append t.dirs (default_profile_name ∷ []) n,
  default_valid,
)

-- The names that `List` returns when all valid directories are `names`.
defaulted :
    (ents : List Bytes) (d : Disk) {names : List Bytes} {e : Disk}
    → d.state.dirs ≡ ents
    → or_default (keep_valid ents) d ≡ (ok names, e)
    → (names ≢ [])
      × ((n : Bytes) → contains names n ≡ (contains e.state.dirs n && valid_profile_name n))
defaulted ents d {names} {e} here h = go (keep_valid ents) refl h
  where
    go :
        (ns : List Bytes)
        → keep_valid ents ≡ ns
        → or_default ns d ≡ (ok names, e)
        → (names ≢ [])
          × ((n : Bytes) → contains names n ≡ (contains e.state.dirs n && valid_profile_name n))
    go [] q k =
        let (u, d', c, p) = >>=-eq-ok (create default_profile_name) _ d k in
        let a : default_profile_name ∷ [] ≡ names = cc in
        let b : d' ≡ e = cc in
        let made = (create-eq-ok default_profile_name d c).1 in
        (λ z. cc, λ m. rw (← a, ← b, made) (only_default ents d.state m here q))
    go (n ∷ ns) q k =
        let a : n ∷ ns ≡ names = cc in
        let b : d ≡ e = cc in (λ z. cc, λ m. rw (← a, ← q, ← b, here) (contains-keep_valid ents m))

sort_strings-exact :
    (ns : List Bytes) (d : Disk) {names : List Bytes} {e : Disk}
    → ns ≢ []
    → ((n : Bytes) → contains ns n ≡ (contains d.state.dirs n && valid_profile_name n))
    → pure (sort_strings ns) d ≡ (ok names, e)
    → (names ≢ [])
      × IsSorted names
      × ((n : Bytes) → contains names n ≡ (contains e.state.dirs n && valid_profile_name n))
sort_strings-exact ns d {names} {e} filled exact h =
    let a : sort_strings ns ≡ names = cc in
    let b : d ≡ e = cc in
    (
      rw (← a) (sort_strings-ne-nil ns filled),
      rw (← a) (sort_strings-IsSorted ns),
      λ n. rw (← a, ← b, contains-sort_strings ns n) (exact n),
    )

-- `List` never comes back empty-handed: a successful call returns, in order, exactly the valid
-- names among the directories that are there when it ends, and there is one.
pub list_profiles-eq-ok :
    (d : Disk) {names : List Bytes} {e : Disk}
    → list_profiles d ≡ (ok names, e)
    → (names ≢ [])
      × IsSorted names
      × ((n : Bytes) → contains names n ≡ (contains e.state.dirs n && valid_profile_name n))
unfolding list_profiles mkdir_root read_dir
list_profiles-eq-ok d {names} {e} h =
    let (u, d₁, p₁, h₁) = >>=-eq-ok mkdir_root _ d h in
    let (ents, d₂, p₂, h₂) = >>=-eq-ok read_dir _ d₁ h₁ in
    let (ns, d₃, p₃, h₃) = >>=-eq-ok (or_default (keep_valid ents)) _ d₂ h₂ in
    let read = syscall-ok (λ t. (ok t.dirs, t)) (λ _ t. t) d₁ p₂ in
    let (filled, exact) = defaulted ents d₂ (ground (arith, read)) p₃ in
    sort_strings-exact ns d₃ filled exact h₃
