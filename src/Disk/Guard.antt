-- ===== src/Disk/Guard.antt =====
-- The steps of writeFileAtomic, profiles.go, leave all but the scratch file alone.
use tswipoexp.Prelude.{
  All, ◌≡◌, ◌≢◌, refl, ◌⊎◌, inl, inr, true, false, none, some, List, [], ◌∷◌, Bytes, Option-cases,
  eq_iff, arith,
}
use tswipoexp.Program.{
  Error, Result, ok, err, Fate, works, fails, then_run, failing, ◌>>=◌, or_else, syscall_with,
}
use tswipoexp.Disk.{FilePath, path_eq, File, Tree, Disk, M}
use tswipoexp.Disk.Calls.{
  open_effect, write_effect, sync_effect, remove_effect, open_file, write_file, sync_file,
  close_file, remove_file, tmp_of, discard, write_at, remove_at,
}

-- `t` is `t₀` but for the scratch file of `p`.
pub record Same (p : FilePath) (t₀ t : Tree) : Type 0 where
  pub dirs_eq : t.dirs ≡ t₀.dirs
  pub files_eq : (q : FilePath) → q ≢ tmp_of p → t.files q ≡ t₀.files q

-- `t` is `t₀` with `text` in `p`, on the disk as a whole, and no scratch file.
pub record Replaced (p : FilePath) (text : Bytes) (t₀ t : Tree) : Type 0 where
  pub dirs_eq : t.dirs ≡ t₀.dirs
  pub target_eq : t.files p ≡ some (record { content = text; synced = true })
  pub tmp_eq : t.files (tmp_of p) ≡ none
  pub files_eq : (q : FilePath) → q ≢ p → q ≢ tmp_of p → t.files q ≡ t₀.files q

module _ (p : FilePath) (t₀ : Tree) where
  -- So is the tree now, and so was it before each call.
  pub record Guarded (d : Disk) : Type 0 where
    pub now : Same p t₀ d.state
    pub before : All (Same p t₀) d.past

  write_at-Same : (f : File) (t : Tree) → Same p t₀ t → Same p t₀ (write_at (tmp_of p) f t)
  write_at-Same f t s = record {
    dirs_eq = s.dirs_eq;
    files_eq = λ q ne. ground (arith, s.files_eq q, eq_iff q (tmp_of p));
  }

  remove_at-Same : (t : Tree) → Same p t₀ t → Same p t₀ (remove_at (tmp_of p) t)
  remove_at-Same t s = record {
    dirs_eq = s.dirs_eq;
    files_eq = λ q ne. ground (arith, s.files_eq q, eq_iff q (tmp_of p));
  }

  open_effect-Same : (t : Tree) → Same p t₀ t → Same p t₀ (open_effect (tmp_of p) t).1
  unfolding open_effect
  open_effect-Same t s = ground (arith, write_at-Same (record { content = []; synced = false }) t s)

  sync_effect-Same : (t : Tree) → Same p t₀ t → Same p t₀ (sync_effect (tmp_of p) t)
  unfolding sync_effect
  sync_effect-Same t s = elim (Option-cases (t.files (tmp_of p))) [
    | inl e ↦ rw (e, sync_effect) s
    | inr (f, e) ↦ rw (e, sync_effect) (write_at-Same (record f { synced = true }) t s)
  ]

  remove_effect-Same : (t : Tree) → Same p t₀ t → Same p t₀ (remove_effect (tmp_of p) t).1
  unfolding remove_effect
  remove_effect-Same t s = elim (Option-cases (t.files (tmp_of p))) [
    | inl e ↦ rw (e, remove_effect) s
    | inr (f, e) ↦ rw (e, remove_effect) (remove_at-Same t s)
  ]

  syscall-Guarded :
      {A : Type 0} (op : Tree → Result A × Tree) (torn : Bytes → Tree → Tree) (d : Disk)
      → ((t : Tree) → Same p t₀ t → Same p t₀ (op t).1)
      → ((junk : Bytes) (t : Tree) → Same p t₀ t → Same p t₀ (torn junk t))
      → Guarded d
      → Guarded (syscall_with op torn d).1
  unfolding syscall_with
  syscall-Guarded op torn d keep tear g = go d.fates refl
    where
      go : (fs : List Fate) → d.fates ≡ fs → Guarded (syscall_with op torn d).1
      go [] e =
          rw (e, syscall_with) (record { now = keep d.state g.now; before = (g.now, g.before) })
      go (works ∷ more) e =
          rw (e, syscall_with) (record { now = keep d.state g.now; before = (g.now, g.before) })
      go (fails junk ∷ more) e =
          rw (e, syscall_with)
            (record { now = tear junk d.state g.now; before = (g.now, g.before) })

  pub open-Guarded : (d : Disk) → Guarded d → Guarded (open_file (tmp_of p) d).1
  unfolding open_file
  open-Guarded d = syscall-Guarded _ _ d open_effect-Same (λ _ t s. s)

  pub write-Guarded :
      (text : Bytes) (d : Disk) → Guarded d → Guarded (write_file (tmp_of p) text d).1
  unfolding write_file write_effect
  write-Guarded text d = syscall-Guarded _ _ d (write_at-Same _) (λ junk. write_at-Same _)

  pub sync-Guarded : (d : Disk) → Guarded d → Guarded (sync_file (tmp_of p) d).1
  unfolding sync_file
  sync-Guarded d = syscall-Guarded _ _ d sync_effect-Same (λ _ t s. s)

  pub close-Guarded : (d : Disk) → Guarded d → Guarded (close_file d).1
  unfolding close_file
  close-Guarded d = syscall-Guarded _ _ d (λ t s. s) (λ _ t s. s)

  pub remove-Guarded : (d : Disk) → Guarded d → Guarded (remove_file (tmp_of p) d).1
  unfolding remove_file
  remove-Guarded d = syscall-Guarded _ _ d remove_effect-Same (λ _ t s. s)

  pub discard-Guarded : (d : Disk) → Guarded d → Guarded (discard (tmp_of p) d).1
  unfolding discard
  discard-Guarded d g = remove-Guarded _ (close-Guarded d g)

  -- How `writeFileAtomic` may end.
  pub data Ends (text : Bytes) : Result (Unit {0}) × Disk → Type 0 where
    kept : {e : Error} {d : Disk} → Guarded d → Ends text (err e, d)
    replaced :
        {d : Disk} → Replaced p text t₀ d.state → All (Same p t₀) d.past → Ends text (ok tt, d)

  pub or_else-Ends :
      (text : Bytes) (m : M (Unit {0})) (cleanup : M (Unit {0})) (d : Disk)
      → Guarded (m d).1
      → ((e : Disk) → Guarded e → Guarded (cleanup e).1)
      → (k : Unit {0} → M (Unit {0}))
      → ((e : Disk) → m d ≡ (ok tt, e) → Guarded e → Ends text (k tt e))
      → Ends text ((or_else m cleanup >>= k) d)
  or_else-Ends text m cleanup d g clean k next = go (m d) refl g
    where
      go :
          (x : Result (Unit {0}) × Disk)
          → m d ≡ x
          → Guarded x.1
          → Ends text (then_run k (failing cleanup x))
      go (ok u, e) q h = next e q h
      go (err x, e) q h = kept (clean e h)

  pub Same-refl : Same p t₀ t₀
  Same-refl = record { dirs_eq = refl; files_eq = λ q ne. refl }

-- A call that goes through has the tree that its effect says, and the effect's outcome.
pub syscall-ok :
    {A : Type 0} (op : Tree → Result A × Tree) (torn : Bytes → Tree → Tree) (d : Disk) {a : A}
    {e : Disk}
    → syscall_with op torn d ≡ (ok a, e)
    → (e.state ≡ (op d.state).1) × ((op d.state).0 ≡ ok a) × (e.past ≡ d.state ∷ d.past)
unfolding syscall_with
syscall-ok op torn d {a} {e} = go d.fates refl
  where
    go :
        (fs : List Fate)
        → d.fates ≡ fs
        → syscall_with op torn d ≡ (ok a, e)
        → (e.state ≡ (op d.state).1) × ((op d.state).0 ≡ ok a) × (e.past ≡ d.state ∷ d.past)
    go [] f q = ground arith
    go (works ∷ more) f q = ground arith
    go (fails junk ∷ more) f q = ground arith

-- A call that fails has an error of its effect, or has left what it tears.
pub syscall-err :
    {A : Type 0} (op : Tree → Result A × Tree) (torn : Bytes → Tree → Tree) (d : Disk) {x : Error}
    {e : Disk}
    → syscall_with op torn d ≡ (err x, e)
    → ((e.state ≡ (op d.state).1) × ((op d.state).0 ≡ err x)
        ⊎ ((junk : Bytes) × (e.state ≡ torn junk d.state)))
      × (e.past ≡ d.state ∷ d.past)
unfolding syscall_with
syscall-err op torn d {x} {e} = go d.fates refl
  where
    go :
        (fs : List Fate)
        → d.fates ≡ fs
        → syscall_with op torn d ≡ (err x, e)
        → ((e.state ≡ (op d.state).1) × ((op d.state).0 ≡ err x)
            ⊎ ((junk : Bytes) × (e.state ≡ torn junk d.state)))
          × (e.past ≡ d.state ∷ d.past)
    go [] f q = (inl (ground arith, ground arith), ground arith)
    go (works ∷ more) f q = (inl (ground arith, ground arith), ground arith)
    go (fails junk ∷ more) f q = (inr (junk, ground arith), ground arith)

-- A chain that succeeds has steps that succeed.
pub >>=-eq-ok {ℓ κ} :
    {A : Type ℓ} {B : Type κ} (m : M A) (f : A → M B) (d : Disk) {b : B} {e : Disk}
    → (m >>= f) d ≡ (ok b, e)
    → (a : A) × (d' : Disk) × (m d ≡ (ok a, d')) × (f a d' ≡ (ok b, e))
>>=-eq-ok {A} m f d {b} {e} = go (m d) refl
  where
    go :
        (x : Result A × Disk)
        → m d ≡ x
        → then_run f x ≡ (ok b, e)
        → (a : A) × (d' : Disk) × (m d ≡ (ok a, d')) × (f a d' ≡ (ok b, e))
    go (ok a, d') q h = (a, d', q, h)
    go (err x, d') q h = cc
