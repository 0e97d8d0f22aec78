-- ===== src/Disk/Atomic.antt =====
-- writeFileAtomic of profiles.go under failing calls and power cuts.
use tswipoexp.Prelude.{
  ◌≡◌, ◌≢◌, refl, ◌∙◌, ap, ◌⊎◌, inl, inr, true, false, some, [], Bytes, codes, length,
  length-append, eq_iff, arith,
}
use tswipoexp.Program.{Error, Result, ok, err, then_run, failing, ◌>>=◌, or_else, syscall_with}
use tswipoexp.Disk.{FilePath, root, inside, path_eq, File, Tree, Disk}
use tswipoexp.Disk.Calls.{
  write_effect, sync_effect, rename_effect, names_dir, has_parent, open_effect, open_file,
  write_file, sync_file, close_file, remove_file, rename_file, tmp_of, discard, write_file_atomic,
  write_at, remove_at,
}
use tswipoexp.Disk.Guard.{
  Same, Replaced, Guarded, Ends, kept, replaced, open-Guarded, write-Guarded, sync-Guarded,
  close-Guarded, remove-Guarded, discard-Guarded, or_else-Ends, Same-refl, syscall-ok, syscall-err,
}

abbrev name_of : FilePath → Bytes
name_of (root n) = n
name_of (inside e n) = n

pub ne-tmp_of : (p : FilePath) → p ≢ tmp_of p
ne-tmp_of (root n) e =
    absurd (omega (arith, ap (λ q. length (name_of q)) e, length-append n (codes ".tmp")))
ne-tmp_of (inside d n) e =
    absurd (omega (arith, ap (λ q. length (name_of q)) e, length-append n (codes ".tmp")))

abbrev whole : Bytes → File
whole text = record { content = text; synced = true }

module _ (p : FilePath) (t₀ : Tree) (text : Bytes) where
  renamed :
      (t u : Tree)
      → Same p t₀ t
      → t.files (tmp_of p) ≡ some (whole text)
      → u ≡ (rename_effect (tmp_of p) p t).1
      → (rename_effect (tmp_of p) p t).0 ≡ ok tt
      → Replaced p text t₀ u
  unfolding rename_effect
  renamed t u s e q w =
      let u_eq : u ≡ remove_at (tmp_of p) (write_at p (whole text) t) = ground arith in
      record {
        dirs_eq = rw u_eq s.dirs_eq;
        target_eq = rw u_eq (ground (arith, ne-tmp_of p, eq_iff p (tmp_of p), eq_iff p p));
        tmp_eq = rw u_eq (ground (arith, eq_iff (tmp_of p) (tmp_of p)));
        files_eq =
            λ r ne ne'. rw u_eq (ground (arith, s.files_eq r ne', eq_iff r p, eq_iff r (tmp_of p)));
      }

  not_renamed :
      (t : Tree) {x : Error}
      → (rename_effect (tmp_of p) p t).0 ≡ err x
      → (rename_effect (tmp_of p) p t).1 ≡ t
  unfolding rename_effect
  not_renamed t w = ground arith

  unchanged :
      (t u : Tree) {x : Error}
      → (u ≡ (rename_effect (tmp_of p) p t).1) × ((rename_effect (tmp_of p) p t).0 ≡ err x)
        ⊎ (Bytes × (u ≡ t))
      → u ≡ t
  unchanged t u (inl (a, b)) = a ∙ not_renamed t b
  unchanged t u (inr (junk, a)) = a

  rename-Ends :
      (d : Disk)
      → Guarded p t₀ d
      → d.state.files (tmp_of p) ≡ some (whole text)
      → Ends p t₀ text (or_else (rename_file (tmp_of p) p) (remove_file (tmp_of p)) d)
  unfolding rename_file
  rename-Ends d g e = go (rename_file (tmp_of p) p d) refl
    where
      go :
          (x : Result (Unit {0}) × Disk)
          → rename_file (tmp_of p) p d ≡ x
          → Ends p t₀ text (failing (remove_file (tmp_of p)) x)
      go (ok u, f) q =
          let (a, b, c) = syscall-ok _ _ d q in
          replaced (renamed d.state f.state g.now e a b) (rw c (g.now, g.before))
      go (err x, f) q =
          let (a, c) = syscall-err (rename_effect (tmp_of p) p) (λ _ t. t) d q in
          let f_eq : f.state ≡ d.state = unchanged d.state f.state a in
          kept (
            remove-Guarded p t₀ f (record { now = rw f_eq g.now; before = rw c (g.now, g.before) }))

  close-Ends :
      (d : Disk)
      → Guarded p t₀ d
      → d.state.files (tmp_of p) ≡ some (whole text)
      → Ends p t₀ text (
          (or_else close_file (remove_file (tmp_of p)) >>= λ _.
          or_else (rename_file (tmp_of p) p) (remove_file (tmp_of p)))
            d)
  unfolding close_file
  close-Ends d g e =
      or_else-Ends p t₀ text close_file (remove_file (tmp_of p)) d (close-Guarded p t₀ d g)
        (remove-Guarded p t₀) _ λ f q h. rename-Ends f h (rw (syscall-ok _ _ d q).0 e)

  synced :
      (t : Tree)
      → t.files (tmp_of p) ≡ some (record { content = text; synced = false })
      → (sync_effect (tmp_of p) t).files (tmp_of p) ≡ some (whole text)
  unfolding sync_effect
  synced t e = rw (e, sync_effect) (ground (arith, eq_iff (tmp_of p) (tmp_of p)))

  sync-Ends :
      (d : Disk)
      → Guarded p t₀ d
      → d.state.files (tmp_of p) ≡ some (record { content = text; synced = false })
      → Ends p t₀ text (
          (or_else (sync_file (tmp_of p)) (discard (tmp_of p)) >>= λ _.
          or_else close_file (remove_file (tmp_of p)) >>= λ _.
          or_else (rename_file (tmp_of p) p) (remove_file (tmp_of p)))
            d)
  unfolding sync_file
  sync-Ends d g e =
      or_else-Ends p t₀ text (sync_file (tmp_of p)) (discard (tmp_of p)) d (sync-Guarded p t₀ d g)
        (discard-Guarded p t₀) _
        λ f q h. close-Ends f h (rw (syscall-ok _ _ d q).0 (synced d.state e))

  write-Ends :
      (d : Disk)
      → Guarded p t₀ d
      → Ends p t₀ text (
          (or_else (write_file (tmp_of p) text) (discard (tmp_of p)) >>= λ _.
          or_else (sync_file (tmp_of p)) (discard (tmp_of p)) >>= λ _.
          or_else close_file (remove_file (tmp_of p)) >>= λ _.
          or_else (rename_file (tmp_of p) p) (remove_file (tmp_of p)))
            d)
  unfolding write_file write_effect
  write-Ends d g =
      or_else-Ends p t₀ text (write_file (tmp_of p) text) (discard (tmp_of p)) d
        (write-Guarded p t₀ text d g) (discard-Guarded p t₀) _
        λ f q h.
          sync-Ends f h (rw (syscall-ok _ _ d q).0 (ground (arith, eq_iff (tmp_of p) (tmp_of p))))

  open-Ends : (d : Disk) → Guarded p t₀ d → Ends p t₀ text (write_file_atomic p text d)
  unfolding write_file_atomic
  open-Ends d g = go (open_file (tmp_of p) d) (open-Guarded p t₀ d g)
    where
      go :
          (x : Result (Unit {0}) × Disk)
          → Guarded p t₀ x.1
          → Ends p t₀ text (
              then_run
                (λ _. or_else (write_file (tmp_of p) text) (discard (tmp_of p)) >>= λ _.
                  or_else (sync_file (tmp_of p)) (discard (tmp_of p)) >>= λ _.
                  or_else close_file (remove_file (tmp_of p)) >>= λ _.
                  or_else (rename_file (tmp_of p) p) (remove_file (tmp_of p)))
                x)
      go (ok u, f) h = write-Ends f h
      go (err x, f) h = kept h

-- Whatever calls fail and wherever the power goes, the target is as before the call up to its
-- last step, and only a successful call changes it, to the new text as a whole and synced. The
-- other files, the scratch file aside, and the directories stay as they were.
pub write_file_atomic-Ends :
    (p : FilePath) (text : Bytes) (d : Disk)
    → d.past ≡ []
    → Ends p d.state text (write_file_atomic p text d)
write_file_atomic-Ends p text d e =
    open-Ends p d.state text d (record { now = Same-refl p d.state; before = rw e tt })

-- When no call fails, the scratch path is free for a file and the target is no directory, the
-- write succeeds.
pub write_file_atomic-ok :
    (p : FilePath) (text : Bytes) (d : Disk)
    → d.fates ≡ []
    → names_dir (tmp_of p) d.state ≡ false
    → has_parent (tmp_of p) d.state ≡ true
    → names_dir p d.state ≡ false
    → (write_file_atomic p text d).0 ≡ ok tt
unfolding write_file_atomic open_file write_file sync_file close_file rename_file syscall_with
    open_effect write_effect sync_effect rename_effect names_dir has_parent
write_file_atomic-ok (root n) text d e a b c =
    ground (arith, eq_iff (tmp_of (root n)) (tmp_of (root n)))
write_file_atomic-ok (inside f n) text d e a b c =
    ground (arith, eq_iff (tmp_of (inside f n)) (tmp_of (inside f n)))
