-- ===== src/Ssh/Server/Keys.antt =====
-- The host key of ssh.go stays the same.
use tswipoexp.Prelude.{
  ◌≡◌, refl, sym, ap, ◌∙◌, inl, inr, true, Option, none, some, Option-cases, [], Bytes, arith,
}
use tswipoexp.Program.{io_error, Result, ok, err, then_run, syscall_with}
use tswipoexp.Disk.{Disk, File, inside}
use tswipoexp.Disk.Calls.{contains, read_file, read_effect}
use tswipoexp.Profiles.Store.Saving.{Wrote, writes}
use tswipoexp.Ssh.Server.{ssh_host_key_file, generate_host_key, key_of, load_host_key}

abbrev key_result : Option Bytes → Result Bytes
key_result none = err io_error
key_result (some k) = ok k

-- A load has ended with the key of `content`, which is in the file, and no call is to fail.
abbrev Loaded : (Bytes → Option Bytes) → Bytes → Bytes → Result Bytes × Disk → Type 0
Loaded parse_key dir content x =
    (x.0 ≡ key_result (parse_key content))
    × (x.1.fates ≡ [])
    × (f : File) × (x.1.state.files (inside dir ssh_host_key_file) ≡ some f)
    × (f.content ≡ content)

module _ (parse_key : Bytes → Option Bytes) where
  key_of-Loaded :
      (dir content : Bytes) (key : Option Bytes) (d : Disk) (f : File)
      → parse_key content ≡ key
      → d.fates ≡ []
      → d.state.files (inside dir ssh_host_key_file) ≡ some f
      → f.content ≡ content
      → Loaded parse_key dir content (key_of parse_key key d)
  key_of-Loaded dir content none d f k e there same = (ap key_result (sym k), e, f, there, same)
  key_of-Loaded dir content (some key) d f k e there same =
      (ap key_result (sym k), e, f, there, same)

  load-Loaded :
      (fresh : Result Bytes) (dir : Bytes) (d : Disk) (f : File)
      → d.fates ≡ []
      → d.state.files (inside dir ssh_host_key_file) ≡ some f
      → Loaded parse_key dir f.content (load_host_key parse_key fresh dir d)
  unfolding load_host_key read_file syscall_with read_effect
  load-Loaded fresh dir d f e there =
      rw (e, syscall_with, read_effect, there)
        (key_of-Loaded dir f.content (parse_key f.content) _ f refl refl there refl)

  written-Loaded :
      (dir pem : Bytes) (x : Result (Unit {0}) × Disk)
      → Wrote (inside dir ssh_host_key_file) pem x
      → Loaded parse_key dir pem
          (then_run (λ text. key_of parse_key (parse_key text)) (then_run (λ u d. (ok pem, d)) x))
  written-Loaded dir pem (ok u, d) (fine, e, there) =
      key_of-Loaded dir pem (parse_key pem) d _ refl e there refl
  written-Loaded dir pem (err x, d) (never, e, there) = absurd (ground (arith, never))

  generate-Loaded :
      (pem dir : Bytes) (d : Disk)
      → d.fates ≡ []
      → contains d.state.dirs dir ≡ true
      → d.state.files (inside dir ssh_host_key_file) ≡ none
      → Loaded parse_key dir pem (load_host_key parse_key (ok pem) dir d)
  unfolding load_host_key generate_host_key read_file syscall_with read_effect
  generate-Loaded pem dir d e h missing =
      rw (e, syscall_with, read_effect, missing)
        (written-Loaded dir pem _ (writes dir ssh_host_key_file pem _ refl h))

  again :
      (dir content : Bytes) (later : Result Bytes) (x : Result Bytes × Disk)
      → Loaded parse_key dir content x
      → (load_host_key parse_key later dir x.1).0 ≡ x.0
  again dir content later (r, d) (is_key, e, f, there, same) =
      (load-Loaded later dir d f e there).0 ∙ ap (λ c. key_result (parse_key c)) same ∙ sym is_key

  -- When no call fails and the profile's directory is there, the key that a server loads, or generates
  -- if there is none yet, is the one that every later server loads, whatever key that one would make.
  pub load_host_key-load_host_key :
      (pem dir : Bytes) (later : Result Bytes) (d : Disk)
      → d.fates ≡ []
      → contains d.state.dirs dir ≡ true
      → (load_host_key parse_key later dir (load_host_key parse_key (ok pem) dir d).1).0
        ≡ (load_host_key parse_key (ok pem) dir d).0
  load_host_key-load_host_key pem dir later d e h =
      elim (Option-cases (d.state.files (inside dir ssh_host_key_file))) [
        | inl missing ↦ again dir pem later _ (generate-Loaded pem dir d e h missing)
        | inr (f, there) ↦ again dir f.content later _ (load-Loaded (ok pem) dir d f e there)
      ]
