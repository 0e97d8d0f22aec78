-- ===== src/Profiles/Summary.antt =====
-- LoadSummary and SaveSummary of profiles.go. The text that encoding/json makes of a summary, and what its
-- Unmarshal makes of a text, errors included, are arguments.
use tswipoexp.Prelude.{◌≡◌, refl, ap, ◌∙◌, true, [], ◌∷◌, ◌++◌, Bytes, codes, arith}
use tswipoexp.Program.{Result, ok, err, ◌>>=◌, ◌>>◌, pure, attempt, then_run, syscall_with}
use tswipoexp.Disk.{Disk, M, inside}
use tswipoexp.Disk.Calls.{contains, read_file, read_effect, write_file_atomic}
use tswipoexp.Profiles.Store.Saving.{Wrote, writes}
use tswipoexp.Status.{ProfileSummary}

abbrev pub last_status_file : Bytes
last_status_file = codes "last-status.json"

abbrev pub no_summary : ProfileSummary
no_summary = record {
  state = [];
  tailnet = [];
  account = [];
  hostname = [];
  dns_name = [];
  ips = [];
  updated_at = 0;
}

module _ (render : ProfileSummary → Bytes) (unmarshal : Bytes → ProfileSummary) where
  abbrev summary_of : Result Bytes → ProfileSummary
  summary_of (ok b) = unmarshal b
  summary_of (err e) = no_summary

  unfoldable pub load_summary : Bytes → M ProfileSummary
  load_summary name = do b ← attempt (read_file (inside name last_status_file)); pure (summary_of b)

  unfoldable pub store_summary : Bytes → ProfileSummary → M (Unit {0})
  store_summary name s = write_file_atomic (inside name last_status_file) (render s ++ (b'\n' ∷ []))

  loads :
      (name text : Bytes) (x : Result (Unit {0}) × Disk)
      → Wrote (inside name last_status_file) text x
      → (then_run (λ u. load_summary name) x).0 ≡ ok (unmarshal text)
  unfolding load_summary read_file syscall_with read_effect
  loads name text (ok u, d) (fine, e, f) = rw (e, syscall_with, read_effect, f) refl
  loads name text (err u, d) (never, e, f) = absurd (ground (arith, never))

  -- When no call fails, a summary that is saved for a profile whose directory is there is what is
  -- loaded for it next, if its JSON text reads back.
  pub load_summary-store_summary :
      ((s : ProfileSummary) → unmarshal (render s ++ (b'\n' ∷ [])) ≡ s)
      → (name : Bytes) (s : ProfileSummary) (d : Disk) → d.fates ≡ []
      → contains d.state.dirs name ≡ true
      → ((store_summary name s >> load_summary name) d).0 ≡ ok s
  unfolding store_summary
  load_summary-store_summary reads name s d e h =
      loads name (render s ++ (b'\n' ∷ [])) _
        (writes name last_status_file (render s ++ (b'\n' ∷ [])) d e h)
      ∙ ap ok (reads s)
