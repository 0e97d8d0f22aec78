-- ===== src/Profiles/Store/Saving.antt =====
-- SaveConfig and then LoadConfig of profiles.go.
use tswipoexp.Prelude.{
  ◌≡◌, ap, ◌∙◌, true, some, [], ◌∷◌, ◌++◌, Bytes, nat_eq, list_eq, eq_iff, arith,
}
use tswipoexp.Program.{Result, ok, err, ◌>>◌, then_run, syscall_with}
use tswipoexp.Disk.{FilePath, inside, path_eq, Disk}
use tswipoexp.Disk.Calls.{
  contains, tmp_of, write_file_atomic, open_file, write_file, sync_file, close_file, rename_file,
  open_effect, write_effect, sync_effect, rename_effect, names_dir, has_parent, read_file,
  read_effect,
}
use tswipoexp.Disk.Atomic.{ne-tmp_of}
use tswipoexp.Profiles.Config.{Config}
use tswipoexp.Profiles.Config.Json.{Fields, encode}
use tswipoexp.Profiles.Config.Json.RoundTrip.{decode-encode}
use tswipoexp.Profiles.Store.{
  JsonText, decoded, parsed, parse_config, load_config, save_config, config_file_name,
}

-- What a write leaves when no call fails
abbrev pub Wrote : FilePath → Bytes → Result (Unit {0}) × Disk → Type 0
Wrote p text (r, d) =
    (r ≡ ok tt)
    × (d.fates ≡ [])
    × (d.state.files p ≡ some (record { content = text; synced = true }))

pub writes :
    (f n text : Bytes) (d : Disk)
    → d.fates ≡ []
    → contains d.state.dirs f ≡ true
    → Wrote (inside f n) text (write_file_atomic (inside f n) text d)
unfolding write_file_atomic open_file write_file sync_file close_file rename_file syscall_with
    open_effect write_effect sync_effect rename_effect names_dir has_parent
writes f n text d e h = (
  ground (arith, eq_iff (tmp_of (inside f n)) (tmp_of (inside f n))),
  ground (arith, eq_iff (tmp_of (inside f n)) (tmp_of (inside f n))),
  ground (
    arith,
    ne-tmp_of (inside f n),
    eq_iff (inside f n) (tmp_of (inside f n)),
    eq_iff (inside f n) (inside f n),
    eq_iff (tmp_of (inside f n)) (tmp_of (inside f n)),
  ),
)

module _ (json : JsonText)
    (parse-render : (f : Fields) → json.parse (json.render f ++ (b'\n' ∷ [])) ≡ some f) where
  reads :
      (name : Bytes) (c : Config) (d : Disk)
      → (parse_config json (json.render (encode c) ++ (b'\n' ∷ [])) d).0 ≡ ok c
  reads name c d =
      ap (λ o. (parsed o d).0) (parse-render (encode c))
      ∙ ap (λ o. (decoded o d).0) (decode-encode c)

  loads :
      (name : Bytes) (c : Config) (x : Result (Unit {0}) × Disk)
      → Wrote (inside name config_file_name) (json.render (encode c) ++ (b'\n' ∷ [])) x
      → (then_run (λ u. load_config json name) x).0 ≡ ok c
  unfolding load_config read_file syscall_with read_effect
  loads name c (ok u, d) (fine, e, f) = rw (e, syscall_with, read_effect, f) (reads name c _)
  loads name c (err u, d) (never, e, f) = absurd (ground (arith, never))

  -- When no call fails, a configuration that is saved for a profile whose directory is there is what
  -- is loaded for it next, if the JSON text of a file reads back.
  pub load_config-save_config :
      (name : Bytes) (c : Config) (d : Disk)
      → d.fates ≡ []
      → contains d.state.dirs name ≡ true
      → ((save_config json name c >> load_config json name) d).0 ≡ ok c
  unfolding save_config
  load_config-save_config name c d e h =
      loads name c _ (writes name config_file_name (json.render (encode c) ++ (b'\n' ∷ [])) d e h)
