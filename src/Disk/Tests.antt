-- ===== src/Disk/Tests.antt =====
-- writeFileAtomic of profiles.go at concrete disks.
use tswipoexp.Prelude.{
  ◌≡◌, refl, true, some, none, [], ◌∷◌, codes, ◌==◌, nat_eq, list_eq, list_eqb, if◌then◌else◌,
}
use tswipoexp.Program.{works, fails, ok, err, io_error, syscall_with}
use tswipoexp.Disk.{FilePath, root, path_eq, path_eqb, Tree, Disk}
use tswipoexp.Disk.Calls.{
  write_file_atomic, open_file, open_effect, names_dir, has_parent, write_file, sync_file,
}
use tswipoexp.Disk.Guard.{Ends}
use tswipoexp.Disk.Atomic.{write_file_atomic-Ends, write_file_atomic-ok}

abbrev note : FilePath
note = root (codes "note")

abbrev start : Tree
start = record {
  dirs = codes "Work" ∷ [];
  files = λ p. if p == note then some (record { content = codes "old"; synced = true }) else none;
}

abbrev failing_disk : Disk
failing_disk = record { state = start; fates = works ∷ works ∷ fails [] ∷ []; past = [] }

abbrev good_disk : Disk
good_disk = record { state = start; fates = []; past = [] }

-- A failed Sync leaves the old text and no scratch file.
sync_fails : (write_file_atomic note (codes "new") failing_disk).0 ≡ err io_error
unfolding write_file_atomic path_eqb list_eqb open_file syscall_with open_effect names_dir
    has_parent write_file sync_file
sync_fails = refl

write_file_atomic-Ends_example :
    Ends note start (codes "new") (write_file_atomic note (codes "new") failing_disk)
write_file_atomic-Ends_example = write_file_atomic-Ends note (codes "new") failing_disk refl

write_file_atomic-ok_example : (write_file_atomic note (codes "new") good_disk).0 ≡ ok tt
unfolding list_eqb names_dir has_parent
write_file_atomic-ok_example = write_file_atomic-ok note (codes "new") good_disk refl refl refl refl
