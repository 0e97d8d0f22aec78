-- ===== src/Ssh/ServerTests.antt =====
-- The SSH server of ssh.go at concrete peers.
use tswipoexp.Prelude.{
  ◌≡◌, ◌≢◌, ◌↔◌, ◌⊎◌, refl, true, false, Option, none, some, [], ◌∷◌, Bytes, codes, list_eqb,
  nat_eq, list_eq,
}
use tswipoexp.Program.{ok}
use tswipoexp.Disk.{Disk}
use tswipoexp.Disk.Calls.{contains}
use tswipoexp.Profiles.Config.{ssh_same_user, ssh_all_users}
use tswipoexp.Ssh.Server.{allowed, allowed_iff, load_host_key}
use tswipoexp.Ssh.Server.Keys.{load_host_key-load_host_key}

stranger : allowed ssh_same_user (some (codes "me@example.com")) none ≡ false
unfolding allowed list_eqb
stranger = refl

allowed_iff_example :
    (allowed ssh_same_user (some (codes "me@example.com")) (some (codes "me@example.com")) ≡ true)
    ↔ ((ssh_same_user ≡ ssh_all_users)
        ⊎ ((ssh_same_user ≡ ssh_same_user)
            × (login : Bytes) × (login ≢ [])
            × (some (codes "me@example.com") ≡ some login)
            × (some (codes "me@example.com") ≡ some login)))
allowed_iff_example =
    allowed_iff ssh_same_user (some (codes "me@example.com")) (some (codes "me@example.com"))

abbrev work_disk : Disk
work_disk = record {
  state = record { dirs = codes "Work" ∷ []; files = λ p. none };
  fates = [];
  past = [];
}

abbrev any_key : Bytes → Option Bytes
any_key pem = some pem

load_host_key-load_host_key_example :
    (load_host_key any_key
      (ok (codes "other"))
      (codes "Work")
      (load_host_key any_key (ok (codes "key")) (codes "Work") work_disk).1).0
    ≡ (load_host_key any_key (ok (codes "key")) (codes "Work") work_disk).0
unfolding contains list_eqb
load_host_key-load_host_key_example =
    load_host_key-load_host_key any_key (codes "key") (codes "Work") (ok (codes "other")) work_disk
      refl refl
