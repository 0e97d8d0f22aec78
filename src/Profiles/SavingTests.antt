-- ===== src/Profiles/SavingTests.antt =====
-- A configuration saved and loaded, with an encoding in place of JSON.
use tswipoexp.Prelude.{◌≡◌, refl, ap, false, none, some, [], ◌∷◌, codes, nat_eq, list_eq, list_eqb}
use tswipoexp.Codec.Framed.{framed, get_fields-put_fields}
use tswipoexp.Program.{ok, ◌>>◌}
use tswipoexp.Disk.{Disk}
use tswipoexp.Disk.Calls.{contains}
use tswipoexp.Profiles.Config.{Config, zero_config}
use tswipoexp.Profiles.Store.{load_config, save_config}
use tswipoexp.Profiles.Store.Saving.{load_config-save_config}

abbrev saved_disk : Disk
saved_disk = record {
  state = record { dirs = codes "Work" ∷ []; files = λ p. none };
  fates = [];
  past = [];
}

abbrev desktop : Config
desktop = record zero_config { hostname = codes "desktop"; register_proxy = some false }

load_config-save_config_example :
    ((save_config framed (codes "Work") desktop >> load_config framed (codes "Work")) saved_disk).0
    ≡ ok desktop
unfolding contains list_eqb
load_config-save_config_example =
    load_config-save_config framed (λ fs. ap some (get_fields-put_fields fs (codes "\n")))
      (codes "Work") desktop saved_disk refl refl
