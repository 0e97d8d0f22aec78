-- ===== src/App.antt =====
-- App of tswipoexp.go: the profiles, the running backend and the LocalAPI bridge's target (SetTarget of
-- localapi.go). Each program is one user command, run to its end before the next: what the Go code does
-- in a goroutine is done here before the next command. The disk is a machine of its own (Disk), so its
-- calls fail apart from those of the node. What is only logged is left out, and so is redrawing.
pub mod Holding
pub mod Obeying
pub mod Quitting
pub mod Pointing
mod Tests
use tswipoexp.Prelude.{
  ℕ, Bool, true, false, not, ◌&&◌, ◌||◌, Option, none, some, List, [], ◌∷◌, Bytes, ◌==◌, nat_eq,
  list_eq, if◌then◌else◌,
}
use tswipoexp.Program.{Error, running, Result, ok, err, Machine, Program}
use tswipoexp.Program.Sealed.{◌>>=◌, ◌>>◌, give, pure, attempt, syscall, reading, setting}
use tswipoexp.Program.Within.{within}
use tswipoexp.Disk.{Disk, M}
use tswipoexp.Disk.Calls.{mkdir_all}
use tswipoexp.Logs.Sink.{LogSink, set_file}
use tswipoexp.Profiles.Config.{Config, hostname, register_proxy, ssh_mode}
use tswipoexp.Profiles.Store.{JsonText, load_config, save_config, set_active, rename, delete}
use tswipoexp.Backend.{
  Platform, Backend, Place, B, NodeConfig, new_backend, unregister, start, close, set_ssh_mode,
  apply_outbound,
}

-- `running` is whether the backend pointer is set: it then points at the place's backend, the one made
-- last. `target` is the profile whose LocalAPI the bridge serves; `shown` the errors shown, the latest
-- first.
pub record World : Type 0 where
  pub disk : Disk
  pub place : Place
  pub running : Bool
  pub prof_name : Bytes
  pub target : Option Bytes
  pub logs : LogSink
  pub shown : List Error

abbrev pub A {ℓ} : Type ℓ → Type ℓ
A X = Program World X

abbrev pub place_of : World → Place
place_of w = w.place

abbrev pub with_place : Place → World → World
with_place p w = record w { place = p }

abbrev pub put_disk {ℓ} : {X : Type ℓ} → Machine World → Result X × Disk → Result X × Machine World
put_disk d (r, e) = (r, record d { state = record d.state { disk = e } })

unfoldable pub on_disk {ℓ} : {X : Type ℓ} → M X → A X
on_disk m d = put_disk d (m d.state.disk)

unfoldable pub on_place {ℓ} : {X : Type ℓ} → B X → A X
on_place m = within place_of with_place m

-- `a.ui.showErr`
abbrev pub show : Result (Unit {0}) → A (Unit {0})
show (ok u) = pure tt
show (err e) = setting (λ w. record w { shown = e ∷ w.shown })

unfoldable pub change_config : (Config → Config) → A (Unit {0})
change_config f = setting (λ w. record w {
  place = record w.place { backend = record w.place.backend { cfg = f w.place.backend.cfg } };
})

abbrev agree : Bool → Bool → Bool
agree true b = b
agree false b = not b

abbrev pub not_running : World → World
not_running w = record w { running = false }

-- The commands of the window
pub data Command : Type 0 where
  switches : Bytes → Command
  renames : Bytes → Bytes → Command
  deletes : Bytes → Command
  changes_outbound : (Config → Config) → Bool → Command
  enables_outbound : Bool → Command
  chooses_ssh_mode : Bytes → Command
  sets_hostname : Bytes → Bool → Command

abbrev pub first_error : Result (Unit {0}) → Result (Unit {0}) → Result (Unit {0})
first_error (err e) r = err e
first_error (ok u) r = r

abbrev pub name_after : Result (Unit {0}) → Bytes → Bytes → Bytes
name_after (ok u) from to = to
name_after (err e) from to = from

abbrev pub renamed_node : Option NodeConfig → Bytes → Option NodeConfig
renamed_node none name = none
renamed_node (some n) name = some (record n { hostname = name })

abbrev pub with_hostname : Bytes → Bool → Config → Config
with_hostname name sync c =
    if sync || name == []
    then record c { sync_hostname = sync }
    else record c { sync_hostname = sync; hostname = name }

-- Beyond the platform of a backend: the JSON text of a configuration, and what a profile's log file
-- holds when it is opened, none if that fails.
module _ (os : Platform) (json : JsonText) (log_file : Bytes → Option Bytes) where
  -- `a.bridge.SetTarget(b)`; the call is `b.ts.Loopback`.
  unfoldable pub set_target : Bytes → A (Unit {0})
  set_target name = syscall (λ w. (ok tt, record w { target = some name }))

  -- The end of startBackend, by how `b.Start` went
  abbrev pub after_start : Bytes → Result (Unit {0}) → A (Unit {0})
  after_start name (err e) = do
    setting not_running
    closed ← attempt (on_place (close os))
    give (err e)
  after_start name (ok u) = do targeted ← attempt (set_target name); pure tt

  abbrev pub made : Bytes → Config → World → World
  made name cfg w = record w {
    place = record w.place { backend = new_backend name name cfg };
    running = true;
    prof_name = name;
    logs = (set_file name (log_file name) w.logs).0;
  }

  -- The log file is opened before and the active profile recorded before, and an error of these only
  -- logged.
  unfoldable pub start_backend : Bytes → A (Unit {0})
  start_backend name = do
    cfg ← on_disk (load_config json name)
    on_disk (mkdir_all name)
    recorded ← attempt (on_disk (set_active name))
    setting (made name cfg)
    started ← attempt (on_place (start os []))
    after_start name started

  abbrev pub stop_if : Bool → A (Unit {0})
  stop_if false = pure tt
  stop_if true = do
    setting (λ w. record w { running = false; target = none })
    closed ← attempt (on_place (close os))
    pure tt

  unfoldable pub stop_backend : A (Unit {0})
  stop_backend = reading λ w. stop_if w.running

  unfoldable pub switch_profile : Bytes → A (Unit {0})
  switch_profile name = do stop_backend; started ← attempt (start_backend name); show started

  -- The configuration is saved for the backend's profile, and an error shown.
  unfoldable pub save_current : A (Unit {0})
  save_current = reading λ w. on_disk (save_config json w.place.backend.profile w.place.backend.cfg)

  -- `applyOutbound` once the change is saved
  abbrev pub apply_saved : Bool → Result (Unit {0}) → A (Unit {0})
  apply_saved addr_changed (err e) = show (err e)
  apply_saved true (ok u) = reading λ w. switch_profile w.place.backend.profile
  apply_saved false (ok u) = do applied ← attempt (on_place (apply_outbound os)); show applied

  abbrev pub apply_if : Bool → (Config → Config) → Bool → A (Unit {0})
  apply_if false mutate addr_changed = pure tt
  apply_if true mutate addr_changed = do
    change_config mutate
    saved ← attempt save_current
    apply_saved addr_changed saved

  -- The App's `applyOutbound`
  unfoldable pub apply_changed : (Config → Config) → Bool → A (Unit {0})
  apply_changed mutate addr_changed = reading λ w. apply_if w.running mutate addr_changed

  unfoldable pub set_outbound_enabled : Bool → A (Unit {0})
  unfolding apply_changed
  set_outbound_enabled on = reading λ w.
      if not w.running || agree (register_proxy w.place.backend.cfg) on
      then pure tt
      else apply_changed (λ c. record c { register_proxy = some on }) false

  -- `renameProfile` with `running`; the result is what `done` gets.
  abbrev pub rename_if : Bool → Bytes → Bytes → A (Unit {0})
  rename_if false from to = on_disk (rename from to)
  rename_if true from to = do
    stop_backend
    renamed ← attempt (on_disk (rename from to))
    started ← attempt (start_backend (name_after renamed from to))
    give (first_error renamed started)

  unfoldable pub rename_profile : Bytes → Bytes → A (Unit {0})
  rename_profile from to = reading λ w. rename_if (w.prof_name == from) from to

  unfoldable pub delete_profile : Bytes → A (Unit {0})
  delete_profile name =
      reading λ w. if w.prof_name == name then give (err (running name)) else on_disk (delete name)

  -- The App's `setSSHMode`
  unfoldable pub choose_ssh_mode : Bytes → A (Unit {0})
  choose_ssh_mode mode = reading λ w.
      if not w.running || ssh_mode w.place.backend.cfg == mode then pure tt else do
        set ← attempt (on_place (set_ssh_mode mode))
        show set
        saved ← attempt save_current
        show saved

  -- `b.SetHostname`, a call to the node
  unfoldable pub edit_hostname : A (Unit {0})
  edit_hostname = syscall (λ w. (
    ok tt,
    record w {
      place = record w.place {
        node = renamed_node w.place.node (hostname os.os_hostname w.place.backend.cfg);
      };
    },
  ))

  abbrev pub hostname_saved : Result (Unit {0}) → A (Unit {0})
  hostname_saved (err e) = show (err e)
  hostname_saved (ok u) = do edited ← attempt edit_hostname; show edited

  unfoldable pub set_hostname : Bytes → Bool → A (Unit {0})
  set_hostname name sync = reading λ w.
      if w.running
      then (do
        change_config (with_hostname name sync)
        saved ← attempt save_current
        hostname_saved saved)
      else pure tt

  abbrev pub obey : Command → A (Unit {0})
  obey (switches name) = switch_profile name
  obey (renames from to) = rename_profile from to
  obey (deletes name) = delete_profile name
  obey (changes_outbound mutate addr_changed) = apply_changed mutate addr_changed
  obey (enables_outbound on) = set_outbound_enabled on
  obey (chooses_ssh_mode mode) = choose_ssh_mode mode
  obey (sets_hostname name sync) = set_hostname name sync

  unfoldable pub obey_all : List Command → A (Unit {0})
  obey_all [] = pure tt
  obey_all (c ∷ cs) = do obeyed ← attempt (obey c); obey_all cs

  -- `main` from the undoing of what a previous run may have left, with the profile to load and the
  -- commands until the window is closed
  unfoldable pub run_app : Bytes → List Command → A (Unit {0})
  unfolding obey_all stop_backend
  run_app name commands = do
    undone ← attempt (on_place (unregister os))
    started ← attempt (start_backend name)
    show started
    obey_all commands
    stop_backend
