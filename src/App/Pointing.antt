-- ===== src/App/Pointing.antt =====
-- Where the LocalAPI bridge of App, tswipoexp.go, points, whichever calls fail.
pub mod Always
use tswipoexp.Prelude.{
  ◌≡◌, refl, sym, ap, ◌∙◌, ◌⊎◌, inl, inr, Bool, true, false, not, ◌||◌, Option, none, some, List,
  [], ◌∷◌, Bytes, ◌==◌, nat_eq, list_eq, if◌then◌else◌, arith, All,
}
use tswipoexp.Program.{Error, Result, ok, err, Machine}
use tswipoexp.Program.Sealed.{◌>>=◌, pure, give, attempt}
use tswipoexp.Program.Triple.{
  Ensures, Fits, >>=-Ensures, trying-Ensures, give-Ensures, reading-Ensures, setting-Ensures,
  syscall-Ensures, weaken, Anything, All-Anything, then-Ensures, Ensures-run,
}
use tswipoexp.Program.Within.{within-Ensures}
use tswipoexp.Disk.{Disk, M}
use tswipoexp.Profiles.Config.{Config, register_proxy, ssh_mode}
use tswipoexp.Profiles.Store.{JsonText}
use tswipoexp.Backend.{Platform, Place, B}
use tswipoexp.App.{
  World, A, place_of, with_place, put_disk, on_disk, on_place, show, change_config, set_target,
  after_start, start_backend, stop_if, stop_backend, switch_profile, save_current, apply_saved,
  apply_if, apply_changed, agree, set_outbound_enabled, name_after, rename_if, rename_profile,
  delete_profile, choose_ssh_mode, edit_hostname, hostname_saved, set_hostname, Command, switches,
  renames, deletes, changes_outbound, enables_outbound, chooses_ssh_mode, sets_hostname, obey,
  obey_all, run_app,
}

-- The bridge points nowhere, or at the profile of the backend that runs.
abbrev pub Points : World → Type 0
Points w = (w.target ≡ none) ⊎ ((w.running ≡ true) × (w.target ≡ some w.prof_name))

-- A property of what runs and where the bridge points, of which `Points` is a part
pub record IsSteady (F : Bool → Bytes → Option Bytes → Type 0) : Type 0 where
  pub points : (w : World) → F w.running w.prof_name w.target → Points w

abbrev pub On : (Bool → Bytes → Option Bytes → Type 0) → World → Type 0
On F w = F w.running w.prof_name w.target

-- A program that moves none of these
abbrev pub Stays : {X : Type 0} → (Bool → Bytes → Option Bytes → Type 0) → A X → Type 0
Stays F m = Ensures Anything Points (On F) m (λ r w. On F w)

module _ {F : Bool → Bytes → Option Bytes → Type 0} (s : IsSteady F) where
  pub on_disk-Stays : {X : Type 0} (m : M X) → Stays F (on_disk m)
  unfolding on_disk
  on_disk-Stays {X} m = record { run = λ d p w r. go d p r (m d.state.disk) }
    where
      go :
          (d : Machine World)
          → On F d.state
          → All Points d.past
          → (x : Result X × Disk) → Fits Anything Points (λ r w. On F w) (put_disk d x)
      go d p r (res, e) = (p, All-Anything d.fates, r)

  pub on_place-Stays : {X : Type 0} (m : B X) → Stays F (on_place m)
  unfolding on_place
  on_place-Stays m =
      within-Ensures place_of with_place (λ w p. tt) (λ w p q k. s.points w p) (λ w p r q k. p)
        (anything m)
    where
      anything : {X : Type 0} (m : B X) → Ensures Anything Anything Anything m (λ r p. Unit)
      anything m = record {
        run = λ d p w r. (tt, All-Anything (m d).1.fates, All-Anything (m d).1.past);
      }

  pub show-Stays : (r : Result (Unit {0})) → Stays F (show r)
  show-Stays (ok u) = give-Ensures _ (λ w p. p)
  show-Stays (err e) = setting-Ensures _ (λ w p. p)

  pub edit_hostname-Stays :
      (os : Platform) (json : JsonText) (log_file : Bytes → Option Bytes)
      → Stays F (edit_hostname os json log_file)
  unfolding edit_hostname
  edit_hostname-Stays os json log_file =
      syscall-Ensures _ (λ w p. (s.points w p, p)) (λ w junk p k. p)

  -- An error that is shown, with more after it
  pub show_then :
      (m : A (Unit {0})) (r : Result (Unit {0})) → Stays F m → Stays F (show r >>= λ _. m)
  show_then m r h = >>=-Ensures (show-Stays r) (λ u. h) (λ e w p. p)

  pub change-Stays :
      (m : A (Unit {0})) (f : Config → Config) → Stays F m → Stays F (change_config f >>= λ _. m)
  unfolding change_config
  change-Stays m f h = then-Ensures {P' = On F} _ (λ w p. p) h

  pub tried-Stays :
      {X : Type 0} (m : A X) (f : Result X → A (Unit {0}))
      → Stays F m
      → ((r : Result X) → Stays F (f r))
      → Stays F (attempt m >>= f)
  tried-Stays m f h k = trying-Ensures h k

  pub save_current-Stays :
      (os : Platform) (json : JsonText) (log_file : Bytes → Option Bytes)
      → Stays F (save_current os json log_file)
  unfolding save_current
  save_current-Stays os json log_file =
      reading-Ensures λ w p. weaken (λ v k. k.1) (λ r v k. k) (on_disk-Stays _)

-- The bridge points nowhere.
abbrev pub Off : Bool → Bytes → Option Bytes → Type 0
Off running prof_name target = target ≡ none

pub off : IsSteady Off
off = record { points = λ w e. inl e }

abbrev pub Pointing : Bool → Bytes → Option Bytes → Type 0
Pointing running prof_name target = (target ≡ none) ⊎ ((running ≡ true) × (target ≡ some prof_name))

pub pointing : IsSteady Pointing
pointing = record { points = λ w p. p }

-- The backend of this profile runs, and the bridge does not point at it yet.
abbrev Awaits : Bytes → Bool → Bytes → Option Bytes → Type 0
Awaits name running prof_name target = (running ≡ true) × (prof_name ≡ name) × (target ≡ none)

awaits : (name : Bytes) → IsSteady (Awaits name)
awaits name = record { points = λ w p. inl p.2 }

abbrev pub Leads : A (Unit {0}) → (World → Type 0) → (World → Type 0) → Type 0
Leads m P Q = Ensures Anything Points P m (λ r w. Q w)

module _ (os : Platform) (json : JsonText) (log_file : Bytes → Option Bytes) where
  stop_if-Off :
      (b : Bool) → Leads (stop_if os json log_file b) (λ w. (w.running ≡ b) × Points w) (On Off)
  stop_if-Off false = give-Ensures _ (λ w (e, p). idle w e p)
    where
      idle : (w : World) → w.running ≡ false → Points w → w.target ≡ none
      idle w e (inl none_yet) = none_yet
      idle w e (inr (runs, at)) = absurd (ground (arith, e, runs))
  stop_if-Off true =
      then-Ensures {P' = On Off} _ (λ w p. refl)
        (tried-Stays off _ _ (on_place-Stays off _) (λ r. give-Ensures _ (λ w p. p)))

  pub stop_backend-Off : Leads (stop_backend os json log_file) Points (On Off)
  unfolding stop_backend
  stop_backend-Off =
      reading-Ensures
        λ w p. weaken (λ v (e, q). (ap (λ x. x.running) e, q)) (λ r v q. q) (stop_if-Off w.running)

  after_start-Points :
      (name : Bytes) (r : Result (Unit {0}))
      → Leads (after_start os json log_file name r) (On (Awaits name)) Points
  unfolding set_target
  after_start-Points name (err e) =
      then-Ensures {P' = On Off} _ (λ w p. p.2)
        (weaken (λ w p. p) (λ r w p. inl p)
          (tried-Stays off _ _ (on_place-Stays off _) (λ r. give-Ensures _ (λ w p. p))))
  after_start-Points name (ok u) =
      trying-Ensures {Q = λ r w. Points w}
        (syscall-Ensures _
          (λ w (runs, named, none_yet). (inl none_yet, inr (runs, ap some (sym named))))
          (λ w junk (runs, named, none_yet) k. inl none_yet))
        (λ r. give-Ensures _ (λ w p. p))

  pub start_backend-Points :
      (name : Bytes) → Leads (start_backend os json log_file name) (On Off) Points
  unfolding start_backend
  start_backend-Points name =
      >>=-Ensures (on_disk-Stays off _)
        (λ cfg.
          >>=-Ensures (on_disk-Stays off _)
            (λ u. trying-Ensures {Q = λ r w. On Off w} (on_disk-Stays off _) (λ r.
              then-Ensures {P' = On (Awaits name)} _ (λ w p. (refl, refl, p))
                (trying-Ensures {Q = λ r w. On (Awaits name) w} (on_place-Stays (awaits name) _)
                  (after_start-Points name))))
            (λ e w p. inl p))
        (λ e w p. inl p)

  pub stop_first :
      (m : A (Unit {0}))
      → Leads m (On Off) Points
      → Leads (stop_backend os json log_file >>= λ _. m) Points Points
  stop_first m h = >>=-Ensures stop_backend-Off (λ u. h) (λ e w p. inl p)

  pub switch_profile-Points :
      (name : Bytes) → Leads (switch_profile os json log_file name) Points Points
  unfolding switch_profile
  switch_profile-Points name =
      stop_first _
        (trying-Ensures {Q = λ r w. Points w} (start_backend-Points name) (show-Stays pointing))

  apply_saved-Points :
      (b : Bool) (r : Result (Unit {0})) → Leads (apply_saved os json log_file b r) Points Points
  apply_saved-Points b (err e) = show-Stays pointing (err e)
  apply_saved-Points true (ok u) =
      reading-Ensures
        λ w p. weaken (λ v k. k.1) (λ r v k. k) (switch_profile-Points w.place.backend.profile)
  apply_saved-Points false (ok u) =
      tried-Stays pointing _ _ (on_place-Stays pointing _) (show-Stays pointing)

  apply_if-Points :
      (b : Bool) (f : Config → Config) (c : Bool)
      → Leads (apply_if os json log_file b f c) Points Points
  apply_if-Points false f c = give-Ensures _ (λ w p. p)
  apply_if-Points true f c = change-Stays pointing _ f (
      tried-Stays pointing _ _ (save_current-Stays pointing os json log_file)
        (apply_saved-Points c))

  pub apply_changed-Points :
      (f : Config → Config) (c : Bool) → Leads (apply_changed os json log_file f c) Points Points
  unfolding apply_changed
  apply_changed-Points f c =
      reading-Ensures λ w p. weaken (λ v k. k.1) (λ r v k. k) (apply_if-Points w.running f c)
