-- ===== src/App/Pointing/Always.antt =====
-- The LocalAPI bridge of App, tswipoexp.go, through any commands.
use mathlib.Core.Path.{subst}
use tswipoexp.Prelude.{
  ◌≡◌, sym, Bool, true, false, Option, none, List, [], ◌∷◌, Bytes, ◌==◌, nat_eq, list_eq,
  if◌then◌else◌, arith, All,
}
use tswipoexp.Program.{Result, ok, err, Machine}
use tswipoexp.Program.Sealed.{◌>>=◌, pure, give, attempt, reading}
use tswipoexp.Program.Triple.{
  Ensures, >>=-Ensures, trying-Ensures, give-Ensures, reading-Ensures, setting-Ensures, weaken,
  All-Anything, Ensures-run, Anything,
}
use tswipoexp.Proxy.Undo.Writing.{IsOk}
use tswipoexp.Profiles.Store.{JsonText, delete}
use tswipoexp.Backend.{Platform}
use tswipoexp.App.{
  World, A, on_disk, change_config, set_outbound_enabled, name_after, rename_if, rename_profile,
  delete_profile, choose_ssh_mode, hostname_saved, with_hostname, set_hostname, Command, switches,
  renames, deletes, changes_outbound, enables_outbound, chooses_ssh_mode, sets_hostname,
  save_current, show, obey, obey_all, run_app,
}
use tswipoexp.App.Pointing.{
  Points, On, Off, Leads, off, pointing, on_disk-Stays, on_place-Stays, show-Stays,
  edit_hostname-Stays, show_then, change-Stays, tried-Stays, save_current-Stays, stop_backend-Off,
  stop_first, start_backend-Points, switch_profile-Points, apply_changed-Points,
}

module _ (os : Platform) (json : JsonText) (log_file : Bytes → Option Bytes) where
  abbrev Keeps : A (Unit {0}) → Type 0
  Keeps m = Leads m Points Points

  -- A command that does nothing where a test holds
  unless : (b : Bool) (m : A (Unit {0})) → Keeps m → Keeps (if b then pure tt else m)
  unless true m h = give-Ensures _ (λ w p. p)
  unless false m h = h

  -- A command by what it reads first
  by_state : (f : World → A (Unit {0})) → ((w : World) → Keeps (f w)) → Keeps (reading f)
  by_state f h = reading-Ensures λ w p. weaken (λ v k. k.1) (λ r v k. k) (h w)

  set_outbound_enabled-Points : (on : Bool) → Keeps (set_outbound_enabled os json log_file on)
  unfolding set_outbound_enabled
  set_outbound_enabled-Points on =
      by_state _ (λ w. unless _ _ (apply_changed-Points os json log_file _ false))

  rename_if-Points : (b : Bool) (from to : Bytes) → Keeps (rename_if os json log_file b from to)
  rename_if-Points false from to = on_disk-Stays pointing _
  rename_if-Points true from to = stop_first os json log_file _ (
      trying-Ensures {Q = λ r w. On Off w} (on_disk-Stays off _) (λ r.
        trying-Ensures {Q = λ r w. Points w}
          (start_backend-Points os json log_file (name_after r from to))
          (λ s. give-Ensures _ (λ w p. p))))

  rename_profile-Points : (from to : Bytes) → Keeps (rename_profile os json log_file from to)
  unfolding rename_profile
  rename_profile-Points from to = by_state _ (λ w. rename_if-Points (w.prof_name == from) from to)

  delete_profile-Points : (name : Bytes) → Keeps (delete_profile os json log_file name)
  unfolding delete_profile
  delete_profile-Points name = by_state _ (λ w. go (w.prof_name == name) _)
    where
      go : (b : Bool) (r : Result (Unit {0})) → Keeps (if b then give r else on_disk (delete name))
      go true r = give-Ensures _ (λ w p. p)
      go false r = on_disk-Stays pointing _

  choose_ssh_mode-Points : (mode : Bytes) → Keeps (choose_ssh_mode os json log_file mode)
  unfolding choose_ssh_mode
  choose_ssh_mode-Points mode = by_state _ (λ w. unless _ _ (
      tried-Stays pointing _ _ (on_place-Stays pointing _) (λ r. show_then pointing _ r (
        tried-Stays pointing _ _ (save_current-Stays pointing os json log_file)
          (show-Stays pointing)))))

  hostname_saved-Points : (r : Result (Unit {0})) → Keeps (hostname_saved os json log_file r)
  hostname_saved-Points (err e) = show-Stays pointing (err e)
  hostname_saved-Points (ok u) =
      tried-Stays pointing _ _ (edit_hostname-Stays pointing os json log_file) (show-Stays pointing)

  set_hostname-Points :
      (name : Bytes) (sync : Bool) → Keeps (set_hostname os json log_file name sync)
  unfolding set_hostname
  set_hostname-Points name sync = by_state _ (λ w. go w.running _ saved)
    where
      saved : Keeps (
          change_config (with_hostname name sync) >>= λ _.
          (attempt (save_current os json log_file) >>= hostname_saved os json log_file))
      saved = change-Stays pointing _ (with_hostname name sync) (
          tried-Stays pointing _ _ (save_current-Stays pointing os json log_file)
            hostname_saved-Points)

      go : (b : Bool) (m : A (Unit {0})) → Keeps m → Keeps (if b then m else pure tt)
      go true m h = h
      go false m h = give-Ensures _ (λ w p. p)

  obey-Points : (c : Command) → Keeps (obey os json log_file c)
  obey-Points (switches name) = switch_profile-Points os json log_file name
  obey-Points (renames from to) = rename_profile-Points from to
  obey-Points (deletes name) = delete_profile-Points name
  obey-Points (changes_outbound f b) = apply_changed-Points os json log_file f b
  obey-Points (enables_outbound on) = set_outbound_enabled-Points on
  obey-Points (chooses_ssh_mode mode) = choose_ssh_mode-Points mode
  obey-Points (sets_hostname name sync) = set_hostname-Points name sync

  obey_all-Points :
      (cs : List Command)
      → Ensures Anything Points Points (obey_all os json log_file cs) (λ r w. IsOk r × Points w)
  unfolding obey_all
  obey_all-Points [] = give-Ensures _ (λ w p. (tt, p))
  obey_all-Points (c ∷ cs) =
      trying-Ensures {Q = λ r w. Points w} (obey-Points c) (λ r. obey_all-Points cs)

  shown-Points :
      (r : Result (Unit {0})) → Ensures Anything Points Points (show r) (λ r w. IsOk r × Points w)
  shown-Points (ok u) = give-Ensures _ (λ w p. (tt, p))
  shown-Points (err e) = setting-Ensures _ (λ w p. (tt, p))

  -- A program that cannot fail, and what follows
  and_then :
      (m k : A (Unit {0}))
      → Ensures Anything Points Points m (λ r w. IsOk r × Points w)
      → Leads k Points (On Off)
      → Leads (m >>= λ _. k) Points (On Off)
  and_then m k h next =
      >>=-Ensures h (λ u. weaken (λ w p. p.1) (λ r w p. p) next)
        (λ e w p. absurd (ground (arith, p.0)))

  run_app-Off :
      (name : Bytes) (cs : List Command)
      → Leads (run_app os json log_file name cs) (On Off) (On Off)
  unfolding run_app
  run_app-Off name cs = trying-Ensures {Q = λ r w. On Off w} (on_place-Stays off _) (λ r.
      trying-Ensures {Q = λ r w. Points w} (start_backend-Points os json log_file name) (λ s.
        and_then (show s) _ (shown-Points s) (
          and_then (obey_all os json log_file cs) _ (obey_all-Points cs)
            (stop_backend-Off os json log_file))))

-- Whichever calls fail, to the disk, the session, the node and the listeners: if the bridge points nowhere
-- when the program starts, then with any commands of the window, before each call to the session, the
-- node and the listeners it points nowhere or at the profile of the backend that runs, and at the end
-- of the program it points nowhere.
pub run_app-Points :
    (os : Platform) (json : JsonText) (log_file : Bytes → Option Bytes) (d : Machine World)
    (name : Bytes) (commands : List Command)
    → d.state.target ≡ none
    → d.past ≡ []
    → ((run_app os json log_file name commands d).1.state.target ≡ none)
      × All Points (run_app os json log_file name commands d).1.past
run_app-Points os json log_file d name commands h e =
    Ensures-run (run_app-Off os json log_file name commands) d h (All-Anything d.fates)
      (subst (λ past. All Points past) (sym e) tt)
