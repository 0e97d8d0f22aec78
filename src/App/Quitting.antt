-- ===== src/App/Quitting.antt =====
-- Any commands of App, tswipoexp.go, from the start of the program to its end.
use tswipoexp.Prelude.{
  ◌≡◌, refl, ap, ◌∙◌, inl, inr, Bool, true, false, not, ◌||◌, Bool-cases, Option, none, some, List,
  [], ◌∷◌, Bytes, ◌==◌, nat_eq, list_eq, if◌then◌else◌, arith,
}
use tswipoexp.Program.{Result, ok, err}
use tswipoexp.Program.Sealed.{◌>>=◌, pure}
use tswipoexp.Program.Triple.{
  Ensures, >>=-Ensures, trying-Ensures, give-Ensures, reading-Ensures, syscall-Ensures, weaken,
  Anything, then-Ensures, Ensures-run,
}
use tswipoexp.Disk.{Disk}
use tswipoexp.Proxy.Session.{SavedProxySettings, Session, app_base}
use tswipoexp.Proxy.Undo.{IsPlain, Undoable}
use tswipoexp.Proxy.Undo.Writing.{IsOk}
use tswipoexp.Proxy.Undo.Always.{SameSettings, Works}
use tswipoexp.Profiles.Config.{zero_config, register_proxy, ssh_mode}
use tswipoexp.Profiles.Store.{JsonText}
use tswipoexp.Backend.{Platform, new_backend, unregister}
use tswipoexp.Backend.Owning.{set_ssh_mode-Owned}
use tswipoexp.App.{
  World, A, on_place, show, change_config, apply_changed, agree, set_outbound_enabled, name_after,
  rename_if, rename_profile, delete_profile, choose_ssh_mode, edit_hostname, hostname_saved,
  with_hostname, set_hostname, Command, switches, renames, deletes, changes_outbound,
  enables_outbound, chooses_ssh_mode, sets_hostname, obey, obey_all, run_app,
}
use tswipoexp.App.Holding.{
  put-Ensures, on_place-Ensures, Runs, show-Holds, Stopped, start_backend-Holds,
  stop_backend-Stopped,
}
use tswipoexp.App.Obeying.{
  Kept, with_config, with_node, saving-Kept, shown-Kept, stop_first, switch_profile-Kept,
  on_running, apply_changed-Kept,
}
use tswipoexp.Backend.Sessions.{Held, unregister-Held}
use tswipoexp.Backend.Closing.{begun}
use tswipoexp.Logs.Sink.{LogSink}

module _ (os : Platform) (round : (s : SavedProxySettings) → os.unmarshal (os.marshal s) ≡ some s)
    (o : Session) (base : Bytes) (json : JsonText) (log_file : Bytes → Option Bytes) where
  abbrev Keeps : A (Unit {0}) → Type 0
  Keeps m = Ensures Works Anything (Kept os round o base) m (λ r w. Kept os round o base w)

  set_outbound_enabled-Keeps : (on : Bool) → Keeps (set_outbound_enabled os json log_file on)
  unfolding set_outbound_enabled
  set_outbound_enabled-Keeps on =
      reading-Ensures λ w h. unless (not w.running || agree (register_proxy w.place.backend.cfg) on)
    where
      unless :
          {w : World} (b : Bool)
          → Ensures Works Anything
              (λ v. (v ≡ w) × Kept os round o base v)
              (if b
                then pure tt
                else apply_changed os json log_file
                    (λ c. record c { register_proxy = some on })
                    false)
              (λ r v. Kept os round o base v)
      unless true = give-Ensures _ (λ v k. k.1)
      unless false =
          weaken (λ v k. k.1) (λ r v k. k)
            (apply_changed-Kept os round o base json log_file _ false)

  rename_if-Keeps : (b : Bool) (from to : Bytes) → Keeps (rename_if os json log_file b from to)
  rename_if-Keeps false from to = put-Ensures _ (λ w e h. h)
  rename_if-Keeps true from to =
      stop_first os round o base json log_file (λ e w never. absurd (ground (arith, never)))
        (trying-Ensures {Q = λ r w. Stopped os round o base json log_file w}
          (put-Ensures _ (λ w e h. h))
          (λ r.
            trying-Ensures
              (start_backend-Holds os round o base json log_file (name_after r from to))
              (λ s. give-Ensures _ (λ w h. h))))

  rename_profile-Keeps : (from to : Bytes) → Keeps (rename_profile os json log_file from to)
  unfolding rename_profile
  rename_profile-Keeps from to =
      reading-Ensures
        λ w h. weaken (λ v k. k.1) (λ r v k. k) (rename_if-Keeps (w.prof_name == from) from to)

  delete_profile-Keeps : (name : Bytes) → Keeps (delete_profile os json log_file name)
  unfolding delete_profile
  delete_profile-Keeps name = reading-Ensures λ w h. elim (Bool-cases (w.prof_name == name)) [
    | inl e ↦ rw e (give-Ensures _ (λ v k. k.1))
    | inr e ↦ rw e (weaken (λ v k. k.1) (λ r v k. k) (put-Ensures _ (λ v e' k. k)))
  ]

  -- A result that is shown, with more after it
  show_then : (r : Result (Unit {0})) (m : A (Unit {0})) → Keeps m → Keeps (show r >>= λ _. m)
  show_then r m h =
      >>=-Ensures (show-Holds os round o base json log_file r)
        (λ u. weaken (λ w k. k.1) (λ r w k. k) h) (λ e w k. absurd (ground (arith, k.0)))

  choose_ssh_mode-Keeps : (mode : Bytes) → Keeps (choose_ssh_mode os json log_file mode)
  unfolding choose_ssh_mode
  choose_ssh_mode-Keeps mode = reading-Ensures λ w h.
      elim (Bool-cases (not w.running || ssh_mode w.place.backend.cfg == mode)) [
        | inl e ↦ rw e (give-Ensures _ (λ v k. k.1))
        | inr e ↦ rw e (
            trying-Ensures
              (weaken (λ v (same, k). (k, ap (λ x. x.running) same ∙ ground (arith, e)))
                (λ r v k. k)
                (on_running os round o base json log_file _
                  (set_ssh_mode-Owned os round o base false mode)))
              (λ r. show_then r _ (
                trying-Ensures (saving-Kept os round o base json log_file)
                  (shown-Kept os round o base json log_file))))
      ]

  hostname_saved-Keeps : (r : Result (Unit {0})) → Keeps (hostname_saved os json log_file r)
  unfolding edit_hostname
  hostname_saved-Keeps (err e) = shown-Kept os round o base json log_file (err e)
  hostname_saved-Keeps (ok u) =
      trying-Ensures {Q = λ r w. Kept os round o base w}
        (syscall-Ensures _ (λ w h. (tt, with_node os round o base _ w.running w.place h))
          (λ w junk h k. h))
        (shown-Kept os round o base json log_file)

  set_hostname-Keeps :
      (name : Bytes) (sync : Bool) → Keeps (set_hostname os json log_file name sync)
  unfolding set_hostname change_config
  set_hostname-Keeps name sync = reading-Ensures λ w h. elim (Bool-cases w.running) [
    | inr e ↦ rw e (give-Ensures _ (λ v k. k.1))
    | inl e ↦ rw e (
        then-Ensures {P' = Kept os round o base} _
          (λ v (same, k). with_config os round o base (with_hostname name sync) v.running v.place k)
          (trying-Ensures (saving-Kept os round o base json log_file) hostname_saved-Keeps))
  ]

  obey-Keeps : (c : Command) → Keeps (obey os json log_file c)
  obey-Keeps (switches name) = switch_profile-Kept os round o base json log_file name
  obey-Keeps (renames from to) = rename_profile-Keeps from to
  obey-Keeps (deletes name) = delete_profile-Keeps name
  obey-Keeps (changes_outbound f b) = apply_changed-Kept os round o base json log_file f b
  obey-Keeps (enables_outbound on) = set_outbound_enabled-Keeps on
  obey-Keeps (chooses_ssh_mode mode) = choose_ssh_mode-Keeps mode
  obey-Keeps (sets_hostname name sync) = set_hostname-Keeps name sync

  obey_all-Keeps :
      (cs : List Command)
      → Ensures Works Anything
          (Kept os round o base)
          (obey_all os json log_file cs)
          (λ r w. IsOk r × Kept os round o base w)
  unfolding obey_all
  obey_all-Keeps [] = give-Ensures _ (λ w h. (tt, h))
  obey_all-Keeps (c ∷ cs) = trying-Ensures (obey-Keeps c) (λ r. obey_all-Keeps cs)

  -- No backend is there yet, whatever the session holds from a previous run.
  abbrev Unused : World → Type 0
  Unused w =
      (((w.place.backend.ssh_srv ≡ false)
          × ((w.place.ssh_port ≡ false) × (w.place.proxy_port ≡ false)))
        × (w.place.node ≡ none))
      × Runs false w

  undoing-Stopped :
      Ensures Works Anything
        (λ w. Held os round o base w.place.session × Unused w)
        (on_place (unregister os))
        (λ r w. Stopped os round o base json log_file w)
  undoing-Stopped =
      weaken (λ w (h, (u, e)). ((h, u), e)) (λ r w ((b, (p, n)), e). (((b, p), n), e))
        (on_place-Ensures (Runs false) (λ w p k. k)
          (unregister-Held os round o base
            (λ p.
              ((p.backend.ssh_srv ≡ false) × ((p.ssh_port ≡ false) × (p.proxy_port ≡ false)))
              × (p.node ≡ none))
            (λ p s k. k)))

  run_app-Stopped :
      (name : Bytes) (cs : List Command)
      → Ensures Works Anything
          (λ w. Held os round o base w.place.session × Unused w)
          (run_app os json log_file name cs)
          (λ r w. IsOk r × Stopped os round o base json log_file w)
  unfolding run_app
  run_app-Stopped name cs = trying-Ensures undoing-Stopped (λ r.
      trying-Ensures (start_backend-Holds os round o base json log_file name) (λ r.
        >>=-Ensures (show-Holds os round o base json log_file r)
          (λ u.
            >>=-Ensures (weaken (λ w k. k.1) (λ r w k. k) (obey_all-Keeps cs))
              (λ u.
                weaken (λ w k. k.1) (λ r w k. k)
                  (stop_backend-Stopped os round o base json log_file))
              (λ e w k. absurd (ground (arith, k.0))))
          (λ e w k. absurd (ground (arith, k.0)))))

-- The program as it begins, with nothing of its own running
abbrev pub beginning : Disk → Session → LogSink → World
beginning disk t logs = record {
  disk = disk;
  place = begun t (new_backend [] [] zero_config);
  running = false;
  prof_name = [];
  target = none;
  logs = logs;
  shown = [];
}

-- Suppose that the session is as the user left it, with `o` for the user's settings, or a previous run
-- has died in it while the settings of `o` can be put back; that the directory for the restore file can
-- be found and the proxy settings have no NUL; and that no call to the session, the node and the
-- listeners fails. Whatever becomes of the calls to the disk, after any commands of the window and the
-- end of the program, the user's settings are those of `o`, no backend runs, and the SSH server, the
-- proxy's listener and the node are closed.
pub run_app-releases :
    (os : Platform) (round : (s : SavedProxySettings) → os.unmarshal (os.marshal s) ≡ some s)
    (o t : Session) (base : Bytes) (json : JsonText) (log_file : Bytes → Option Bytes) (disk : Disk)
    (logs : LogSink) (name : Bytes) (commands : List Command)
    → Undoable os.marshal os.unmarshal Works o t
    → app_base o ≡ some base
    → IsPlain o.connection
    → let w =
        (run_app os json log_file name commands
          (record { state = beginning disk t logs; fates = []; past = [] })).1.state in
      SameSettings o w.place.session
      × (w.running ≡ false)
      × ((w.place.backend.ssh_srv ≡ false)
          × (w.place.ssh_port ≡ false)
          × (w.place.proxy_port ≡ false))
      × (w.place.node ≡ none)
unfolding new_backend
run_app-releases os round o t base json log_file disk logs name commands undoable located plain =
    let start_world = beginning disk t logs in
    let held : Held os round o base t = (o, ((refl, λ n. refl), located, plain), undoable) in
    let run =
      Ensures-run (run_app-Stopped os round o base json log_file name commands)
        (record { state = start_world; fates = []; past = [] })
        (held, (((refl, (refl, refl)), refl), refl)) tt tt in
    let h = run.0.1 in (h.0.0.0.1, h.1, (h.0.0.1.0, h.0.0.1.1.0, h.0.0.1.1.1), h.0.1)
