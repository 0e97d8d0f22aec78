-- ===== src/Proxy/Undo/Keeping.antt =====
-- What a registration does once the restore file is there leaves it alone.
use tswipoexp.Prelude.{
  ◌≡◌, refl, inl, inr, Bool, true, false, Bool-cases, list_eqb, ap, Option, none, some, [], ◌∷◌,
  Bytes, ◌==◌, nat_eq, list_eq, eq_iff, arith, if◌then◌else◌,
}
use tswipoexp.Program.{Result, Fate}
use tswipoexp.Program.Sealed.{◌>>=◌, give, syscall, reading}
use tswipoexp.Program.Triple.{
  Ensures, >>=-Ensures, attempt-Ensures, syscall-Ensures, give-Ensures, reading-Ensures,
  setting-Ensures, weaken,
}
use tswipoexp.Disk.Calls.{contains}
use tswipoexp.Proxy.Settings.{ProxyRegistration, proxy_env_vars}
use tswipoexp.Proxy.Session.{
  SavedProxySettings, Session, Watchdog, no_watchdog, watching, exited, P, Env, proxy_restore_dir,
  set_per_conn_proxy, set_user_env, set_variables, set_variable, other_call, Connection,
}
use tswipoexp.Proxy.Registration.{
  read_blob, write_crash_restore_files, install_run_once, remove_run_once, start_watchdog,
  run_watchdog, stop_watchdog, kill, point_at, safety_nets, env_of, changes,
}
use tswipoexp.Proxy.Undo.{KeptAs}
use tswipoexp.Proxy.Undo.Variables.{AreProxyVars}

module _ (marshal : SavedProxySettings → Bytes) (unmarshal : Bytes → Option SavedProxySettings)
    (W : Fate → Type 0) (o : Session) (saved : SavedProxySettings) (R : Session → Type 0)
    (within : (t : Session) → KeptAs marshal unmarshal W o saved t → R t) where
  abbrev pub Keeps {ℓ} : {A : Type ℓ} → P A → Type ℓ
  Keeps m =
      Ensures W R (KeptAs marshal unmarshal W o saved) m
        (λ r t. KeptAs marshal unmarshal W o saved t)

  pub then_Keeps {ℓ κ} :
      {A : Type ℓ} {B : Type κ} {m : P A} {f : A → P B}
      → Keeps m
      → ((a : A) → Keeps (f a))
      → Keeps (m >>= f)
  then_Keeps first next = >>=-Ensures first next (λ e t k. k)

  pub call_Keeps {ℓ} :
      {A : Type ℓ} (op : Session → Result A × Session)
      → ((t : Session)
          → KeptAs marshal unmarshal W o saved t
          → KeptAs marshal unmarshal W o saved (op t).1)
      → Keeps (syscall op)
  call_Keeps op h = syscall-Ensures op (λ t k. (within t k, h t k)) (λ t junk k w. k)

  pub give-Keeps {ℓ} : {A : Type ℓ} (r : Result A) → Keeps (give r)
  give-Keeps r = give-Ensures r (λ t k. k)

  pub reading-Keeps {ℓ} :
      {A : Type ℓ} {f : Session → P A} → ((t : Session) → Keeps (f t)) → Keeps (reading f)
  reading-Keeps h = reading-Ensures (λ s k. weaken (λ t (e, k'). k') (λ r t k'. k') (h s))

  pub proxy_restore_dir-Keeps : Keeps proxy_restore_dir
  unfolding proxy_restore_dir
  proxy_restore_dir-Keeps = call_Keeps _ (λ t k. k)

  pub other_call-Keeps : Keeps other_call
  unfolding other_call
  other_call-Keeps = call_Keeps _ (λ t k. k)

  write_crash_restore_files-Keeps : (s : SavedProxySettings) → Keeps (write_crash_restore_files s)
  unfolding write_crash_restore_files read_blob
  write_crash_restore_files-Keeps s = then_Keeps proxy_restore_dir-Keeps λ dir.
      then_Keeps
        (then_Keeps (attempt-Ensures other_call-Keeps)
          λ opened. then_Keeps (attempt-Ensures (call_Keeps _ (λ t k. k))) λ found. give-Keeps _)
        λ blob. then_Keeps (call_Keeps _ (λ t k. k)) λ u. call_Keeps _ (λ t k. k)

  install_run_once-Keeps : Keeps install_run_once
  unfolding install_run_once
  install_run_once-Keeps = then_Keeps proxy_restore_dir-Keeps λ dir.
      then_Keeps other_call-Keeps λ u. then_Keeps (call_Keeps _ (λ t k. k)) λ u'. other_call-Keeps

  pub remove_run_once-Keeps : Keeps remove_run_once
  unfolding remove_run_once
  remove_run_once-Keeps = then_Keeps other_call-Keeps λ u. call_Keeps _ (λ t k. k)

  run_watchdog-Keeps : (w : Watchdog) → Keeps (run_watchdog w)
  run_watchdog-Keeps watching = give-Keeps _
  run_watchdog-Keeps no_watchdog =
      then_Keeps proxy_restore_dir-Keeps
        λ dir. then_Keeps (attempt-Ensures other_call-Keeps) λ logging. call_Keeps _ (λ t k. k)
  run_watchdog-Keeps exited =
      then_Keeps proxy_restore_dir-Keeps
        λ dir. then_Keeps (attempt-Ensures other_call-Keeps) λ logging. call_Keeps _ (λ t k. k)

  start_watchdog-Keeps : Keeps start_watchdog
  unfolding start_watchdog
  start_watchdog-Keeps = reading-Keeps (λ t. run_watchdog-Keeps t.watchdog)

  kill-Keeps : (w : Watchdog) → Keeps (kill w)
  kill-Keeps watching = then_Keeps (attempt-Ensures other_call-Keeps) λ killed. give-Keeps _
  kill-Keeps no_watchdog = give-Keeps _
  kill-Keeps exited = give-Keeps _

  pub stop_watchdog-Keeps : Keeps stop_watchdog
  unfolding stop_watchdog
  stop_watchdog-Keeps =
      then_Keeps (reading-Keeps (λ t. kill-Keeps t.watchdog)) λ u. setting-Ensures _ (λ t k. k)

  if_Keeps {ℓ} :
      {A : Type ℓ} (b : Bool) (m n : P A) → Keeps m → Keeps n → Keeps (if b then m else n)
  if_Keeps true m n first second = first
  if_Keeps false m n first second = second

  pub set_per_conn_proxy-Keeps : (c : Connection) → Keeps (set_per_conn_proxy c)
  unfolding set_per_conn_proxy
  set_per_conn_proxy-Keeps c = if_Keeps _ _ _ (give-Keeps _) (call_Keeps _ (λ t k. k))

  -- Another variable stays as it is.
  outside :
      (name v : Bytes) (vars : Bytes → Option Bytes)
      → contains proxy_env_vars name ≡ true
      → ((n : Bytes) → contains proxy_env_vars n ≡ false → vars n ≡ o.variables n)
      → (n : Bytes) → contains proxy_env_vars n ≡ false
      → (if n == name then (if v == [] then none else some v) else vars n) ≡ o.variables n
  outside name v vars h rest n out = elim (Bool-cases (n == name)) [
    | inl e ↦
        let same : contains proxy_env_vars n ≡ contains proxy_env_vars name =
          ap (contains proxy_env_vars) ((eq_iff n name).0 e) in
        absurd (ground (arith, out, h, same))
    | inr e ↦ rw e (rest n out)
  ]

  set_variables-Keeps : (vars : Env) → AreProxyVars vars → Keeps (set_variables vars)
  unfolding set_variables set_variable
  set_variables-Keeps [] h = give-Keeps _
  set_variables-Keeps ((name, v) ∷ rest) (h, hs) =
      then_Keeps
        (call_Keeps _ (λ t (b, h1, h2, h3, h4, h5, h6, h7, h8).
          (b, h1, h2, h3, h4, h5, h6, h7, outside name v t.variables h h8)))
        λ u. set_variables-Keeps rest hs

  pub set_user_env-Keeps : (vars : Env) → AreProxyVars vars → Keeps (set_user_env vars)
  unfolding set_user_env
  set_user_env-Keeps vars h = then_Keeps other_call-Keeps λ u. set_variables-Keeps vars h

  env_of-AreProxyVars :
      (reg : ProxyRegistration) (s : SavedProxySettings) → AreProxyVars (env_of reg s)
  unfolding env_of contains list_eqb
  env_of-AreProxyVars reg s = elim (Bool-cases reg.env_vars) [
    | inl e ↦ rw e (refl, (refl, (refl, tt)))
    | inr e ↦ rw e (refl, (refl, (refl, tt)))
  ]

  point_at-Keeps : (reg : ProxyRegistration) → Keeps (point_at reg)
  unfolding point_at
  point_at-Keeps reg = if_Keeps _ _ _ (set_per_conn_proxy-Keeps _) (set_per_conn_proxy-Keeps _)

  safety_nets-Keeps :
      (reg : ProxyRegistration) (s : SavedProxySettings)
      → Keeps (safety_nets marshal unmarshal reg s)
  unfolding safety_nets
  safety_nets-Keeps reg s =
      then_Keeps (attempt-Ensures (write_crash_restore_files-Keeps s)) λ written.
        then_Keeps
          (attempt-Ensures (if_Keeps reg.run_once _ _ install_run_once-Keeps remove_run_once-Keeps))
          λ once.
            then_Keeps
              (attempt-Ensures (if_Keeps reg.watchdog _ _ start_watchdog-Keeps stop_watchdog-Keeps))
              λ dog. give-Keeps _

  -- All of a registration that comes after the restore file
  pub changes-Keeps :
      (reg : ProxyRegistration) (s : SavedProxySettings) → Keeps (changes marshal unmarshal reg s)
  unfolding changes
  changes-Keeps reg s = then_Keeps (safety_nets-Keeps reg s) λ nets.
      then_Keeps (point_at-Keeps reg) λ pointed.
        then_Keeps (attempt-Ensures (set_user_env-Keeps (env_of reg s) (env_of-AreProxyVars reg s)))
          λ set. give-Keeps _
