-- ===== src/Proxy/Registration.antt =====
-- registerSystemProxy and unregisterSystemProxy of winproxy_windows.go with the safety nets.
use tswipoexp.Prelude.{
  Bool, false, Option, none, some, List, [], ◌∷◌, ◌++◌, Bytes, codes, ◌==◌, list_eq, nat_eq,
  if◌then◌else◌, not, ◌&&◌, ◌||◌, ◌/◌, ◌%◌, contains_sub,
}
use tswipoexp.Program.{Result, ok, err}
use tswipoexp.Program.Sealed.{◌>>=◌, ◌>>◌, pure, attempt, syscall, reading, setting}
use tswipoexp.Proxy.Settings.{ProxyRegistration, proxy_mode_static, proxy_env_vars}
use tswipoexp.Proxy.Restore.{in_quotes, restore_reg_file, restore_cmd_file}
use tswipoexp.Proxy.Session.{
  SavedProxySettings, Session, Connection, Watchdog, no_watchdog, watching, exited, P, Env, env_at,
  proxy_restore_dir, join, is_this_machine, load_saved_proxy_settings, save,
  remove_saved_proxy_settings, set_per_conn_proxy, query_per_conn_proxy, set_user_env, other_call,
  capture_proxy_settings, restore,
}

abbrev pub proxy_bypass_list : Bytes
proxy_bypass_list = codes "localhost;127.*;[::1]"

abbrev pub crash_restore_cmd : Bytes
crash_restore_cmd = codes "restore-proxy.cmd"

abbrev pub crash_restore_reg : Bytes
crash_restore_reg = codes "restore-proxy.reg"

abbrev found : Result (Option Bytes) → Option Bytes
found (ok b) = b
found (err e) = none

-- The blob is nil if the key does not open or has no such value.
unfoldable pub read_blob : P (Option Bytes)
read_blob = do
  opened ← attempt other_call
  blob ← attempt (syscall (λ t. (ok t.blob, t)))
  pure (elim opened [ ok u ↦ found blob | err e ↦ none ])

unfoldable pub write_crash_restore_files : SavedProxySettings → P (Unit {0})
write_crash_restore_files prev = do
  dir ← proxy_restore_dir
  blob ← read_blob
  syscall (λ t. (ok tt, record t { restore_reg = some (restore_reg_file prev blob) }))
  syscall (λ t. (ok tt, record t { restore_cmd = some (restore_cmd_file crash_restore_reg) }))

unfoldable pub run_once_command : Bytes → Bytes
run_once_command dir = codes "cmd.exe /c " ++ in_quotes (join dir crash_restore_cmd)

-- The last call is RegFlushKey.
unfoldable pub install_run_once : P (Unit {0})
install_run_once = do
  dir ← proxy_restore_dir
  other_call
  syscall (λ t. (ok tt, record t { run_once = some (run_once_command dir) }))
  other_call

-- A key or an entry that is not there is no error.
unfoldable pub remove_run_once : P (Unit {0})
remove_run_once = do other_call; syscall (λ t. (ok tt, record t { run_once = none }))

unfoldable pub remove_crash_restore : P (Unit {0})
remove_crash_restore = do
  remove_run_once
  dir ← proxy_restore_dir
  syscall (λ t. (ok tt, record t { restore_cmd = none }))
  syscall (λ t. (ok tt, record t { restore_reg = none }))

-- The first call opens the log file, and its error is dropped; the second starts the process.
abbrev pub run_watchdog : Watchdog → P (Unit {0})
run_watchdog watching = pure tt
run_watchdog no_watchdog = do
  dir ← proxy_restore_dir
  logging ← attempt other_call
  syscall (λ t. (ok tt, record t { watchdog = watching }))
run_watchdog exited = do
  dir ← proxy_restore_dir
  logging ← attempt other_call
  syscall (λ t. (ok tt, record t { watchdog = watching }))

unfoldable pub start_watchdog : P (Unit {0})
start_watchdog = reading λ t. run_watchdog t.watchdog

-- A kill that fails is only logged.
abbrev pub kill : Watchdog → P (Unit {0})
kill watching = do killed ← attempt other_call; pure tt
kill no_watchdog = pure tt
kill exited = pure tt

unfoldable pub stop_watchdog : P (Unit {0})
stop_watchdog = do
  reading (λ t. kill t.watchdog)
  setting (λ t. record t { watchdog = no_watchdog })

unfoldable pub point_at : ProxyRegistration → P (Unit {0})
point_at reg =
    if reg.mode == proxy_mode_static
    then set_per_conn_proxy (record {
      flags = 3;
      server = codes "http=" ++ reg.addr ++ codes ";https=" ++ reg.addr;
      bypass = proxy_bypass_list;
      pac = [];
    })
    else set_per_conn_proxy (record { flags = 5; server = []; bypass = []; pac = reg.pac_url })

abbrev pub previous_env : List Bytes → Env → Env
previous_env [] env = []
previous_env (name ∷ names) env = (name, env_at name env) ∷ previous_env names env

-- The environment that a registration sets: the proxy's, or what the user had.
unfoldable pub env_of : ProxyRegistration → SavedProxySettings → Env
env_of reg prev =
    let url = codes "http://" ++ reg.addr in
    if reg.env_vars
    then (codes "HTTP_PROXY", url)
      ∷ (codes "HTTPS_PROXY", url)
      ∷ (codes "NO_PROXY", codes "localhost,127.0.0.1,::1")
      ∷ []
    else previous_env proxy_env_vars prev.env

module _ (marshal : SavedProxySettings → Bytes)
    (unmarshal : Bytes → Option SavedProxySettings) where
  abbrev pub of_this_machine :
      Result (Option SavedProxySettings) → Session → Option SavedProxySettings
  of_this_machine (err e) t = none
  of_this_machine (ok none) t = none
  of_this_machine (ok (some s)) t = if is_this_machine s t then some s else none

  abbrev pub saved_or_captured : Option SavedProxySettings → P SavedProxySettings
  saved_or_captured (some s) = pure s
  saved_or_captured none = do s ← capture_proxy_settings; save marshal unmarshal s; pure s

  -- The settings to go back to: those saved on this machine, or else the current ones, now saved.
  unfoldable pub previous : P SavedProxySettings
  previous = do
    loaded ← attempt (load_saved_proxy_settings marshal unmarshal)
    reading λ t. saved_or_captured (of_this_machine loaded t)

  unfoldable pub safety_nets : ProxyRegistration → SavedProxySettings → P (Unit {0})
  safety_nets reg prev = do
    written ← attempt (write_crash_restore_files prev)
    once ← attempt (if reg.run_once then install_run_once else remove_run_once)
    dog ← attempt (if reg.watchdog then start_watchdog else stop_watchdog)
    pure tt

  -- What a registration does after the restore file is there
  unfoldable pub changes : ProxyRegistration → SavedProxySettings → P (Unit {0})
  changes reg prev = do
    safety_nets reg prev
    point_at reg
    set ← attempt (set_user_env (env_of reg prev))
    pure tt

  unfoldable pub register_system_proxy : ProxyRegistration → P (Unit {0})
  register_system_proxy reg = do prev ← previous; changes reg prev

  abbrev pub undo : Option SavedProxySettings → P (Unit {0})
  undo none = stop_watchdog
  undo (some s) = do
    stop_watchdog
    restore s
    removed ← attempt remove_saved_proxy_settings
    cleaned ← attempt remove_crash_restore
    pure tt

  unfoldable pub unregister_system_proxy : P (Unit {0})
  unregister_system_proxy = do
    loaded ← load_saved_proxy_settings marshal unmarshal
    reading λ t. undo (of_this_machine (ok loaded) t)

-- The flags of the session's connection as its two tests read them
abbrev points_at : Bytes → Connection → Bool
points_at addr c =
    (not (c.flags / 2 % 2 == 0) && contains_sub c.server addr)
    || (not (c.flags / 4 % 2 == 0) && contains_sub c.pac addr)

abbrev if_queried : Bytes → Result Connection → Bool
if_queried addr (ok c) = points_at addr c
if_queried addr (err e) = false

unfoldable pub system_proxy_is_ours : Bytes → P Bool
system_proxy_is_ours addr = do
  queried ← attempt query_per_conn_proxy
  pure (if_queried addr queried)
