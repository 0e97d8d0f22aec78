-- ===== src/Proxy/Session.antt =====
-- What the registration works on: the Windows session of a user on a machine, that is the WinINet
-- settings, the user's environment variables, the RunOnce entry and the files of the machine's
-- local app data directory; savedProxySettings of winproxy.go; and the calls on them.
-- A write of a file of the directory is one call here, since writeFileAtomic replaces the file or
-- leaves it (Disk.Atomic). `marshal` and `unmarshal` are encoding/json at savedProxySettings.
use tswipoexp.Prelude.{
  ℕ, Bool, Option, none, some, List, [], ◌∷◌, ◌++◌, Bytes, codes, contains_byte, ◌==◌, nat_eq,
  list_eq, if◌then◌else◌, ◌&&◌, ◌||◌,
}
use tswipoexp.Program.{not_exist, io_error, bad_json, Result, ok, err, Program}
use tswipoexp.Program.Sealed.{◌>>=◌, ◌>>◌, give, pure, attempt, syscall, reading}
use tswipoexp.Proxy.Settings.{proxy_env_vars}

-- The settings of the default connection. `flags` is a 32-bit set of PROXY_TYPE_*.
pub record Connection : Type 0 where
  pub flags : ℕ
  pub server : Bytes
  pub bypass : Bytes
  pub pac : Bytes

abbrev pub Env : Type 0
Env = List (Bytes × Bytes)

pub record SavedProxySettings : Type 0 where
  pub machine : Bytes
  pub user : Bytes
  pub proxy_flags : ℕ
  pub proxy_server : Bytes
  pub proxy_override : Bytes
  pub auto_config_url : Bytes
  pub env : Env

-- The watchdog process: `watchdogCmd` is nil, runs, or has exited.
pub data Watchdog : Type 0 where
  no_watchdog watching exited : Watchdog

pub record Session : Type 0 where
  pub machine : Bytes
  pub user : Bytes
  pub local_app_data : Bytes
  pub cache_dir : Option Bytes
  pub connection : Connection
  pub variables : Bytes → Option Bytes
  pub run_once : Option Bytes
  pub restore_json : Option Bytes
  pub restore_reg : Option Bytes
  pub restore_cmd : Option Bytes
  pub blob : Option Bytes
  pub watchdog : Watchdog

abbrev pub P {ℓ} : Type ℓ → Type ℓ
P A = Program Session A

-- Go's `m[name]` at a `map[string]string`: a missing key is the empty string.
unfoldable pub env_at : Bytes → Env → Bytes
env_at name [] = []
env_at name ((k, v) ∷ rest) = if k == name then v else env_at name rest

-- Go's `m[name] = v`.
unfoldable pub env_put : Bytes → Bytes → Env → Env
env_put name v [] = (name, v) ∷ []
env_put name v ((k, w) ∷ rest) = if k == name then (k, v) ∷ rest else (k, w) ∷ env_put name v rest

-- `base` of proxyRestorePath.
unfoldable pub app_base : Session → Option Bytes
app_base t = if t.local_app_data == [] then t.cache_dir else some t.local_app_data

abbrev pub dir_below : Option Bytes → Result Bytes
dir_below none = err io_error
dir_below (some base) = ok (base ++ codes "\\tswipoexp")

-- The directory of proxyRestorePath. Its call is the MkdirAll.
unfoldable pub proxy_restore_dir : P Bytes
proxy_restore_dir = syscall (λ t. (dir_below (app_base t), t))

abbrev pub join : Bytes → Bytes → Bytes
join dir name = dir ++ codes "\\" ++ name

unfoldable pub is_this_machine : SavedProxySettings → Session → Bool
is_this_machine s t = s.machine == t.machine && s.user == t.user

module _ (marshal : SavedProxySettings → Bytes)
    (unmarshal : Bytes → Option SavedProxySettings) where
  abbrev pub parsed : Option SavedProxySettings → Result (Option SavedProxySettings)
  parsed none = err bad_json
  parsed (some s) = ok (some s)

  abbrev pub loaded_from : Option Bytes → Result (Option SavedProxySettings)
  loaded_from none = ok none
  loaded_from (some b) = parsed (unmarshal b)

  unfoldable pub load_saved_proxy_settings : P (Option SavedProxySettings)
  load_saved_proxy_settings = do
    dir ← proxy_restore_dir
    syscall (λ t. (loaded_from t.restore_json, t))

  unfoldable pub save : SavedProxySettings → P (Unit {0})
  save s = do
    dir ← proxy_restore_dir
    syscall (λ t. (ok tt, record t { restore_json = some (marshal s) }))

unfoldable pub remove_saved_proxy_settings : P (Unit {0})
remove_saved_proxy_settings = do
  dir ← proxy_restore_dir
  syscall (λ t. (ok tt, record t { restore_json = none }))

-- InternetSetOption, and the conversion of the strings before it, which refuses a NUL.
unfoldable pub set_per_conn_proxy : Connection → P (Unit {0})
set_per_conn_proxy c =
    if contains_byte c.server 0 || contains_byte c.bypass 0 || contains_byte c.pac 0
    then give (err io_error)
    else syscall (λ t. (ok tt, record t { connection = c }))

unfoldable pub query_per_conn_proxy : P Connection
query_per_conn_proxy = syscall (λ t. (ok t.connection, t))

-- The registry key of the user's environment: `k.SetStringValue`, or `k.DeleteValue` for the empty
-- string, where a missing value is no error.
unfoldable pub set_variable : Bytes → Bytes → Session → Session
set_variable name v t = record t {
  variables = λ n. if n == name then (if v == [] then none else some v) else t.variables n;
}

-- The loop of `setUserEnv`. SetStringValue would refuse a value with a NUL, which no value has: one that
-- was read ends before it, and the proxy's address has none.
unfoldable pub set_variables : Env → P (Unit {0})
set_variables [] = pure tt
set_variables ((name, v) ∷ rest) = do
  syscall (λ t. (ok tt, set_variable name v t))
  set_variables rest

-- A call that only matters by failing, such as the opening of a key.
unfoldable pub other_call : P (Unit {0})
other_call = syscall (λ t. (ok tt, t))

unfoldable pub set_user_env : Env → P (Unit {0})
set_user_env vars = do other_call; set_variables vars

abbrev pub value_of : Option Bytes → Result Bytes
value_of none = err not_exist
value_of (some v) = ok v

-- `ek.GetStringValue`. Only string values are modelled.
unfoldable pub get_string_value : Bytes → P Bytes
get_string_value name = syscall (λ t. (value_of (t.variables name), t))

abbrev pub recorded : Bytes → Result Bytes → Env → Env
recorded name (ok v) rest = (name, v) ∷ rest
recorded name (err e) rest = rest

unfoldable pub get_variables : List Bytes → P Env
get_variables [] = pure []
get_variables (name ∷ names) = do
  v ← attempt (get_string_value name)
  rest ← get_variables names
  pure (recorded name v rest)

abbrev pub if_opened : Result (Unit {0}) → P Env
if_opened (ok u) = get_variables proxy_env_vars
if_opened (err e) = pure []

unfoldable pub capture_proxy_settings : P SavedProxySettings
capture_proxy_settings = do
  c ← query_per_conn_proxy
  opened ← attempt other_call
  vars ← if_opened opened
  reading λ t. pure (record {
    machine = t.machine;
    user = t.user;
    proxy_flags = c.flags;
    proxy_server = c.server;
    proxy_override = c.bypass;
    auto_config_url = c.pac;
    env = vars;
  })

abbrev pub default_flags : ℕ → ℕ
default_flags n = if n == 0 then 1 else n

unfoldable pub overlay : Env → Env → Env
overlay [] env = env
overlay ((name, v) ∷ rest) env = overlay rest (env_put name v env)

unfoldable pub blank_env : List Bytes → Env
blank_env [] = []
blank_env (name ∷ names) = (name, []) ∷ blank_env names

unfoldable pub restore : SavedProxySettings → P (Unit {0})
restore s = do
  set_per_conn_proxy (record {
    flags = default_flags s.proxy_flags;
    server = s.proxy_server;
    bypass = s.proxy_override;
    pac = s.auto_config_url;
  })
  set_user_env (overlay s.env (blank_env proxy_env_vars))
