-- ===== src/Profiles/Config.antt =====
-- Config of profiles.go and its defaults.
pub mod Json
use tswipoexp.Prelude.{
  Bool, true, false, ◌&&◌, Option, none, some, [], ◌++◌, Bytes, codes, not, if◌then◌else◌, ◌==◌,
  nat_eq, list_eq, to_lower,
}
use tswipoexp.Proxy.Settings.{ProxyRegistration, pac_path, proxy_mode_pac, proxy_mode_static}

abbrev pub default_hostname : Bytes
default_hostname = codes "tswipoexp"

abbrev pub default_proxy_addr : Bytes
default_proxy_addr = codes "127.0.0.1:1055"

-- A pointer to a bool is an Option.
pub record Config : Type 0 where
  pub hostname : Bytes
  pub sync_hostname : Bool
  pub proxy_addr : Bytes
  pub register_proxy : Option Bool
  pub proxy_mode : Bytes
  pub pac_all_traffic : Bool
  pub set_env_vars : Option Bool
  pub watchdog : Option Bool
  pub run_once_restore : Option Bool
  pub ssh_mode : Bytes
  pub ssh : Bool

-- `new(Config)`
abbrev pub zero_config : Config
zero_config = record {
  hostname = [];
  sync_hostname = false;
  proxy_addr = [];
  register_proxy = none;
  proxy_mode = [];
  pac_all_traffic = false;
  set_env_vars = none;
  watchdog = none;
  run_once_restore = none;
  ssh_mode = [];
  ssh = false;
}

abbrev pub ssh_off : Bytes
ssh_off = codes "off"

abbrev pub ssh_same_user : Bytes
ssh_same_user = codes "same-user"

abbrev pub ssh_all_users : Bytes
ssh_all_users = codes "all"

-- `sshMode`
unfoldable pub ssh_mode : Config → Bytes
ssh_mode c =
    if c.ssh_mode == ssh_same_user
    then c.ssh_mode
    else if c.ssh_mode == ssh_all_users
    then c.ssh_mode
    else if c.ssh_mode == ssh_off
    then ssh_off
    else if c.ssh
    then ssh_same_user
    else ssh_off

-- `hostname`; the first argument is what `os.Hostname` gives, `none` for an error.
unfoldable pub hostname : Option Bytes → Config → Bytes
hostname none c = if c.hostname == [] then default_hostname else c.hostname
hostname (some h) c =
    if c.sync_hostname && not (h == [])
    then to_lower h
    else if c.hostname == []
    then default_hostname
    else c.hostname

unfoldable pub proxy_addr : Config → Bytes
proxy_addr c = if c.proxy_addr == [] then default_proxy_addr else c.proxy_addr

abbrev pub bool_or : Option Bool → Bool → Bool
bool_or none def = def
bool_or (some b) def = b

unfoldable pub register_proxy : Config → Bool
register_proxy c = bool_or c.register_proxy true

unfoldable pub set_env_vars : Config → Bool
set_env_vars c = bool_or c.set_env_vars true

unfoldable pub watchdog : Config → Bool
watchdog c = bool_or c.watchdog true

unfoldable pub run_once_restore : Config → Bool
run_once_restore c = bool_or c.run_once_restore true

unfoldable pub proxy_mode : Config → Bytes
proxy_mode c = if c.proxy_mode == proxy_mode_static then proxy_mode_static else proxy_mode_pac

-- `outboundOptions`
unfoldable pub outbound_options : Config → Bytes → ProxyRegistration
unfolding proxy_mode set_env_vars watchdog run_once_restore
outbound_options c addr = record {
  addr = addr;
  mode = proxy_mode c;
  pac_url = codes "http://" ++ (addr ++ pac_path);
  env_vars = set_env_vars c;
  watchdog = watchdog c;
  run_once = run_once_restore c;
}
