-- ===== src/Proxy/Settings.antt =====
-- The types and constants of winproxy.go.
use tswipoexp.Prelude.{ℕ, Bool, List, [], ◌∷◌, Bytes, codes}

abbrev pub proxy_type_direct : ℕ
proxy_type_direct = 0x1

abbrev pub proxy_type_proxy : ℕ
proxy_type_proxy = 0x2

abbrev pub proxy_type_auto_proxy_url : ℕ
proxy_type_auto_proxy_url = 0x4

-- How the proxy is registered with the user's session.
pub record ProxyRegistration : Type 0 where
  pub addr : Bytes
  pub mode : Bytes
  pub pac_url : Bytes
  pub env_vars : Bool
  pub watchdog : Bool
  pub run_once : Bool

abbrev pub run_once_value_name : Bytes
run_once_value_name = codes "tswipoexp-restore-proxy"

abbrev pub pac_path : Bytes
pac_path = codes "/proxy.pac"

abbrev pub proxy_env_vars : List Bytes
proxy_env_vars = codes "HTTP_PROXY" ∷ codes "HTTPS_PROXY" ∷ codes "NO_PROXY" ∷ []

abbrev pub proxy_restore_file : Bytes
proxy_restore_file = codes "proxy-restore.json"

-- The values of Config.ProxyMode, profiles.go.
abbrev pub proxy_mode_pac : Bytes
proxy_mode_pac = codes "pac"

abbrev pub proxy_mode_static : Bytes
proxy_mode_static = codes "static"
