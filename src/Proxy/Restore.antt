-- ===== src/Proxy/Restore.antt =====
-- The crash-safe restore script of winproxy_restore.go: a .reg file with the saved settings, and a
-- .cmd file that imports it.
pub mod Quoting
use tswipoexp.Prelude.{
  ℕ, zero, suc, ◌+◌, ◌/◌, ◌%◌, Option, none, some, List, [], ◌∷◌, ◌++◌, Bytes, codes, ◌==◌, nat_eq,
  list_eq, if◌then◌else◌,
}
use tswipoexp.Proxy.Settings.{proxy_env_vars, run_once_value_name, proxy_restore_file}
use tswipoexp.Proxy.Session.{SavedProxySettings, Env, env_at}

abbrev pub reg_internet_settings : Bytes
reg_internet_settings =
    codes "HKEY_CURRENT_USER\\Software\\Microsoft\\Windows\\CurrentVersion\\Internet Settings"

abbrev pub reg_connections : Bytes
reg_connections = reg_internet_settings ++ codes "\\Connections"

abbrev pub reg_environment : Bytes
reg_environment = codes "HKEY_CURRENT_USER\\Environment"

abbrev pub quote : ℕ
quote = 34

abbrev pub backslash : ℕ
backslash = 92

abbrev pub crlf : Bytes
crlf = 13 ∷ 10 ∷ []

-- `strings.ReplaceAll(s, old, new)` for an `old` of one byte
unfoldable pub replace_byte : ℕ → Bytes → Bytes → Bytes
replace_byte old new [] = []
replace_byte old new (c ∷ cs) =
    let rest = replace_byte old new cs in if c == old then new ++ rest else c ∷ rest

unfoldable pub reg_escape : Bytes → Bytes
reg_escape s =
    replace_byte quote (backslash ∷ quote ∷ [])
      (replace_byte backslash (backslash ∷ backslash ∷ []) s)

unfoldable pub write_reg_string : Bytes → Bytes → Bytes
write_reg_string name val =
    if val == []
    then (quote ∷ name) ++ (quote ∷ codes "=-") ++ crlf
    else (quote ∷ name) ++ (quote ∷ codes "=") ++ (quote ∷ reg_escape val) ++ (quote ∷ crlf)

abbrev pub hex_digit : ℕ → ℕ
hex_digit n = if n / 10 == 0 then 48 + n else 87 + n

-- `%02x` of a byte
unfoldable pub hex_byte : ℕ → Bytes
hex_byte c = hex_digit (c / 16) ∷ hex_digit (c % 16) ∷ []

-- What stands before the byte at index `i` of the blob.
unfoldable pub separator : ℕ → Bytes
separator zero = []
separator (suc i) =
    if suc i % 24 == 0 then codes "," ++ codes "\\" ++ crlf ++ codes "  " else codes ","

unfoldable pub hex_bytes : ℕ → Bytes → Bytes
hex_bytes i [] = []
hex_bytes i (c ∷ cs) = separator i ++ hex_byte c ++ hex_bytes (suc i) cs

unfoldable pub blob_section : Option Bytes → Bytes
blob_section none = []
blob_section (some blob) =
    codes "["
    ++ reg_connections
    ++ codes "]"
    ++ crlf
    ++ (quote ∷ codes "DefaultConnectionSettings")
    ++ (quote ∷ codes "=hex:")
    ++ hex_bytes 0 blob
    ++ crlf
    ++ crlf

unfoldable pub env_section : List Bytes → Env → Bytes
env_section [] env = []
env_section (name ∷ names) env = write_reg_string name (env_at name env) ++ env_section names env

-- `s.ProxyFlags&proxyTypeProxy != 0` as the dword
unfoldable pub enable_of : ℕ → Bytes
enable_of flags = if flags / 2 % 2 == 0 then codes "00000000" else codes "00000001"

unfoldable pub restore_reg_file : SavedProxySettings → Option Bytes → Bytes
restore_reg_file s blob =
    codes "Windows Registry Editor Version 5.00"
    ++ crlf
    ++ crlf
    ++ codes "["
    ++ reg_internet_settings
    ++ codes "]"
    ++ crlf
    ++ (quote ∷ codes "ProxyEnable")
    ++ (quote ∷ codes "=dword:")
    ++ enable_of s.proxy_flags
    ++ crlf
    ++ write_reg_string (codes "ProxyServer") s.proxy_server
    ++ write_reg_string (codes "ProxyOverride") s.proxy_override
    ++ write_reg_string (codes "AutoConfigURL") s.auto_config_url
    ++ crlf
    ++ blob_section blob
    ++ codes "["
    ++ reg_environment
    ++ codes "]"
    ++ crlf
    ++ env_section proxy_env_vars s.env
    ++ crlf

abbrev pub in_quotes : Bytes → Bytes
in_quotes s = (quote ∷ s) ++ (quote ∷ [])

unfoldable pub restore_cmd_file : Bytes → Bytes
restore_cmd_file reg_name =
    codes "@echo off"
    ++ crlf
    ++ codes "rem Written by tswipoexp before it registered itself as this user's proxy."
    ++ crlf
    ++ codes "rem If you're seeing this, tswipoexp didn't get to exit cleanly; this puts"
    ++ crlf
    ++ codes "rem the previous proxy settings back. It runs once and removes itself."
    ++ crlf
    ++ codes "reg import "
    ++ in_quotes (codes "%~dp0" ++ reg_name)
    ++ codes " >nul 2>&1"
    ++ crlf
    ++ codes "reg delete "
    ++ in_quotes (codes "HKCU\\Software\\Microsoft\\Windows\\CurrentVersion\\RunOnce")
    ++ codes " /v "
    ++ run_once_value_name
    ++ codes " /f >nul 2>&1"
    ++ crlf
    ++ codes "del "
    ++ in_quotes (codes "%~dp0" ++ proxy_restore_file)
    ++ codes " >nul 2>&1"
    ++ crlf
    ++ codes "del "
    ++ in_quotes (codes "%~dp0" ++ reg_name)
    ++ codes " >nul 2>&1"
    ++ crlf
    ++ codes "(goto) 2>nul & del "
    ++ in_quotes (codes "%~f0")
    ++ crlf
