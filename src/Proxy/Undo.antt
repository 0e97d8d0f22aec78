-- ===== src/Proxy/Undo.antt =====
-- When the settings that a session had can be put back, whatever the registration has done since.
pub mod Keeping
pub mod Saving
pub mod Variables
pub mod Writing
pub mod Loading
pub mod Restoring
pub mod Always
use tswipoexp.Prelude.{
  ◌≡◌, ◌⊎◌, Bool, true, false, Option, none, some, List, [], ◌∷◌, Bytes, contains_byte, ◌||◌,
}
use tswipoexp.Program.{Fate, fails}
use tswipoexp.Disk.Calls.{contains}
use tswipoexp.Proxy.Settings.{proxy_env_vars}
use tswipoexp.Proxy.Session.{SavedProxySettings, Session, Connection, Env, app_base, loaded_from}
use tswipoexp.Proxy.Registration.{of_this_machine}

abbrev pub connection_of : SavedProxySettings → Connection
connection_of s = record {
  flags = s.proxy_flags;
  server = s.proxy_server;
  bypass = s.proxy_override;
  pac = s.auto_config_url;
}

-- The entries that a capture of these variables has.
abbrev pub entry : Bytes → Option Bytes → Env → Env
entry name none rest = rest
entry name (some v) rest = (name, v) ∷ rest

unfoldable pub entries : List Bytes → (Bytes → Option Bytes) → Env
entries [] vars = []
entries (name ∷ names) vars = entry name (vars name) (entries names vars)

-- Without a NUL, as strings from Windows are.
abbrev pub IsPlain : Connection → Type 0
IsPlain c = (contains_byte c.server 0 || contains_byte c.bypass 0 || contains_byte c.pac 0) ≡ false

abbrev pub AllWork : (Fate → Type 0) → Type 0
AllWork W = (junk : Bytes) → W (fails junk) → Absurd
  where
    Absurd : Type 0
    Absurd = true ≡ false

-- `s` has the settings of `o`. The variables are there if no call failed.
abbrev pub Undoes : (Fate → Type 0) → Session → SavedProxySettings → Type 0
Undoes W o s =
    (connection_of s ≡ o.connection) × (AllWork W → s.env ≡ entries proxy_env_vars o.variables)

module _ (marshal : SavedProxySettings → Bytes) (unmarshal : Bytes → Option SavedProxySettings)
    (W : Fate → Type 0) (o : Session) where
  -- The restore file holds `s`, the settings of `o`, saved on this machine.
  abbrev pub KeptAs : SavedProxySettings → Session → Type 0
  KeptAs s t =
      (b : Bytes) × (t.restore_json ≡ some b)
      × (unmarshal b ≡ some s)
      × (s.machine ≡ t.machine)
      × (s.user ≡ t.user)
      × (t.local_app_data ≡ o.local_app_data)
      × (t.cache_dir ≡ o.cache_dir)
      × Undoes W o s
      × ((n : Bytes) → contains proxy_env_vars n ≡ false → t.variables n ≡ o.variables n)

  abbrev pub Kept : Session → Type 0
  Kept t = (s : SavedProxySettings) × KeptAs s t

  -- Nothing has changed, and the restore file has nothing for this machine.
  abbrev pub Fresh : Session → Type 0
  Fresh t =
      (t.connection ≡ o.connection)
      × (t.variables ≡ o.variables)
      × (t.local_app_data ≡ o.local_app_data)
      × (t.cache_dir ≡ o.cache_dir)
      × (of_this_machine marshal unmarshal (loaded_from marshal unmarshal t.restore_json) t ≡ none)

  abbrev pub Undoable : Session → Type 0
  Undoable t = Fresh t ⊎ Kept t
