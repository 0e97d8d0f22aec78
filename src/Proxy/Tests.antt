-- ===== src/Proxy/Tests.antt =====
-- Runs of the registration, with an encoding of the saved settings in place of JSON.
use tswipoexp.Prelude.{
  ◌≡◌, refl, true, false, some, List, [], ◌∷◌, ◌++◌, codes, list_eqb, All, contains_byte, nat_eq,
  list_eq,
}
use tswipoexp.Codec.Saved.{marshal, unmarshal, unmarshal-marshal, laptop}
use tswipoexp.Program.{Fate, works, fails}
use tswipoexp.Proxy.Settings.{ProxyRegistration, proxy_mode_static, proxy_mode_pac}
use tswipoexp.Proxy.Session.{SavedProxySettings, Session, app_base}
use tswipoexp.Proxy.Registration.{register_system_proxy, unregister_system_proxy}
use tswipoexp.Proxy.Restore.{quote, reg_escape}
use tswipoexp.Proxy.Restore.Quoting.{read_quoted, read_quoted-reg_escape}
use tswipoexp.Proxy.Undo.{entries}
use tswipoexp.Proxy.Undo.Writing.{IsOk, Cleaned, Restored}
use tswipoexp.Proxy.Undo.Always.{
  register_all, register_all-unregister, unregister-Kept, register-Recoverable, Recoverable,
  SameSettings, started,
}

abbrev static_proxy : ProxyRegistration
static_proxy = record {
  addr = codes "localhost:1";
  mode = proxy_mode_static;
  pac_url = [];
  env_vars = true;
  watchdog = true;
  run_once = true;
}

abbrev pac_proxy : ProxyRegistration
pac_proxy = record {
  addr = codes "localhost:1";
  mode = proxy_mode_pac;
  pac_url = codes "http://localhost:1/proxy.pac";
  env_vars = false;
  watchdog = false;
  run_once = false;
}

abbrev faulty : List Fate
faulty = works ∷ works ∷ fails [] ∷ works ∷ fails [] ∷ works ∷ []

register-Recoverable_example :
    let x =
      register_system_proxy marshal unmarshal static_proxy
        (record (started laptop) { fates = faulty }) in
    All (Recoverable unmarshal laptop) (x.1.state ∷ x.1.past)
register-Recoverable_example =
    register-Recoverable marshal unmarshal unmarshal-marshal laptop faulty static_proxy refl

register_all-unregister_example :
    All
      (λ t. SameSettings laptop (unregister_system_proxy marshal unmarshal (started t)).1.state)
      ((register_all marshal unmarshal unmarshal-marshal
          (static_proxy ∷ pac_proxy ∷ [])
          (started laptop)).1.state
        ∷ (register_all marshal unmarshal unmarshal-marshal
            (static_proxy ∷ pac_proxy ∷ [])
            (started laptop)).1.past)
unfolding app_base list_eqb contains_byte
register_all-unregister_example =
    register_all-unregister marshal unmarshal unmarshal-marshal laptop
      (static_proxy ∷ pac_proxy ∷ []) (codes "C:\\L") refl refl refl

abbrev corporate : SavedProxySettings
corporate = record {
  machine = codes "m";
  user = codes "u";
  proxy_flags = 3;
  proxy_server = codes "corp:80";
  proxy_override = [];
  auto_config_url = [];
  env = (codes "NO_PROXY", codes "corp") ∷ [];
}

-- The laptop after a crash of the program
abbrev crashed : Session
crashed = record laptop {
  connection = record {
    flags = 5;
    server = [];
    bypass = [];
    pac = codes "http://localhost:1/proxy.pac";
  };
  restore_json = some (marshal corporate);
  run_once = some (codes "cmd.exe");
  restore_cmd = some (codes "@echo off");
}

unregister-Kept_example :
    IsOk (unregister_system_proxy marshal unmarshal (started crashed)).0
    × Restored laptop (unregister_system_proxy marshal unmarshal (started crashed)).1.state
    × Cleaned (unregister_system_proxy marshal unmarshal (started crashed)).1.state
unfolding app_base list_eqb contains_byte entries
unregister-Kept_example =
    unregister-Kept marshal unmarshal unmarshal-marshal laptop crashed (codes "C:\\L") refl refl (
      corporate,
      (
        marshal corporate,
        refl,
        unmarshal-marshal corporate,
        refl,
        refl,
        refl,
        refl,
        (refl, λ all. refl),
        λ n out. refl,
      ),
    )

read_quoted-reg_escape_example :
    read_quoted false (reg_escape (codes "C:\\a \"b\"") ++ (quote ∷ codes "x"))
    ≡ some (codes "C:\\a \"b\"", codes "x")
read_quoted-reg_escape_example = read_quoted-reg_escape (codes "C:\\a \"b\"") (codes "x")
