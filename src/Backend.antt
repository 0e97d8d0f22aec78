-- ===== src/Backend.antt =====
-- Backend of backend.go: the node of one profile with its proxy and SSH server. Its programs act on a
-- Place: the Windows session, the listeners and the tsnet node, what was told to the window and the
-- profile store, and the Backend's own fields. Starting and stopping a goroutine is no step of its own;
-- what the goroutines do, a status or a notification that arrives, is an event (Backend.Events). What
-- is only logged is left out, and an error keeps its kind when a text is put in front of it.
pub mod Sessions
pub mod Owning
pub mod Closing
pub mod Again
pub mod Events
pub mod Node
mod Tests
use tswipoexp.Prelude.{
  ℕ, suc, Bool, true, false, not, ◌&&◌, Option, none, some, List, [], ◌∷◌, ◌++◌, Bytes, codes, ◌==◌,
  nat_eq, list_eq, if◌then◌else◌,
}
use tswipoexp.Program.{Error, Result, ok, err, Program}
use tswipoexp.Program.Sealed.{◌>>=◌, ◌>>◌, give, pure, attempt, syscall, reading, setting}
use tswipoexp.Program.Within.{within}
use tswipoexp.Proxy.Session.{SavedProxySettings, Session}
use tswipoexp.Proxy.Registration.{
  register_system_proxy, unregister_system_proxy, system_proxy_is_ours,
}
use tswipoexp.Profiles.Config.{
  Config, ssh_mode, ssh_off, hostname, proxy_addr, register_proxy, outbound_options,
}
use tswipoexp.Status.{Status, ProfileSummary}

-- What `tsnet.Server` is started with.
pub record NodeConfig : Type 0 where
  pub dir : Bytes
  pub hostname : Bytes
  pub auth_key : Bytes

-- `server` is whether `ts` is there, `lc` whether the client is, `ssh_srv` whether the SSH server is.
-- `proxy_ln` is the address of the proxy's listener.
pub record Backend : Type 0 where
  pub profile : Bytes
  pub dir : Bytes
  pub cfg : Config
  pub server : Bool
  pub lc : Bool
  pub proxy_ln : Option Bytes
  pub ssh_srv : Bool
  pub canceled : Bool
  pub last_pac : Bytes
  pub last_summary : Bytes
  pub status : Option Status
  pub auth_url : Bytes
  pub last_err : Bytes
  pub closed : Bool
  pub close_err : Option Error

-- `refreshes` counts the calls of OnChange, `notices` those of notifyProxySettingsChanged; `saved` is
-- what was handed to OnSummary, the latest first.
pub record Place : Type 0 where
  pub session : Session
  pub node : Option NodeConfig
  pub ssh_port : Bool
  pub proxy_port : Bool
  pub refreshes : ℕ
  pub notices : ℕ
  pub saved : List ProfileSummary
  pub backend : Backend

abbrev pub B {ℓ} : Type ℓ → Type ℓ
B A = Program Place A

unfoldable pub new_backend : Bytes → Bytes → Config → Backend
new_backend profile dir cfg = record {
  profile = profile;
  dir = dir;
  cfg = cfg;
  server = false;
  lc = false;
  proxy_ln = none;
  ssh_srv = false;
  canceled = false;
  last_pac = [];
  last_summary = [];
  status = none;
  auth_url = [];
  last_err = [];
  closed = false;
  close_err = none;
}

abbrev pub with_backend : (Backend → Backend) → Place → Place
with_backend f p = record p { backend = f p.backend }

abbrev pub with_session : Session → Place → Place
with_session s p = record p { session = s }

-- The program sets some of the Backend's fields.
abbrev pub put_fields : (Backend → Backend) → B (Unit {0})
put_fields f = setting (with_backend f)

abbrev pub session_of : Place → Session
session_of p = p.session

unfoldable pub changed : B (Unit {0})
changed = setting (λ p. record p { refreshes = suc p.refreshes })

unfoldable pub set_err : Bytes → B (Unit {0})
set_err msg = do put_fields (λ b. record b { last_err = msg }); changed

unfoldable pub clear_err : B (Unit {0})
clear_err = do put_fields (λ b. record b { last_err = [] }); changed

-- What the machine and the libraries do: the JSON of the saved proxy settings, the text of an error,
-- the machine's name and the address that a listener on an address has.
pub record Platform : Type 0 where
  pub marshal : SavedProxySettings → Bytes
  pub unmarshal : Bytes → Option SavedProxySettings
  pub error_text : Error → Bytes
  pub os_hostname : Option Bytes
  pub listener_addr : Bytes → Bytes

abbrev pub addr_or_empty : Option Bytes → Bytes
addr_or_empty none = []
addr_or_empty (some addr) = addr

-- `ProxyAddr`
abbrev pub proxy_address : Backend → Bytes
proxy_address b = addr_or_empty b.proxy_ln

-- `startSSH`; the call is `b.ts.Listen`.
unfoldable pub start_ssh : B (Unit {0})
start_ssh = do
  syscall (λ p. (ok tt, record p { ssh_port = true }))
  put_fields (λ b. record b { ssh_srv = true })

unfoldable pub shut_ssh : B (Unit {0})
shut_ssh = syscall (λ p. (ok tt, record p { ssh_port = false }))

unfoldable pub shut_proxy : B (Unit {0})
shut_proxy = syscall (λ p. (ok tt, record p { proxy_port = false }))

unfoldable pub shut_node : B (Unit {0})
shut_node = syscall (λ p. (ok tt, record p { node = none }))

-- `s.close()`, where the listener's error is dropped
abbrev pub close_ssh : Bool → B (Unit {0})
close_ssh false = pure tt
close_ssh true = do closed ← attempt shut_ssh; pure tt

unfoldable pub stop_ssh : B (Unit {0})
stop_ssh =
    reading λ p. do put_fields (λ b. record b { ssh_srv = false }); close_ssh p.backend.ssh_srv

unfoldable pub set_ssh_mode : Bytes → B (Unit {0})
set_ssh_mode mode = do
  put_fields (λ b. record b { cfg = record b.cfg { ssh_mode = mode; ssh = false } })
  if mode == ssh_off
      then stop_ssh
      else reading λ p. if p.backend.ssh_srv then pure tt else start_ssh

unfoldable pub ssh_running : Place → Bool
ssh_running p = p.backend.ssh_srv

module _ (os : Platform) where
  unfoldable pub register : B (Unit {0})
  register = reading λ p. within session_of with_session (
      register_system_proxy os.marshal os.unmarshal
        (outbound_options p.backend.cfg (proxy_address p.backend)))

  unfoldable pub unregister : B (Unit {0})
  unregister = within session_of with_session (unregister_system_proxy os.marshal os.unmarshal)

  abbrev pub reported : Bytes → Result (Unit {0}) → B (Unit {0})
  reported text (ok u) = pure tt
  reported text (err e) = set_err (text ++ os.error_text e)

  -- `if err := m; err != nil { b.setErr(…) }`
  unfoldable pub report : Bytes → B (Unit {0}) → B (Unit {0})
  report text m = do r ← attempt m; reported text r

  -- `startProxy`; the call is `net.Listen`.
  unfoldable pub start_proxy : B (Unit {0})
  start_proxy = do
    syscall (λ p. (ok tt, record p { proxy_port = true }))
    put_fields (λ b. record b { proxy_ln = some (os.listener_addr (proxy_addr b.cfg)) })

  -- The end of `Start`, by how startProxy went
  abbrev pub register_after : Result (Unit {0}) → B (Unit {0})
  register_after (err e) = set_err (codes "proxy: " ++ os.error_text e)
  register_after (ok u) = reading λ p.
      if register_proxy p.backend.cfg
      then report (codes "registering proxy with Windows: ") register
      else pure tt

  -- The calls are those of the server's Start and LocalClient.
  unfoldable pub start : Bytes → B (Unit {0})
  start auth_key = do
    put_fields (λ b. record b { server = true })
    syscall (λ p. (
      ok tt,
      record p {
        node = some (record {
          dir = p.backend.dir;
          hostname = hostname os.os_hostname p.backend.cfg;
          auth_key = auth_key;
        });
      },
    ))
    syscall (λ p. (ok tt, p))
    put_fields (λ b. record b { lc = true })
    reading (λ p.
        if ssh_mode p.backend.cfg == ssh_off then pure tt else report (codes "ssh: ") start_ssh)
    proxied ← attempt start_proxy
    register_after proxied

  unfoldable pub apply_outbound : B (Unit {0})
  apply_outbound = reading λ p.
      if proxy_address p.backend == []
      then pure tt
      else do unregister; reading (λ q. if register_proxy q.backend.cfg then register else pure tt)

  unfoldable pub proxy_registered : B Bool
  proxy_registered = reading λ p.
      if proxy_address p.backend == []
      then pure false
      else within session_of with_session (system_proxy_is_ours (proxy_address p.backend))

  -- The error of the listener's Close is dropped.
  abbrev pub close_proxy : Option Bytes → B (Unit {0})
  close_proxy none = pure tt
  close_proxy (some addr) = do undone ← attempt unregister; shut ← attempt shut_proxy; pure tt

  abbrev pub error_of : Result (Unit {0}) → Option Error
  error_of (ok u) = none
  error_of (err e) = some e

  abbrev pub result_of : Option Error → Result (Unit {0})
  result_of none = ok tt
  result_of (some e) = err e

  -- `b.closeErr = b.ts.Close()`
  abbrev pub close_server : Bool → B (Unit {0})
  close_server false = pure tt
  close_server true = do
    r ← attempt shut_node
    put_fields (λ b. record b { close_err = error_of r })

  unfoldable pub close_once : B (Unit {0})
  unfolding stop_ssh
  close_once = do
    put_fields (λ b. record b { closed = true })
    put_fields (λ b. record b { canceled = true })
    stop_ssh
    reading (λ p. close_proxy p.backend.proxy_ln)
    reading (λ p. close_server p.backend.server)

  unfoldable pub close : B (Unit {0})
  unfolding close_once
  close = do
    reading (λ p. if p.backend.closed then pure tt else close_once)
    reading (λ p. give (result_of p.backend.close_err))
