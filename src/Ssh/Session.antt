-- ===== src/Ssh/Session.antt =====
-- A session of the SSH server: sessionHandler, runWithPipes (ssh.go), newSessionCommand, powerShellPath and
-- runWithPTY (ssh_windows.go), as the process that is started and the status that the session ends with.
-- exec.LookPath and filepath.Base are arguments, and so is how each call ends.
pub mod Environment
use tswipoexp.Prelude.{
  ℕ, Bool, true, false, not, ◌&&◌, ◌||◌, Option, none, some, List, [], ◌∷◌, ◌++◌, Bytes, codes,
  ◌==◌, nat_eq, list_eq, if◌then◌else◌, to_lower,
}
use tswipoexp.Proxy.Session.{join}
use tswipoexp.Ssh.EnvBlock.{accept_env_pair}
use tswipoexp.Ssh.Server.{WaitError, exit_code}

-- `exec.Cmd`
pub record Command : Type 0 where
  pub args : List Bytes
  pub dir : Bytes
  pub env : List Bytes

-- What powerShellPath finds on the machine: the DefaultShell of OpenSSH, none if its key cannot be opened,
-- and two variables.
pub record Machine : Type 0 where
  pub look_path : Bytes → Option Bytes
  pub base_name : Bytes → Bytes
  pub default_shell : Option Bytes
  pub program_files : Bytes
  pub system_root : Bytes

abbrev or_try : Option Bytes → Bytes → Bytes
or_try none other = other
or_try (some p) other = p

unfoldable pub windows_power_shell : Machine → Bytes
windows_power_shell m = or_try (m.look_path (codes "pwsh.exe")) (
    or_try
      (m.look_path
        (join (join (join m.program_files (codes "PowerShell")) (codes "7")) (codes "pwsh.exe")))
      (or_try (m.look_path (codes "powershell.exe")) (
        join
          (join (join (join m.system_root (codes "System32")) (codes "WindowsPowerShell"))
            (codes "v1.0"))
          (codes "powershell.exe"))))

abbrev pub configured : Machine → Option Bytes → Bytes → Bytes
configured m none other = other
configured m (some shell) other =
    let name = to_lower (m.base_name shell) in
    if name == codes "pwsh.exe" || name == codes "powershell.exe"
    then or_try (m.look_path shell) other
    else other

unfoldable pub power_shell_path : Machine → Bytes
unfolding windows_power_shell
power_shell_path m = configured m m.default_shell (windows_power_shell m)

-- A session without a command gets a shell.
unfoldable pub new_session_command : Machine → Bytes → List Bytes → Bytes → Command
unfolding power_shell_path
new_session_command m home environ raw_cmd = record {
  args =
      if raw_cmd == []
      then power_shell_path m ∷ codes "-NoLogo" ∷ []
      else power_shell_path m ∷ codes "-Command" ∷ raw_cmd ∷ [];
  dir = home;
  env = environ;
}

-- The loop over the client's variables
unfoldable pub accepted : List Bytes → List Bytes
accepted [] = []
accepted (kv ∷ kvs) = let rest = accepted kvs in if accept_env_pair kv then kv ∷ rest else rest

abbrev pub add_env : List Bytes → Command → Command
add_env kvs cmd = record cmd { env = cmd.env ++ kvs }

-- `if ptyReq.Term != ""`
unfoldable pub with_term : Bytes → Command → Command
with_term term cmd = if term == [] then cmd else add_env ((codes "TERM=" ++ term) ∷ []) cmd

-- How a session ends: with this process, if there was one, and this exit status.
pub record Ended : Type 0 where
  pub ran : Option Command
  pub status : ℕ

-- How the calls end: the pipes and the start of a process without a terminal, its wait, whether there is
-- a pseudoconsole, and the start of a process on it and the code that WaitExitCode gives, none for an
-- error.
pub record Calls : Type 0 where
  pub stdin : Bool
  pub stdout : Bool
  pub stderr : Bool
  pub starts : Bool
  pub wait : WaitError
  pub has_con_pty : Bool
  pub pty_starts : Bool
  pub code : Option ℕ

-- `sess.Exit(1)` with no process
abbrev pub not_run : Ended
not_run = record { ran = none; status = 1 }

abbrev pub ended_with : ℕ → Command → Ended
ended_with status cmd = record { ran = some cmd; status = status }

unfoldable pub run_with_pipes : Calls → Command → Ended
unfolding exit_code
run_with_pipes calls cmd =
    if calls.stdin && (calls.stdout && (calls.stderr && calls.starts))
    then ended_with (exit_code calls.wait) cmd
    else not_run

abbrev pub ended_by : Option ℕ → Command → Ended
ended_by none cmd = ended_with 1 cmd
ended_by (some code) cmd = ended_with code cmd

unfoldable pub run_with_pty : Calls → Bytes → Command → Ended
unfolding with_term run_with_pipes
run_with_pty calls term cmd =
    if not calls.has_con_pty
    then run_with_pipes calls cmd
    else if calls.pty_starts
    then ended_by calls.code (with_term term cmd)
    else not_run

-- By the terminal that is asked for, if any
abbrev pub run_by : Calls → Option Bytes → Command → Ended
run_by calls none cmd = run_with_pipes calls cmd
run_by calls (some term) cmd = run_with_pty calls term cmd

-- `sessionHandler`; `home` is that of the current user, none for an error, `environ` the environment of
-- the program and `client` that which the client asks for.
unfoldable pub session_handler :
    Calls → Option Bytes → Machine → List Bytes → Bytes → List Bytes → Option Bytes → Ended
unfolding accepted new_session_command run_with_pipes run_with_pty
session_handler calls none m environ raw_cmd client pty = not_run
session_handler calls (some home) m environ raw_cmd client pty =
    run_by calls pty (add_env (accepted client) (new_session_command m home environ raw_cmd))
