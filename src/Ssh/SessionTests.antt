-- ===== src/Ssh/SessionTests.antt =====
-- A session whose client tries to set PATH.
use tswipoexp.Prelude.{
  ◌≡◌, refl, true, false, none, some, List, [], ◌∷◌, Bytes, codes, list_eqb, cut, has_prefix, arith,
}
use tswipoexp.Ssh.EnvBlock.{accept_key, accept_env_pair, distinct_pairs}
use tswipoexp.Ssh.EnvBlock.Distinct.{find_pair}
use tswipoexp.Ssh.Server.{no_error}
use tswipoexp.Ssh.Session.{
  Calls, Machine, Command, accepted, with_term, new_session_command, run_with_pty, session_handler,
}
use tswipoexp.Ssh.Session.Environment.{session_handler-find_pair}

abbrev calls : Calls
calls = record {
  stdin = true;
  stdout = true;
  stderr = true;
  starts = true;
  wait = no_error;
  has_con_pty = true;
  pty_starts = true;
  code = some 0;
}

abbrev machine : Machine
machine = record {
  look_path = λ name. some name;
  base_name = λ path. path;
  default_shell = none;
  program_files = codes "C:\\Program Files";
  system_root = codes "C:\\Windows";
}

abbrev environ : List Bytes
environ = codes "Path=C:" ∷ []

abbrev client : List Bytes
client = codes "PATH=D:" ∷ codes "LANG=de" ∷ []

abbrev started : Command
started = record {
  args = codes "pwsh.exe" ∷ codes "-NoLogo" ∷ [];
  dir = codes "C:\\Users\\x";
  env = codes "Path=C:" ∷ codes "LANG=de" ∷ codes "TERM=xterm" ∷ [];
}

ran :
    (session_handler calls
      (some (codes "C:\\Users\\x"))
      machine
      environ
      []
      client
      (some (codes "xterm"))).ran
    ≡ some started
unfolding session_handler accepted accept_env_pair accept_key with_term new_session_command
    run_with_pty list_eqb cut has_prefix
ran = refl

not_local : has_prefix (codes "PATH") (codes "LC_") ≡ false
unfolding has_prefix
not_local = refl

session_handler-find_pair_example :
    find_pair (codes "PATH") (distinct_pairs started.env)
    ≡ find_pair (codes "PATH") (distinct_pairs environ)
session_handler-find_pair_example =
    session_handler-find_pair calls (some (codes "C:\\Users\\x")) machine environ [] client
      (some (codes "xterm")) started (codes "PATH") ran (λ e. absurd (ground (arith, e)))
      (λ e. absurd (ground (arith, e))) not_local
