-- ===== src/Ssh/Session/Environment.antt =====
-- Which variables a client of the SSH server sets.
use mathlib.Core.Path.{subst}
use tswipoexp.Prelude.{
  ℕ, ◌≡◌, ◌≢◌, refl, sym, ap, ◌∙◌, inl, inr, All, Bool, true, false, Bool-cases, not, ◌&&◌, Option,
  none, some, List, [], ◌∷◌, ◌++◌, Bytes, codes, ◌==◌, nat_eq, list_eq, list_eqb, eq_iff,
  if◌then◌else◌, cut, to_upper, upper_byte, has_prefix, arith,
}
use tswipoexp.Ssh.EnvBlock.{accept_key, accept_cut, accept_env_pair, distinct_pairs}
use tswipoexp.Ssh.EnvBlock.Distinct.{
  keyed, keyed_cut, find_pair, last_pair, find_pair-distinct_pairs,
}
use tswipoexp.Ssh.Server.{exit_code}
use tswipoexp.Ssh.Session.{
  Command, Machine, Ended, accepted, add_env, with_term, Calls, new_session_command, not_run,
  ended_with, ended_by, run_by, run_with_pipes, run_with_pty, session_handler,
}

has_prefix-to_upper :
    (s p : Bytes) → has_prefix s p ≡ true → has_prefix (to_upper s) (to_upper p) ≡ true
unfolding has_prefix to_upper
has_prefix-to_upper s [] h = refl
has_prefix-to_upper [] (d ∷ ds) h = absurd (ground (arith, h))
has_prefix-to_upper (c ∷ cs) (d ∷ ds) h =
    let same : c ≡ d = (eq_iff c d).0 (ground (arith, h)) in
    let upper : (upper_byte c == upper_byte d) ≡ true =
      (eq_iff (upper_byte c) (upper_byte d)).1 (ap upper_byte same) in
    let rest = has_prefix-to_upper cs ds (ground (arith, h)) in ground (arith, upper, rest)

accept_key-to_upper : (k : Bytes) → accept_key k ≡ true → accept_key (to_upper k) ≡ true
unfolding accept_key to_upper
accept_key-to_upper k h = elim (Bool-cases (k == codes "TERM")) [
  | inl e ↦
      let same : (to_upper k == codes "TERM") ≡ true =
        (eq_iff (to_upper k) (codes "TERM")).1 (ap to_upper ((eq_iff k (codes "TERM")).0 e)) in
      ground (arith, same)
  | inr e ↦ elim (Bool-cases (k == codes "LANG")) [
    | inl f ↦
        let same : (to_upper k == codes "LANG") ≡ true =
          (eq_iff (to_upper k) (codes "LANG")).1 (ap to_upper ((eq_iff k (codes "LANG")).0 f)) in
        ground (arith, same)
    | inr f ↦
        let prefixed = has_prefix-to_upper k (codes "LC_") (ground (arith, h, e, f)) in
        ground (arith, prefixed)
  ]
]

accept_key-other :
    (k : Bytes)
    → k ≢ codes "TERM"
    → k ≢ codes "LANG"
    → has_prefix k (codes "LC_") ≡ false
    → accept_key k ≡ false
unfolding accept_key
accept_key-other k term lang local =
    ground (arith, eq_iff k (codes "TERM"), eq_iff k (codes "LANG"), term, lang, local)

abbrev Others : Bytes → List Bytes → Type 0
Others k kvs = All (λ kv. keyed kv k ≡ false) kvs

keyed_cut-accepted :
    (k : Bytes) (o : Option (Bytes × Bytes))
    → accept_key k ≡ false
    → accept_cut o ≡ true
    → keyed_cut o k ≡ false
keyed_cut-accepted k none h a = refl
keyed_cut-accepted k (some (j, v)) h a = elim (Bool-cases (to_upper j == k)) [
  | inr e ↦ e
  | inl e ↦
      let upper : accept_key k ≡ true =
        ap accept_key (sym ((eq_iff (to_upper j) k).0 e)) ∙ accept_key-to_upper j a in
      absurd (ground (arith, h, upper))
]

accepted-Others : (k : Bytes) (kvs : List Bytes) → accept_key k ≡ false → Others k (accepted kvs)
unfolding accepted accept_env_pair keyed
accepted-Others k [] h = tt
accepted-Others k (kv ∷ kvs) h = elim (Bool-cases (accept_env_pair kv)) [
  | inl e ↦ rw e (keyed_cut-accepted k (cut 61 kv) h e, accepted-Others k kvs h)
  | inr e ↦ rw e (accepted-Others k kvs h)
]

last_pair-append :
    (k : Bytes) (xs ys : List Bytes) → Others k ys → last_pair k (xs ++ ys) ≡ last_pair k xs
unfolding last_pair
last_pair-append k [] [] o = refl
last_pair-append k [] (y ∷ ys) (other, o) = rw (last_pair-append k [] ys o, other) refl
last_pair-append k (x ∷ xs) ys o = rw (last_pair-append k xs ys o) refl

-- The pairs that a client adds to an environment, and the terminal's
module _ (k : Bytes) (environ : List Bytes) where
  -- The process, if there is one, has the same pair for the key.
  abbrev KeepsPair : Option Command → Type 0
  KeepsPair none = Unit
  KeepsPair (some cmd) = last_pair k cmd.env ≡ last_pair k environ

  with_term-KeepsPair :
      (term : Bytes) (cmd : Command)
      → accept_key k ≡ false
      → KeepsPair (some cmd)
      → KeepsPair (some (with_term term cmd))
  unfolding with_term accept_key list_eqb keyed to_upper cut
  with_term-KeepsPair term cmd h e = go (term == [])
    where
      other : Others k ((codes "TERM=" ++ term) ∷ [])
      other = (keyed_cut-accepted k (some (codes "TERM", term)) h refl, tt)

      go :
          (b : Bool)
          → KeepsPair (some (if b then cmd else add_env ((codes "TERM=" ++ term) ∷ []) cmd))
      go true = e
      go false = last_pair-append k cmd.env ((codes "TERM=" ++ term) ∷ []) other ∙ e

  -- Of two ends of a session each keeps the pair.
  if-KeepsPair :
      (b : Bool) (x y : Ended)
      → KeepsPair x.ran
      → KeepsPair y.ran
      → KeepsPair (if b then x else y).ran
  if-KeepsPair true x y h g = h
  if-KeepsPair false x y h g = g

  run_with_pipes-KeepsPair :
      (calls : Calls) (cmd : Command)
      → KeepsPair (some cmd)
      → KeepsPair (run_with_pipes calls cmd).ran
  unfolding run_with_pipes
  run_with_pipes-KeepsPair calls cmd h =
      if-KeepsPair (calls.stdin && (calls.stdout && (calls.stderr && calls.starts)))
        (ended_with (exit_code calls.wait) cmd) not_run h tt

  ended_by-KeepsPair :
      (code : Option ℕ) (cmd : Command) → KeepsPair (some cmd) → KeepsPair (ended_by code cmd).ran
  ended_by-KeepsPair none cmd h = h
  ended_by-KeepsPair (some code) cmd h = h

  run_by-KeepsPair :
      (calls : Calls) (pty : Option Bytes) (cmd : Command)
      → accept_key k ≡ false
      → KeepsPair (some cmd)
      → KeepsPair (run_by calls pty cmd).ran
  unfolding run_with_pty
  run_by-KeepsPair calls none cmd h e = run_with_pipes-KeepsPair calls cmd e
  run_by-KeepsPair calls (some term) cmd h e =
      let on_pty : Ended = ended_by calls.code (with_term term cmd) in
      if-KeepsPair (not calls.has_con_pty) (run_with_pipes calls cmd)
        (if calls.pty_starts then on_pty else not_run) (run_with_pipes-KeepsPair calls cmd e)
        (if-KeepsPair calls.pty_starts on_pty not_run
          (ended_by-KeepsPair calls.code (with_term term cmd) (with_term-KeepsPair term cmd h e))
          tt)

  session_handler-KeepsPair :
      (calls : Calls) (home : Option Bytes) (m : Machine) (raw_cmd : Bytes) (client : List Bytes)
      (pty : Option Bytes)
      → accept_key k ≡ false
      → KeepsPair (session_handler calls home m environ raw_cmd client pty).ran
  unfolding session_handler new_session_command
  session_handler-KeepsPair calls none m raw_cmd client pty h = tt
  session_handler-KeepsPair calls (some home) m raw_cmd client pty h =
      run_by-KeepsPair calls pty
        (add_env (accepted client) (new_session_command m home environ raw_cmd)) h
        (last_pair-append k environ (accepted client) (accepted-Others k client h))

-- However the calls of a session end, if it has run a process, then for every key in capitals but TERM,
-- LANG and those that begin with LC_ the environment block of the process has the pair that the block of
-- the program's own environment has, or none if that has none: a client changes no other variable.
pub session_handler-find_pair :
    (calls : Calls) (home : Option Bytes) (m : Machine) (environ : List Bytes) (raw_cmd : Bytes)
    (client : List Bytes) (pty : Option Bytes) (cmd : Command) (k : Bytes)
    → (session_handler calls home m environ raw_cmd client pty).ran ≡ some cmd
    → k ≢ codes "TERM"
    → k ≢ codes "LANG"
    → has_prefix k (codes "LC_") ≡ false
    → find_pair k (distinct_pairs cmd.env) ≡ find_pair k (distinct_pairs environ)
session_handler-find_pair calls home m environ raw_cmd client pty cmd k ran term lang local =
    let other = accept_key-other k term lang local in
    find_pair-distinct_pairs cmd.env k
    ∙ subst (λ o. KeepsPair k environ o) ran
        (session_handler-KeepsPair k environ calls home m raw_cmd client pty other)
    ∙ sym (find_pair-distinct_pairs environ k)
