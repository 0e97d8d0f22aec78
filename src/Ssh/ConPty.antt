-- ===== src/Ssh/ConPty.antt =====
-- The pseudoconsole of ssh_windows.go: startConPTY, and Resize, CloseConsole, WaitExitCode and Close of
-- conPTY, as programs over the handles that are open. Each call may fail, and a handle that is closed is
-- closed. The conversions to UTF-16 of the command line and the directory are calls here too.
pub mod Leaks
use tswipoexp.Prelude.{
  ltb, ◌-◌, ℕ, ◌%◌, ◌^◌, Bool, true, false, not, ◌&&◌, ◌||◌, Option, none, some, List, [], ◌∷◌,
  Bytes, ◌==◌, nat_eq, list_eq, if◌then◌else◌,
}
use tswipoexp.Program.{Error, io_error, Result, ok, err, Program}
use tswipoexp.Program.Sealed.{◌>>=◌, ◌>>◌, give, pure, attempt, syscall, reading, setting}
use tswipoexp.Ssh.EnvBlock.{env_block}

-- Which of the handles are open; `attrs` is the list of attributes.
pub record Handles : Type 0 where
  pub in_read : Bool
  pub in_write : Bool
  pub out_read : Bool
  pub out_write : Bool
  pub console : Bool
  pub attrs : Bool
  pub thread : Bool
  pub proc : Bool

abbrev pub C {ℓ} : Type ℓ → Type ℓ
C A = Program Handles A

-- A call that changes the handles if it goes through
abbrev pub call : (Handles → Handles) → C (Unit {0})
call f = syscall (λ h. (ok tt, f h))

-- `if err := m; err != nil { cleanup; return err }`, by how `m` went
abbrev pub undo : C (Unit {0}) → Result (Unit {0}) → C (Unit {0})
undo cleanup (ok u) = pure tt
undo cleanup (err e) = do cleanup; give (err e)

abbrev pub guarded : C (Unit {0}) → C (Unit {0}) → C (Unit {0})
guarded m cleanup = do r ← attempt m; undo cleanup r

unfoldable pub close_in_pipe : C (Unit {0})
close_in_pipe = setting (λ h. record h { in_read = false; in_write = false })

unfoldable pub close_own_ends : C (Unit {0})
close_own_ends = setting (λ h. record h { in_write = false; out_read = false })

unfoldable pub close_console_ends : C (Unit {0})
close_console_ends = setting (λ h. record h { in_read = false; out_write = false })

-- The function `cleanup`
unfoldable pub clean_up : C (Unit {0})
clean_up = setting (λ h. record h { console = false; in_write = false; out_read = false })

abbrev pub block_result : Option (List ℕ) → Result (Unit {0})
block_result none = err io_error
block_result (some block) = ok tt

-- An integer: `negsuc n` is the one below minus `n`.
pub data ℤ : Type 0 where
  pos negsuc : ℕ → ℤ

-- `int16(n)`: the low 16 bits, the upper half of them as negative numbers
abbrev pub int16 : ℕ → ℤ
int16 n = let low = n % 2 ^ 16 in if ltb low (2 ^ 15) then pos low else negsuc (2 ^ 16 - 1 - low)

-- A dimension that is not positive becomes the default, and is then cut to 16 bits.
unfoldable pub dimension : ℕ → ℤ → ℤ
dimension default (pos n) = int16 (if n == 0 then default else n)
dimension default (negsuc n) = int16 default

-- The steps while the list of attributes is there
unfoldable pub start_process : (Bytes → List ℕ) → Bytes → List Bytes → C (Unit {0})
unfolding clean_up env_block
start_process utf16 dir env = do
  guarded (call (λ h. h)) clean_up
  guarded (call (λ h. h)) clean_up
  guarded (if dir == [] then pure tt else call (λ h. h)) clean_up
  guarded (give (block_result (env_block utf16 env))) clean_up
  guarded (call (λ h. record h { proc = true; thread = true })) clean_up
  setting (λ h. record h { thread = false })

-- `defer attrs.Delete()`
abbrev pub with_attrs : C (Unit {0}) → C (Unit {0})
with_attrs m = do r ← attempt m; setting (λ h. record h { attrs = false }); give r

unfoldable pub start_con_pty : (Bytes → List ℕ) → Bytes → List Bytes → C (Unit {0})
unfolding close_in_pipe close_own_ends close_console_ends start_process
start_con_pty utf16 dir env = do
  call (λ h. record h { in_read = true; in_write = true })
  guarded (call (λ h. record h { out_read = true; out_write = true })) close_in_pipe
  made ← attempt (call (λ h. record h { console = true }))
  close_console_ends
  undo close_own_ends made
  guarded (call (λ h. record h { attrs = true })) clean_up
  with_attrs (start_process utf16 dir env)

-- `Resize`: nothing is done to a console that is closed.
unfoldable pub resize : C (Unit {0})
resize = reading λ h. if h.console then call (λ k. k) else pure tt

unfoldable pub close_console : C (Unit {0})
close_console = setting (λ h. record h { console = false })

-- `Close`
unfoldable pub close_con_pty : C (Unit {0})
unfolding close_console close_own_ends
close_con_pty = do close_console; close_own_ends; setting (λ h. record h { proc = false })

-- `WaitExitCode`: a wait and a query, with the code that the query gives
unfoldable pub wait_exit_code : ℕ → C ℕ
wait_exit_code code = do call (λ h. h); syscall (λ h. (ok code, h))
