-- ===== src/Ssh/ConPty/Leaks.antt =====
-- No handle of a pseudoconsole leaks.
use tswipoexp.Prelude.{
  ℕ, ◌≡◌, ap, Bool, true, false, Option, none, some, List, [], Bytes, ◌==◌, nat_eq, list_eq,
  if◌then◌else◌, arith,
}
use tswipoexp.Program.{Result, ok, err, Machine}
use tswipoexp.Program.Sealed.{◌>>=◌, give, pure, setting}
use tswipoexp.Program.Triple.{
  Ensures, >>=-Ensures, trying-Ensures, give-Ensures, setting-Ensures, syscall-Ensures, Anything,
  All-Anything, Ensures-run,
}
use tswipoexp.Ssh.EnvBlock.{env_block}
use tswipoexp.Ssh.ConPty.{
  Handles, C, call, undo, guarded, close_in_pipe, close_own_ends, close_console_ends, clean_up,
  block_result, start_process, with_attrs, start_con_pty, close_console, close_con_pty,
}

abbrev pub all_closed : Handles
all_closed = record {
  in_read = false;
  in_write = false;
  out_read = false;
  out_write = false;
  console = false;
  attrs = false;
  thread = false;
  proc = false;
}

-- What a conPTY holds: its two ends of the pipes, the console and the process.
abbrev pub own : Handles
own = record all_closed { in_write = true; out_read = true; console = true; proc = true }

-- The handles after a success, and after an error
abbrev pub Leaves : Handles → Handles → Result (Unit {0}) → Handles → Type 0
Leaves done undone (ok u) h = h ≡ done
Leaves done undone (err e) h = h ≡ undone

-- From these handles a program leaves these.
abbrev Turns : Handles → C (Unit {0}) → Handles → Handles → Type 0
Turns a m done undone = Ensures Anything Anything (λ h. h ≡ a) m (Leaves done undone)

call-Turns : (a : Handles) (f : Handles → Handles) → Turns a (call f) (f a) a
call-Turns a f = syscall-Ensures _ (λ h e. (tt, ap f e)) (λ h junk e k. e)

setting-Turns : (a z : Handles) (f : Handles → Handles) → Turns a (setting f) (f a) z
setting-Turns a z f = setting-Ensures f (λ h e. ap f e)

then-Turns :
    (a b c z : Handles) (m k : C (Unit {0}))
    → Turns a m b z
    → Turns b k c z
    → Turns a (m >>= λ _. k) c z
then-Turns a b c z m k h next = >>=-Ensures h (λ u. next) (λ e t q. q)

undo-Turns :
    (b y z : Handles) (cleanup : C (Unit {0})) (r : Result (Unit {0}))
    → Turns y cleanup z z
    → Ensures Anything Anything (Leaves b y r) (undo cleanup r) (Leaves b z)
undo-Turns b y z cleanup (ok u) h = give-Ensures _ (λ t e. e)
undo-Turns b y z cleanup (err e) h = >>=-Ensures h (λ u. give-Ensures _ (λ t q. q)) (λ e' t q. q)

guarded-Turns :
    (a b z : Handles) (m cleanup : C (Unit {0}))
    → Turns a m b a
    → Turns a cleanup z z
    → Turns a (guarded m cleanup) b z
guarded-Turns a b z m cleanup h k = trying-Ensures h (λ r. undo-Turns b a z cleanup r k)

-- While a list of attributes is there: the console with its ends, then the process too, then the list alone
abbrev made : Handles
made = record all_closed { in_write = true; out_read = true; console = true }

abbrev listed : Handles
listed = record made { attrs = true }

abbrev bare : Handles
bare = record all_closed { attrs = true }

abbrev started : Handles
started = record listed { proc = true; thread = true }

clean_up-Turns :
    (a : Handles)
    → Turns a clean_up
        (record a { console = false; in_write = false; out_read = false })
        (record a { console = false; in_write = false; out_read = false })
unfolding clean_up
clean_up-Turns a = setting-Turns a _ _

-- A step that opens nothing, and cleans up if it fails
checked-Turns : Turns listed (guarded (call (λ h. h)) clean_up) listed bare
checked-Turns = guarded-Turns listed listed bare _ _ (call-Turns listed _) (clean_up-Turns listed)

dir-Turns :
    (b : Bool) → Turns listed (guarded (if b then pure tt else call (λ h. h)) clean_up) listed bare
dir-Turns true =
    guarded-Turns listed listed bare _ _ (give-Ensures _ (λ h e. e)) (clean_up-Turns listed)
dir-Turns false = checked-Turns

env-Turns :
    (o : Option (List ℕ)) → Turns listed (guarded (give (block_result o)) clean_up) listed bare
env-Turns none =
    guarded-Turns listed listed bare _ _ (give-Ensures _ (λ h e. e)) (clean_up-Turns listed)
env-Turns (some b) =
    guarded-Turns listed listed bare _ _ (give-Ensures _ (λ h e. e)) (clean_up-Turns listed)

start_process-Turns :
    (utf16 : Bytes → List ℕ) (dir : Bytes) (env : List Bytes)
    → Turns listed (start_process utf16 dir env) (record own { attrs = true }) bare
unfolding start_process
start_process-Turns utf16 dir env = then-Turns listed listed _ bare _ _ checked-Turns (
    then-Turns listed listed _ bare _ _ checked-Turns (
      then-Turns listed listed _ bare _ _ (dir-Turns (dir == [])) (
        then-Turns listed listed _ bare _ _ (env-Turns (env_block utf16 env)) (
          then-Turns listed started _ bare _ _
            (guarded-Turns listed started bare _ _ (call-Turns listed _) (clean_up-Turns listed))
            (setting-Turns started bare _)))))

-- The list of attributes is closed at the end, however it went.
with_attrs-Turns :
    (m : C (Unit {0}))
    → Turns listed m (record own { attrs = true }) bare
    → Turns listed (with_attrs m) own all_closed
with_attrs-Turns m h = trying-Ensures h deleted
  where
    deleted :
        (r : Result (Unit {0}))
        → Ensures Anything Anything
            (Leaves (record own { attrs = true }) bare r)
            (setting (λ h. record h { attrs = false }) >>= λ _. give r)
            (Leaves own all_closed)
    deleted (ok u) =
        then-Turns _ own own all_closed _ _ (setting-Turns _ all_closed _)
          (give-Ensures _ (λ h e. e))
    deleted (err e) =
        then-Turns bare all_closed own all_closed _ _ (setting-Turns bare all_closed _)
          (give-Ensures _ (λ h q. q))

-- With the first pipe, and with both
abbrev piped : Handles
piped = record all_closed { in_read = true; in_write = true }

abbrev both_piped : Handles
both_piped = record piped { out_read = true; out_write = true }

abbrev ends : Handles
ends = record all_closed { in_write = true; out_read = true }

abbrev Failed : Result (Unit {0}) → Handles → Type 0
Failed (ok u) h = true ≡ false
Failed (err e) h = h ≡ all_closed

-- What does not come about
unreached :
    (k : C (Unit {0})) → Ensures Anything Anything (λ h. true ≡ false) k (Leaves own all_closed)
unreached k = record { run = λ d never w r. absurd (ground (arith, never)) }

-- What follows the creation of the console, by how that went
after_console-Turns :
    (k : C (Unit {0})) (r : Result (Unit {0}))
    → Turns made k own all_closed
    → Ensures Anything Anything
        (Leaves (record both_piped { console = true }) both_piped r)
        (close_console_ends >>= λ _. undo close_own_ends r >>= λ _. k)
        (Leaves own all_closed)
unfolding close_console_ends close_own_ends
after_console-Turns k (ok u) h =
    then-Turns _ made own all_closed _ _ (setting-Turns _ all_closed _)
      (then-Turns made made own all_closed _ _ (give-Ensures _ (λ h e. e)) h)
after_console-Turns k (err e) h =
    then-Turns both_piped ends own all_closed _ _ (setting-Turns both_piped all_closed _) (
      >>=-Ensures {Q = Failed}
        (>>=-Ensures (setting-Turns ends all_closed _) (λ u. give-Ensures _ (λ h q. q))
          (λ e h q. q))
        (λ u. unreached k) (λ e h q. q))

start_con_pty-Turns :
    (utf16 : Bytes → List ℕ) (dir : Bytes) (env : List Bytes)
    → Turns all_closed (start_con_pty utf16 dir env) own all_closed
unfolding start_con_pty close_in_pipe
start_con_pty-Turns utf16 dir env =
    then-Turns all_closed piped own all_closed _ _ (call-Turns all_closed _) (
      then-Turns piped both_piped own all_closed _ _
        (guarded-Turns piped both_piped all_closed _ _ (call-Turns piped _)
          (setting-Turns piped all_closed _))
        (trying-Ensures (call-Turns both_piped _) (λ r. after_console-Turns _ r (
          then-Turns made listed own all_closed _ _
            (guarded-Turns made listed all_closed _ _ (call-Turns made _) (clean_up-Turns made))
            (with_attrs-Turns _ (start_process-Turns utf16 dir env))))))

close_con_pty-Turns : Turns own close_con_pty all_closed all_closed
unfolding close_con_pty close_console close_own_ends
close_con_pty-Turns = then-Turns own _ all_closed all_closed _ _ (setting-Turns own all_closed _) (
    then-Turns _ _ all_closed all_closed _ _ (setting-Turns _ all_closed _)
      (setting-Turns _ all_closed _))

either : (r : Result (Unit {0})) (h : Handles) → Leaves all_closed all_closed r h → h ≡ all_closed
either (ok u) h e = e
either (err error) h e = e

-- Whichever calls fail: if no handle is open, startConPTY either fails with no handle open, or leaves open
-- its ends of the two pipes, the pseudoconsole and the process, which Close then closes.
pub start_con_pty-Leaves :
    (utf16 : Bytes → List ℕ) (dir : Bytes) (env : List Bytes) (d : Machine Handles)
    → d.state ≡ all_closed
    → Leaves own all_closed
        (start_con_pty utf16 dir env d).0
        (start_con_pty utf16 dir env d).1.state
      × ((start_con_pty utf16 dir env d).1.state ≡ own
          → (close_con_pty (start_con_pty utf16 dir env d).1).1.state ≡ all_closed)
start_con_pty-Leaves utf16 dir env d h =
    let left : Machine Handles = (start_con_pty utf16 dir env d).1 in
    (
      (Ensures-run (start_con_pty-Turns utf16 dir env) d h (All-Anything d.fates)
          (All-Anything d.past)).0,
      λ e.
          either _ _
            (Ensures-run close_con_pty-Turns left e (All-Anything left.fates)
              (All-Anything left.past)).0,
    )
