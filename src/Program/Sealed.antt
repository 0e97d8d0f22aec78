-- ===== src/Program/Sealed.antt =====
-- The same programs, in operators that stay as they are written until a proof unfolds them.
use tswipoexp.Program
use tswipoexp.Program.{Result, ok, err, Machine, Program, then_run}

module _ {S : Type 0} where
  infixl 5 ◌>>=◌ ◌>>◌
  unfoldable pub ◌>>=◌ {ℓ κ} :
      {A : Type ℓ} {B : Type κ} → Program S A → (A → Program S B) → Program S B
  ◌>>=◌ m f d = then_run f (m d)

  abbrev pub ◌>>◌ {ℓ} : {B : Type ℓ} → Program S (Unit {0}) → Program S B → Program S B
  m >> k = m >>= λ _. k

  unfoldable pub give {ℓ} : {A : Type ℓ} → Result A → Program S A
  give r d = (r, d)

  abbrev pub pure {ℓ} : {A : Type ℓ} → A → Program S A
  pure a = give (ok a)

  unfoldable pub attempt {ℓ} : {A : Type ℓ} → Program S A → Program S (Result A)
  attempt m = Program.attempt m

  unfoldable pub syscall {ℓ} : {A : Type ℓ} → (S → Result A × S) → Program S A
  syscall op = Program.syscall op

  -- What the program finds in the state without a call
  unfoldable pub reading {ℓ} : {A : Type ℓ} → (S → Program S A) → Program S A
  reading f d = f d.state d

  -- A change of the program's own variables
  unfoldable pub setting : (S → S) → Program S (Unit {0})
  setting f d = (ok tt, record d { state = f d.state })
