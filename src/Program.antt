-- ===== src/Program.antt =====
-- Programs of calls to the operating system, each of which may fail, over a state `S` outside the
-- program. `past` holds the states in between: where the power may go.
pub mod Sealed
pub mod Triple
pub mod Within
use tswipoexp.Prelude.{List, [], ◌∷◌, Bytes}

-- The errors that the program tells apart, and those of its own.
pub data Error : Type 0 where
  not_exist io_error is_dir bad_json panic : Error
  invalid_name already_exists running : Bytes → Error

pub data Result {ℓ} (A : Type ℓ) : Type ℓ where
  ok : A → Result A
  err : Error → Result A

-- What becomes of the next call: it goes through, or it fails, and if it writes a file it leaves
-- these bytes there.
pub data Fate : Type 0 where
  works : Fate
  fails : Bytes → Fate

-- Beyond the list every call goes through. `past` is the state before each call so far, the latest
-- first.
pub record Machine (S : Type 0) : Type 0 where
  pub state : S
  pub fates : List Fate
  pub past : List S

abbrev pub Program {ℓ} : Type 0 → Type ℓ → Type ℓ
Program S A = Machine S → Result A × Machine S

module _ {S : Type 0} where
  abbrev pub pure {ℓ} : {A : Type ℓ} → A → Program S A
  pure a d = (ok a, d)

  abbrev pub fail {ℓ} : {A : Type ℓ} → Error → Program S A
  fail e d = (err e, d)

  abbrev pub then_run {ℓ κ} :
      {A : Type ℓ} {B : Type κ} → (A → Program S B) → Result A × Machine S → Result B × Machine S
  then_run f (ok a, d) = f a d
  then_run f (err e, d) = (err e, d)

  infixl 5 ◌>>=◌ ◌>>◌
  abbrev pub ◌>>=◌ {ℓ κ} : {A : Type ℓ} {B : Type κ} → Program S A → (A → Program S B) → Program S B
  ◌>>=◌ m f d = then_run f (m d)

  abbrev pub ◌>>◌ {ℓ} : {B : Type ℓ} → Program S (Unit {0}) → Program S B → Program S B
  m >> k = m >>= λ _. k

  abbrev pub failing {ℓ} :
      {A : Type ℓ} → Program S (Unit {0}) → Result A × Machine S → Result A × Machine S
  failing cleanup (ok a, d) = (ok a, d)
  failing cleanup (err e, d) = (err e, (cleanup d).1)

  -- `if err := m; err != nil { cleanup; return err }`; the clean-up's own error is dropped.
  abbrev pub or_else {ℓ} : {A : Type ℓ} → Program S A → Program S (Unit {0}) → Program S A
  or_else m cleanup d = failing cleanup (m d)

  abbrev pub caught {ℓ} : {A : Type ℓ} → Result A × Machine S → Result (Result A) × Machine S
  caught (r, d) = (ok r, d)

  -- `m` with its error as a value, `result, err := m`.
  abbrev pub attempt {ℓ} : {A : Type ℓ} → Program S A → Program S (Result A)
  attempt m d = caught (m d)

  abbrev pub moved : S → List Fate → Machine S → Machine S
  moved t more d = record { state = t; fates = more; past = d.state ∷ d.past }

  abbrev pub commit {ℓ} : {A : Type ℓ} → Result A × S → List Fate → Machine S → Result A × Machine S
  commit (r, t) more d = (r, moved t more d)

  -- One call: `op` is its outcome when it goes through, `torn` the state that a failure leaves.
  unfoldable pub syscall_with {ℓ} :
      {A : Type ℓ} → (S → Result A × S) → (Bytes → S → S) → Program S A
  syscall_with op torn d = elim d.fates [
    | [] ↦ commit (op d.state) [] d
    | works ∷ more ↦ commit (op d.state) more d
    | fails junk ∷ more ↦ (err io_error, moved (torn junk d.state) more d)
  ]

  abbrev pub syscall {ℓ} : {A : Type ℓ} → (S → Result A × S) → Program S A
  syscall op = syscall_with op (λ _ t. t)
