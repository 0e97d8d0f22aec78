-- ===== src/Prelude/Equality.antt =====
-- Go's `==` as an interface with its law, at numbers and at lists (so at byte strings).
use Prim.Native.Nat.{ℕ}
use mathlib.Core.Path.{◌≡◌, refl}
use mathlib.Core.Logic.{◌↔◌}
use mathlib.Core.Bool.{Bool, true, false, ◌&&◌}
use mathlib.Core.List.{List, [], ◌∷◌}
use native.Mathlib.Omega.{arith}
use tswipoexp.Prelude.Tests.{nat_eqb, nat_eqb_iff}

-- A comparable type, in the sense of the Go specification.
pub record Comparable {ℓ} (A : Type ℓ) : Type ℓ where
  pub same : A → A → Bool
  pub same_iff : (x y : A) → (same x y ≡ true) ↔ (x ≡ y)

infix 50 ◌==◌
abbrev pub ◌==◌ {ℓ} : {A : Type ℓ} ⦃c : Comparable A⦄ (x y : A) → Bool
◌==◌ ⦃c⦄ x y = c.same x y

module _ {ℓ} {A : Type ℓ} ⦃c : Comparable A⦄ where
  pub eq_iff : (x y : A) → ((x == y) ≡ true) ↔ (x ≡ y)
  eq_iff = c.same_iff

  pub eq_refl : (x : A) → (x == x) ≡ true
  eq_refl x = (c.same_iff x x).1 refl

  pub eq_comm : (x y : A) → (x == y) ≡ (y == x)
  eq_comm x y = ground (arith, eq_iff x y, eq_iff y x)

  unfoldable pub list_eqb : List A → List A → Bool
  list_eqb (x ∷ xs) (y ∷ ys) = x == y && list_eqb xs ys
  list_eqb (x ∷ xs) [] = false
  list_eqb [] (y ∷ ys) = false
  list_eqb [] [] = true

  pub list_eqb_iff : (xs ys : List A) → (list_eqb xs ys ≡ true) ↔ (xs ≡ ys)
  unfolding list_eqb
  list_eqb_iff (x ∷ xs) (y ∷ ys) = ground (arith, eq_iff x y, list_eqb_iff xs ys)
  list_eqb_iff (x ∷ xs) [] = ground arith
  list_eqb_iff [] (y ∷ ys) = ground arith
  list_eqb_iff [] [] = ground arith

instance abbrev pub list_eq {ℓ} : {A : Type ℓ} ⦃c : Comparable A⦄ → Comparable (List A)
list_eq = record { same = list_eqb; same_iff = list_eqb_iff }

instance abbrev pub nat_eq : Comparable ℕ
nat_eq = record { same = nat_eqb; same_iff = nat_eqb_iff }
