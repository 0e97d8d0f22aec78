-- ===== src/Prelude/Trim.antt =====
-- When `strings.TrimSpace` changes nothing.
use Prim.Native.Nat.{ℕ, zero, suc, ◌≤◌}
use mathlib.Core.Path.{◌≡◌, refl, ap, ◌∙◌}
use mathlib.Core.Logic.{◌↔◌, ◌⊎◌, inl, inr}
use mathlib.Core.List.{List, [], ◌∷◌, map, reverse, reverse-cons, reverse-reverse}
use native.Mathlib.Omega.{arith}
use tswipoexp.Prelude.Lists.{length, length-append}
use tswipoexp.Prelude.Strings.{Bytes, spaces, prefix_width, trim_front, trim_space}

pub length-reverse {ℓ} : {A : Type ℓ} (xs : List A) → length (reverse xs) ≡ length xs
length-reverse [] = refl
length-reverse (x ∷ xs) =
    let one_more = length-append (reverse xs) (x ∷ []) in
    let shorter = length-reverse xs in ap length (reverse-cons x xs) ∙ omega arith

pub ℕ-cases : (n : ℕ) → (n ≡ 0) ⊎ ((k : ℕ) × (n ≡ suc k))
ℕ-cases zero = inl refl
ℕ-cases (suc k) = inr (k, refl)

module _ (ws : List Bytes) where
  length-trim_front-le : (skip : ℕ) (s : Bytes) → length (trim_front ws skip s) ≤ length s
  unfolding trim_front
  length-trim_front-le skip [] = omega arith
  length-trim_front-le (suc skip) (c ∷ cs) = omega (arith, length-trim_front-le skip cs)
  length-trim_front-le zero (c ∷ cs) = elim (ℕ-cases (prefix_width ws (c ∷ cs))) [
    | inl e ↦ rw (e, trim_front) (omega arith)
    | inr (w, e) ↦ rw (e, trim_front) (omega (arith, length-trim_front-le w cs))
  ]

  trim_front-eq_self : (s : Bytes) → prefix_width ws s ≡ 0 → trim_front ws 0 s ≡ s
  unfolding trim_front
  trim_front-eq_self [] h = refl
  trim_front-eq_self (c ∷ cs) h = rw (h, trim_front)

  prefix_width-eq_zero :
      (s : Bytes)
      → prefix_width ws [] ≡ 0
      → length s ≤ length (trim_front ws 0 s)
      → prefix_width ws s ≡ 0
  unfolding trim_front
  prefix_width-eq_zero [] h k = h
  prefix_width-eq_zero (c ∷ cs) h k = elim (ℕ-cases (prefix_width ws (c ∷ cs))) [
    | inl e ↦ e
    | inr (w, e) ↦
        let k' : suc (length cs) ≤ length (trim_front ws w cs) = rw (e, trim_front) at k in
        absurd (omega (arith, k', length-trim_front-le w cs))
  ]

-- No space at either end.
pub trim_space-eq_self_iff :
    (s : Bytes)
    → (trim_space s ≡ s)
      ↔ ((prefix_width spaces s ≡ 0) × (prefix_width (map reverse spaces) (reverse s) ≡ 0))
unfolding trim_space
trim_space-eq_self_iff s = (forth, back)
  where
    inner : Bytes
    inner = trim_front spaces 0 s

    long : trim_space s ≡ s → length s ≤ length inner
    long h = omega (
      arith,
      ap length h,
      length-reverse (trim_front (map reverse spaces) 0 (reverse inner)),
      length-trim_front-le (map reverse spaces) 0 (reverse inner),
      length-reverse inner,
    )

    forth :
        trim_space s ≡ s
        → (prefix_width spaces s ≡ 0) × (prefix_width (map reverse spaces) (reverse s) ≡ 0)
    forth h =
        let front = prefix_width-eq_zero spaces s refl (long h) in
        (
          front,
          prefix_width-eq_zero (map reverse spaces) (reverse s) refl (
              omega (
                arith,
                ap length h,
                length-reverse (trim_front (map reverse spaces) 0 (reverse inner)),
                ap (λ t. length (trim_front (map reverse spaces) 0 (reverse t)))
                    (trim_front-eq_self spaces s front),
                length-reverse s,
              )),
        )

    back :
        (prefix_width spaces s ≡ 0) × (prefix_width (map reverse spaces) (reverse s) ≡ 0)
        → trim_space s ≡ s
    back (front, end) =
        rw
          (
            trim_front-eq_self spaces s front,
            trim_front-eq_self (map reverse spaces) (reverse s) end,
          )
          (reverse-reverse s)
