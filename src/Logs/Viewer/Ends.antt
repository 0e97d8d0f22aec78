-- ===== src/Logs/Viewer/Ends.antt =====
-- The end of a list, and what is left of it when the list grows or is cut.
use native.Mathlib.Decide.{dec_le}
use tswipoexp.Prelude.{
  ℕ, ◌+◌, ◌-◌, ◌≤◌, ◌≡◌, sym, ap, ◌∙◌, List, ◌++◌, Bytes, length, drop, arith, length-append,
  length-drop, drop-drop, drop-of_le, drop-append_left,
}
use tswipoexp.Logs.Sink.Reading.{drop-length-append}

-- `ys` is the end of `xs`.
abbrev pub Ends : List Bytes → List Bytes → Type 0
Ends ys xs = (length ys ≤ length xs) × (drop (length xs - length ys) xs ≡ ys)

pub Ends-refl : (xs : List Bytes) → Ends xs xs
Ends-refl xs = let e : length xs - length xs ≡ 0 = omega arith in (omega arith, rw e)

pub Ends-append : (xs ys zs : List Bytes) → Ends ys xs → Ends (ys ++ zs) (xs ++ zs)
Ends-append xs ys zs (le, e) =
    let gap : length (xs ++ zs) - length (ys ++ zs) ≡ length xs - length ys =
      omega (arith, length-append xs zs, length-append ys zs) in
    (
      omega (arith, length-append xs zs, length-append ys zs),
      rw gap (drop-append_left (length xs - length ys) xs zs (omega arith) ∙ ap (λ t. t ++ zs) e),
    )

pub Ends-append_right : (xs ys : List Bytes) → Ends ys (xs ++ ys)
Ends-append_right xs ys =
    let gap : length (xs ++ ys) - length ys ≡ length xs = omega (arith, length-append xs ys) in
    (omega (arith, length-append xs ys), rw gap (drop-length-append xs ys))

-- Less of the end
pub Ends-drop : (n : ℕ) (xs ys : List Bytes) → Ends ys xs → Ends (drop n ys) xs
Ends-drop n xs ys (le, e) = (omega (arith, length-drop n ys), rest)
  where
    rest : drop (length xs - length (drop n ys)) xs ≡ drop n ys
    rest = elim (dec_le n (length ys)) [
      | yes h ↦
          let gap : length xs - length (drop n ys) ≡ length xs - length ys + n =
            omega (arith, length-drop n ys) in
          rw gap (sym (drop-drop n (length xs - length ys) xs) ∙ ap (drop n) e)
      | no h ↦
          let gap : length xs - length (drop n ys) ≡ length xs = omega (arith, length-drop n ys) in
          rw gap (drop-of_le (length xs) xs (omega arith) ∙ sym (drop-of_le n ys (omega arith)))
    ]

-- The end of a shorter list
pub drop-Ends :
    (n : ℕ) (xs ys : List Bytes) → length ys ≤ n → Ends ys xs → Ends ys (drop (length xs - n) xs)
drop-Ends n xs ys fits (le, e) =
    let gap : length xs - n + (length (drop (length xs - n) xs) - length ys)
        ≡ length xs - length ys =
      omega (arith, length-drop (length xs - n) xs) in
    (omega (arith, length-drop (length xs - n) xs), drop-drop _ (length xs - n) xs ∙ rw gap e)
