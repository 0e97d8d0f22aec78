-- ===== src/Logs/Viewer/Selection.antt =====
-- What the viewer of ui_logs.go copies, and which rows it holds selected.
use Prim.Native.Nat.{max, min}
use native.Mathlib.Decide.{dec_lt}
use tswipoexp.Prelude.{
  ℕ, zero, suc, ◌+◌, ◌-◌, ◌≤◌, ◌<◌, ◌≡◌, refl, ap, ◌∙◌, true, false, ◌&&◌, ltb, leb, some, List, [],
  ◌∷◌, ◌++◌, Bytes, length, take, drop, drop-nil, arith, nat_eq, eq_iff, Bool-cases, inl, inr,
}
use tswipoexp.Logs.Viewer.{
  LogViewer, selects, rows_from, rows_between, selected_text, copy_selection, select_range,
  select_one, stop_following, smaller,
}

pub selects-rows_from : (lo n i : ℕ) → selects (rows_from lo n) i ≡ (leb lo i && ltb i (lo + n))
unfolding selects rows_from
selects-rows_from lo zero i = ground arith
selects-rows_from lo (suc n) i = ground (arith, selects-rows_from (suc lo) n i, eq_iff lo i)

-- Lines with a line end after each
abbrev pub terminated_by : Bytes → List Bytes → Bytes
terminated_by eol [] = []
terminated_by eol (l ∷ ls) = l ++ eol ++ terminated_by eol ls

take-nil : (n : ℕ) → take {A = Bytes} n [] ≡ []
take-nil zero = refl
take-nil (suc n) = refl

text_inside :
    (eol : Bytes) (lo n i : ℕ) (ls : List Bytes)
    → lo ≤ i
    → selected_text eol (rows_from lo n) i ls ≡ terminated_by eol (take (lo + n - i) ls)
unfolding selected_text
text_inside eol lo n i [] h = rw (take-nil (lo + n - i)) refl
text_inside eol lo n i (l ∷ ls) h = elim (dec_lt i (lo + n)) [
  | yes k ↦
      let here : selects (rows_from lo n) i ≡ true = selects-rows_from lo n i ∙ ground arith in
      let count : lo + n - i ≡ suc (lo + n - suc i) = omega arith in
      rw (here, count) (ap (λ t. l ++ eol ++ t) (text_inside eol lo n (suc i) ls (omega arith)))
  | no k ↦
      let here : selects (rows_from lo n) i ≡ false = selects-rows_from lo n i ∙ ground arith in
      let count : lo + n - i ≡ 0 = omega arith in
      let count' : lo + n - suc i ≡ 0 = omega arith in
      rw (here, count) (text_inside eol lo n (suc i) ls (omega arith) ∙ rw count' refl)
]

text_from :
    (eol : Bytes) (lo n i : ℕ) (ls : List Bytes)
    → i ≤ lo
    → selected_text eol (rows_from lo n) i ls ≡ terminated_by eol (take n (drop (lo - i) ls))
unfolding selected_text
text_from eol lo n i [] h = rw (drop-nil {A = Bytes} (lo - i), take-nil n) refl
text_from eol lo n i (l ∷ ls) h = elim (dec_lt i lo) [
  | yes k ↦
      let here : selects (rows_from lo n) i ≡ false = selects-rows_from lo n i ∙ ground arith in
      let count : lo - i ≡ suc (lo - suc i) = omega arith in
      rw (here, count) (text_from eol lo n (suc i) ls (omega arith))
  | no k ↦
      let count : lo - i ≡ 0 = omega arith in
      let count' : lo + n - i ≡ n = omega arith in
      rw count (
        text_inside eol lo n i (l ∷ ls) (omega arith)
        ∙ ap (λ m. terminated_by eol (take m (l ∷ ls))) count')
]

rows_from-copy :
    (eol : Bytes) (v : LogViewer) (lo n : ℕ)
    → copy_selection eol (record v { selected = rows_from lo (suc n) })
      ≡ some (terminated_by eol (take (suc n) (drop lo v.lines)))
unfolding copy_selection rows_from
rows_from-copy eol v lo n =
    let e : lo - 0 ≡ lo = omega arith in
    ap some (
      text_from eol lo (suc n) 0 v.lines (omega arith)
      ∙ ap (λ m. terminated_by eol (take (suc n) (drop m v.lines))) e)

range-copy :
    (eol : Bytes) (v : LogViewer) (lo hi : ℕ)
    → lo ≤ hi
    → hi < length v.lines
    → copy_selection eol (record v { selected = rows_between lo hi v.lines })
      ≡ some (terminated_by eol (take (suc hi - lo) (drop lo v.lines)))
unfolding rows_between
range-copy eol v lo hi le lt =
    let all : smaller (suc hi) (length v.lines) - lo ≡ suc (hi - lo) = ground arith in
    let count : suc hi - lo ≡ suc (hi - lo) = omega arith in
    rw (all, count) (rows_from-copy eol v lo (hi - lo))

-- A click on one row and a Shift-click on another, in either order, select what lies between: Copy
-- then puts the lines from the upper to the lower row on the clipboard, in order, each with a line end,
-- and no other line. The first click may come after any clicks; both rows are rows of the viewer.
pub select_range-copy :
    (eol : Bytes) (v : LogViewer) (a index : ℕ)
    → a < length v.lines
    → index < length v.lines
    → copy_selection eol (select_range index (select_one a v))
      ≡ some
          (terminated_by eol (take (suc (max a index) - min a index) (drop (min a index) v.lines)))
unfolding select_range select_one stop_following
select_range-copy eol v a index h k = elim (Bool-cases (ltb index a)) [
  | inl less ↦
      let e : max a index ≡ a = ground arith in
      let f : min a index ≡ index = ground arith in
      rw (less, e, f)
        (range-copy eol (record v { follow = false; anchor = some a }) index a (ground arith) h)
  | inr more ↦
      let e : max a index ≡ index = ground arith in
      let f : min a index ≡ a = ground arith in
      rw (more, e, f)
        (range-copy eol (record v { follow = false; anchor = some a }) a index (ground arith) k)
]
