-- ===== src/Logs/Viewer/Following.antt =====
-- The viewer of ui_logs.go shows what the sink holds.
use Prim.Native.Nat.{max}
use mathlib.Core.Path.{subst}
use native.Mathlib.Decide.{dec_le}
use mathlib.Core.List.{append_assoc}
use tswipoexp.Prelude.{
  ℕ, ◌-◌, ◌≤◌, ◌<◌, ◌≡◌, refl, sym, ap, ◌∙◌, ◌⊎◌, inl, inr, true, false, Bool-cases, ltb, List, [],
  ◌∷◌, ◌++◌, Bytes, length, drop, arith, ◌==◌, nat_eq, eq_iff, length-append, drop-drop,
  drop-append_left,
}
use tswipoexp.Logs.Sink.{LogSink, since}
use tswipoexp.Logs.Sink.History.{Matches}
use tswipoexp.Logs.Sink.Reading.{since_lem, drop-length-append}
use tswipoexp.Logs.Sink.Later.{Later}
use tswipoexp.Logs.Viewer.Ends.{Ends, Ends-append, Ends-append_right, Ends-drop, drop-Ends}
use tswipoexp.Logs.Viewer.{LogViewer, regenerated, bounded, appended, nonempty}

-- The viewer has the end of what was written up to its number, as far as the sink holds it; and if
-- nothing has been written or cleared since, it has exactly the sink's lines.
pub record Tracks (v : LogViewer) (s : LogSink) (hist : List Bytes) : Type 0 where
  pub seen : List Bytes
  pub more : List Bytes
  pub hist_eq : hist ≡ seen ++ more
  pub next_eq : v.next ≡ length seen
  pub gen_le : v.gen ≤ s.gen
  pub cleared : (v.gen ≡ s.gen) ⊎ (v.next ≤ s.first)
  pub ends : Ends (drop s.first seen) v.lines
  pub newest : (v.next ≡ s.next) ⊎ ((v.gen < s.gen) ⊎ (s.first < s.next))
  pub settled : (v.next < s.next) ⊎ ((v.gen < s.gen) ⊎ (v.lines ≡ s.lines))

pub Tracks-Later :
    (v : LogViewer) (s t : LogSink) (hist later : List Bytes)
    → Matches hist s
    → Tracks v s hist
    → Later s t
    → Tracks v t (hist ++ later)
Tracks-Later v s t hist later m k l = record {
  seen = k.seen;
  more = k.more ++ later;
  hist_eq = rw (← append_assoc k.seen k.more later) (ap (λ h. h ++ later) k.hist_eq);
  next_eq = k.next_eq;
  gen_le = omega (arith, k.gen_le, l.gen_le);
  cleared = ground (arith, k.cleared, l.cleared, next_le, l.first_le);
  ends =
      subst (λ ys. Ends ys v.lines) further
        (Ends-drop (t.first - s.first) v.lines (drop s.first k.seen) k.ends);
  newest = ground (arith, k.newest, l.newest, l.same, k.gen_le, l.gen_le, next_le, l.next_le);
  settled = ground (arith, k.settled, l.same, k.gen_le, l.gen_le, next_le, l.next_le);
}
  where
    further : drop (t.first - s.first) (drop s.first k.seen) ≡ drop t.first k.seen
    further =
        drop-drop (t.first - s.first) s.first k.seen
        ∙ ap (λ n. drop n k.seen) (omega (arith, l.first_le))

    next_le : v.next ≤ s.next
    next_le = omega (arith, k.next_eq, m.next_eq, ap length k.hist_eq, length-append k.seen k.more)

-- A number from before the oldest line held gets all lines.
pub fetches_all :
    (v : LogViewer) (s : LogSink) (hist : List Bytes)
    → Matches hist s
    → v.next ≤ s.first
    → (since v.next s).lines ≡ s.lines
fetches_all v s hist m h =
    let e : max v.next s.first ≡ s.first = omega arith in
    (since_lem hist v.next s m).0 ∙ ap (λ n. drop n hist) e ∙ sym m.lines_eq

fetches_more :
    (v : LogViewer) (s : LogSink) (hist : List Bytes)
    → Matches hist s
    → (k : Tracks v s hist) → s.first ≤ v.next
    → (since v.next s).lines ≡ k.more
fetches_more v s hist m k h =
    let e : max v.next s.first ≡ length k.seen = omega (arith, k.next_eq) in
    (since_lem hist v.next s m).0
    ∙ ap (λ n. drop n hist) e
    ∙ ap (drop (length k.seen)) k.hist_eq
    ∙ drop-length-append k.seen k.more

-- The viewer with the lines from Since, before the bound, ends with the sink's lines.
pub caught_up :
    (v : LogViewer) (s : LogSink) (hist : List Bytes)
    → Matches hist s
    → Tracks v s hist
    → Ends s.lines (appended (since v.next s) (regenerated s.gen v)).lines
unfolding regenerated
caught_up v s hist m k = elim (Bool-cases (s.gen == v.gen)) [
  | inr other ↦
      let old : v.next ≤ s.first = ground (arith, other, k.cleared) in
      rw (other, fetches_all v s hist m old) (Ends-append_right [] s.lines)
  | inl same ↦ elim (dec_le s.first v.next) [
    | no h ↦ rw (same, fetches_all v s hist m (omega arith)) (Ends-append_right v.lines s.lines)
    | yes h ↦
        let held : s.lines ≡ drop s.first k.seen ++ k.more =
          m.lines_eq
          ∙ ap (drop s.first) k.hist_eq
          ∙ drop-append_left s.first k.seen k.more (omega (arith, k.next_eq)) in
        rw (same, fetches_more v s hist m k h, held)
          (Ends-append v.lines (drop s.first k.seen) k.more k.ends)
  ]
]

pub bounded-Ends :
    (n : ℕ) (v : LogViewer) (ys : List Bytes)
    → length ys ≤ n
    → Ends ys v.lines
    → Ends ys (bounded n v).lines
unfolding bounded
bounded-Ends n v ys h e = elim (Bool-cases (ltb n (length v.lines))) [
  | inl over ↦ rw over (drop-Ends n v.lines ys h e)
  | inr under ↦ rw under e
]

pub bounded-eq :
    (v : LogViewer) (ys : List Bytes) → Ends ys v.lines → (bounded (length ys) v).lines ≡ ys
unfolding bounded
bounded-eq v ys (le, e) = elim (Bool-cases (ltb (length ys) (length v.lines))) [
  | inl over ↦ rw over e
  | inr under ↦
      let gap : length v.lines - length ys ≡ 0 = ground arith in
      rw under (sym (ap (λ n. drop n v.lines) gap) ∙ e)
]

-- A viewer with the numbers of `s` and enough of its lines, when the sink has become `t`
pub Tracks-from :
    (v : LogViewer) (s t : LogSink) (hist later : List Bytes)
    → Matches hist s
    → Later s t
    → v.next ≡ s.next
    → v.gen ≡ s.gen
    → Ends (drop t.first hist) v.lines
    → (s.lines ≡ t.lines → v.lines ≡ s.lines)
    → Tracks v t (hist ++ later)
Tracks-from v s t hist later m l next gen ends exact = record {
  seen = hist;
  more = later;
  hist_eq = refl;
  next_eq = next ∙ m.next_eq;
  gen_le = omega (arith, gen, l.gen_le);
  cleared = ground (arith, l.cleared, next, gen);
  ends = ends;
  newest = ground (arith, l.newest, next, gen);
  settled = settle l.same;
}
  where
    settle :
        (s.next < t.next) ⊎ ((s.gen < t.gen) ⊎ ((s.lines ≡ t.lines) × (s.first ≡ t.first)))
        → (v.next < t.next) ⊎ ((v.gen < t.gen) ⊎ (v.lines ≡ t.lines))
    settle (inl h) = inl (omega (arith, next))
    settle (inr (inl h)) = inr (inl (omega (arith, gen)))
    settle (inr (inr (e, f))) = inr (inr (exact e ∙ e))

pub bounded_numbers :
    (n : ℕ) (v : LogViewer) → ((bounded n v).next ≡ v.next) × ((bounded n v).gen ≡ v.gen)
unfolding bounded
bounded_numbers n v = ground arith

pub regenerated-gen : (g : ℕ) (v : LogViewer) → (regenerated g v).gen ≡ g
unfolding regenerated
regenerated-gen g v = ground (arith, eq_iff g v.gen)

pub regenerated-eq_self : (g : ℕ) (v : LogViewer) → (g == v.gen) ≡ true → regenerated g v ≡ v
unfolding regenerated
regenerated-eq_self g v e = rw e refl

pub nonempty-false : (ls : List Bytes) → nonempty ls ≡ false → ls ≡ []
nonempty-false [] e = refl
nonempty-false (l ∷ ls) e = absurd (ground (arith, e))
