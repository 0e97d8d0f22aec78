-- ===== src/Logs/Viewer/Pulling.antt =====
-- `pull` of ui_logs.go while others write to the sink.
use Prim.Native.Nat.{max}
use mathlib.Core.Path.{subst}
use mathlib.Core.List.{append-nil}
use tswipoexp.Prelude.{
  ◌-◌, ◌≤◌, ◌<◌, ◌≡◌, refl, sym, ap, ◌∙◌, ◌⊎◌, inl, inr, Bool, true, false, not, ◌||◌, List, [],
  ◌++◌, Bytes, length, drop, arith, ◌==◌, nat_eq, eq_iff, length-append, length-drop, drop-drop,
}
use tswipoexp.Logs.Sink.{LogSink, since, stats, Fetched}
use tswipoexp.Logs.Sink.History.{Matches, length-lines}
use tswipoexp.Logs.Sink.Reading.{since_lem}
use tswipoexp.Logs.Sink.Later.{Later}
use tswipoexp.Logs.Viewer.{
  LogViewer, pull, pulled, regenerated, bounded, update_count, appended, nonempty,
}
use tswipoexp.Logs.Viewer.Ends.{Ends, Ends-drop}
use tswipoexp.Logs.Viewer.Following.{
  Tracks, Tracks-from, caught_up, bounded-Ends, bounded-eq, bounded_numbers, regenerated-gen,
  regenerated-eq_self, nonempty-false,
}

-- What a viewer ought to be after a pull at `s` and `t`.
abbrev Pulled : LogSink → LogSink → List Bytes → LogViewer → Type 0
Pulled s t hist v =
    (v.next ≡ s.next)
    × (v.gen ≡ s.gen)
    × Ends (drop t.first hist) v.lines
    × (s.lines ≡ t.lines → v.lines ≡ s.lines)

nothing_new :
    (v : LogViewer) (s : LogSink) (hist : List Bytes)
    → Matches hist s
    → Tracks v s hist
    → v.gen ≡ s.gen
    → (since v.next s).lines ≡ []
    → v.lines ≡ s.lines
nothing_new v s hist m k same none_new = go k.settled k.newest
  where
    passed : s.next ≤ max v.next s.first
    passed = omega (
      arith,
      m.next_eq,
      length-drop (max v.next s.first) hist,
      ap length (sym (since_lem hist v.next s m).0 ∙ none_new),
    )

    go :
        (v.next < s.next) ⊎ ((v.gen < s.gen) ⊎ (v.lines ≡ s.lines))
        → (v.next ≡ s.next) ⊎ ((v.gen < s.gen) ⊎ (s.first < s.next))
        → v.lines ≡ s.lines
    go (inr (inr e)) n = e
    go (inr (inl h)) n = absurd (omega (arith, same))
    go (inl h) n = absurd (ground (arith, n, same, passed))

module _ (v : LogViewer) (s t : LogSink) (hist later : List Bytes) (m : Matches hist s)
    (n : Matches (hist ++ later) t) (l : Later s t) (k : Tracks v s hist) where
  held_end : (xs : List Bytes) → Ends s.lines xs → Ends (drop t.first hist) xs
  held_end xs e =
      let further : drop (t.first - s.first) s.lines ≡ drop t.first hist =
        ap (drop (t.first - s.first)) m.lines_eq
        ∙ drop-drop (t.first - s.first) s.first hist
        ∙ ap (λ n. drop n hist) (omega (arith, l.first_le)) in
      subst (λ ys. Ends ys xs) further (Ends-drop (t.first - s.first) xs s.lines e)

  changed-Pulled :
      (w : LogViewer)
      → w.next ≡ s.next
      → w.gen ≡ s.gen
      → Ends s.lines w.lines
      → Pulled s t hist (update_count t (bounded (stats t).0 w))
  unfolding update_count stats
  changed-Pulled w next gen e = (
    (bounded_numbers (length t.lines) w).0 ∙ next,
    (bounded_numbers (length t.lines) w).1 ∙ gen,
    bounded-Ends (length t.lines) w (drop t.first hist) fits (held_end w.lines e),
    λ same. subst (λ ls. (bounded (length ls) w).lines ≡ s.lines) same (bounded-eq w s.lines e),
  )
    where
      fits : length (drop t.first hist) ≤ length t.lines
      fits = omega (
        arith,
        length-drop t.first hist,
        length-lines (hist ++ later) t n,
        n.next_eq,
        length-append hist later,
      )

  fetched : Fetched
  fetched = since v.next s

  grown : LogViewer
  unfolding fetched
  grown = appended fetched (regenerated fetched.gen v)

  grown_next : grown.next ≡ s.next
  unfolding grown
  grown_next = (since_lem hist v.next s m).1 ∙ sym m.next_eq

  grown_gen : grown.gen ≡ s.gen
  unfolding grown
  grown_gen = regenerated-gen fetched.gen v ∙ (since_lem hist v.next s m).2

  grown-Ends : Ends s.lines grown.lines
  unfolding grown
  grown-Ends =
      subst (λ g. Ends s.lines (appended (since v.next s) (regenerated g v)).lines)
        (sym (since_lem hist v.next s m).2) (caught_up v s hist m k)

  unchanged-Pulled :
      (fetched.gen == v.gen) ≡ true → nonempty fetched.lines ≡ false → Pulled s t hist grown
  unfolding grown
  unchanged-Pulled same none_new = (
    grown_next,
    grown_gen,
    held_end grown.lines grown-Ends,
    λ e.
        ap (λ x. x.lines ++ fetched.lines) (regenerated-eq_self fetched.gen v same)
        ∙ ap (λ ls. v.lines ++ ls) (nonempty-false fetched.lines none_new)
        ∙ append-nil v.lines
        ∙ nothing_new v s hist m k
            (sym ((eq_iff fetched.gen v.gen).0 same) ∙ (since_lem hist v.next s m).2)
            (nonempty-false fetched.lines none_new),
  )

  pulled-Pulled :
      (changed : Bool)
      → (changed ≡ false → Pulled s t hist grown)
      → Pulled s t hist (pulled changed t grown).0
  pulled-Pulled true unchanged = changed-Pulled grown grown_next grown_gen grown-Ends
  pulled-Pulled false unchanged = unchanged refl

  pull-Pulled : Pulled s t hist (pull s t v).0
  unfolding pull grown fetched
  pull-Pulled =
      pulled-Pulled (not (fetched.gen == v.gen) || nonempty fetched.lines)
        (λ e. unchanged-Pulled (ground (arith, e)) (ground (arith, e)))

  pub pull-Tracks : Tracks (pull s t v).0 t (hist ++ later)
  pull-Tracks =
      let (next, gen, ends, exact) = pull-Pulled in
      Tracks-from (pull s t v).0 s t hist later m l next gen ends exact

  -- With nothing written in between, the viewer shows exactly the sink's lines.
  pub pull-lines : s.lines ≡ t.lines → (pull s t v).0.lines ≡ s.lines
  pull-lines = pull-Pulled.3
