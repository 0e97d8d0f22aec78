-- ===== src/Logs/Viewer/Selected.antt =====
-- Which rows the viewer of ui_logs.go holds selected.
use tswipoexp.Prelude.{
  ℕ, suc, ◌+◌, ◌-◌, ◌<◌, ◌≡◌, Bool, true, false, ◌&&◌, ltb, Option, none, some, List, [], ◌∷◌,
  Bytes, length, arith, ◌==◌, nat_eq, eq_iff, Bool-cases, inl, inr, length-append,
}
use tswipoexp.Logs.Sink.{LogSink, since}
use tswipoexp.Logs.Viewer.{
  Rows, LogViewer, Modifier, shift, control, no_modifier, selects, unselect, rows_between,
  select_range, toggle_select, clear_selection, range_from, select_one, stop_following, smaller,
  mouse_down, tapped_secondary, bounded, regenerated, update_count, nonempty, appended, pulled,
  pull, scroll_to_bottom, set_follow, notice_scroll, followed, tick, clear_viewer,
}
use tswipoexp.Logs.Sink.History.{run}
use tswipoexp.Logs.Viewer.Selection.{selects-rows_from}
use tswipoexp.Logs.Viewer.Watching.{
  Event, calls, ticks, clicks, right_clicks, follows, clear_button, happen, watch,
}

-- Every selected row is a row of the viewer.
abbrev pub InRange : LogViewer → Type 0
InRange v = (i : ℕ) → selects v.selected i ≡ true → i < length v.lines

pub no_rows : (n i : ℕ) → selects [] i ≡ true → i < n
unfolding selects
no_rows n i h = absurd (ground (arith, h))

selects-unselect :
    (k : ℕ) (rows : Rows) (i : ℕ) → selects (unselect k rows) i ≡ true → selects rows i ≡ true
unfolding selects unselect
selects-unselect k [] i h = h
selects-unselect k (j ∷ rows) i h = elim (Bool-cases (j == k)) [
  | inl e ↦ ground (arith, selects-unselect k rows i (ground (arith, e, h)))
  | inr e ↦ ground (arith, e, h, selects-unselect k rows i)
]

select_one-InRange :
    (index : ℕ) (v : LogViewer) → index < length v.lines → InRange (select_one index v)
unfolding select_one stop_following selects
select_one-InRange index v k i h = ground (arith, eq_iff index i, h)

toggle_select-InRange :
    (index : ℕ) (v : LogViewer)
    → index < length v.lines
    → InRange v
    → InRange (toggle_select index v)
unfolding toggle_select stop_following selects
toggle_select-InRange index v k r = elim (Bool-cases (selects v.selected index)) [
  | inl on ↦ rw on (λ i h. r i (selects-unselect index v.selected i h))
  | inr off ↦ rw off (λ i h. ground (arith, eq_iff index i, h, r i))
]

rows_between-lt :
    (lo hi : ℕ) (ls : List Bytes) (i : ℕ) → selects (rows_between lo hi ls) i ≡ true → i < length ls
unfolding rows_between
rows_between-lt lo hi ls i h =
    ground (arith, selects-rows_from lo (smaller (suc hi) (length ls) - lo) i, h)

range_from-InRange :
    (a : Option ℕ) (index : ℕ) (v : LogViewer)
    → index < length v.lines
    → InRange (range_from a index v)
unfolding stop_following
range_from-InRange none index v k = select_one-InRange index v k
range_from-InRange (some a) index v k = elim (Bool-cases (ltb index a)) [
  | inl e ↦ rw e (rows_between-lt index a v.lines)
  | inr e ↦ rw e (rows_between-lt a index v.lines)
]

mouse_down-InRange :
    (m : Modifier) (index : ℕ) (v : LogViewer)
    → index < length v.lines
    → InRange v
    → InRange (mouse_down m index v)
unfolding mouse_down select_range
mouse_down-InRange shift index v k r = range_from-InRange v.anchor index v k
mouse_down-InRange control index v k r = toggle_select-InRange index v k r
mouse_down-InRange no_modifier index v k r = select_one-InRange index v k

tapped_secondary-InRange :
    (index : ℕ) (v : LogViewer)
    → index < length v.lines
    → InRange v
    → InRange (tapped_secondary index v)
unfolding tapped_secondary
tapped_secondary-InRange index v k r = elim (Bool-cases (selects v.selected index)) [
  | inl e ↦ rw e r
  | inr e ↦ rw e (select_one-InRange index v k)
]

bounded-InRange : (n : ℕ) (v : LogViewer) → InRange v → InRange (bounded n v)
unfolding bounded
bounded-InRange n v r = elim (Bool-cases (ltb n (length v.lines))) [
  | inl e ↦ rw e (no_rows _)
  | inr e ↦ rw e r
]

regenerated-InRange : (g : ℕ) (v : LogViewer) → InRange v → InRange (regenerated g v)
unfolding regenerated
regenerated-InRange g v r = elim (Bool-cases (g == v.gen)) [
  | inl e ↦ rw e r
  | inr e ↦ rw e (no_rows _)
]

pulled-InRange :
    (changed : Bool) (s : LogSink) (v : LogViewer) → InRange v → InRange (pulled changed s v).0
unfolding update_count
pulled-InRange true s v r = bounded-InRange _ v r
pulled-InRange false s v r = r

pull-InRange : (s s' : LogSink) (v : LogViewer) → InRange v → InRange (pull s s' v).0
unfolding pull
pull-InRange s s' v r =
    let f = since v.next s in
    let w = regenerated f.gen v in
    pulled-InRange _ s' (appended f w)
      (λ i h. omega (arith, regenerated-InRange f.gen v r i h, length-append w.lines f.lines))

module _ (bottom_of : List Bytes → ℕ) where
  scroll_to_bottom-InRange : (v : LogViewer) → InRange v → InRange (scroll_to_bottom bottom_of v)
  unfolding scroll_to_bottom
  scroll_to_bottom-InRange v r = elim (Bool-cases v.shown) [ inl e ↦ rw e r | inr e ↦ rw e r ]

  set_follow-InRange : (on : Bool) (v : LogViewer) → InRange v → InRange (set_follow bottom_of on v)
  unfolding set_follow
  set_follow-InRange true v r =
      scroll_to_bottom-InRange (clear_selection (record v { follow = true })) (no_rows _)
  set_follow-InRange false v r = r

  notice_scroll-InRange : (v : LogViewer) → InRange v → InRange (notice_scroll bottom_of v)
  unfolding notice_scroll
  notice_scroll-InRange v r =
      elim (Bool-cases (v.follow && nonempty v.lines && ltb (v.offset + 1) v.last_bottom)) [
        | inl e ↦ rw e (set_follow-InRange false v r)
        | inr e ↦ rw e r
      ]

  followed-InRange : (x : LogViewer × Bool) → InRange x.0 → InRange (followed bottom_of x)
  followed-InRange (v, changed) r = elim (Bool-cases (changed && v.follow)) [
    | inl e ↦ rw e (scroll_to_bottom-InRange v r)
    | inr e ↦ rw e r
  ]

  -- A click is on a row that the viewer has.
  abbrev pub OnRow : Event → LogViewer → Type 0
  OnRow (clicks m i) v = i < length v.lines
  OnRow (right_clicks i) v = i < length v.lines
  OnRow (calls cs) v = Unit
  OnRow (ticks cs) v = Unit
  OnRow (follows on) v = Unit
  OnRow clear_button v = Unit

  happen-InRange :
      (e : Event) (x : LogSink × LogViewer)
      → OnRow e x.1
      → InRange x.1
      → InRange (happen bottom_of e x).1
  unfolding happen tick clear_viewer update_count
  happen-InRange (calls cs) (s, v) k r = r
  happen-InRange (ticks cs) (s, v) k r =
      let w = notice_scroll bottom_of v in
      followed-InRange (pull s (run s cs) w)
        (pull-InRange s (run s cs) w (notice_scroll-InRange v r))
  happen-InRange (clicks m i) (s, v) k r = mouse_down-InRange m i v k r
  happen-InRange (right_clicks i) (s, v) k r = tapped_secondary-InRange i v k r
  happen-InRange (follows on) (s, v) k r = set_follow-InRange on v r
  happen-InRange clear_button (s, v) k r = no_rows _

  -- Each click is on a row that the viewer has at the time.
  abbrev pub OnRows : List Event → LogSink × LogViewer → Type 0
  OnRows [] x = Unit
  OnRows (e ∷ es) x = OnRow e x.1 × OnRows es (happen bottom_of e x)

  -- If every selected row is a row of the viewer, then it is so after any events, in which each click
  -- is on a row that the viewer has at the time: whenever lines go, the selection goes with them.
  pub watch-InRange :
      (es : List Event) (x : LogSink × LogViewer)
      → OnRows es x
      → InRange x.1
      → InRange (watch bottom_of es x).1
  unfolding watch
  watch-InRange [] x k r = r
  watch-InRange (e ∷ es) x (now, k) r =
      watch-InRange es (happen bottom_of e x) k (happen-InRange e x now r)
