-- ===== src/Logs/ViewerTests.antt =====
-- The viewer of ui_logs.go at concrete lines.
use tswipoexp.Prelude.{ℕ, ◌≡◌, false, some, List, [], ◌∷◌, Bytes, codes, length, arith}
use tswipoexp.Logs.Sink.{new_log_sink}
use tswipoexp.Logs.Sink.History.{Call, writes, clears, run}
use tswipoexp.Logs.Viewer.{
  LogViewer, control, no_modifier, opening, tick, show_log_viewer, select_one, select_range,
  copy_selection, mouse_down,
}
use tswipoexp.Logs.Viewer.Watching.{
  Event, calls, ticks, clicks, follows, clear_button, happen, watch,
}
use tswipoexp.Logs.Viewer.Live.{watch-tick_lines}
use tswipoexp.Logs.Viewer.Selection.{select_range-copy}
use tswipoexp.Logs.Viewer.Selected.{InRange, no_rows, watch-InRange}

abbrev three : LogViewer
three = record opening { lines = codes "a" ∷ codes "b" ∷ codes "c" ∷ [] }

abbrev bottom : List Bytes → ℕ
bottom ls = length ls

abbrev before : List Call
before = writes (codes "one\n") ∷ clears ∷ writes (codes "two") ∷ []

abbrev events : List Event
events =
    calls (writes (codes "three") ∷ [])
    ∷ ticks (clears ∷ [])
    ∷ follows false
    ∷ clear_button
    ∷ calls (writes (codes "four") ∷ [])
    ∷ []

watch-tick_lines_example :
    let s = run new_log_sink before in
    let t = run s (writes (codes "late") ∷ []) in
    let x = watch bottom events (t, show_log_viewer bottom s t) in
    (tick bottom x.0 x.0 x.1).lines ≡ x.0.lines
unfolding new_log_sink
watch-tick_lines_example =
    watch-tick_lines bottom before (writes (codes "late") ∷ []) events (omega arith, omega arith)

select_range-copy_example :
    copy_selection (codes "\n") (select_range 0 (select_one 1 three)) ≡ some (codes "a\nb\n")
select_range-copy_example = select_range-copy (codes "\n") three 1 0 (omega arith) (omega arith)

watch-InRange_example :
    InRange
      (watch bottom
        (clicks no_modifier 2 ∷ clicks control 1 ∷ ticks [] ∷ [])
        (new_log_sink, three)).1
unfolding happen mouse_down select_one
watch-InRange_example =
    watch-InRange bottom (clicks no_modifier 2 ∷ clicks control 1 ∷ ticks [] ∷ [])
      (new_log_sink, three) (omega arith, (omega arith, (tt, tt))) (no_rows 3)
