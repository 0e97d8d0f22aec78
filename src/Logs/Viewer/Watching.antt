-- ===== src/Logs/Viewer/Watching.antt =====
-- A viewer and the sink over time.
use tswipoexp.Prelude.{
  ℕ, ◌≡◌, refl, ◌∙◌, Bool, true, false, Option, none, some, List, [], ◌∷◌, ◌++◌, Bytes, arith,
}
use tswipoexp.Logs.Sink.{LogSink, clear}
use tswipoexp.Logs.Sink.History.{Call, clears, run}
use tswipoexp.Logs.Viewer.{
  LogViewer, Modifier, shift, control, no_modifier, mouse_down, select_range, select_one,
  toggle_select, range_from, set_follow, notice_scroll, scroll_to_bottom, tick, followed,
  clear_viewer, clear_selection, stop_following, tapped_secondary,
}
use tswipoexp.Logs.Viewer.Following.{Tracks}

-- The same lines and numbers, whatever else the viewer has
abbrev pub Agrees : LogViewer → LogViewer → Type 0
Agrees v w = (v.lines ≡ w.lines) × (v.next ≡ w.next) × (v.gen ≡ w.gen)

Agrees-refl : (v : LogViewer) → Agrees v v
Agrees-refl v = (refl, refl, refl)

range_from-Agrees : (a : Option ℕ) (i : ℕ) (v : LogViewer) → Agrees (range_from a i v) v
unfolding select_one stop_following
range_from-Agrees none i v = Agrees-refl v
range_from-Agrees (some k) i v = Agrees-refl v

pub mouse_down-Agrees : (m : Modifier) (i : ℕ) (v : LogViewer) → Agrees (mouse_down m i v) v
unfolding mouse_down select_range toggle_select select_one stop_following
mouse_down-Agrees shift i v = range_from-Agrees v.anchor i v
mouse_down-Agrees control i v = ground arith
mouse_down-Agrees no_modifier i v = Agrees-refl v

pub tapped_secondary-Agrees : (i : ℕ) (v : LogViewer) → Agrees (tapped_secondary i v) v
unfolding tapped_secondary select_one stop_following
tapped_secondary-Agrees i v = ground arith

pub Tracks-Agrees :
    (v w : LogViewer) (s : LogSink) (hist : List Bytes)
    → Agrees w v
    → Tracks v s hist
    → Tracks w s hist
Tracks-Agrees v w s hist (lines, next, gen) k = record {
  seen = k.seen;
  more = k.more;
  hist_eq = k.hist_eq;
  next_eq = next ∙ k.next_eq;
  gen_le = omega (arith, gen, k.gen_le);
  cleared = ground (arith, k.cleared, next, gen);
  ends = rw lines k.ends;
  newest = ground (arith, k.newest, next, gen);
  settled = ground (arith, k.settled, next, gen, lines);
}

-- What happens to the sink and the viewer. A tick has the calls that others make during its pull.
pub data Event : Type 0 where
  calls : List Call → Event
  ticks : List Call → Event
  clicks : Modifier → ℕ → Event
  right_clicks : ℕ → Event
  follows : Bool → Event
  clear_button : Event

abbrev pub calls_of : Event → List Call
calls_of (calls cs) = cs
calls_of (ticks cs) = cs
calls_of (clicks m i) = []
calls_of (right_clicks i) = []
calls_of (follows on) = []
calls_of clear_button = clears ∷ []

abbrev pub all_calls : List Event → List Call
all_calls [] = []
all_calls (e ∷ es) = calls_of e ++ all_calls es

module _ (bottom_of : List Bytes → ℕ) where
  unfoldable pub happen : Event → LogSink × LogViewer → LogSink × LogViewer
  happen (calls cs) (s, v) = (run s cs, v)
  happen (ticks cs) (s, v) = (run s cs, tick bottom_of s (run s cs) v)
  happen (clicks m i) (s, v) = (s, mouse_down m i v)
  happen (right_clicks i) (s, v) = (s, tapped_secondary i v)
  happen (follows on) (s, v) = (s, set_follow bottom_of on v)
  happen clear_button (s, v) = (clear s, clear_viewer (clear s) v)

  unfoldable pub watch : List Event → LogSink × LogViewer → LogSink × LogViewer
  watch [] x = x
  watch (e ∷ es) x = watch es (happen e x)

  pub scroll_to_bottom-Agrees : (v : LogViewer) → Agrees (scroll_to_bottom bottom_of v) v
  unfolding scroll_to_bottom
  scroll_to_bottom-Agrees v = ground arith

  pub set_follow-Agrees : (on : Bool) (v : LogViewer) → Agrees (set_follow bottom_of on v) v
  unfolding set_follow
  set_follow-Agrees true v = scroll_to_bottom-Agrees (clear_selection (record v { follow = true }))
  set_follow-Agrees false v = Agrees-refl v

  pub notice_scroll-Agrees : (v : LogViewer) → Agrees (notice_scroll bottom_of v) v
  unfolding notice_scroll
  notice_scroll-Agrees v = ground (arith, set_follow-Agrees false v)

  pub followed-Agrees : (x : LogViewer × Bool) → Agrees (followed bottom_of x) x.0
  followed-Agrees (v, changed) = ground (arith, scroll_to_bottom-Agrees v)
