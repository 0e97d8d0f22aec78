-- ===== src/Logs/Viewer/Live.antt =====
-- What the viewer shows after anything that may happen.
use mathlib.Core.Path.{subst}
use mathlib.Core.List.{append-nil}
use tswipoexp.Prelude.{
  ℕ, suc, ◌≤◌, ◌<◌, ◌≡◌, refl, ap, ◌∙◌, inl, inr, true, List, [], ◌∷◌, ◌++◌, Bytes, length, arith,
  length-append, drop-of_le,
}
use tswipoexp.Logs.Sink.{LogSink, u64_mod, new_log_sink, clear}
use tswipoexp.Logs.Sink.History.{
  Matches, new_log_sink-Matches, clear-Matches, Call, step, run, history,
}
use tswipoexp.Logs.Sink.Later.{
  history-append, run-append, Later, Later-refl, clear-Later, clear-gen, HasRoom, HasRoom-append,
  run-Later,
}
use tswipoexp.Logs.Viewer.{
  LogViewer, notice_scroll, tick, pull, opening, show_log_viewer, clear_viewer, update_count,
}
use tswipoexp.Logs.Viewer.Following.{Tracks, Tracks-Later}
use tswipoexp.Logs.Viewer.Pulling.{pull-Tracks, pull-lines}
use tswipoexp.Logs.Viewer.Watching.{
  Event, calls, ticks, clicks, right_clicks, follows, clear_button, happen, watch, calls_of,
  all_calls, Tracks-Agrees, mouse_down-Agrees, tapped_secondary-Agrees, set_follow-Agrees,
  notice_scroll-Agrees, followed-Agrees, scroll_to_bottom-Agrees,
}

clear_viewer-Tracks :
    (v : LogViewer) (s : LogSink) (hist : List Bytes)
    → Matches hist s
    → Tracks v s hist
    → Later s (clear s)
    → s.gen < (clear s).gen
    → Tracks (clear_viewer (clear s) v) (clear s) hist
unfolding clear_viewer update_count clear
clear_viewer-Tracks v s hist m k l bumped = record {
  seen = k.seen;
  more = k.more;
  hist_eq = k.hist_eq;
  next_eq = k.next_eq;
  gen_le = omega (arith, k.gen_le);
  cleared = inr next_le;
  ends = rw (drop-of_le s.next k.seen (omega (arith, k.next_eq, next_le))) (omega arith, refl);
  newest = inr (inl (omega (arith, k.gen_le)));
  settled = inr (inl (omega (arith, k.gen_le)));
}
  where
    next_le : v.next ≤ s.next
    next_le = omega (arith, k.next_eq, m.next_eq, ap length k.hist_eq, length-append k.seen k.more)

-- The sink holds its history, and the viewer tracks it.
abbrev Live : List Bytes → LogSink × LogViewer → Type 0
Live hist (s, v) = Matches hist s × Tracks v s hist

cleared-Live :
    (s : LogSink) (v : LogViewer) (hist : List Bytes)
    → Live hist (s, v)
    → suc s.gen < u64_mod
    → Live hist (clear s, clear_viewer (clear s) v)
cleared-Live s v hist (m, k) room = (
  clear-Matches hist s m,
  clear_viewer-Tracks v s hist m k (clear-Later hist s m room) (clear-gen s room),
)

-- The sink after the calls of an event
happen_sink :
    (bottom_of : List Bytes → ℕ) (e : Event) (x : LogSink × LogViewer)
    → run x.0 (calls_of e) ≡ (happen bottom_of e x).0
unfolding happen run step
happen_sink bottom_of (calls cs) x = refl
happen_sink bottom_of (ticks cs) x = refl
happen_sink bottom_of (clicks b i) x = refl
happen_sink bottom_of (right_clicks i) x = refl
happen_sink bottom_of (follows on) x = refl
happen_sink bottom_of clear_button x = refl

opening-Tracks : Tracks opening new_log_sink []
unfolding new_log_sink
opening-Tracks = record {
  seen = [];
  more = [];
  hist_eq = refl;
  next_eq = refl;
  gen_le = omega arith;
  cleared = inl refl;
  ends = (omega arith, refl);
  newest = inl refl;
  settled = inr (inr refl);
}

module _ (bottom_of : List Bytes → ℕ) where
  tick-Tracks :
      (s : LogSink) (v : LogViewer) (hist : List Bytes) (cs : List Call)
      → Matches hist s
      → Tracks v s hist
      → HasRoom hist s cs
      → Tracks (tick bottom_of s (run s cs) v) (run s cs) (hist ++ history cs)
  unfolding tick
  tick-Tracks s v hist cs m k h =
      let w = notice_scroll bottom_of v in
      let (later, matches) = run-Later hist s cs m h in
      Tracks-Agrees (pull s (run s cs) w).0 _ (run s cs) (hist ++ history cs)
        (followed-Agrees bottom_of (pull s (run s cs) w))
        (pull-Tracks w s (run s cs) hist (history cs) m matches later
          (Tracks-Agrees v w s hist (notice_scroll-Agrees bottom_of v) k))

  happen-Live :
      (e : Event) (x : LogSink × LogViewer) (hist : List Bytes)
      → Live hist x
      → HasRoom hist x.0 (calls_of e)
      → Live (hist ++ history (calls_of e)) (happen bottom_of e x)
  unfolding happen
  happen-Live (calls cs) (s, v) hist (m, k) h =
      let (later, matches) = run-Later hist s cs m h in
      (matches, Tracks-Later v s (run s cs) hist (history cs) m k later)
  happen-Live (ticks cs) (s, v) hist (m, k) h =
      ((run-Later hist s cs m h).1, tick-Tracks s v hist cs m k h)
  happen-Live (clicks b i) (s, v) hist (m, k) h =
      rw (append-nil hist) (m, Tracks-Agrees v _ s hist (mouse_down-Agrees b i v) k)
  happen-Live (right_clicks i) (s, v) hist (m, k) h =
      rw (append-nil hist) (m, Tracks-Agrees v _ s hist (tapped_secondary-Agrees i v) k)
  happen-Live (follows on) (s, v) hist (m, k) h =
      rw (append-nil hist) (m, Tracks-Agrees v _ s hist (set_follow-Agrees bottom_of on v) k)
  happen-Live clear_button (s, v) hist (m, k) h =
      rw (append-nil hist) (cleared-Live s v hist (m, k) (omega (arith, h.1)))

  watch-Live :
      (es : List Event) (x : LogSink × LogViewer) (hist : List Bytes)
      → Live hist x
      → HasRoom hist x.0 (all_calls es)
      → (h : List Bytes) × Live h (watch bottom_of es x)
  unfolding watch
  watch-Live [] x hist l room = (hist, l)
  watch-Live (e ∷ es) x hist l room =
      let (now, then_room) = HasRoom-append hist x.0 (calls_of e) (all_calls es) room in
      watch-Live es (happen bottom_of e x) (hist ++ history (calls_of e))
        (happen-Live e x hist l now)
        (subst (λ s. HasRoom (hist ++ history (calls_of e)) s (all_calls es))
          (happen_sink bottom_of e x) then_room)

  tick-lines :
      (s : LogSink) (v : LogViewer) (hist : List Bytes)
      → Live hist (s, v)
      → (tick bottom_of s s v).lines ≡ s.lines
  unfolding tick
  tick-lines s v hist (m, k) =
      let w = notice_scroll bottom_of v in
      let matches : Matches (hist ++ []) s = rw (append-nil hist) m in
      (followed-Agrees bottom_of (pull s s w)).0
      ∙ pull-lines w s s hist [] m matches (Later-refl s)
          (Tracks-Agrees v w s hist (notice_scroll-Agrees bottom_of v) k) refl

  shown-Live :
      (before during : List Call)
      → HasRoom [] new_log_sink (before ++ during)
      → let s = run new_log_sink before in
        let t = run s during in
        Live (history before ++ history during) (t, show_log_viewer bottom_of s t)
  unfolding show_log_viewer
  shown-Live before during room =
      let s = run new_log_sink before in
      let t = run s during in
      let (first, second) = HasRoom-append [] new_log_sink before during room in
      let (early, m) = run-Later [] new_log_sink before new_log_sink-Matches first in
      let (later, n) = run-Later (history before) s during m second in
      let k =
        Tracks-Later opening new_log_sink s [] (history before) new_log_sink-Matches opening-Tracks
          early in
      (
        n,
        Tracks-Agrees (pull s t opening).0 _ t (history before ++ history during)
            (scroll_to_bottom-Agrees bottom_of (record (pull s t opening).0 { shown = true }))
            (pull-Tracks opening s t (history before) (history during) m n later k),
      )

  -- A viewer is opened when `before` has been called of a new sink, and others call `during` while it
  -- opens. Whatever then happens, with fewer than 2 ^ 64 lines and Clears in all, the next tick in which
  -- nobody else writes leaves exactly the sink's lines in the viewer.
  pub watch-tick_lines :
      (before during : List Call) (es : List Event)
      → HasRoom [] new_log_sink ((before ++ during) ++ all_calls es)
      → let s = run new_log_sink before in
        let t = run s during in
        let x = watch bottom_of es (t, show_log_viewer bottom_of s t) in
        (tick bottom_of x.0 x.0 x.1).lines ≡ x.0.lines
  watch-tick_lines before during es room =
      let s = run new_log_sink before in
      let t = run s during in
      let (opened, rest) = HasRoom-append [] new_log_sink (before ++ during) (all_calls es) room in
      let (hist, live) =
        watch-Live es (t, show_log_viewer bottom_of s t) (history before ++ history during)
          (shown-Live before during opened)
          (rw (← history-append before during, ← run-append new_log_sink before during) rest) in
      let x = watch bottom_of es (t, show_log_viewer bottom_of s t) in tick-lines x.0 x.1 hist live
