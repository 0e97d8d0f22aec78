-- ===== src/Logs/Sink/History.antt =====
-- The sink of logsink.go against all the lines ever written to it.
use mathlib.Core.Path.{◌≡⟨◌⟩◌, ◌∎}
use mathlib.Core.List.{append-nil, append_assoc}
use tswipoexp.Prelude.{
  ℕ, suc, ◌+◌, ◌≤◌, ◌<◌, ◌≡◌, refl, sym, ap, ◌⊎◌, inl, List, [], ◌∷◌, ◌++◌, Bytes, Option, none,
  some, length, drop, arith, length-append, length-drop, drop-drop, drop-append_left, drop-of_le,
}
use tswipoexp.Logs.Sink.{
  LogSink, Buffer, evict, log_buffer_max, u64_mod, new_log_sink, set_file, trim_right_eol, write,
  terminated, logf, clear,
}
use tswipoexp.Logs.Sink.Eviction.{total, total-append, IsEviction, evict-IsEviction}

-- `hist` is every line written so far, oldest first; the sink holds its end.
pub record Matches (hist : List Bytes) (s : LogSink) : Type 0 where
  pub lines_eq : s.lines ≡ drop s.first hist
  pub next_eq : s.next ≡ length hist
  pub bytes_eq : s.bytes ≡ total s.lines
  pub first_le : s.first ≤ s.next
  pub next_lt : s.next < u64_mod
  pub fits : (s.bytes ≤ log_buffer_max) ⊎ (length s.lines ≤ 1)

pub length-lines :
    (hist : List Bytes) (s : LogSink) → Matches hist s → s.first + length s.lines ≡ s.next
length-lines hist s m =
    omega (arith, m.next_eq, m.first_le, ap length m.lines_eq, length-drop s.first hist)

pub new_log_sink-Matches : Matches [] new_log_sink
unfolding new_log_sink
new_log_sink-Matches = record {
  lines_eq = refl;
  next_eq = refl;
  bytes_eq = refl;
  first_le = omega arith;
  next_lt = omega arith;
  fits = inl (omega arith);
}

pub write-IsEviction :
    (hist : List Bytes) (p : Bytes) (s : LogSink)
    → Matches hist s
    → suc (length hist) < u64_mod
    → IsEviction
        (s.lines ++ (trim_right_eol p ∷ []))
        s.first
        (evict (s.lines ++ (trim_right_eol p ∷ [])) (s.bytes + length (trim_right_eol p)) s.first)
write-IsEviction hist p s m room =
    evict-IsEviction (s.lines ++ (trim_right_eol p ∷ [])) (s.bytes + length (trim_right_eol p))
      s.first (omega (arith, m.bytes_eq, total-append s.lines (trim_right_eol p ∷ [])))
      (omega
        (arith, m.next_eq, length-lines hist s m, length-append s.lines (trim_right_eol p ∷ [])))

-- A step of the sink that evicts `count` lines after adding one keeps the end of the history.
kept_end :
    (hist ls : List Bytes) (line : Bytes) (first : ℕ) (r : Buffer)
    → ls ≡ drop first hist
    → first ≤ length hist
    → IsEviction (ls ++ (line ∷ [])) first r
    → r.lines ≡ drop r.first (hist ++ (line ∷ []))
kept_end hist ls line first r e h v =
    r.lines
    ≡⟨ v.lines_eq ⟩ drop v.count (ls ++ (line ∷ []))
    ≡⟨ ap (λ t. drop v.count (t ++ (line ∷ []))) e ⟩ drop v.count (drop first hist ++ (line ∷ []))
    ≡⟨ ap (drop v.count) (sym (drop-append_left first hist (line ∷ []) h)) ⟩
      drop v.count (drop first (hist ++ (line ∷ [])))
    ≡⟨ drop-drop v.count first (hist ++ (line ∷ [])) ⟩ drop (first + v.count) (hist ++ (line ∷ []))
    ≡⟨ ap (λ n. drop n (hist ++ (line ∷ []))) (sym v.first_eq) ⟩
      drop r.first (hist ++ (line ∷ [])) ∎

pub write-Matches :
    (hist : List Bytes) (p : Bytes) (s : LogSink)
    → Matches hist s
    → suc (length hist) < u64_mod
    → Matches (hist ++ (trim_right_eol p ∷ [])) (write p s)
unfolding write
write-Matches hist p s m room = record {
  lines_eq =
      kept_end hist s.lines (trim_right_eol p) s.first _ m.lines_eq
        (omega (arith, m.first_le, m.next_eq)) e;
  next_eq = omega (arith, m.next_eq, length-append hist (trim_right_eol p ∷ []));
  bytes_eq = e.bytes_eq;
  first_le = ground (
    arith,
    e.leaves,
    e.first_eq,
    length-lines hist s m,
    length-append s.lines (trim_right_eol p ∷ []),
    m.next_eq,
  );
  next_lt = omega (arith, m.next_eq);
  fits = e.fits;
}
  where
    e :
        IsEviction
          (s.lines ++ (trim_right_eol p ∷ []))
          s.first
          (evict (s.lines ++ (trim_right_eol p ∷ [])) (s.bytes + length (trim_right_eol p)) s.first)
    e = write-IsEviction hist p s m room

-- The fewest lines are evicted: the new line stays, `count` says how many old ones went, and with
-- one fewer gone the rest would have been over the limit.
pub write_evicts_fewest :
    (hist : List Bytes) (p : Bytes) (s : LogSink)
    → Matches hist s
    → suc (length hist) < u64_mod
    → let held = s.lines ++ (trim_right_eol p ∷ []) in
      (count : ℕ) × (count ≤ length s.lines)
      × ((write p s).lines ≡ drop count held)
      × ((write p s).first ≡ s.first + count)
      × ((k : ℕ) → k < count → log_buffer_max < total (drop k held))
unfolding write
write_evicts_fewest hist p s m room =
    let e = write-IsEviction hist p s m room in
    (
      e.count,
      ground (arith, e.leaves, length-append s.lines (trim_right_eol p ∷ [])),
      e.lines_eq,
      e.first_eq,
      e.fewest,
    )

pub clear-Matches : (hist : List Bytes) (s : LogSink) → Matches hist s → Matches hist (clear s)
unfolding clear
clear-Matches hist s m = record {
  lines_eq = sym (drop-of_le s.next hist (omega (arith, m.next_eq)));
  next_eq = m.next_eq;
  bytes_eq = refl;
  first_le = omega arith;
  next_lt = m.next_lt;
  fits = inl (omega arith);
}

set_file-Matches :
    (hist : List Bytes) (dir : Bytes) (opened : Option Bytes) (s : LogSink)
    → Matches hist s
    → Matches hist (set_file dir opened s).0
unfolding set_file
set_file-Matches hist dir none s m = m
set_file-Matches hist dir (some old) s m = record {
  lines_eq = m.lines_eq;
  next_eq = m.next_eq;
  bytes_eq = m.bytes_eq;
  first_le = m.first_le;
  next_lt = m.next_lt;
  fits = m.fits;
}

-- A call that changes the sink.
pub data Call : Type 0 where
  writes : Bytes → Call
  logs : Bytes → Bytes → Call
  sets_file : Bytes → Option Bytes → Call
  clears : Call

unfoldable pub step : LogSink → Call → LogSink
step s (writes p) = write p s
step s (logs stamp msg) = logf stamp msg s
step s (sets_file dir opened) = (set_file dir opened s).0
step s clears = clear s

unfoldable pub run : LogSink → List Call → LogSink
run s [] = s
run s (c ∷ cs) = run (step s c) cs

-- The line that a call adds to the history.
abbrev pub added : Call → List Bytes
added (writes p) = trim_right_eol p ∷ []
added (logs stamp msg) = trim_right_eol (stamp ++ terminated msg) ∷ []
added _ = []

abbrev pub history : List Call → List Bytes
history [] = []
history (c ∷ cs) = added c ++ history cs

pub step-Matches :
    (hist : List Bytes) (s : LogSink) (c : Call)
    → Matches hist s
    → length hist + length (added c) < u64_mod
    → Matches (hist ++ added c) (step s c)
unfolding step logf
step-Matches hist s (writes p) m h = write-Matches hist p s m (omega arith)
step-Matches hist s (logs stamp msg) m h =
    write-Matches hist (stamp ++ terminated msg) s m (omega arith)
step-Matches hist s (sets_file dir opened) m h =
    rw (append-nil hist) (set_file-Matches hist dir opened s m)
step-Matches hist s clears m h = rw (append-nil hist) (clear-Matches hist s m)

run-Matches :
    (hist : List Bytes) (s : LogSink) (cs : List Call)
    → Matches hist s
    → length hist + length (history cs) < u64_mod
    → Matches (hist ++ history cs) (run s cs)
unfolding run
run-Matches hist s [] m h = rw (append-nil hist) m
run-Matches hist s (c ∷ cs) m h = rw (← append_assoc hist (added c) (history cs)) (
    run-Matches (hist ++ added c) (step s c) cs
      (step-Matches hist s c m (omega (arith, length-append (added c) (history cs))))
      (omega (arith, length-append (added c) (history cs), length-append hist (added c))))

-- Whatever calls are made of a new sink, it holds the end of what was written, with the right
-- sequence numbers, as long as fewer than 2 ^ 64 lines were written.
pub run-new-Matches :
    (cs : List Call) → length (history cs) < u64_mod → Matches (history cs) (run new_log_sink cs)
run-new-Matches cs h = run-Matches [] new_log_sink cs new_log_sink-Matches (omega arith)
