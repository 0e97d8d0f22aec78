-- ===== src/Logs/Sink/Reading.antt =====
-- `Since` of logsink.go, for readers that poll.
use Prim.Native.Nat.{max, min}
use tswipoexp.Prelude.{
  ℕ, ◌+◌, ◌-◌, ◌≤◌, ◌≡◌, refl, sym, List, [], ◌∷◌, ◌++◌, Bytes, length, drop, arith, ltb,
  if◌then◌else◌, drop-drop, drop-append_left, drop-min-length,
}
use tswipoexp.Logs.Sink.{LogSink, since}
use tswipoexp.Logs.Sink.History.{Matches}

-- The clamping of `seq` in `Since`, as one number.
clamp_eq :
    (seq first next : ℕ)
    → first ≤ next
    → (let from = if ltb seq first then first else seq in
        let from' = if ltb next from then next else from in first + (from' - first))
      ≡ min (max seq first) next
clamp_eq seq first next h = ground arith

-- `Since` returns the lines of the history from the number asked for, or from the oldest one held.
pub since_lem :
    (hist : List Bytes) (seq : ℕ) (s : LogSink)
    → Matches hist s
    → ((since seq s).lines ≡ drop (max seq s.first) hist)
      × ((since seq s).next ≡ length hist)
      × ((since seq s).gen ≡ s.gen)
unfolding since
since_lem hist seq s m = (fetched, m.next_eq, refl)
  where
    fetched : (since seq s).lines ≡ drop (max seq s.first) hist
    fetched =
        rw (m.lines_eq, drop-drop _ s.first hist, clamp_eq seq s.first s.next m.first_le, m.next_eq)
          (drop-min-length (max seq s.first) hist)

pub drop-length-append : (xs ys : List Bytes) → drop (length xs) (xs ++ ys) ≡ ys
drop-length-append [] ys = refl
drop-length-append (x ∷ xs) ys = drop-length-append xs ys

-- A reader that passes the number of one `Since` to the next gets each line exactly once, unless
-- lines that it has not seen were evicted or cleared in between.
pub since-since :
    (hist more : List Bytes) (seq : ℕ) (s t : LogSink)
    → Matches hist s
    → Matches (hist ++ more) t
    → seq ≤ s.next
    → t.first ≤ s.next
    → (since seq s).lines ++ (since (since seq s).next t).lines
      ≡ drop (max seq s.first) (hist ++ more)
since-since hist more seq s t m m' asked kept =
    let p = since_lem hist seq s m in
    let q = since_lem (hist ++ more) (length hist) t m' in
    let e : max (length hist) t.first ≡ length hist = omega (arith, m.next_eq) in
    rw (p.1, p.0, q.0, e, drop-length-append hist more)
      (sym (drop-append_left (max seq s.first) hist more (omega (arith, m.next_eq, m.first_le))))
