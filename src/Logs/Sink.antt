-- ===== src/Logs/Sink.antt =====
-- logsink.go. A call holds the sink's lock as a whole here, and a log file is the bytes written
-- to it. Sequence numbers are uint64 and wrap.
pub mod Eviction
pub mod History
pub mod Later
pub mod Reading
use mathlib.Core.List.{reverse}
use tswipoexp.Prelude.{
  ℕ, suc, ◌+◌, ◌-◌, ◌*◌, ◌%◌, ◌^◌, ◌≡◌, refl, Bool, true, false, ◌||◌, Option, none, some, List, [],
  ◌∷◌, ◌++◌, map, Bytes, codes, length, drop, ltb, if◌then◌else◌, ◌==◌, nat_eq,
}

abbrev pub u64_mod : ℕ
u64_mod = 2 ^ 64

pub record LogFile : Type 0 where
  pub dir : Bytes
  pub written : Bytes

pub record LogSink : Type 0 where
  pub file : Option LogFile
  pub stderr : Bytes
  pub lines : List Bytes
  pub bytes : ℕ
  pub first : ℕ
  pub next : ℕ
  pub gen : ℕ

abbrev pub log_buffer_max : ℕ
log_buffer_max = 50 * 2 ^ 20

unfoldable pub new_log_sink : LogSink
new_log_sink = record {
  file = none;
  stderr = [];
  lines = [];
  bytes = 0;
  first = 0;
  next = 0;
  gen = 0;
}

-- `opened` is what `openLogFile` found: the contents so far, to append to, or an error.
unfoldable pub set_file : Bytes → Option Bytes → LogSink → LogSink × Bool
set_file dir none s = (s, false)
set_file dir (some old) s = (record s { file = some (record { dir = dir; written = old }) }, true)

abbrev is_eol : ℕ → Bool
is_eol c = c == b'\r' || c == b'\n'

drop_eols : Bytes → Bytes
drop_eols [] = []
drop_eols (c ∷ cs) = let rest = drop_eols cs in if is_eol c then rest else c ∷ cs

-- `bytes.TrimRight(p, "\r\n")`
unfoldable pub trim_right_eol : Bytes → Bytes
unfolding drop_eols
trim_right_eol p = reverse (drop_eols (reverse p))

-- The variables of the eviction loop.
pub record Buffer : Type 0 where
  pub lines : List Bytes
  pub bytes : ℕ
  pub first : ℕ

-- `for s.bytes > logBufferMax && len(s.lines) > 1`
unfoldable pub evict : List Bytes → ℕ → ℕ → Buffer
evict (l ∷ m ∷ ls) b f =
    let rest = evict (m ∷ ls) (b - length l) ((f + 1) % u64_mod) in
    if ltb log_buffer_max b then rest else record { lines = l ∷ m ∷ ls; bytes = b; first = f }
evict ls b f = record { lines = ls; bytes = b; first = f }

abbrev append_file : Bytes → Option LogFile → Option LogFile
append_file p none = none
append_file p (some f) = some (record f { written = f.written ++ p })

unfoldable pub write : Bytes → LogSink → LogSink
write p s =
    let line = trim_right_eol p in
    let kept = evict (s.lines ++ (line ∷ [])) (s.bytes + length line) s.first in
    record s {
      file = append_file p s.file;
      stderr = s.stderr ++ p;
      lines = kept.lines;
      bytes = kept.bytes;
      first = kept.first;
      next = (s.next + 1) % u64_mod;
    }

ends_with_newline : Bytes → Bool
ends_with_newline [] = false
ends_with_newline (c ∷ []) = c == b'\n'
ends_with_newline (c ∷ d ∷ r) = ends_with_newline (d ∷ r)

-- The formatted message and the clock's text are arguments.
-- The message with a newline at its end.
pub terminated : Bytes → Bytes
unfolding ends_with_newline
terminated msg = if ends_with_newline msg then msg else msg ++ (b'\n' ∷ [])

unfoldable pub logf : Bytes → Bytes → LogSink → LogSink
unfolding terminated
logf stamp msg s = write (stamp ++ terminated msg) s

-- The last `n` lines; `n` is not negative.
unfoldable pub lines : ℕ → LogSink → List Bytes
lines n s =
    let count = length s.lines in
    let n' = if ltb count n then count else n in
    map (λ l. l ++ (b'\n' ∷ [])) (drop (count - n') s.lines)

pub record Fetched : Type 0 where
  pub lines : List Bytes
  pub next : ℕ
  pub gen : ℕ

unfoldable pub since : ℕ → LogSink → Fetched
since seq s =
    let from = if ltb seq s.first then s.first else seq in
    let from' = if ltb s.next from then s.next else from in
    record { lines = drop (from' - s.first) s.lines; next = s.next; gen = s.gen }

unfoldable pub clear : LogSink → LogSink
clear s = record s { lines = []; bytes = 0; first = s.next; gen = (s.gen + 1) % u64_mod }

unfoldable pub stats : LogSink → ℕ × ℕ
stats s = (length s.lines, s.bytes)
