-- ===== src/Logs/Tests.antt =====
-- The sink of logsink.go at concrete lines.
use tswipoexp.Prelude.{ℕ, ◌+◌, ◌<◌, ◌≤◌, ◌≡◌, refl, List, [], ◌∷◌, ◌++◌, Bytes, codes, drop, arith}
use tswipoexp.Logs.Sink.{log_buffer_max, new_log_sink, trim_right_eol, write, evict, since, clear}
use tswipoexp.Logs.Sink.Eviction.{total}
use tswipoexp.Logs.Sink.History.{
  Matches, new_log_sink-Matches, write_evicts_fewest, Call, writes, clears, step, run, history,
  run-new-Matches,
}
use tswipoexp.Logs.Sink.Reading.{since-since}

abbrev line : Bytes
line = codes "one\r\n"

abbrev more_calls : List Call
more_calls = writes line ∷ writes (codes "two") ∷ []

abbrev calls : List Call
calls = writes line ∷ clears ∷ writes (codes "two") ∷ []

-- A reader that asks for all lines after a Clear gets those written since.
since_after_clear : (since 0 (run new_log_sink calls)).lines ≡ codes "two" ∷ []
unfolding run step since new_log_sink write evict trim_right_eol clear
since_after_clear = refl

run-new-Matches_example : Matches (history calls) (run new_log_sink calls)
run-new-Matches_example = run-new-Matches calls (omega arith)

write_evicts_fewest_example :
    (count : ℕ) × (count ≤ 0)
    × ((write line new_log_sink).lines ≡ drop count (trim_right_eol line ∷ []))
    × ((write line new_log_sink).first ≡ 0 + count)
    × ((k : ℕ) → k < count → log_buffer_max < total (drop k (trim_right_eol line ∷ [])))
unfolding new_log_sink
write_evicts_fewest_example =
    write_evicts_fewest [] line new_log_sink new_log_sink-Matches (omega arith)

since-since_example :
    (since 0 new_log_sink).lines
      ++ (since (since 0 new_log_sink).next (run new_log_sink more_calls)).lines
    ≡ history more_calls
unfolding run step new_log_sink write evict trim_right_eol
since-since_example =
    since-since [] (history more_calls) 0 new_log_sink (run new_log_sink more_calls)
      new_log_sink-Matches (run-new-Matches more_calls (omega arith)) (omega arith) (omega arith)
