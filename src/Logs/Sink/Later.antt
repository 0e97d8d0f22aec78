-- ===== src/Logs/Sink/Later.antt =====
-- What a reader can tell of a sink that others go on writing to.
use mathlib.Core.List.{append-nil, append_assoc}
use tswipoexp.Prelude.{
  ℕ, suc, ◌+◌, ◌≤◌, ◌<◌, ◌≡◌, refl, sym, ap, ◌∙◌, ◌⊎◌, inl, inr, List, [], ◌∷◌, ◌++◌, Bytes, Option,
  none, some, length, arith, length-append,
}
use tswipoexp.Logs.Sink.{
  LogSink, evict, u64_mod, set_file, trim_right_eol, write, terminated, logf, clear,
}
use tswipoexp.Logs.Sink.Eviction.{IsEviction}
use tswipoexp.Logs.Sink.History.{
  Matches, Call, writes, logs, sets_file, clears, step, run, added, history, write-IsEviction,
  length-lines, step-Matches,
}

-- `t` is `s` some calls later: the numbers grow, no line before `s.next` is shown again after a Clear,
-- the newest line written since then is held unless there was a Clear, and a sink with the same
-- numbers is the same.
pub record Later (s t : LogSink) : Type 0 where
  pub first_le : s.first ≤ t.first
  pub next_le : s.next ≤ t.next
  pub gen_le : s.gen ≤ t.gen
  pub cleared : (s.gen ≡ t.gen) ⊎ (s.next ≤ t.first)
  pub newest : (s.next ≡ t.next) ⊎ ((s.gen < t.gen) ⊎ (t.first < t.next))
  pub same : (s.next < t.next) ⊎ ((s.gen < t.gen) ⊎ ((s.lines ≡ t.lines) × (s.first ≡ t.first)))

pub Later-refl : (s : LogSink) → Later s s
Later-refl s = record {
  first_le = omega arith;
  next_le = omega arith;
  gen_le = omega arith;
  cleared = inl refl;
  newest = inl refl;
  same = inr (inr (refl, refl));
}

pub Later-trans : (s t u : LogSink) → Later s t → Later t u → Later s u
Later-trans s t u h k = record {
  first_le = omega (arith, h.first_le, k.first_le);
  next_le = omega (arith, h.next_le, k.next_le);
  gen_le = omega (arith, h.gen_le, k.gen_le);
  cleared = ground (arith, h.cleared, k.cleared, h.gen_le, k.gen_le, h.next_le, k.first_le);
  newest = ground (arith, h.newest, k.newest, k.same, h.gen_le, k.gen_le, h.next_le, k.next_le);
  same = ground (arith, h.same, k.same, h.gen_le, k.gen_le, h.next_le, k.next_le);
}

-- The Clears among some calls
abbrev pub clearings : List Call → ℕ
clearings [] = 0
clearings (clears ∷ cs) = suc (clearings cs)
clearings (writes p ∷ cs) = clearings cs
clearings (logs stamp msg ∷ cs) = clearings cs
clearings (sets_file dir opened ∷ cs) = clearings cs

write-Later :
    (hist : List Bytes) (p : Bytes) (s : LogSink)
    → Matches hist s
    → suc (length hist) < u64_mod
    → Later s (write p s)
unfolding write
write-Later hist p s m room = record {
  first_le = omega (arith, e.first_eq);
  next_le = omega (arith, m.next_eq);
  gen_le = omega arith;
  cleared = inl refl;
  newest = inr (
      inr (
        ground (
          arith,
          e.leaves,
          e.first_eq,
          length-lines hist s m,
          length-append s.lines (trim_right_eol p ∷ []),
          m.next_eq,
        )));
  same = inl (omega (arith, m.next_eq));
}
  where
    e :
        IsEviction
          (s.lines ++ (trim_right_eol p ∷ []))
          s.first
          (evict (s.lines ++ (trim_right_eol p ∷ [])) (s.bytes + length (trim_right_eol p)) s.first)
    e = write-IsEviction hist p s m room

pub clear-Later :
    (hist : List Bytes) (s : LogSink) → Matches hist s → suc s.gen < u64_mod → Later s (clear s)
unfolding clear
clear-Later hist s m room = record {
  first_le = omega (arith, m.first_le);
  next_le = omega arith;
  gen_le = omega arith;
  cleared = inr (omega arith);
  newest = inl refl;
  same = inr (inl (omega arith));
}

set_file-Later :
    (dir : Bytes) (opened : Option Bytes) (s : LogSink) → Later s (set_file dir opened s).0
unfolding set_file
set_file-Later dir none s = Later-refl s
set_file-Later dir (some old) s = record {
  first_le = omega arith;
  next_le = omega arith;
  gen_le = omega arith;
  cleared = inl refl;
  newest = inl refl;
  same = inr (inr (refl, refl));
}

pub clear-gen : (s : LogSink) → suc s.gen < u64_mod → s.gen < (clear s).gen
unfolding clear
clear-gen s room = omega arith

-- Neither the lines nor the Clears come to 2 ^ 64.
abbrev pub HasRoom : List Bytes → LogSink → List Call → Type 0
HasRoom hist s cs = (length hist + length (history cs) < u64_mod) × (s.gen + clearings cs < u64_mod)

step-Later :
    (hist : List Bytes) (s : LogSink) (c : Call) (cs : List Call)
    → Matches hist s
    → HasRoom hist s (c ∷ cs)
    → Later s (step s c)
unfolding step logf
step-Later hist s (writes p) cs m h = write-Later hist p s m (omega (arith, h.0))
step-Later hist s (logs stamp msg) cs m h =
    write-Later hist (stamp ++ terminated msg) s m (omega (arith, h.0))
step-Later hist s (sets_file dir opened) cs m h = set_file-Later dir opened s
step-Later hist s clears cs m h = clear-Later hist s m (omega (arith, h.1))

step-gen :
    (s : LogSink) (c : Call) (cs : List Call)
    → s.gen + clearings (c ∷ cs) < u64_mod
    → (step s c).gen + clearings cs ≡ s.gen + clearings (c ∷ cs)
unfolding step logf write set_file clear
step-gen s (writes p) cs h = refl
step-gen s (logs stamp msg) cs h = refl
step-gen s (sets_file dir none) cs h = refl
step-gen s (sets_file dir (some old)) cs h = refl
step-gen s clears cs h = omega arith

-- What some calls make of a sink and its history
pub run-Later :
    (hist : List Bytes) (s : LogSink) (cs : List Call)
    → Matches hist s
    → HasRoom hist s cs
    → Later s (run s cs) × Matches (hist ++ history cs) (run s cs)
unfolding run
run-Later hist s [] m h = (Later-refl s, rw (append-nil hist) m)
run-Later hist s (c ∷ cs) m h =
    let m' = step-Matches hist s c m (omega (arith, h.0, length-append (added c) (history cs))) in
    let (later, matches) = run-Later (hist ++ added c) (step s c) cs m' (
      omega (arith, h.0, length-append (added c) (history cs), length-append hist (added c)),
      omega (arith, h.1, step-gen s c cs h.1),
    ) in
    (
      Later-trans s (step s c) (run (step s c) cs) (step-Later hist s c cs m h) later,
      rw (← append_assoc hist (added c) (history cs)) matches,
    )

run-gen :
    (s : LogSink) (cs : List Call)
    → s.gen + clearings cs < u64_mod
    → (run s cs).gen ≡ s.gen + clearings cs
unfolding run
run-gen s [] h = omega arith
run-gen s (c ∷ cs) h = let e = step-gen s c cs h in run-gen (step s c) cs (omega (arith, e)) ∙ e

pub history-append : (cs ds : List Call) → history (cs ++ ds) ≡ history cs ++ history ds
history-append [] ds = refl
history-append (c ∷ cs) ds =
    ap (λ h. added c ++ h) (history-append cs ds)
    ∙ sym (append_assoc (added c) (history cs) (history ds))

clearings-append : (cs ds : List Call) → clearings (cs ++ ds) ≡ clearings cs + clearings ds
clearings-append [] ds = omega arith
clearings-append (clears ∷ cs) ds = omega (arith, clearings-append cs ds)
clearings-append (writes p ∷ cs) ds = clearings-append cs ds
clearings-append (logs stamp msg ∷ cs) ds = clearings-append cs ds
clearings-append (sets_file dir opened ∷ cs) ds = clearings-append cs ds

-- Room for all calls is room for the first ones, and then for the others.
pub HasRoom-append :
    (hist : List Bytes) (s : LogSink) (cs ds : List Call)
    → HasRoom hist s (cs ++ ds)
    → HasRoom hist s cs × HasRoom (hist ++ history cs) (run s cs) ds
HasRoom-append hist s cs ds (lines, gens) =
    let e = clearings-append cs ds in
    let all_lines : length (history (cs ++ ds)) ≡ length (history cs) + length (history ds) =
      ap length (history-append cs ds) ∙ length-append (history cs) (history ds) in
    (
      (omega (arith, all_lines), omega (arith, e)),
      (
        omega (arith, all_lines, length-append hist (history cs)),
        omega (arith, e, run-gen s cs (omega (arith, e))),
      ),
    )

pub run-append : (s : LogSink) (cs ds : List Call) → run s (cs ++ ds) ≡ run (run s cs) ds
unfolding run
run-append s [] ds = refl
run-append s (c ∷ cs) ds = run-append (step s c) cs ds
