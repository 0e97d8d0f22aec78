-- ===== src/Ui/Refreshing/Settling.antt =====
-- The window comes to show the last change of the state.
use tswipoexp.Prelude.{
  ℕ, suc, ◌+◌, ◌*◌, ◌≤◌, ◌<◌, ◌≡◌, refl, ◌⊎◌, inl, inr, Bool, Bool-cases, ℕ-cases, true, false,
  arith,
}
use tswipoexp.Ui.Refreshing.{
  Refresher, up_to_date, schedule_refresh, clear_timer, queue_refresh, draw, change, Step, notifies,
  expires, queues, draws, Reaches, here, changed, stepped, Settles, none, more,
}

abbrev count : Bool → ℕ
count true = 1
count false = 0

-- How many steps are to come at most
pub pending : Refresher → ℕ
pending r = 4 * r.owed + 3 * count r.timer + 2 * r.expired + r.queued

-- A change that is not shown is on its way.
IsDue : Refresher → Type 0
IsDue r = (r.drawn ≡ r.changes) ⊎ (0 < pending r)

Step-pending : (r s : Refresher) → Step r s → suc (pending s) ≤ pending r
unfolding pending schedule_refresh clear_timer queue_refresh draw
Step-pending r s (notifies n e f) = rw f (ground arith)
Step-pending r s (expires e f) = rw f (ground arith)
Step-pending r s (queues n e f) = rw f (ground arith)
Step-pending r s (draws n e f) = rw f (ground arith)

Step-IsDue : {r s : Refresher} → Step r s → IsDue r → IsDue s
unfolding IsDue pending schedule_refresh clear_timer queue_refresh draw
Step-IsDue (notifies n e f) d = rw f (inr (ground arith))
Step-IsDue (expires e f) d = rw f (inr (omega arith))
Step-IsDue (queues n e f) d = rw f (inr (omega arith))
Step-IsDue (draws n e f) d = rw f (inl refl)

Reaches-IsDue : {r s : Refresher} → IsDue r → Reaches r s → IsDue s
unfolding IsDue pending change
Reaches-IsDue d here = d
Reaches-IsDue d (changed reach) = inr (omega arith)
Reaches-IsDue d (stepped reach st) = Step-IsDue st (Reaches-IsDue d reach)

-- As long as something is pending, a step can be made.
next-Step : (r : Refresher) → 0 < pending r → (s : Refresher) × Step r s
unfolding pending
next-Step r h = elim (ℕ-cases r.owed) [
  | inr (n, e) ↦ (schedule_refresh (record r { owed = n }), notifies n e refl)
  | inl none_owed ↦ elim (Bool-cases r.timer) [
    | inl set ↦ (clear_timer r, expires set refl)
    | inr unset ↦ elim (ℕ-cases r.expired) [
      | inr (n, e) ↦ (queue_refresh (record r { expired = n }), queues n e refl)
      | inl none_expired ↦ elim (ℕ-cases r.queued) [
        | inr (n, e) ↦ (draw (record r { queued = n }), draws n e refl)
        | inl none_queued ↦ absurd (ground (arith, h))
      ]
    ]
  ]
]

Settles-pending : {r s : Refresher} {n : ℕ} → Settles r n s → n + pending s ≤ pending r
Settles-pending none = omega arith
Settles-pending (more {n} {s} {t} settles st) =
    omega (arith, Step-pending s t st, Settles-pending settles)

Settles-Reaches :
    {r s : Refresher} {n : ℕ} → Reaches up_to_date r → Settles r n s → Reaches up_to_date s
Settles-Reaches reach none = reach
Settles-Reaches reach (more settles st) = stepped (Settles-Reaches reach settles) st

drawn_or_Step : (s : Refresher) → IsDue s → (s.drawn ≡ s.changes) ⊎ ((t : Refresher) × Step s t)
unfolding IsDue
drawn_or_Step s (inl drawn) = inl drawn
drawn_or_Step s (inr due) = inr (next-Step s due)

-- After any changes and steps, and then any `n` further steps with no change among them, `n` is at most
-- `pending` of the state before these; and then either the window shows the last change, or another
-- step can be made. So after at most that many steps, in any order, it shows the last change.
pub Settles-drawn :
    {r s : Refresher} {n : ℕ}
    → Reaches up_to_date r
    → Settles r n s
    → (n ≤ pending r) × ((s.drawn ≡ s.changes) ⊎ ((t : Refresher) × Step s t))
unfolding IsDue
Settles-drawn {r} {s} {n} reach settles = (
  omega (arith, Settles-pending settles),
  drawn_or_Step s (Reaches-IsDue start (Settles-Reaches reach settles)),
)
  where
    start : IsDue up_to_date
    start = inl refl
