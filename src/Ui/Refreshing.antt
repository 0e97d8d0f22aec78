-- ===== src/Ui/Refreshing.antt =====
-- scheduleRefresh of ui.go, with everything that may run beside it: changes of the state, each with a call
-- of scheduleRefresh to come, the timer's function up to its lock and after it, and the UI goroutine.
pub mod Settling
use tswipoexp.Prelude.{ℕ, suc, ◌≡◌, Bool, true, false}

-- `changes` counts the changes of the state so far, `drawn` those that the window shows; `owed` counts the
-- changes whose call of scheduleRefresh is still to come, `timer` is whether `refreshTimer` is set,
-- `expired` counts the timers that have cleared it and not yet called fyne.Do, and `queued` the
-- refreshes that wait for the UI goroutine.
pub record Refresher : Type 0 where
  pub changes : ℕ
  pub drawn : ℕ
  pub owed : ℕ
  pub timer : Bool
  pub expired : ℕ
  pub queued : ℕ

abbrev pub up_to_date : Refresher
up_to_date = record { changes = 0; drawn = 0; owed = 0; timer = false; expired = 0; queued = 0 }

-- `if u.refreshTimer != nil { return }`, or else the timer is started.
unfoldable pub schedule_refresh : Refresher → Refresher
schedule_refresh r = elim r.timer [ true ↦ r | false ↦ record r { timer = true } ]

-- The timer's function under the lock
unfoldable pub clear_timer : Refresher → Refresher
clear_timer r = record r { timer = false; expired = suc r.expired }

-- `fyne.Do(u.refresh)`
unfoldable pub queue_refresh : Refresher → Refresher
queue_refresh r = record r { queued = suc r.queued }

-- What `refresh` does here: it draws the state as it is.
unfoldable pub draw : Refresher → Refresher
draw r = record r { drawn = r.changes }

-- A step of what is under way
pub data Step (r : Refresher) (s : Refresher) : Type 0 where
  notifies : (n : ℕ) → r.owed ≡ suc n → s ≡ schedule_refresh (record r { owed = n }) → Step r s
  expires : r.timer ≡ true → s ≡ clear_timer r → Step r s
  queues : (n : ℕ) → r.expired ≡ suc n → s ≡ queue_refresh (record r { expired = n }) → Step r s
  draws : (n : ℕ) → r.queued ≡ suc n → s ≡ draw (record r { queued = n }) → Step r s

-- A change of the state, by any goroutine
unfoldable pub change : Refresher → Refresher
change r = record r { changes = suc r.changes; owed = suc r.owed }

pub data Reaches (r : Refresher) : Refresher → Type 0 where
  here : Reaches r r
  changed : {s : Refresher} → Reaches r s → Reaches r (change s)
  stepped : {s t : Refresher} → Reaches r s → Step s t → Reaches r t

-- So many steps with no further change
pub data Settles (r : Refresher) : ℕ → Refresher → Type 0 where
  none : Settles r 0 r
  more : {n : ℕ} {s t : Refresher} → Settles r n s → Step s t → Settles r (suc n) t
