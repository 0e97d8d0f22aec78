-- ===== src/Backend/Events.antt =====
-- What a backend's goroutines do, backend.go: a status snapshot (refreshStatus, of pollStatus and of
-- watchIPNBusOnce), a notification of the IPN bus (watchIPNBusOnce); and what the proxy asks for, the
-- script and the route of a connection (pac, dial). What is done under the lock is one step, and each
-- call after it is another.
pub mod Summaries
use tswipoexp.Prelude.{
  ℕ, zero, suc, Bool, true, false, not, ◌&&◌, ◌||◌, Option, none, some, List, [], ◌∷◌, ◌++◌, Bytes,
  ◌==◌, nat_eq, list_eq, if◌then◌else◌,
}
use tswipoexp.Proxy.Settings.{proxy_mode_pac}
use tswipoexp.Profiles.Config.{Config, register_proxy, proxy_mode}
use tswipoexp.Status.{Status, ProfileSummary, running_state, summarize, key}
use tswipoexp.Pac.{pac_inputs_from, pac_key, pac_script}
use tswipoexp.Backend.{Backend, Place, with_backend, proxy_address}

unfoldable pub tell_changed : Place → Place
tell_changed p = record p { refreshes = suc p.refreshes }

-- `b.status = st` with what follows it
unfoldable pub take_status : Status → Place → Place
take_status st = with_backend λ b. record b {
  status = some st;
  auth_url = if st.backend_state == running_state then [] else b.auth_url;
}

abbrev pub fresh_summary : Status → Place → Option ProfileSummary
fresh_summary st p =
    if p.backend.last_summary == key (summarize st) then none else some (summarize st)

-- `b.lastSummary`, which becomes the fingerprint of the status
unfoldable pub keep_summary : Status → Place → Place
keep_summary st = with_backend λ b. record b { last_summary = key (summarize st) }

-- Where a goroutine stands in refreshStatus after the lock: before OnSummary, before the notification of
-- WinINet, or before OnChange.
pub data Stage : Type 0 where
  to_summarize : Option ProfileSummary → Bool → Stage
  to_notice : Bool → Stage
  to_change : Stage

-- The place with the calls of refreshStatus and setErr that are past the lock and not at their end.
pub record Watch : Type 0 where
  pub place : Place
  pub in_flight : List Stage

-- A fetched status, none for an error, which a call of refreshStatus takes under the lock; the next step of
-- one of the calls in flight, by its number, at a time; and the parts of a notification: a URL, the end
-- of a login, an error message. Any number of goroutines, in any order, is a list of these.
pub data Event : Type 0 where
  fetches : Option Status → Event
  advances : ℕ → ℕ → Event
  browses : Bytes → Event
  logs_in : Event
  reports : Bytes → Event

abbrev pub hand_over : Option ProfileSummary → ℕ → Place → Place
hand_over none now p = p
hand_over (some s) now p = record p { saved = record s { updated_at = now } ∷ p.saved }

module _ (is_tailscale_ip : ℕ → Bool) where
  unfoldable pub fingerprint : Status → Backend → Bytes
  fingerprint st b = pac_key (pac_inputs_from is_tailscale_ip (some st) b.cfg (proxy_address b))

  -- `pacChanged`
  unfoldable pub pac_changed : Status → Backend → Bool
  unfolding fingerprint
  pac_changed st b = elim b.proxy_ln [
    | none ↦ false
    | some addr ↦ not (b.last_pac == []) && not (fingerprint st b == b.last_pac)
  ]

  unfoldable pub keep_pac : Status → Place → Place
  unfolding fingerprint
  keep_pac st =
      with_backend
        λ b. elim b.proxy_ln [ none ↦ b | some addr ↦ record b { last_pac = fingerprint st b } ]

  unfoldable pub notice : Bool → Place → Place
  notice changed p =
      if changed && register_proxy p.backend.cfg && proxy_mode p.backend.cfg == proxy_mode_pac
      then record p { notices = suc p.notices }
      else p

  -- `refreshStatus` from the lock to the unlock
  unfoldable pub refresh_locked : Status → Place → Place × Stage
  unfolding take_status keep_summary pac_changed keep_pac
  refresh_locked st p = (
    keep_pac st (keep_summary st (take_status st p)),
    to_summarize (fresh_summary st p) (pac_changed st p.backend),
  )

  -- Its next step after the unlock, with where it stands then, if it is not at its end
  unfoldable pub refresh_unlocked : ℕ → Stage → Place → Place × List Stage
  unfolding notice tell_changed
  refresh_unlocked now (to_summarize s changed) p = (hand_over s now p, to_notice changed ∷ [])
  refresh_unlocked now (to_notice changed) p = (notice changed p, to_change ∷ [])
  refresh_unlocked now to_change p = (tell_changed p, [])

  -- The call with this number takes its next step.
  unfoldable pub advance : ℕ → ℕ → List Stage → Place → Place × List Stage
  unfolding refresh_unlocked
  advance i now [] p = (p, [])
  advance zero now (s ∷ ss) p = let (q, next) = refresh_unlocked now s p in (q, next ++ ss)
  advance (suc i) now (s ∷ ss) p = let (q, rest) = advance i now ss p in (q, s ∷ rest)

  abbrev pub take_url : Bytes → Place → Place
  take_url url = with_backend λ b. record b { auth_url = url }

  abbrev pub finish_login : Place → Place
  finish_login = with_backend λ b. record b { auth_url = [] }

  -- `setErr` up to its call of OnChange
  abbrev pub take_message : Bytes → Place → Place
  take_message msg = with_backend λ b. record b { last_err = msg }

  unfoldable pub pac : Backend → Bytes
  pac b = pac_script (pac_inputs_from is_tailscale_ip b.status b.cfg (proxy_address b))

  unfoldable pub happen : Event → Watch → Watch
  unfolding refresh_locked advance
  happen (fetches none) w = w
  happen (fetches (some st)) w =
      let (p, stage) = refresh_locked st w.place in
      record { place = p; in_flight = stage ∷ w.in_flight }
  happen (advances i now) w =
      let (p, stages) = advance i now w.in_flight w.place in
      record { place = p; in_flight = stages }
  happen (browses url) w = record w { place = take_url url w.place }
  happen logs_in w = record w { place = finish_login w.place }
  happen (reports msg) w = record {
    place = take_message msg w.place;
    in_flight = to_change ∷ w.in_flight;
  }

  unfoldable pub happen_all : List Event → Watch → Watch
  unfolding happen
  happen_all [] w = w
  happen_all (e ∷ es) w = happen_all es (happen e w)

-- Where a connection goes: to the operating system's dialer or into the tailnet.
pub data Route : Type 0 where
  direct tailnet : Route

abbrev pub route_of : Option Status → Route
route_of none = direct
route_of (some st) = if st.backend_state == running_state then tailnet else direct

unfoldable pub dial : Backend → Route
dial b = route_of b.status
