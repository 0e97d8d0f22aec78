-- ===== src/Backend/Events/Summaries.antt =====
-- The summaries that a backend hands to OnSummary, backend.go, with any number of goroutines in refreshStatus.
use mathlib.Core.List.{Memᴰ}
use mathlib.Core.Path.{subst}
use tswipoexp.Prelude.{
  ℕ, zero, suc, All, ◌≡◌, refl, sym, ap, ◌∙◌, ◌⊎◌, inl, inr, Bool, true, false, ◌&&◌, Option,
  Option-cases, none, some, List, [], ◌∷◌, ◌++◌, Bytes, ◌==◌, nat_eq, list_eq, eq_iff,
  if◌then◌else◌,
}
use tswipoexp.Proxy.Settings.{proxy_mode_pac}
use tswipoexp.Profiles.Config.{register_proxy, proxy_mode}
use tswipoexp.Status.{Status, ProfileSummary, summarize, key}
use tswipoexp.Status.Key.{IsPlain, key-injective, key-ne-nil}
use tswipoexp.Backend.{Place}
use tswipoexp.Backend.Events.{
  tell_changed, take_status, fresh_summary, keep_summary, keep_pac, pac_changed, notice, Stage,
  to_summarize, to_notice, to_change, hand_over, Watch, refresh_locked, refresh_unlocked, advance,
  Event, fetches, advances, browses, logs_in, reports, happen, happen_all,
}

abbrev untimed : ProfileSummary → ProfileSummary
untimed s = record s { updated_at = 0 }

-- The list has this summary, at whatever time.
abbrev pub Has : ProfileSummary → List ProfileSummary → Type 0
Has x l = (s : ProfileSummary) × Memᴰ s l × (untimed s ≡ untimed x)

-- The summaries that the calls in flight are about to hand over
abbrev pub pending : List Stage → List ProfileSummary
pending [] = []
pending (to_summarize (some s) changed ∷ ss) = s ∷ pending ss
pending (to_summarize none changed ∷ ss) = pending ss
pending (to_notice changed ∷ ss) = pending ss
pending (to_change ∷ ss) = pending ss

-- The summary has been handed to OnSummary, or a call is about to.
abbrev pub IsDue : ProfileSummary → List Stage → Place → Type 0
IsDue x stages p = Has x p.saved ⊎ Has x (pending stages)

Has-later : (x s : ProfileSummary) (l : List ProfileSummary) → Has x l → Has x (s ∷ l)
Has-later x s l (t, m, e) = (t, Memᴰ.tail m, e)

-- Of a summary in front that is handed over, or stays
Has-first :
    (x s : ProfileSummary) (l saved : List ProfileSummary) (now : ℕ)
    → Has x (s ∷ l)
    → Has x (record s { updated_at = now } ∷ saved) ⊎ Has x l
Has-first x s l saved now (t, Memᴰ.head e, f) =
    inl (record s { updated_at = now }, Memᴰ.head refl, ap untimed (sym e) ∙ f)
Has-first x s l saved now (t, Memᴰ.tail m, f) = inr (t, m, f)

IsDue-cons :
    (x : ProfileSummary) (s : Stage) (ss : List Stage) (p : Place)
    → IsDue x ss p
    → IsDue x (s ∷ ss) p
IsDue-cons x s ss p (inl h) = inl h
IsDue-cons x (to_summarize (some t) c) ss p (inr h) = inr (Has-later x t (pending ss) h)
IsDue-cons x (to_summarize none c) ss p (inr h) = inr h
IsDue-cons x (to_notice c) ss p (inr h) = inr h
IsDue-cons x to_change ss p (inr h) = inr h

-- A stage in front that stays
IsDue-behind :
    (x : ProfileSummary) (s : Stage) (ss ss' : List Stage) (p q : Place)
    → (IsDue x ss p → IsDue x ss' q)
    → IsDue x (s ∷ ss) p
    → IsDue x (s ∷ ss') q
IsDue-behind x s ss ss' p q f (inl h) = IsDue-cons x s ss' q (f (inl h))
IsDue-behind x (to_summarize (some t) c) ss ss' p q f (inr (u, Memᴰ.head e, h)) =
    inr (u, Memᴰ.head e, h)
IsDue-behind x (to_summarize (some t) c) ss ss' p q f (inr (u, Memᴰ.tail m, h)) =
    IsDue-cons x (to_summarize (some t) c) ss' q (f (inr (u, m, h)))
IsDue-behind x (to_summarize none c) ss ss' p q f (inr h) = f (inr h)
IsDue-behind x (to_notice c) ss ss' p q f (inr h) = f (inr h)
IsDue-behind x to_change ss ss' p q f (inr h) = f (inr h)

-- With no status the fingerprint is empty. Otherwise it is that of the latest status, whose summary is
-- plain and is due.
abbrev Owes : Option Status → Bytes → (ProfileSummary → Type 0) → Type 0
Owes none last due = last ≡ []
Owes (some st) last due = IsPlain (summarize st) × (last ≡ key (summarize st)) × due (summarize st)

abbrev pub Delivers : Watch → Type 0
Delivers w =
    Owes w.place.backend.status w.place.backend.last_summary (λ x. IsDue x w.in_flight w.place)

Owes-Keeps :
    (o : Option Status) (last : Bytes) (due due' : ProfileSummary → Type 0)
    → ((x : ProfileSummary) → due x → due' x)
    → Owes o last due
    → Owes o last due'
Owes-Keeps none last due due' f h = h
Owes-Keeps (some st) last due due' f (plain, same, d) = (plain, same, f (summarize st) d)

Has-same :
    (x y : ProfileSummary) (l : List ProfileSummary) → untimed x ≡ untimed y → Has x l → Has y l
Has-same x y l e (s, m, f) = (s, m, f ∙ e)

IsDue-same :
    (x y : ProfileSummary) (ss : List Stage) (p : Place)
    → untimed x ≡ untimed y
    → IsDue x ss p
    → IsDue y ss p
IsDue-same x y ss p e (inl h) = inl (Has-same x y p.saved e h)
IsDue-same x y ss p e (inr h) = inr (Has-same x y (pending ss) e h)

-- A fingerprint that has not changed is that of a summary that is due.
same-IsDue :
    (o : Option Status) (last : Bytes) (x : ProfileSummary) (ss : List Stage) (p : Place)
    → IsPlain x
    → last ≡ key x
    → Owes o last (λ y. IsDue y ss p)
    → IsDue x ss p
same-IsDue none last x ss p plain e h = absurd (key-ne-nil x (sym e ∙ h))
same-IsDue (some st) last x ss p plain e (old, same, due) =
    IsDue-same (summarize st) x ss p (key-injective (summarize st) x old plain (sym same ∙ e)) due

module _ (is_tailscale_ip : ℕ → Bool) where
  -- Both hold the same summaries and have the same fields.
  abbrev AreAlike : Place → Place → Type 0
  AreAlike p q = (q.backend ≡ p.backend) × (q.saved ≡ p.saved)

  notice-AreAlike : (c : Bool) (p : Place) → AreAlike p (notice is_tailscale_ip c p)
  unfolding notice
  notice-AreAlike c p =
      go (c && register_proxy p.backend.cfg && proxy_mode p.backend.cfg == proxy_mode_pac)
    where
      go : (b : Bool) → AreAlike p (if b then record p { notices = suc p.notices } else p)
      go true = (refl, refl)
      go false = (refl, refl)

  -- A step of a call keeps the fields, and what is due stays due.
  abbrev Keeps : List Stage → Place → Place × List Stage → Type 0
  Keeps ss p (q, ss') =
      (q.backend ≡ p.backend) × ((x : ProfileSummary) → IsDue x ss p → IsDue x ss' q)

  refresh_unlocked-Keeps :
      (now : ℕ) (s : Stage) (ss : List Stage) (p : Place)
      → Keeps (s ∷ ss) p (
        (refresh_unlocked is_tailscale_ip now s p).0,
        (refresh_unlocked is_tailscale_ip now s p).1 ++ ss,
      )
  unfolding refresh_unlocked tell_changed
  refresh_unlocked-Keeps now (to_summarize none c) ss p = (refl, λ x h. h)
  refresh_unlocked-Keeps now (to_summarize (some s) c) ss p = (refl, due)
    where
      due :
          (x : ProfileSummary)
          → IsDue x (to_summarize (some s) c ∷ ss) p
          → IsDue x (to_notice c ∷ ss) (hand_over (some s) now p)
      due x (inl h) = inl (Has-later x (record s { updated_at = now }) p.saved h)
      due x (inr h) = Has-first x s (pending ss) p.saved now h
  refresh_unlocked-Keeps now (to_notice c) ss p =
      let (same, saved) = notice-AreAlike c p in (same, due saved)
    where
      due :
          (notice is_tailscale_ip c p).saved ≡ p.saved
          → (x : ProfileSummary) → IsDue x (to_notice c ∷ ss) p
          → IsDue x (to_change ∷ ss) (notice is_tailscale_ip c p)
      due e x (inl h) = inl (subst (Has x) (sym e) h)
      due e x (inr h) = inr h
  refresh_unlocked-Keeps now to_change ss p = (refl, λ x h. due x h)
    where
      due : (x : ProfileSummary) → IsDue x (to_change ∷ ss) p → IsDue x ss (tell_changed p)
      due x (inl h) = inl h
      due x (inr h) = inr h

  advance-Keeps :
      (i now : ℕ) (ss : List Stage) (p : Place) → Keeps ss p (advance is_tailscale_ip i now ss p)
  unfolding advance
  advance-Keeps i now [] p = (refl, λ x h. h)
  advance-Keeps zero now (s ∷ ss) p = refresh_unlocked-Keeps now s ss p
  advance-Keeps (suc i) now (s ∷ ss) p =
      let (same, due) = advance-Keeps i now ss p in
      (
        same,
        λ x.
            IsDue-behind x s ss (advance is_tailscale_ip i now ss p).1 p
              (advance is_tailscale_ip i now ss p).0 (due x),
      )

  -- The status and the fingerprint are not touched by the one for the script.
  keep_pac-Owes :
      (st : Status) (p : Place) (due : ProfileSummary → Type 0)
      → Owes p.backend.status p.backend.last_summary due
      → Owes
          (keep_pac is_tailscale_ip st p).backend.status
          (keep_pac is_tailscale_ip st p).backend.last_summary
          due
  unfolding keep_pac
  keep_pac-Owes st p due h = elim (Option-cases p.backend.proxy_ln) [
    | inl e ↦ rw e h
    | inr (a, e) ↦ rw e h
  ]

  fetched-IsDue :
      (st : Status) (w : Watch) (c : Bool)
      → IsPlain (summarize st)
      → Delivers w
      → IsDue (summarize st) (to_summarize (fresh_summary st w.place) c ∷ w.in_flight) w.place
  fetched-IsDue st w c plain h = go (w.place.backend.last_summary == key (summarize st)) (λ e.
      same-IsDue w.place.backend.status w.place.backend.last_summary (summarize st) w.in_flight
        w.place plain ((eq_iff w.place.backend.last_summary (key (summarize st))).0 e) h)
    where
      go :
          (b : Bool)
          → (b ≡ true → IsDue (summarize st) w.in_flight w.place)
          → IsDue
              (summarize st)
              (to_summarize (if b then none else some (summarize st)) c ∷ w.in_flight)
              w.place
      go true f = IsDue-cons (summarize st) (to_summarize none c) w.in_flight w.place (f refl)
      go false f = inr (summarize st, Memᴰ.head refl, refl)

  -- Of a status that is fetched the fields of the summary can be told apart in the fingerprint.
  abbrev pub FetchesPlain : Event → Type 0
  FetchesPlain (fetches (some st)) = IsPlain (summarize st)
  FetchesPlain e = Unit

  happen-Delivers :
      (e : Event) (w : Watch) → FetchesPlain e → Delivers w → Delivers (happen is_tailscale_ip e w)
  unfolding happen refresh_locked take_status keep_summary keep_pac
  happen-Delivers (fetches none) w plain h = h
  happen-Delivers (fetches (some st)) w plain h =
      let stage : Stage =
        to_summarize (fresh_summary st w.place) (pac_changed is_tailscale_ip st w.place.backend) in
      keep_pac-Owes st (keep_summary st (take_status st w.place))
        (λ x. IsDue x (stage ∷ w.in_flight) w.place)
        (plain, refl, fetched-IsDue st w (pac_changed is_tailscale_ip st w.place.backend) plain h)
  happen-Delivers (advances i now) w plain h =
      let (same, due) = advance-Keeps i now w.in_flight w.place in
      let (p, stages) = advance is_tailscale_ip i now w.in_flight w.place in
      subst (λ b. Owes b.status b.last_summary (λ x. IsDue x stages p)) (sym same)
        (Owes-Keeps w.place.backend.status w.place.backend.last_summary
          (λ x. IsDue x w.in_flight w.place) (λ x. IsDue x stages p) due h)
  happen-Delivers (browses url) w plain h = h
  happen-Delivers logs_in w plain h = h
  happen-Delivers (reports msg) w plain h =
      Owes-Keeps w.place.backend.status w.place.backend.last_summary
        (λ x. IsDue x w.in_flight w.place) (λ x. IsDue x (to_change ∷ w.in_flight) w.place)
        (λ x. IsDue-cons x to_change w.in_flight w.place) h

  -- However the goroutines' calls of refreshStatus overlap, if the fields of each fetched summary
  -- can be told apart in its fingerprint: if at the start there is no status and no fingerprint, or
  -- the summary of the latest status, in all its fields but the time, has been handed to OnSummary
  -- or a call in flight is about to hand it over, with its fingerprint kept, then so it is at the
  -- end.
  pub happen_all-Delivers :
      (es : List Event) (w : Watch)
      → All FetchesPlain es
      → Delivers w
      → Delivers (happen_all is_tailscale_ip es w)
  unfolding happen_all
  happen_all-Delivers [] w plain h = h
  happen_all-Delivers (e ∷ es) w plain h =
      happen_all-Delivers es (happen is_tailscale_ip e w) (plain.1) (happen-Delivers e w plain.0 h)
