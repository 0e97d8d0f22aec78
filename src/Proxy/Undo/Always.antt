-- ===== src/Proxy/Undo/Always.antt =====
-- Wherever a session with registrations stops, unregisterSystemProxy puts its settings back.
use tswipoexp.Prelude.{
  ◌≡◌, refl, ap, ◌∙◌, inl, inr, ◌⊎◌, true, false, Option, none, some, List, [], ◌∷◌, Bytes, All,
  ◌==◌, nat_eq, Bool-cases,
}
use tswipoexp.Program.{Result, ok, err, Fate, Machine}
use tswipoexp.Program.Sealed.{◌>>=◌, pure, attempt}
use tswipoexp.Program.Triple.{
  Ensures, >>=-Ensures, attempt-Ensures, syscall-Ensures, give-Ensures, reading-Ensures,
  setting-Ensures, weaken, Ensures-run,
}
use tswipoexp.Proxy.Settings.{ProxyRegistration}
use tswipoexp.Proxy.Session.{
  SavedProxySettings, Session, Watchdog, no_watchdog, watching, exited, Connection, P, app_base,
  loaded_from, other_call, is_this_machine,
}
use tswipoexp.Proxy.Registration.{
  of_this_machine, register_system_proxy, unregister_system_proxy, stop_watchdog, kill,
}
use tswipoexp.Proxy.Undo.{Kept, KeptAs, Fresh, Undoable, IsPlain, connection_of}
use tswipoexp.Proxy.Undo.Variables.{shown}
use tswipoexp.Proxy.Undo.Writing.{normal, IsOk, Restored, Cleaned}
use tswipoexp.Proxy.Undo.Saving.{load-Fresh, register-Fresh}
use tswipoexp.Proxy.Undo.Loading.{register-Held}
use tswipoexp.Proxy.Undo.Restoring.{unregister-Stored}

-- The settings of `t` are those of `o`: flags of 0 are the same as those for a direct connection,
-- and an empty variable is the same as none.
abbrev pub SameSettings : Session → Session → Type 0
SameSettings o t =
    (normal t.connection ≡ normal o.connection)
    × ((n : Bytes) → shown (t.variables n) ≡ shown (o.variables n))

-- Every call goes through.
abbrev pub Works : Fate → Type 0
Works f = true ≡ false

-- The machine on which the program starts anew in the session `t`, and no call fails.
abbrev pub started : Session → Machine Session
started t = record { state = t; fates = []; past = [] }

pub normal-normal : (c : Connection) → normal (normal c) ≡ normal c
normal-normal c =
    ap (λ n. record c { flags = n })
      (elim (Bool-cases (c.flags == 0)) [ inl e ↦ rw e refl | inr e ↦ rw (e, e) refl ])

-- `t'` has the settings of `t`, or else its restore file has those of the connection.
abbrev pub Recoverable :
    (unmarshal : Bytes → Option SavedProxySettings) → Session → Session → Type 0
Recoverable unmarshal t t' =
    ((t'.connection ≡ t.connection) × (t'.variables ≡ t.variables))
    ⊎ ((s : SavedProxySettings) × (b : Bytes) × (t'.restore_json ≡ some b)
        × (unmarshal b ≡ some s)
        × (s.machine ≡ t'.machine)
        × (s.user ≡ t'.user)
        × (connection_of s ≡ t.connection))

module _ (marshal : SavedProxySettings → Bytes) (unmarshal : Bytes → Option SavedProxySettings)
    (round : (s : SavedProxySettings) → unmarshal (marshal s) ≡ some s) where
  -- Registrations one after the other, whatever becomes of each
  unfoldable pub register_all : List ProxyRegistration → P (Unit {0})
  register_all [] = pure tt
  register_all (reg ∷ regs) = do
    registered ← attempt (register_system_proxy marshal unmarshal reg)
    register_all regs

  module _ (o : Session) (base : Bytes) (located : app_base o ≡ some base) where
    abbrev pub Sound : Session → Type 0
    Sound = Undoable marshal unmarshal Works o

    pub register-Sound :
        (reg : ProxyRegistration)
        → Ensures Works Sound Sound (register_system_proxy marshal unmarshal reg) (λ r t. Sound t)
    register-Sound reg = record {
      run = λ d p w r. elim p [
        | inl fine ↦ Ensures.run (register-Fresh marshal unmarshal round Works o reg) d fine w r
        | inr (s, k) ↦ Ensures.run (kept s) d k w r
      ];
    }
      where
        kept :
            (s : SavedProxySettings)
            → Ensures Works Sound
                (KeptAs marshal unmarshal Works o s)
                (register_system_proxy marshal unmarshal reg)
                (λ r t. Sound t)
        kept s =
            weaken (λ t k. k) (λ r t k. inr (s, k))
              (register-Held marshal unmarshal Works (λ junk w. w) o base located Sound s
                (λ t k. inr (s, k)) reg)

    register_all-Sound :
        (regs : List ProxyRegistration)
        → Ensures Works Sound Sound (register_all regs) (λ r t. Sound t)
    unfolding register_all
    register_all-Sound [] = give-Ensures _ (λ t h. h)
    register_all-Sound (reg ∷ regs) =
        >>=-Ensures {Q = λ r t. Sound t} (attempt-Ensures (register-Sound reg))
          (λ u. register_all-Sound regs) (λ e t h. h)

    still :
        (r : Result (Option SavedProxySettings)) (t : Session)
        → of_this_machine marshal unmarshal r t ≡ none
        → of_this_machine marshal unmarshal r (record t { watchdog = no_watchdog }) ≡ none
    unfolding is_this_machine
    still (err e) t h = refl
    still (ok none) t h = refl
    still (ok (some s)) t h = h

    stop_watchdog-Fresh :
        Ensures Works Sound
          (Fresh marshal unmarshal Works o)
          stop_watchdog
          (λ r t. Fresh marshal unmarshal Works o t)
    unfolding stop_watchdog other_call
    stop_watchdog-Fresh =
        >>=-Ensures {Q = λ r t. Fresh marshal unmarshal Works o t}
          (reading-Ensures (λ t h. weaken (λ t' (same, h'). h') (λ r t' q. q) (killed t.watchdog)))
          (λ u. setting-Ensures _ quiet) (λ e t h. h)
      where
        quiet :
            (t : Session)
            → Fresh marshal unmarshal Works o t
            → Fresh marshal unmarshal Works o (record t { watchdog = no_watchdog })
        quiet t h = (h.0, h.1, h.2, h.3, still (loaded_from marshal unmarshal t.restore_json) t h.4)

        killed :
            (w : Watchdog)
            → Ensures Works Sound
                (Fresh marshal unmarshal Works o)
                (kill w)
                (λ r t. Fresh marshal unmarshal Works o t)
        killed watching =
            >>=-Ensures {Q = λ r t. Fresh marshal unmarshal Works o t}
              (attempt-Ensures (syscall-Ensures _ (λ t h. (inl h, h)) (λ t junk h w. h)))
              (λ u. give-Ensures _ (λ t h. h)) (λ e t h. h)
        killed no_watchdog = give-Ensures _ (λ t h. h)
        killed exited = give-Ensures _ (λ t h. h)

    pub unregister-Fresh :
        Ensures Works Sound
          (Fresh marshal unmarshal Works o)
          (unregister_system_proxy marshal unmarshal)
          (λ r t. Fresh marshal unmarshal Works o t)
    unfolding unregister_system_proxy
    unregister-Fresh =
        >>=-Ensures (load-Fresh marshal unmarshal round Works o)
          (λ loaded. reading-Ensures λ t (h, missing).
            rw missing (weaken (λ t' (same, (h', m)). h') (λ r t' q. q) stop_watchdog-Fresh))
          (λ e t (h, m). h)

    unregister-SameSettings :
        (t : Session)
        → IsPlain o.connection
        → Sound t
        → SameSettings o (unregister_system_proxy marshal unmarshal (started t)).1.state
    unregister-SameSettings t plain (inl fine) =
        let h = (Ensures-run unregister-Fresh (started t) fine tt tt).0 in
        (ap normal h.0, λ n. ap (λ vars. shown (vars n)) h.1)
    unregister-SameSettings t plain (inr (s, k)) =
        let h =
          (Ensures-run
            (unregister-Stored marshal unmarshal Works (λ junk w. w) o base located plain s)
            (started t) k tt tt).0.0.0.0 in
        (ap normal h.0 ∙ normal-normal o.connection, h.1)

  each {ℓ κ} :
      {A : Type ℓ} {p q : A → Type κ} (xs : List A) → ((x : A) → p x → q x) → All p xs → All q xs
  each [] f h = tt
  each (x ∷ xs) f (h, hs) = (f x h, each xs f hs)

  -- Suppose that the restore file holds nothing saved on this machine. However many registrations
  -- follow, wherever they stop and whether or not they succeed, a later unregisterSystemProxy gives
  -- the session's settings back, if its calls and those before go through, the directory for the
  -- restore file can be found, and the proxy settings have no NUL.
  pub register_all-unregister :
      (t : Session) (regs : List ProxyRegistration) (base : Bytes)
      → of_this_machine marshal unmarshal (loaded_from marshal unmarshal t.restore_json) t ≡ none
      → app_base t ≡ some base
      → IsPlain t.connection
      → All
          (λ t'. SameSettings t (unregister_system_proxy marshal unmarshal (started t')).1.state)
          ((register_all regs (started t)).1.state ∷ (register_all regs (started t)).1.past)
  register_all-unregister t regs base missing located plain =
      let h =
        Ensures-run (register_all-Sound t base located regs) (started t)
          (inl (refl, refl, refl, refl, missing)) tt tt in
      each ((register_all regs (started t)).1.state ∷ (register_all regs (started t)).1.past)
        (λ t' sound. unregister-SameSettings t base located t' plain sound) h

  -- Suppose that the restore file holds nothing saved on this machine. Whichever calls of a
  -- registration fail, at its end and at every moment before, the session is as it was, or the
  -- restore file holds its connection settings, saved on this machine.
  pub register-Recoverable :
      (t : Session) (fates : List Fate) (reg : ProxyRegistration)
      → of_this_machine marshal unmarshal (loaded_from marshal unmarshal t.restore_json) t ≡ none
      → let x =
          register_system_proxy marshal unmarshal reg (record (started t) { fates = fates }) in
        All (Recoverable unmarshal t) (x.1.state ∷ x.1.past)
  register-Recoverable t fates reg missing =
      let h =
        Ensures-run (register-Fresh marshal unmarshal round (λ f. Unit {0}) t reg)
          (record (started t) { fates = fates }) (refl, refl, refl, refl, missing) (any fates) tt in
      let x = register_system_proxy marshal unmarshal reg (record (started t) { fates = fates }) in
      each (x.1.state ∷ x.1.past) recover h
    where
      any : (fates : List Fate) → All (λ f. Unit {0}) fates
      any [] = tt
      any (f ∷ fates) = (tt, any fates)

      recover :
          (t' : Session)
          → Undoable marshal unmarshal (λ f. Unit {0}) t t'
          → Recoverable unmarshal t t'
      recover t' (inl h) = inl (h.0, h.1)
      recover t' (inr (s, (b, h1, h2, h3, h4, h5, h6, h7, h8))) = inr (s, b, h1, h2, h3, h4, h7.0)

  -- Suppose that the restore file holds the settings of `o`, saved on this machine, with no NUL, and
  -- that its directory can be found. Then unregisterSystemProxy succeeds if no call fails: those
  -- settings are back, and no restore file, RunOnce entry or script is left.
  pub unregister-Kept :
      (o t : Session) (base : Bytes)
      → app_base o ≡ some base
      → IsPlain o.connection
      → Kept marshal unmarshal Works o t
      → IsOk (unregister_system_proxy marshal unmarshal (started t)).0
        × Restored o (unregister_system_proxy marshal unmarshal (started t)).1.state
        × Cleaned (unregister_system_proxy marshal unmarshal (started t)).1.state
  unregister-Kept o t base located plain (s, k) =
      let h =
        (Ensures-run
          (unregister-Stored marshal unmarshal Works (λ junk w. w) o base located plain s)
          (started t) k tt tt).0 in
      (h.1, h.0.0.0, h.0.1)
