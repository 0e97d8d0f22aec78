-- ===== src/Proxy/Undo/Saving.antt =====
-- A first registration: its restore file is there before anything else changes.
use tswipoexp.Prelude.{
  ◌≡◌, refl, sym, ap, ◌∙◌, inl, inr, true, false, Option, none, some, List, [], ◌∷◌, Bytes, arith,
}
use tswipoexp.Program.{Error, io_error, Result, ok, err, Fate, fails}
use tswipoexp.Program.Sealed.{syscall}
use tswipoexp.Program.Triple.{
  Ensures, >>=-Ensures, attempt-Ensures, syscall-Ensures, give-Ensures, reading-Ensures, weaken,
  assuming, choosing,
}
use tswipoexp.Proxy.Settings.{ProxyRegistration, proxy_env_vars}
use tswipoexp.Proxy.Session.{
  SavedProxySettings, Session, Connection, Env, proxy_restore_dir, load_saved_proxy_settings, save,
  other_call, query_per_conn_proxy, get_string_value, get_variables, capture_proxy_settings,
  if_opened, recorded, value_of,
}
use tswipoexp.Proxy.Registration.{previous, of_this_machine, register_system_proxy}
use tswipoexp.Proxy.Undo.{Kept, Fresh, Undoable, Undoes, AllWork, entry, entries}
use tswipoexp.Proxy.Undo.Keeping.{changes-Keeps}

module _ (marshal : SavedProxySettings → Bytes) (unmarshal : Bytes → Option SavedProxySettings)
    (round : (s : SavedProxySettings) → unmarshal (marshal s) ≡ some s) (W : Fate → Type 0)
    (o : Session) where
  abbrev pub Fine : Session → Type 0
  Fine = Fresh marshal unmarshal W o

  abbrev pub Safe : Session → Type 0
  Safe = Undoable marshal unmarshal W o

  -- A call that only reads
  look {ℓ} :
      {A : Type ℓ} {Q : Result A → Type 0} (f : Session → Result A)
      → ((t : Session) → Fine t → Q (f t))
      → ((junk : Bytes) → W (fails junk) → Q (err io_error))
      → Ensures W Safe Fine (syscall (λ t. (f t, t))) (λ r t. Fine t × Q r)
  look f found failed =
      syscall-Ensures _ (λ t h. (inl h, (h, found t h))) (λ t junk h w. (h, failed junk w))

  dir-Fresh : Ensures W Safe Fine proxy_restore_dir (λ r t. Fine t)
  unfolding proxy_restore_dir
  dir-Fresh = syscall-Ensures _ (λ t h. (inl h, h)) (λ t junk h w. h)

  -- Nothing of this machine is loaded.
  pub load-Fresh :
      Ensures W Safe Fine
        (load_saved_proxy_settings marshal unmarshal)
        (λ r t. Fine t × (of_this_machine marshal unmarshal r t ≡ none))
  unfolding load_saved_proxy_settings
  load-Fresh =
      >>=-Ensures {Q = λ r t. Fine t} dir-Fresh
        (λ dir. syscall-Ensures _ (λ t h. (inl h, (h, h.4))) (λ t junk h w. (h, refl)))
        (λ e t h. (h, refl))

  -- What the capture of the variables gives, if no call fails.
  abbrev Read : List Bytes → Result Env → Type 0
  Read names (ok vars) = AllWork W → vars ≡ entries names o.variables
  Read names (err e) = true ≡ false

  abbrev ReadOne : Bytes → Result (Result Bytes) → Type 0
  ReadOne name (ok v) = AllWork W → v ≡ value_of (o.variables name)
  ReadOne name (err e) = true ≡ false

  recorded-entry :
      (name : Bytes) (v : Result Bytes) (a : Option Bytes) (rest : Env)
      → v ≡ value_of a
      → recorded name v rest ≡ entry name a rest
  recorded-entry name v none rest e = ap (λ v'. recorded name v' rest) e
  recorded-entry name v (some a) rest e = ap (λ v'. recorded name v' rest) e

  get_variables-Fresh :
      (names : List Bytes)
      → Ensures W Safe Fine (get_variables names) (λ r t. Fine t × Read names r)
  unfolding get_variables get_string_value entries
  get_variables-Fresh [] = give-Ensures _ (λ t h. (h, λ all. refl))
  get_variables-Fresh (name ∷ names) =
      >>=-Ensures {Q = λ r t. Fine t × ReadOne name r}
        (attempt-Ensures (
          look {Q = λ r. ReadOne name (ok r)} _ (λ t h all. ap (λ vars. value_of (vars name)) h.1)
            (λ junk w all. absurd (ground (arith, all junk w)))))
        (λ v. assuming _ λ one.
          >>=-Ensures (get_variables-Fresh names)
            (λ vars. give-Ensures _ (λ t (h, all_read). (
              h,
              λ all.
                  recorded-entry name v (o.variables name) vars (one all)
                  ∙ ap (entry name (o.variables name)) (all_read all),
            )))
            (λ e t (h, never). absurd (ground (arith, never))))
        (λ e t (h, never). absurd (ground (arith, never)))

  if_opened-Fresh :
      (opened : Result (Unit {0}))
      → ((e : Error) → opened ≡ err e → AllWork W → true ≡ false)
      → Ensures W Safe Fine (if_opened opened) (λ r t. Fine t × Read proxy_env_vars r)
  if_opened-Fresh (ok u) h = get_variables-Fresh proxy_env_vars
  if_opened-Fresh (err e) h =
      give-Ensures _ (λ t fine. (fine, λ all. absurd (ground (arith, h e refl all))))

  -- `s` is what a capture on `t` gives.
  abbrev Captured : Result SavedProxySettings → Session → Type 0
  Captured (ok s) t = Undoes W o s × (s.machine ≡ t.machine) × (s.user ≡ t.user)
  Captured (err e) t = Unit

  capture-Fresh : Ensures W Safe Fine capture_proxy_settings (λ r t. Fine t × Captured r t)
  unfolding capture_proxy_settings query_per_conn_proxy other_call
  capture-Fresh =
      >>=-Ensures {Q = λ r t. Fine t × IsCurrent r}
        (look {Q = IsCurrent} _ (λ t h. h.0) (λ junk w. tt))
        (λ c. assuming _ λ current.
          >>=-Ensures {Q = λ r t. Fine t × Opens r}
            (attempt-Ensures (
              look {Q = λ r. Opens (ok r)} _ (λ t h e never all. ground (arith, never))
                (λ junk w e same all. all junk w)))
            (λ opened. assuming _ λ opens.
              >>=-Ensures (if_opened-Fresh opened opens)
                (λ vars. assuming _ λ read. reading-Ensures λ t h. give-Ensures _ λ t' (same, fine).
                  (
                    fine,
                    ((current, read), sym (ap (λ x. x.machine) same), sym (ap (λ x. x.user) same)),
                  ))
                (λ e t (fine, never). absurd (ground (arith, never))))
            (λ e t (fine, never). absurd (ground (arith, never))))
        (λ e t (fine, u). (fine, tt))
    where
      IsCurrent : Result Connection → Type 0
      IsCurrent (ok c) = c ≡ o.connection
      IsCurrent (err e) = Unit

      Opens : Result (Result (Unit {0})) → Type 0
      Opens (ok opened) = (e : Error) → opened ≡ err e → AllWork W → true ≡ false
      Opens (err e) = true ≡ false

  -- A result comes with the restore file, an error with nothing.
  abbrev Filed {ℓ} : {A : Type ℓ} → Result A → Session → Type 0
  Filed (ok a) t = Kept marshal unmarshal W o t
  Filed (err e) t = Fine t

  save-Fresh :
      (s : SavedProxySettings)
      → Ensures W Safe (λ t. Fine t × Captured (ok s) t) (save marshal unmarshal s) Filed
  unfolding save proxy_restore_dir
  save-Fresh s =
      >>=-Ensures {Q = λ r t. Fine t × Captured (ok s) t}
        (syscall-Ensures _ (λ t h. (inl h.0, h)) (λ t junk h w. h))
        (λ dir.
          syscall-Ensures _
            (λ t (fine, (u, m, n)). (
              inl fine,
              (
                s,
                (
                  marshal s,
                  refl,
                  round s,
                  m,
                  n,
                  fine.2,
                  fine.3,
                  u,
                  λ name out. ap (λ vars. vars name) fine.1,
                ),
              ),
            ))
            (λ t junk (fine, c) w. fine))
        (λ e t (fine, c). fine)

  previous-Fresh : Ensures W Safe Fine (previous marshal unmarshal) Filed
  unfolding previous
  previous-Fresh =
      >>=-Ensures {Q = λ r t. Fine t × Missing r t} (attempt-Ensures load-Fresh)
        (λ loaded. reading-Ensures λ s (fine, missing). rw missing (
          weaken (λ t (same, (fine', m)). fine') (λ r t q. q)
            (>>=-Ensures capture-Fresh
              (λ captured.
                >>=-Ensures (save-Fresh captured) (λ u. give-Ensures _ (λ t k. k))
                  (λ e t fine'. fine'))
              (λ e t (fine', u). fine'))))
        (λ e t (fine, u). fine)
    where
      Missing : Result (Result (Option SavedProxySettings)) → Session → Type 0
      Missing (ok loaded) t = of_this_machine marshal unmarshal loaded t ≡ none
      Missing (err e) t = Unit

  -- A first registration can be undone, whatever fails and wherever it stops.
  pub register-Fresh :
      (reg : ProxyRegistration)
      → Ensures W Safe Fine (register_system_proxy marshal unmarshal reg) (λ r t. Safe t)
  unfolding register_system_proxy
  register-Fresh reg =
      >>=-Ensures previous-Fresh
        (λ s. choosing _ λ kept.
          weaken (λ t k. k) (λ r t k. inr (kept, k))
            (changes-Keeps marshal unmarshal W o kept Safe (λ t k. inr (kept, k)) reg s))
        (λ e t fine. inl fine)
