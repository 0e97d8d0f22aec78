-- ===== src/Proxy/Undo/Restoring.antt =====
-- The way back, when the calls go through.
use tswipoexp.Prelude.{
  ◌≡◌, refl, sym, ap, ◌∙◌, inl, inr, ◌⊎◌, Option, none, some, Bytes, arith, nat_eq, list_eq,
}
use mathlib.Core.Path.{subst}
use tswipoexp.Program.{ok, Fate}
use tswipoexp.Program.Triple.{
  Ensures, >>=-Ensures, attempt-Ensures, syscall-Ensures, give-Ensures, reading-Ensures, weaken,
  assuming, choosing, Anything, both-Ensures, setting-Ensures,
}
use tswipoexp.Proxy.Session.{
  SavedProxySettings, Session, Watchdog, no_watchdog, watching, exited, proxy_restore_dir, app_base,
  dir_below, other_call, restore, remove_saved_proxy_settings,
}
use tswipoexp.Proxy.Registration.{
  of_this_machine, unregister_system_proxy, undo, kill, stop_watchdog, remove_crash_restore,
  remove_run_once,
}
use tswipoexp.Proxy.Undo.{KeptAs, Undoes, AllWork, IsPlain, connection_of}
use tswipoexp.Proxy.Undo.Variables.{shown, applied-overlay, overlay-AreProxyVars}
use tswipoexp.Proxy.Undo.Writing.{IsOk, goes, restore-applied, normal, Restored, Cleaned}
use tswipoexp.Proxy.Undo.Loading.{load-Held, mine}
use tswipoexp.Proxy.Undo.Keeping.{
  then_Keeps, stop_watchdog-Keeps, set_per_conn_proxy-Keeps, set_user_env-Keeps,
}

module _ (marshal : SavedProxySettings → Bytes) (unmarshal : Bytes → Option SavedProxySettings)
    (W : Fate → Type 0) (all : AllWork W) (o : Session) (base : Bytes)
    (located : app_base o ≡ some base) (plain : IsPlain o.connection) (s : SavedProxySettings) where
  abbrev pub Stored : Session → Type 0
  Stored = KeptAs marshal unmarshal W o s

  abbrev pub Settled : Session → Type 0
  Settled t = Restored o t × (t.local_app_data ≡ o.local_app_data) × (t.cache_dir ≡ o.cache_dir)

  -- On the way either the restore file is there or the settings are back.
  abbrev pub Halfway : Session → Type 0
  Halfway t = Stored t ⊎ Settled t

  restore-Keeps : Undoes W o s → Ensures W Halfway Stored (restore s) (λ r t. Stored t)
  unfolding restore
  restore-Keeps (same, vars) =
      then_Keeps marshal unmarshal W o s Halfway (λ t h. inl h)
        (set_per_conn_proxy-Keeps marshal unmarshal W o s Halfway (λ t h. inl h) _)
        λ u.
          set_user_env-Keeps marshal unmarshal W o s Halfway (λ t h. inl h) _
            (rw (vars all) (overlay-AreProxyVars o.variables))

  restore-Stored :
      Undoes W o s
      → Ensures W Halfway Stored (restore s) (λ r t. Stored t × (IsOk r × Restored o t))
  restore-Stored (same, vars) =
      weaken (λ t h. ((t.variables, h.8), (h, refl))) (λ r t q. q)
        (choosing {P = λ x t. Stored t × (t.variables ≡ x.0)} _ λ (f, out).
          weaken (λ t q. q)
            (λ r t (h, (fine, conn, now)). (
              h,
              (
                fine,
                (
                  conn ∙ ap normal same,
                  λ n.
                      ap (λ g. shown (g n)) now
                      ∙ rw (vars all) (applied-overlay o.variables f out n),
                ),
              ),
            ))
            (both-Ensures (restore-Keeps (same, vars)) (restore-applied W all s f plain_saved)))
    where
      plain_saved : IsPlain (connection_of s)
      plain_saved = subst IsPlain (sym same) plain

  abbrev Away : Session → Type 0
  Away t = Settled t × (t.restore_json ≡ none)

  -- The directory of the restore files is found wherever the settings are back.
  dir-Settled :
      (C : Session → Type 0)
      → ((t : Session) → C t → Settled t)
      → Ensures W Halfway C proxy_restore_dir (λ r t. C t × IsOk r)
  unfolding proxy_restore_dir app_base
  dir-Settled C settled = goes W all _ (λ t c. (inr (settled t c), (c, found t (settled t c))))
    where
      found : (t : Session) → Settled t → IsOk (dir_below (app_base t))
      found t (h, h1, h2) = rw (h1, h2, located) tt

  removed_json :
      Ensures W Halfway
        (λ t. Stored t × (Unit {0} × Restored o t))
        remove_saved_proxy_settings
        (λ r t. Away t × IsOk r)
  unfolding remove_saved_proxy_settings proxy_restore_dir app_base
  removed_json =
      >>=-Ensures {Q = λ r t. Settled t × IsOk r}
        (goes W all _ (λ t (h, (u, restored)).
          let settled : Settled t = (restored, h.5, h.6) in (inl h, (settled, found t settled))))
        (λ dir. goes W all _ (λ t (h, u). (inr h, ((h, refl), tt))))
        (λ e t (h, never). absurd (ground (arith, never)))
    where
      found : (t : Session) → Settled t → IsOk (dir_below (app_base t))
      found t (h, h1, h2) = rw (h1, h2, located) tt

  removed_scripts :
      Ensures W Halfway Away remove_crash_restore (λ r t. (Settled t × Cleaned t) × IsOk r)
  unfolding remove_crash_restore remove_run_once other_call
  removed_scripts =
      >>=-Ensures {Q = λ r t. (Away t × (t.run_once ≡ none)) × IsOk r}
        (>>=-Ensures {Q = λ r t. Away t × IsOk r} (goes W all _ (λ t h. (inr h.0, (h, tt))))
          (λ u. goes W all _ (λ t (h, v). (inr h.0, ((h, refl), tt))))
          (λ e t (h, never). absurd (ground (arith, never))))
        (λ u.
          weaken (λ t (h, v). h) (λ r t q. q)
            (>>=-Ensures (dir-Settled (λ t. Away t × (t.run_once ≡ none)) (λ t h. h.0.0))
              (λ dir.
                >>=-Ensures
                  {Q = λ r t. (Away t × (t.run_once ≡ none)) × ((t.restore_cmd ≡ none) × IsOk r)}
                  (goes W all _ (λ t (h, v). (inr h.0.0, (h, (refl, tt)))))
                  (λ u'. goes W all _ (λ t ((away, once), (cmd, v)).
                    (inr away.0, ((away.0, (away.1, once, cmd, refl)), tt))))
                  (λ e t (h, (h', never)). absurd (ground (arith, never))))
              (λ e t (h, never). absurd (ground (arith, never)))))
        (λ e t (h, never). absurd (ground (arith, never)))

  kill-IsOk : (w : Watchdog) → Ensures W Anything Anything (kill w) (λ r t. IsOk r)
  unfolding other_call
  kill-IsOk watching =
      >>=-Ensures {Q = λ r t. IsOk r}
        (attempt-Ensures (syscall-Ensures _ (λ t h. (tt, tt)) (λ t junk h w. tt)))
        (λ killed. give-Ensures _ (λ t h. tt)) (λ e t never. never)
  kill-IsOk no_watchdog = give-Ensures _ (λ t h. tt)
  kill-IsOk exited = give-Ensures _ (λ t h. tt)

  stop_watchdog-IsOk : Ensures W Anything Anything stop_watchdog (λ r t. IsOk r)
  unfolding stop_watchdog
  stop_watchdog-IsOk =
      >>=-Ensures {Q = λ r t. IsOk r}
        (reading-Ensures (λ t h. weaken (λ t' h'. tt) (λ r t' q. q) (kill-IsOk t.watchdog)))
        (λ u. setting-Ensures _ (λ t h. tt)) (λ e t never. never)

  undo-Stored :
      Undoes W o s
      → Ensures W Halfway Stored
          (undo marshal unmarshal (some s))
          (λ r t. (Settled t × Cleaned t) × IsOk r)
  undo-Stored h =
      >>=-Ensures
        (weaken (λ t h. (h, tt)) (λ r t q. q)
          (both-Ensures (stop_watchdog-Keeps marshal unmarshal W o s Halfway (λ t h. inl h))
            stop_watchdog-IsOk))
        (λ u.
          weaken (λ t (k, v). k) (λ r t q. q)
            (>>=-Ensures (restore-Stored h)
              (λ u'.
                >>=-Ensures {Q = λ r t. Away t × IsOk r}
                  (attempt-Ensures (weaken (λ t q. q) (λ r t (q, v). (q, tt)) removed_json))
                  (λ removed.
                    weaken (λ t (q, v). q) (λ r t q. q)
                      (>>=-Ensures {Q = λ r t. (Settled t × Cleaned t) × IsOk r}
                        (attempt-Ensures
                          (weaken (λ t q. q) (λ r t (q, v). (q, tt)) removed_scripts))
                        (λ cleaned. give-Ensures _ (λ t (q, v). (q, tt)))
                        (λ e t (q, never). absurd (ground (arith, never)))))
                  (λ e t (q, never). absurd (ground (arith, never))))
              (λ e t (q, (never, v)). absurd (ground (arith, never)))))
        (λ e t (q, never). absurd (ground (arith, never)))

  -- The way back from the restore file
  pub unregister-Stored :
      Ensures W Halfway Stored
        (unregister_system_proxy marshal unmarshal)
        (λ r t. (Settled t × Cleaned t) × IsOk r)
  unfolding unregister_system_proxy
  unregister-Stored =
      >>=-Ensures (load-Held marshal unmarshal W all o base located Halfway s (λ t h. inl h))
        (λ loaded. assuming _ λ e. reading-Ensures λ t h.
          let e' : of_this_machine marshal unmarshal (ok loaded) t ≡ some s =
            ap (λ l. of_this_machine marshal unmarshal l t) e
            ∙ mine marshal unmarshal W all o base located Halfway s (λ t h. inl h) t h in
          rw e' (weaken (λ t' (same, h'). h') (λ r t' q. q) (undo-Stored h.7)))
        (λ e t (h, never). absurd (ground (arith, never)))
