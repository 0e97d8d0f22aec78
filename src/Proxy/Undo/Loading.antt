-- ===== src/Proxy/Undo/Loading.antt =====
-- A later registration finds the settings that an earlier one saved, and keeps them.
use tswipoexp.Prelude.{
  ◌≡◌, refl, ap, ◌∙◌, true, false, Option, some, Bytes, arith, nat_eq, list_eq, eq_refl,
}
use tswipoexp.Program.{Result, ok, err, Fate}
use tswipoexp.Program.Triple.{
  Ensures, >>=-Ensures, attempt-Ensures, syscall-Ensures, give-Ensures, reading-Ensures, assuming,
}
use tswipoexp.Proxy.Settings.{ProxyRegistration}
use tswipoexp.Proxy.Session.{
  SavedProxySettings, Session, proxy_restore_dir, load_saved_proxy_settings, app_base, dir_below,
  is_this_machine, loaded_from,
}
use tswipoexp.Proxy.Registration.{previous, of_this_machine, register_system_proxy}
use tswipoexp.Proxy.Undo.{KeptAs, AllWork}
use tswipoexp.Proxy.Undo.Writing.{IsOk}
use tswipoexp.Proxy.Undo.Keeping.{changes-Keeps}

module _ (marshal : SavedProxySettings → Bytes) (unmarshal : Bytes → Option SavedProxySettings)
    (W : Fate → Type 0) (all : AllWork W) (o : Session) (base : Bytes)
    (located : app_base o ≡ some base) (R : Session → Type 0) (s : SavedProxySettings)
    (within : (t : Session) → KeptAs marshal unmarshal W o s t → R t) where
  abbrev pub Held : Session → Type 0
  Held = KeptAs marshal unmarshal W o s

  finds_dir : (t : Session) → Held t → IsOk (dir_below (app_base t))
  unfolding app_base
  finds_dir t (b, h1, h2, h3, h4, h5, h6, h7, h8) = rw (h5, h6, located) tt

  pub dir-Held : Ensures W R Held proxy_restore_dir (λ r t. Held t × IsOk r)
  unfolding proxy_restore_dir
  dir-Held =
      syscall-Ensures _ (λ t h. (within t h, (h, finds_dir t h)))
        (λ t junk h w. absurd (ground (arith, all junk w)))

  own : (t : Session) → Held t → is_this_machine s t ≡ true
  unfolding is_this_machine
  own t (b, h1, h2, h3, h4, h5, h6, h7, h8) = rw (h3, h4, eq_refl t.machine, eq_refl t.user) refl

  pub load-Held :
      Ensures W R Held
        (load_saved_proxy_settings marshal unmarshal)
        (λ r t. Held t × (r ≡ ok (some s)))
  unfolding load_saved_proxy_settings
  load-Held =
      >>=-Ensures dir-Held
        (λ dir.
          syscall-Ensures _ (λ t (h, u). (within t h, (h, loads t h)))
            (λ t junk h w. absurd (ground (arith, all junk w))))
        (λ e t (h, never). absurd (ground (arith, never)))
    where
      loads : (t : Session) → Held t → loaded_from marshal unmarshal t.restore_json ≡ ok (some s)
      loads t (b, h1, h2, h3, h4, h5, h6, h7, h8) = rw (h1, h2) refl

  pub mine : (t : Session) → Held t → of_this_machine marshal unmarshal (ok (some s)) t ≡ some s
  mine t h = rw (own t h) refl

  abbrev Finds : Result (Result (Option SavedProxySettings)) → Type 0
  Finds (ok r) = r ≡ ok (some s)
  Finds (err e) = true ≡ false

  previous-Held : Ensures W R Held (previous marshal unmarshal) (λ r t. Held t × IsOk r)
  unfolding previous
  previous-Held =
      >>=-Ensures {Q = λ r t. Held t × Finds r} (attempt-Ensures load-Held)
        (λ loaded. assuming _ λ e. reading-Ensures λ t h.
          let e' : of_this_machine marshal unmarshal loaded t ≡ some s =
            ap (λ l. of_this_machine marshal unmarshal l t) e ∙ mine t h in
          rw e' (give-Ensures _ (λ t' (same, h'). (h', tt))))
        (λ e t (h, never). absurd (ground (arith, never)))

  -- A registration over an earlier one keeps the settings that were saved then.
  pub register-Held :
      (reg : ProxyRegistration)
      → Ensures W R Held (register_system_proxy marshal unmarshal reg) (λ r t. Held t)
  unfolding register_system_proxy
  register-Held reg =
      >>=-Ensures previous-Held
        (λ prev. assuming _ λ u. changes-Keeps marshal unmarshal W o s R within reg prev)
        (λ e t (h, never). h)
