-- ===== src/Backend/Sessions.antt =====
-- What a backend does to the user's session, when the calls go through.
use mathlib.Core.Path.{subst}
use tswipoexp.Prelude.{◌≡◌, refl, sym, ap, ◌∙◌, ◌⊎◌, inl, inr, some, Bytes}
use tswipoexp.Program.Triple.{
  Ensures, reading-Ensures, weaken, assuming, choosing, either-Ensures, Anything,
}
use tswipoexp.Program.Within.{within-Ensures}
use tswipoexp.Proxy.Session.{SavedProxySettings, Session, app_base}
use tswipoexp.Proxy.Undo.{Fresh, KeptAs, Undoable, IsPlain}
use tswipoexp.Proxy.Undo.Variables.{shown}
use tswipoexp.Proxy.Undo.Writing.{normal, Restored, Cleaned}
use tswipoexp.Proxy.Undo.Restoring.{unregister-Stored}
use tswipoexp.Proxy.Undo.Always.{
  SameSettings, Works, register-Sound, unregister-Fresh, normal-normal,
}
use tswipoexp.Backend.{Platform, Place, session_of, with_session, register, unregister}

SameSettings-trans : (a b c : Session) → SameSettings a b → SameSettings b c → SameSettings a c
SameSettings-trans a b c (h, k) (h', k') = (h' ∙ h, λ n. k' n ∙ k n)

module _ (os : Platform) (round : (s : SavedProxySettings) → os.unmarshal (os.marshal s) ≡ some s)
    (o : Session) (base : Bytes) where
  -- A session with the settings of `o` and a directory for the restore file
  abbrev pub Origin : Session → Type 0
  Origin o' = SameSettings o o' × (app_base o' ≡ some base) × IsPlain o'.connection

  -- The settings of `o` are there or can be put back.
  abbrev pub Held : Session → Type 0
  Held t = (o' : Session) × Origin o' × Undoable os.marshal os.unmarshal Works o' t

  untouched :
      (o' t : Session) → Origin o' → Fresh os.marshal os.unmarshal Works o' t → SameSettings o t
  untouched o' t (same, located, plain) h =
      SameSettings-trans o o' t same (ap normal h.0, λ n. ap (λ vars. shown (vars n)) h.1)

  Settled-Held :
      (o' t : Session)
      → Origin o'
      → Restored o' t × (t.local_app_data ≡ o'.local_app_data) × (t.cache_dir ≡ o'.cache_dir)
      → Cleaned t
      → Held t × SameSettings o t
  unfolding app_base
  Settled-Held o' t (same, located, plain) ((conn, vars), local, cache) (json, once, cmd, reg) = (
    (
      t,
      (same_as, app_base-eq ∙ located, subst IsPlain (sym conn) plain),
      inl (refl, refl, refl, refl, rw json refl),
    ),
    same_as,
  )
    where
      app_base-eq : app_base t ≡ app_base o'
      app_base-eq = rw (local, cache) refl

      same_as : SameSettings o t
      same_as = SameSettings-trans o o' t same (ap normal conn ∙ normal-normal o'.connection, vars)

  module _ (F : Place → Type 0)
      (frame : (p : Place) (s : Session) → F p → F (with_session s p)) where
    pub register-Held :
        Ensures Works Anything
          (λ p. Held p.session × F p)
          (register os)
          (λ r p. Held p.session × F p)
    unfolding register
    register-Held = reading-Ensures λ q h.
        weaken
          {P' = λ p.
            (o' : Session) × ((Undoable os.marshal os.unmarshal Works o' p.session × F p)
              × Origin o')}
          (λ p (e, ((o', org, u), f)). (o', ((u, f), org))) (λ r p h. h)
          (choosing _ λ o'. assuming _ λ org.
            within-Ensures session_of with_session (λ p h. h.0) (λ p h s r. tt)
              (λ p h r s u. ((o', org, u), frame p s h.1))
              (register-Sound os.marshal os.unmarshal round o' base org.1 _))

    pub unregister-Held :
        Ensures Works Anything
          (λ p. Held p.session × F p)
          (unregister os)
          (λ r p. (Held p.session × SameSettings o p.session) × F p)
    unfolding unregister
    unregister-Held =
        weaken
          {P' = λ p.
            (o' : Session) × ((((Fresh os.marshal os.unmarshal Works o' p.session × F p)
                × Origin o')
              ⊎ ((s : SavedProxySettings) × ((KeptAs os.marshal os.unmarshal Works o' s p.session
                      × F p)
                    × Origin o'))))}
          (λ p ((o', org, u), f).
            (o', elim u [ inl v ↦ inl ((v, f), org) | inr (s, v) ↦ inr (s, ((v, f), org)) ]))
          (λ r p h. h)
          (choosing _ λ o'.
            either-Ensures
              (assuming _ λ org.
                within-Ensures session_of with_session (λ p h. h.0) (λ p h s r. tt)
                  (λ p h r s u. (((o', org, inl u), untouched o' s org u), frame p s h.1))
                  (unregister-Fresh os.marshal os.unmarshal round o' base org.1))
              (choosing _ λ saved. assuming _ λ org.
                within-Ensures session_of with_session (λ p h. h.0) (λ p h s r. tt)
                  (λ p h r s u. (Settled-Held o' s org u.0.0 u.0.1, frame p s h.1))
                  (unregister-Stored os.marshal os.unmarshal Works (λ junk w. w) o' base org.1 org.2
                    saved)))
