-- ===== src/App/Obeying.antt =====
-- What the commands of App, tswipoexp.go, keep.
use mathlib.Core.Path.{subst}
use tswipoexp.Prelude.{◌≡◌, ap, Bool, true, false, Option, some, Bytes, nat_eq, list_eq, arith}
use tswipoexp.Program.{Error, Result, ok, err}
use tswipoexp.Program.Sealed.{◌>>=◌}
use tswipoexp.Program.Triple.{
  Ensures, >>=-Ensures, trying-Ensures, give-Ensures, reading-Ensures, weaken, Anything,
  then-Ensures,
}
use tswipoexp.Proxy.Session.{SavedProxySettings, Session}
use tswipoexp.Proxy.Undo.Always.{Works}
use tswipoexp.Profiles.Config.{Config}
use tswipoexp.Profiles.Store.{JsonText}
use tswipoexp.Backend.{Platform, Place, B}
use tswipoexp.Backend.Owning.{Owned, apply_outbound-Owned}
use tswipoexp.App.{
  World, A, on_place, show, change_config, stop_backend, switch_profile, save_current, apply_saved,
  apply_if, apply_changed, renamed_node,
}
use tswipoexp.App.Holding.{
  put-Ensures, on_place-Ensures, Runs, Fine, Holds, Holds-running, show-Holds, Stopped,
  start_backend-Holds, stop_backend-Stopped,
}

module _ (os : Platform) (round : (s : SavedProxySettings) → os.unmarshal (os.marshal s) ≡ some s)
    (o : Session) (base : Bytes) where
  abbrev pub Kept : World → Type 0
  Kept = Holds os round o base

  pub with_config :
      (f : Config → Config) (b : Bool) (p : Place)
      → Fine os round o base b p
      → Fine os round o base b (record p { backend = record p.backend { cfg = f p.backend.cfg } })
  with_config f true p h = h
  with_config f false p h = h

  pub with_node :
      (name : Bytes) (b : Bool) (p : Place)
      → Fine os round o base b p
      → Fine os round o base b (record p { node = renamed_node p.node name })
  with_node name true p (b, (k, (s, n))) =
      (b, (k, (s, ((λ e. ap (λ x. renamed_node x name) (n.0 e)), n.1))))
  with_node name false p (h, n) = (h, ap (λ x. renamed_node x name) n)

  module _ (json : JsonText) (log_file : Bytes → Option Bytes) where
    pub saving-Kept : Ensures Works Anything Kept (save_current os json log_file) (λ r w. Kept w)
    unfolding save_current
    saving-Kept =
        reading-Ensures
          λ w h. weaken (λ v k. k.1) (λ r v k. k) (put-Ensures {P = Kept} _ (λ v e k. k))

    pub shown-Kept : (r : Result (Unit {0})) → Ensures Works Anything Kept (show r) (λ r w. Kept w)
    shown-Kept r = weaken (λ w h. h) (λ r w h. h.1) (show-Holds os round o base json log_file r)

    pub stop_first :
        {X : Type 0} {Q : Result X → World → Type 0} {m : A X}
        → ((e : Error) (w : World) → true ≡ false → Q (err e) w)
        → Ensures Works Anything (Stopped os round o base json log_file) m Q
        → Ensures Works Anything Kept (stop_backend os json log_file >>= λ _. m) Q
    stop_first never h =
        >>=-Ensures (stop_backend-Stopped os round o base json log_file)
          (λ u. weaken (λ w k. k.1) (λ r w k. k) h) (λ e w k. never e w k.0)

    pub switch_profile-Kept :
        (name : Bytes)
        → Ensures Works Anything Kept (switch_profile os json log_file name) (λ r w. Kept w)
    unfolding switch_profile
    switch_profile-Kept name =
        stop_first (λ e w never. absurd (ground (arith, never)))
          (trying-Ensures (start_backend-Holds os round o base json log_file name) shown-Kept)

    -- A program on the place of a running backend
    pub on_running :
        (m : B (Unit {0}))
        → Ensures Works Anything
            (Owned os round o base false)
            m
            (λ r p. Owned os round o base false p)
        → Ensures Works Anything (λ w. Kept w × Runs true w) (on_place m) (λ r w. Kept w)
    on_running m h =
        weaken (λ w (k, e). (subst (λ b. Fine os round o base b w.place) e k, e))
          (λ r w (k, e). Holds-running os round o base true w e k)
          (on_place-Ensures (Runs true) (λ w p k. k) h)

    apply_saved-Kept :
        (addr_changed : Bool) (r : Result (Unit {0}))
        → Ensures Works Anything
            (λ w. Kept w × Runs true w)
            (apply_saved os json log_file addr_changed r)
            (λ r w. Kept w)
    apply_saved-Kept addr_changed (err e) = weaken (λ w h. h.0) (λ r w h. h) (shown-Kept (err e))
    apply_saved-Kept true (ok u) =
        reading-Ensures
          λ w h. weaken (λ v k. k.1.0) (λ r v k. k) (switch_profile-Kept w.place.backend.profile)
    apply_saved-Kept false (ok u) =
        trying-Ensures (on_running _ (apply_outbound-Owned os round o base false)) shown-Kept

    pub saving-Runs :
        Ensures Works Anything
          (λ w. Kept w × Runs true w)
          (save_current os json log_file)
          (λ r w. Kept w × Runs true w)
    unfolding save_current
    saving-Runs = reading-Ensures λ w h.
        weaken (λ v k. k.1) (λ r v k. k)
          (put-Ensures {P = λ w. Kept w × Runs true w} _ (λ v e k. k))

    apply_if-Kept :
        (b : Bool) (f : Config → Config) (addr_changed : Bool)
        → Ensures Works Anything
            (λ w. Kept w × Runs b w)
            (apply_if os json log_file b f addr_changed)
            (λ r w. Kept w)
    unfolding change_config
    apply_if-Kept false f addr_changed = give-Ensures _ (λ w h. h.0)
    apply_if-Kept true f addr_changed =
        then-Ensures {P' = λ w. Kept w × Runs true w} _
          (λ w (h, e). (with_config f w.running w.place h, e))
          (trying-Ensures saving-Runs (λ r. apply_saved-Kept addr_changed r))

    pub apply_changed-Kept :
        (f : Config → Config) (addr_changed : Bool)
        → Ensures Works Anything Kept
            (apply_changed os json log_file f addr_changed)
            (λ r w. Kept w)
    unfolding apply_changed
    apply_changed-Kept f addr_changed = reading-Ensures λ w h.
        weaken (λ v (same, k). (k, ap (λ x. x.running) same)) (λ r v k. k)
          (apply_if-Kept w.running f addr_changed)
