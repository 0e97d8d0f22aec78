-- ===== src/App/Holding.antt =====
-- What runs and what is held between the commands of App, tswipoexp.go.
use mathlib.Core.Path.{subst}
use tswipoexp.Prelude.{
  ◌≡◌, refl, ap, Bool, true, false, Option, some, [], Bytes, All, nat_eq, list_eq, arith,
}
use tswipoexp.Program.{Result, ok, err, Machine}
use tswipoexp.Program.Triple.{
  Ensures, Fits, >>=-Ensures, trying-Ensures, give-Ensures, reading-Ensures, setting-Ensures,
  syscall-Ensures, weaken, Anything, then-Ensures,
}
use tswipoexp.Program.Within.{within-Ensures}
use tswipoexp.Disk.{Disk, M}
use tswipoexp.Proxy.Session.{SavedProxySettings, Session}
use tswipoexp.Proxy.Undo.Writing.{IsOk}
use tswipoexp.Proxy.Undo.Always.{Works}
use tswipoexp.Profiles.Store.{JsonText}
use tswipoexp.Backend.{Platform, Place, B, new_backend}
use tswipoexp.Backend.Owning.{Owned, start-Owned}
use tswipoexp.Backend.Closing.{Gone, close-Gone}
use tswipoexp.App.{
  World, place_of, with_place, put_disk, on_disk, on_place, show, set_target, after_start,
  start_backend, stop_if, stop_backend,
}

pub put-Ensures {ℓ} :
    {X : Type ℓ} {P : World → Type 0} (m : M X)
    → ((w : World) (e : Disk) → P w → P (record w { disk = e }))
    → Ensures Works Anything P (on_disk m) (λ r w. P w)
unfolding on_disk
put-Ensures {X} {P} m h = record { run = λ d p w r. go d p w r (m d.state.disk) }
  where
    go :
        (d : Machine World)
        → P d.state
        → All Works d.fates
        → All Anything d.past
        → (x : Result X × Disk) → Fits Works Anything (λ r w. P w) (put_disk d x)
    go d p w r (res, e) = (h d.state e p, w, r)

-- A program on the place, with what does not hang on the place
pub on_place-Ensures {ℓ} :
    {X : Type ℓ} {P : Place → Type 0} {Q : Result X → Place → Type 0} {m : B X} (F : World → Type 0)
    → ((w : World) (p : Place) → F w → F (with_place p w))
    → Ensures Works Anything P m Q
    → Ensures Works Anything (λ w. P w.place × F w) (on_place m) (λ r w. Q r w.place × F w)
unfolding on_place
on_place-Ensures F frame h =
    within-Ensures place_of with_place (λ w k. k.0) (λ w k s r. tt)
      (λ w k r s q. (q, frame w s k.1)) h

abbrev pub Runs : Bool → World → Type 0
Runs b w = w.running ≡ b

module _ (os : Platform) (round : (s : SavedProxySettings) → os.unmarshal (os.marshal s) ≡ some s)
    (o : Session) (base : Bytes) where
  -- The user's settings are back and nothing is left of a backend.
  abbrev pub Idle : Place → Type 0
  Idle = Gone os round o base

  abbrev pub Fine : Bool → Place → Type 0
  Fine true = Owned os round o base false
  Fine false = Idle

  -- What is there is the running backend's, or nothing is there.
  abbrev pub Holds : World → Type 0
  Holds w = Fine w.running w.place

  pub Holds-running : (b : Bool) (w : World) → w.running ≡ b → Fine b w.place → Holds w
  Holds-running b w e h = rw e h

  module _ (json : JsonText) (log_file : Bytes → Option Bytes) where
    pub show-Holds :
        (r : Result (Unit {0})) → Ensures Works Anything Holds (show r) (λ r w. IsOk r × Holds w)
    show-Holds (ok u) = give-Ensures _ (λ w h. (tt, h))
    show-Holds (err e) = setting-Ensures _ (λ w h. (tt, h))

    after_start-Holds :
        (name : Bytes) (r : Result (Unit {0}))
        → Ensures Works Anything
            (λ w. Owned os round o base false w.place × Runs true w)
            (after_start os json log_file name r)
            (λ r w. Holds w)
    unfolding set_target
    after_start-Holds name (ok u) =
        trying-Ensures {Q = λ r w. Holds w}
          (syscall-Ensures _
            (λ w (h, e). (tt, Holds-running true (record w { target = some name }) e h))
            (λ w junk h never. absurd (ground (arith, never))))
          (λ r. give-Ensures _ (λ w h. h))
    after_start-Holds name (err e) =
        then-Ensures {P' = λ w. Owned os round o base false w.place × Runs false w} _
          (λ w (h, k). (h, refl))
          (trying-Ensures (on_place-Ensures (Runs false) (λ w p k. k) (close-Gone os round o base))
            (λ r. give-Ensures _ (λ w (h, k). Holds-running false w k h)))

    -- Nothing is left of a backend, and none runs.
    abbrev pub Stopped : World → Type 0
    Stopped w = Idle w.place × Runs false w

    pub Stopped-Holds : (w : World) → Stopped w → Holds w
    Stopped-Holds w (h, e) = Holds-running false w e h

    pub start_backend-Holds :
        (name : Bytes)
        → Ensures Works Anything Stopped (start_backend os json log_file name) (λ r w. Holds w)
    unfolding start_backend new_backend
    start_backend-Holds name =
        >>=-Ensures (put-Ensures {P = Stopped} _ (λ w e h. h))
          (λ cfg.
            >>=-Ensures (put-Ensures {P = Stopped} _ (λ w e h. h))
              (λ u. trying-Ensures (put-Ensures {P = Stopped} _ (λ w e h. h)) (λ r.
                then-Ensures {P' = λ w. Owned os round o base false w.place × Runs true w} _
                  (λ w (h, e). (
                    (
                      h.0.0.0,
                      ((λ k. (h.0.0.1, h.0.1.1.1)), ((λ k. h.0.1.1.0), ((λ k. h.1), refl))),
                    ),
                    refl,
                  ))
                  (trying-Ensures
                    (on_place-Ensures (Runs true) (λ w p k. k)
                      (start-Owned os round o base false []))
                    (λ r. after_start-Holds name r))))
              (λ e w h. Stopped-Holds w h))
          (λ e w h. Stopped-Holds w h)

    stop_if-Stopped :
        (b : Bool)
        → Ensures Works Anything
            (λ w. Fine b w.place × Runs b w)
            (stop_if os json log_file b)
            (λ r w. IsOk r × Stopped w)
    stop_if-Stopped false = give-Ensures _ (λ w h. (tt, h))
    stop_if-Stopped true =
        then-Ensures {P' = λ w. Owned os round o base false w.place × Runs false w} _
          (λ w (h, e). (h, refl))
          (trying-Ensures (on_place-Ensures (Runs false) (λ w p k. k) (close-Gone os round o base))
            (λ r. give-Ensures _ (λ w h. (tt, h))))

    pub stop_backend-Stopped :
        Ensures Works Anything Holds (stop_backend os json log_file) (λ r w. IsOk r × Stopped w)
    unfolding stop_backend
    stop_backend-Stopped = reading-Ensures λ w h.
        weaken
          (λ v (same, k).
            (subst (λ b. Fine b v.place) (ap (λ x. x.running) same) k, ap (λ x. x.running) same))
          (λ r v k. k) (stop_if-Stopped w.running)
