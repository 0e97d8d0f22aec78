-- ===== src/Program/Within.antt =====
-- A program over a part of a larger state.
use tswipoexp.Prelude.{List, [], ◌∷◌, ◌++◌, map, All}
use tswipoexp.Program.{Result, Fate, Machine, Program}
use tswipoexp.Program.Triple.{Ensures, Fits}

module _ {S T : Type 0} (get : T → S) (set : S → T → T) where
  abbrev widen {ℓ} : {A : Type ℓ} → Machine T → Result A × Machine S → Result A × Machine T
  widen d (r, e) = (
    r,
    record {
      state = set e.state d.state;
      fates = e.fates;
      past = map (λ s. set s d.state) e.past ++ d.past;
    },
  )

  unfoldable pub within {ℓ} : {A : Type ℓ} → Program S A → Program T A
  within m d = widen d (m (record { state = get d.state; fates = d.fates; past = [] }))

  map-All :
      (R : S → Type 0) (R' : T → Type 0) (t : T) (past : List S) (rest : List T)
      → ((s : S) → R s → R' (set s t))
      → All R past
      → All R' rest
      → All R' (map (λ s. set s t) past ++ rest)
  map-All R R' t [] rest f r k = k
  map-All R R' t (s ∷ past) rest f (h, r) k = (f s h, map-All R R' t past rest f r k)

  pub within-Ensures {ℓ} :
      {A : Type ℓ} {W : Fate → Type 0} {R P : S → Type 0} {Q : Result A → S → Type 0}
      {R' P' : T → Type 0} {Q' : Result A → T → Type 0} {m : Program S A}
      → ((t : T) → P' t → P (get t))
      → ((t : T) → P' t → (s : S) → R s → R' (set s t))
      → ((t : T) → P' t → (r : Result A) (s : S) → Q r s → Q' r (set s t))
      → Ensures W R P m Q
      → Ensures W R' P' (within m) Q'
  unfolding within
  within-Ensures {A} {W} {R} {P} {Q} {R'} {P'} {Q'} {m} before during after h = record {
    run = λ d p w r. go d p r (m (record { state = get d.state; fates = d.fates; past = [] })) (
        Ensures.run h (record { state = get d.state; fates = d.fates; past = [] })
          (before d.state p) w tt);
  }
    where
      go :
          (d : Machine T)
          → P' d.state
          → All R' d.past
          → (x : Result A × Machine S) → Fits W R Q x
          → Fits W R' Q' (widen d x)
      go d p r (res, e) (q, w, k) = (
        after d.state p res e.state q,
        w,
        map-All R R' d.state e.past d.past (λ s. during d.state p s) k r,
      )
