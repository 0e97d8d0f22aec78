-- ===== src/Program/Triple.antt =====
-- What a program ensures of its result, of the state it ends in and of every state on its way,
-- when only the fates of `W` occur.
use tswipoexp.Prelude.{true, false, arith, ◌≡◌, refl, ◌⊎◌, inl, inr, List, [], ◌∷◌, Bytes, All}
use tswipoexp.Program
use tswipoexp.Program.{
  Error, io_error, Result, ok, err, Fate, works, fails, Machine, Program, then_run, syscall_with,
}
use tswipoexp.Program.Sealed.{◌>>=◌, give, attempt, syscall, reading, setting}

abbrev pub Fits {ℓ} :
    {S : Type 0} {A : Type ℓ} (W : Fate → Type 0) (R : S → Type 0) (Q : Result A → S → Type 0)
    → Result A × Machine S
    → Type 0
Fits W R Q (r, d) = Q r d.state × All W d.fates × All R d.past

pub record Ensures {ℓ} {S : Type 0} {A : Type ℓ} (W : Fate → Type 0) (R P : S → Type 0)
    (m : Program S A) (Q : Result A → S → Type 0) : Type ℓ where
  pub run : (d : Machine S) → P d.state → All W d.fates → All R d.past → Fits W R Q (m d)

module _ {S : Type 0} {W : Fate → Type 0} {R P : S → Type 0} where
  pub >>=-Ensures {ℓ κ} :
      {A : Type ℓ} {B : Type κ} {Q : Result A → S → Type 0} {Q' : Result B → S → Type 0}
      {m : Program S A} {f : A → Program S B}
      → Ensures W R P m Q
      → ((a : A) → Ensures W R (Q (ok a)) (f a) Q')
      → ((e : Error) (t : S) → Q (err e) t → Q' (err e) t)
      → Ensures W R P (m >>= f) Q'
  unfolding ◌>>=◌
  >>=-Ensures {A} {Q} {Q'} {m} {f} first next failed = record {
    run = λ d p w r. go (m d) (first.run d p w r);
  }
    where
      go : (x : Result A × Machine S) → Fits W R Q x → Fits W R Q' (then_run f x)
      go (ok a, d) (q, w, r) = Ensures.run (next a) d q w r
      go (err e, d) (q, w, r) = (failed e d.state q, w, r)

  pub attempt-Ensures {ℓ} :
      {A : Type ℓ} {Q : Result (Result A) → S → Type 0} {m : Program S A}
      → Ensures W R P m (λ r t. Q (ok r) t)
      → Ensures W R P (attempt m) Q
  unfolding attempt
  attempt-Ensures h = record { run = λ d p w r. h.run d p w r }

  pub syscall-Ensures {ℓ} :
      {A : Type ℓ} {Q : Result A → S → Type 0} (op : S → Result A × S)
      → ((t : S) → P t → R t × Q (op t).0 (op t).1)
      → ((t : S) (junk : Bytes) → P t → W (fails junk) → Q (err io_error) t)
      → Ensures W R P (syscall op) Q
  unfolding syscall_with syscall
  syscall-Ensures {Q} op through failed = record { run = λ d. go d d.fates }
    where
      go :
          (d : Machine S) (fates : List Fate)
          → P d.state
          → All W fates
          → All R d.past
          → Fits W R Q
              (Program.syscall op (record { state = d.state; fates = fates; past = d.past }))
      go d [] p w r = ((through d.state p).1, tt, ((through d.state p).0, r))
      go d (works ∷ more) p (_, w) r = ((through d.state p).1, w, ((through d.state p).0, r))
      go d (fails junk ∷ more) p (u, w) r = (failed d.state junk p u, w, ((through d.state p).0, r))

  pub give-Ensures {ℓ} :
      {A : Type ℓ} {Q : Result A → S → Type 0} (r : Result A)
      → ((t : S) → P t → Q r t)
      → Ensures W R P (give r) Q
  unfolding give
  give-Ensures r h = record { run = λ d p w r. (h d.state p, w, r) }

  pub reading-Ensures {ℓ} :
      {A : Type ℓ} {Q : Result A → S → Type 0} {f : S → Program S A}
      → ((s : S) → P s → Ensures W R (λ t. (t ≡ s) × P t) (f s) Q)
      → Ensures W R P (reading f) Q
  unfolding reading
  reading-Ensures h = record { run = λ d p w r. Ensures.run (h d.state p) d (refl, p) w r }

  pub setting-Ensures :
      {Q : Result (Unit {0}) → S → Type 0} (f : S → S)
      → ((t : S) → P t → Q (ok tt) (f t))
      → Ensures W R P (setting f) Q
  unfolding setting
  setting-Ensures f h = record { run = λ d p w r. (h d.state p, w, r) }

  pub weaken {ℓ} :
      {A : Type ℓ} {P' : S → Type 0} {Q Q' : Result A → S → Type 0} {m : Program S A}
      → ((t : S) → P t → P' t)
      → ((r : Result A) (t : S) → Q' r t → Q r t)
      → Ensures W R P' m Q'
      → Ensures W R P m Q
  weaken {A} {Q} {Q'} {m} before after h = record {
    run = λ d p w r. go (m d) (h.run d (before d.state p) w r);
  }
    where
      go : (x : Result A × Machine S) → Fits W R Q' x → Fits W R Q x
      go (res, d) (q, w, r) = (after res d.state q, w, r)

  -- What is known before and does not speak of the state
  pub assuming {ℓ} :
      {A : Type ℓ} {Q : Result A → S → Type 0} {C : Type 0} (m : Program S A)
      → (C → Ensures W R P m Q)
      → Ensures W R (λ t. P t × C) m Q
  assuming m h = record { run = λ d (p, c) w r. Ensures.run (h c) d p w r }

-- What is known of `m` as a value: it does not end in an error itself.
abbrev Caught {ℓ} :
    {S : Type 0} {A : Type ℓ} → (Result A → S → Type 0) → Result (Result A) → S → Type 0
Caught Q (ok r) t = Q r t
Caught Q (err e) t = true ≡ false

-- `r, err := m` with what is done by it
pub trying-Ensures {ℓ κ} :
    {S : Type 0} {W : Fate → Type 0} {R P : S → Type 0} {A : Type ℓ} {C : Type κ}
    {Q : Result A → S → Type 0} {Q' : Result C → S → Type 0} {m : Program S A}
    {f : Result A → Program S C}
    → Ensures W R P m Q
    → ((r : Result A) → Ensures W R (Q r) (f r) Q')
    → Ensures W R P (attempt m >>= f) Q'
trying-Ensures {Q} h next =
    >>=-Ensures {Q = Caught Q} (attempt-Ensures h) next
      (λ e t never. absurd (ground (arith, never)))

-- A change of the program's own variables with what follows
pub then-Ensures {ℓ} :
    {S : Type 0} {W : Fate → Type 0} {R P P' : S → Type 0} {A : Type ℓ} {Q : Result A → S → Type 0}
    {m : Program S A} (f : S → S)
    → ((t : S) → P t → P' (f t))
    → Ensures W R P' m Q
    → Ensures W R P (setting f >>= λ _. m) Q
then-Ensures {P'} f h k =
    >>=-Ensures {Q = λ r t. Fine r × P' t} (setting-Ensures _ (λ t p. (refl, h t p)))
      (λ u. weaken (λ t q. q.1) (λ r t q. q) k) (λ e t (never, p). absurd (ground (arith, never)))
  where
    Fine : Result (Unit {0}) → Type 0
    Fine (ok u) = true ≡ true
    Fine (err e) = true ≡ false

pub choosing {ℓ} :
    {S : Type 0} {W : Fate → Type 0} {R : S → Type 0} {A : Type ℓ} {X : Type 0} {P : X → S → Type 0}
    {Q : Result A → S → Type 0} (m : Program S A)
    → ((x : X) → Ensures W R (P x) m Q)
    → Ensures W R (λ t. (x : X) × P x t) m Q
choosing m h = record { run = λ d (x, p) w r. Ensures.run (h x) d p w r }

pub either-Ensures {ℓ} :
    {S : Type 0} {W : Fate → Type 0} {R P P' : S → Type 0} {A : Type ℓ} {Q : Result A → S → Type 0}
    {m : Program S A}
    → Ensures W R P m Q
    → Ensures W R P' m Q
    → Ensures W R (λ t. P t ⊎ P' t) m Q
either-Ensures h h' = record {
  run = λ d p w r. elim p [ inl q ↦ Ensures.run h d q w r | inr q ↦ Ensures.run h' d q w r ];
}

abbrev pub Anything : {S : Type 0} → S → Type 0
Anything t = Unit

pub All-Anything : {S : Type 0} (past : List S) → All Anything past
All-Anything [] = tt
All-Anything (t ∷ past) = (tt, All-Anything past)

-- Two accounts of one program, of which the second does not speak of the states on the way
pub both-Ensures {ℓ} :
    {S : Type 0} {W : Fate → Type 0} {R P P' : S → Type 0} {A : Type ℓ}
    {Q Q' : Result A → S → Type 0} {m : Program S A}
    → Ensures W R P m Q
    → Ensures W Anything P' m Q'
    → Ensures W R (λ t. P t × P' t) m (λ r t. Q r t × Q' r t)
both-Ensures {S} {W} {R} {A} {Q} {Q'} {m} h h' = record {
  run = λ d (p, p') w r.
      join (m d) (Ensures.run h d p w r) (Ensures.run h' d p' w (All-Anything d.past));
}
  where
    join :
        (x : Result A × Machine S)
        → Fits W R Q x
        → Fits W Anything Q' x
        → Fits W R (λ r t. Q r t × Q' r t) x
    join (res, d) (q, w, r) (q', w', r') = ((q, q'), w, r)

-- The end of one run, and the states it has been in
pub Ensures-run {ℓ} :
    {S : Type 0} {W : Fate → Type 0} {R P : S → Type 0} {A : Type ℓ} {Q : Result A → S → Type 0}
    {m : Program S A}
    → Ensures W R P m Q
    → (d : Machine S) → P d.state
    → All W d.fates
    → All R d.past
    → Q (m d).0 (m d).1.state × All R (m d).1.past
Ensures-run {S} {W} {R} {A} {Q} {m} h d p w r = split (m d) (Ensures.run h d p w r)
  where
    split : (x : Result A × Machine S) → Fits W R Q x → Q x.0 x.1.state × All R x.1.past
    split (res, d') (q, w', r') = (q, r')
