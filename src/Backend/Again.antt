-- ===== src/Backend/Again.antt =====
-- Closing a backend twice, whichever calls fail.
use tswipoexp.Prelude.{
  ◌≡◌, refl, sym, ap, ◌∙◌, Bool, true, false, Option, none, some, List, [], ◌∷◌, All, arith,
  if◌then◌else◌,
}
use tswipoexp.Program.{Result, Fate, Machine, Program}
use tswipoexp.Program.Sealed.{◌>>=◌, pure, give, reading, syscall}
use tswipoexp.Program.Triple.{
  Ensures, >>=-Ensures, give-Ensures, reading-Ensures, setting-Ensures, syscall-Ensures, weaken,
  Anything, All-Anything, Ensures-run, trying-Ensures,
}
use tswipoexp.Program.Within.{within-Ensures}
use tswipoexp.Proxy.Undo.Writing.{IsOk}
use tswipoexp.Backend.{
  Platform, Place, session_of, with_session, unregister, stop_ssh, close_ssh, shut_ssh, shut_proxy,
  shut_node, close_proxy, close_server, close_once, close, result_of,
}

-- Every call may fail.
abbrev Any : Fate → Type 0
Any f = Unit

all_fates : (fates : List Fate) → All Any fates
all_fates [] = tt
all_fates (f ∷ fates) = (tt, all_fates fates)

-- Nothing is claimed of a program.
unknown {ℓ} :
    {S : Type 0} {A : Type ℓ} (m : Program S A) → Ensures Any Anything Anything m (λ r t. Unit {0})
unknown m = record { run = λ d p w r. (tt, all_fates (m d).1.fates, All-Anything (m d).1.past) }

abbrev Closed : Place → Type 0
Closed p = p.backend.closed ≡ true

call-Closed {ℓ} :
    {A : Type ℓ} (op : Place → Result A × Place)
    → ((p : Place) → (op p).1.backend.closed ≡ p.backend.closed)
    → Ensures Any Anything Closed (syscall op) (λ r p. Closed p)
call-Closed op h = syscall-Ensures op (λ p k. (tt, h p ∙ k)) (λ p junk k w. k)

close_ssh-Closed :
    (on : Bool) → Ensures Any Anything Closed (close_ssh on) (λ r p. IsOk r × Closed p)
unfolding shut_ssh
close_ssh-Closed false = give-Ensures _ (λ p h. (tt, h))
close_ssh-Closed true =
    trying-Ensures (call-Closed _ (λ p. refl)) (λ r. give-Ensures _ (λ p h. (tt, h)))

unregister-Closed : (os : Platform) → Ensures Any Anything Closed (unregister os) (λ r p. Closed p)
unfolding unregister
unregister-Closed os =
    within-Ensures session_of with_session (λ p h. tt) (λ p h s r. tt) (λ p h r s u. h) (unknown _)

close_proxy-Closed :
    (os : Platform) (ln : Option _)
    → Ensures Any Anything Closed (close_proxy os ln) (λ r p. IsOk r × Closed p)
unfolding shut_proxy
close_proxy-Closed os none = give-Ensures _ (λ p h. (tt, h))
close_proxy-Closed os (some addr) =
    trying-Ensures (unregister-Closed os)
      (λ r. trying-Ensures (call-Closed _ (λ p. refl)) (λ r. give-Ensures _ (λ p h. (tt, h))))

close_server-Closed :
    (os : Platform) (server : Bool)
    → Ensures Any Anything Closed (close_server os server) (λ r p. IsOk r × Closed p)
unfolding shut_node
close_server-Closed os false = give-Ensures _ (λ p h. (tt, h))
close_server-Closed os true =
    trying-Ensures (call-Closed _ (λ p. refl)) (λ r. setting-Ensures _ (λ p h. (tt, h)))

close_once-Closed :
    (os : Platform) → Ensures Any Anything Anything (close_once os) (λ r p. IsOk r × Closed p)
unfolding close_once stop_ssh
close_once-Closed os =
    >>=-Ensures {Q = λ r p. IsOk r × Closed p} (setting-Ensures _ (λ p h. (tt, refl)))
      (λ u.
        >>=-Ensures {Q = λ r p. IsOk r × Closed p} (setting-Ensures _ (λ p h. h))
          (λ u.
            >>=-Ensures {Q = λ r p. IsOk r × Closed p}
              (reading-Ensures λ p h.
                >>=-Ensures {Q = λ r p. IsOk r × Closed p} (setting-Ensures _ (λ q (same, k). k))
                  (λ u. weaken (λ q k. k.1) (λ r q k. k) (close_ssh-Closed p.backend.ssh_srv))
                  (λ e q (never, k). absurd (ground (arith, never))))
              (λ u.
                >>=-Ensures {Q = λ r p. IsOk r × Closed p}
                  (reading-Ensures λ p h.
                    weaken (λ q k. k.1.1) (λ r q k. k) (close_proxy-Closed os p.backend.proxy_ln))
                  (λ u. reading-Ensures λ p h.
                    weaken (λ q k. k.1.1) (λ r q k. k) (close_server-Closed os p.backend.server))
                  (λ e p (never, h). absurd (ground (arith, never))))
              (λ e p (never, h). absurd (ground (arith, never))))
          (λ e p (never, h). absurd (ground (arith, never))))
      (λ e p (never, h). absurd (ground (arith, never)))

-- After Close the backend is closed, and the result is the error that it remembers.
abbrev Told : Platform → Result (Unit {0}) → Place → Type 0
Told os r p = Closed p × (r ≡ result_of os p.backend.close_err)

guarded :
    (os : Platform) (p : Place) (closed : Bool)
    → p.backend.closed ≡ closed
    → Ensures Any Anything
        (λ q. (q ≡ p) × Unit {0})
        (if closed then pure tt else close_once os)
        (λ r q. IsOk r × Closed q)
guarded os p true e = give-Ensures _ (λ q (same, k). (tt, ap (λ x. x.backend.closed) same ∙ e))
guarded os p false e = weaken (λ q k. tt) (λ r q k. k) (close_once-Closed os)

close-Told : (os : Platform) → Ensures Any Anything Anything (close os) (Told os)
unfolding close
close-Told os =
    >>=-Ensures {Q = λ r p. IsOk r × Closed p}
      (reading-Ensures λ p h. guarded os p p.backend.closed refl)
      (λ u. reading-Ensures λ p h.
        give-Ensures _
          (λ q (same, (fine, k)). (k, ap (λ x. result_of os x.backend.close_err) (sym same))))
      (λ e p (never, h). absurd (ground (arith, never)))

second_close :
    (os : Platform) (d : Machine Place)
    → Closed d.state
    → close os d ≡ (result_of os d.state.backend.close_err, d)
unfolding close ◌>>=◌ reading give
second_close os d e = rw e refl

-- Whichever calls fail and whatever state it is in, a backend that is closed a second time returns
-- what the first Close returned, makes no call and changes nothing.
pub close-close : (os : Platform) (d : Machine Place) → close os (close os d).1 ≡ close os d
close-close os d =
    let (closed, told) =
      (Ensures-run (close-Told os) d tt (all_fates d.fates) (All-Anything d.past)).0 in
    second_close os (close os d).1 closed ∙ ap (λ r. (r, (close os d).1)) (sym told)
