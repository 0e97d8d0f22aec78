-- ===== src/Backend/Owning.antt =====
-- What a backend owns between Start and Close, when the calls go through.
use tswipoexp.Prelude.{
  ◌≡◌, refl, ap, ◌∙◌, inl, inr, Bool, true, false, Bool-cases, Option, none, some, List, [], ◌∷◌,
  Bytes, codes, ◌==◌, nat_eq, list_eq, list_eqb, arith, if◌then◌else◌,
}
use tswipoexp.Program.{Result, ok, err}
use tswipoexp.Program.Sealed.{◌>>=◌, ◌>>◌, pure, attempt, syscall}
use tswipoexp.Program.Triple.{
  Ensures, >>=-Ensures, give-Ensures, reading-Ensures, setting-Ensures, syscall-Ensures, weaken,
  Anything, trying-Ensures, then-Ensures,
}
use tswipoexp.Proxy.Session.{SavedProxySettings, Session}
use tswipoexp.Proxy.Undo.Writing.{IsOk}
use tswipoexp.Proxy.Undo.Always.{SameSettings, Works}
use tswipoexp.Profiles.Config.{Config, ssh_mode, ssh_off, register_proxy}
use tswipoexp.Backend.{
  Platform, Place, Backend, B, with_backend, proxy_address, addr_or_empty, register, unregister,
  put_fields, changed, set_err, start_ssh, stop_ssh, close_ssh, shut_ssh, set_ssh_mode, reported,
  report, start_proxy, register_after, start, apply_outbound, close,
}
use tswipoexp.Backend.Sessions.{Held, register-Held, unregister-Held}

-- What is done to a backend between Start and Close. An edit of the configuration is a change that the
-- user makes in a dialog.
pub data Op : Type 0 where
  applies : Op
  sets_mode : Bytes → Op
  edits : (Config → Config) → Op

module _ (os : Platform) where
  abbrev pub perform : Op → B (Unit {0})
  perform applies = apply_outbound os
  perform (sets_mode mode) = set_ssh_mode mode
  perform (edits f) = put_fields (λ b. record b { cfg = f b.cfg })

  unfoldable pub perform_all : List Op → B (Unit {0})
  perform_all [] = pure tt
  perform_all (op ∷ ops) = do done ← attempt (perform op); perform_all ops

  -- Start, whether or not it succeeds, what follows, and Close
  unfoldable pub live : Bytes → List Op → B (Unit {0})
  unfolding perform_all
  live auth_key ops = do started ← attempt (start os auth_key); perform_all ops; close os

abbrev HasProxy : Place → Type 0
HasProxy p = (addr : Bytes) × (p.backend.proxy_ln ≡ some addr)

abbrev pub OwnsSsh : Place → Type 0
OwnsSsh p = p.backend.ssh_srv ≡ false → p.ssh_port ≡ false

-- The node is the server's, and the backend is closed or not as `c` says.
abbrev pub OwnsNode : Bool → Place → Type 0
OwnsNode c p = (p.backend.server ≡ false → p.node ≡ none) × (p.backend.closed ≡ c)

-- A call that goes through
pub call-Ensures {ℓ} :
    {A : Type ℓ} {P : Place → Type 0} {Q : Result A → Place → Type 0}
    (op : Place → Result A × Place)
    → ((p : Place) → P p → Q (op p).0 (op p).1)
    → Ensures Works Anything P (syscall op) Q
call-Ensures op h =
    syscall-Ensures op (λ p k. (tt, h p k)) (λ p junk k w. absurd (ground (arith, w)))

pub put_then {ℓ} :
    {A : Type ℓ} {P P' : Place → Type 0} {Q : Result A → Place → Type 0} {m : B A}
    (f : Backend → Backend)
    → ((p : Place) → P p → P' (with_backend f p))
    → Ensures Works Anything P' m Q
    → Ensures Works Anything P (put_fields f >>= λ _. m) Q
put_then {P'} f h k = then-Ensures {P' = P'} (with_backend f) h k

some_of_address :
    (o : Option Bytes) → (addr_or_empty o == []) ≡ false → (addr : Bytes) × (o ≡ some addr)
unfolding list_eqb
some_of_address none h = absurd (ground (arith, h))
some_of_address (some addr) h = (addr, refl)

module _ (os : Platform) (round : (s : SavedProxySettings) → os.unmarshal (os.marshal s) ≡ some s)
    (o : Session) (base : Bytes) (c : Bool) where
  abbrev pub Back : Place → Type 0
  Back p = Held os round o base p.session

  -- Without a listener the session is as it was.
  abbrev pub OwnsProxy : Place → Type 0
  OwnsProxy p = p.backend.proxy_ln ≡ none → SameSettings o p.session × (p.proxy_port ≡ false)

  abbrev pub Owned : Place → Type 0
  Owned p = Back p × (OwnsProxy p × (OwnsSsh p × OwnsNode c p))

  abbrev Rest : Place → Type 0
  Rest p = HasProxy p × (OwnsSsh p × OwnsNode c p)

  Rest-Owned : (p : Place) → Back p → Rest p → Owned p
  Rest-Owned p h ((addr, e), rest) = (h, (λ k. absurd (ground (arith, e, k)), rest))

  register-Owned :
      Ensures Works Anything (λ p. Back p × Rest p) (register os) (λ r p. Owned p × HasProxy p)
  register-Owned =
      weaken (λ p h. h) (λ r p (h, k). (Rest-Owned p h k, k.0))
        (register-Held os round o base Rest (λ p s k. k))

  unregister-Owned :
      Ensures Works Anything
        (λ p. Back p × Rest p)
        (unregister os)
        (λ r p. (Back p × SameSettings o p.session) × Rest p)
  unregister-Owned = unregister-Held os round o base Rest (λ p s k. k)

  set_err-Owned : (msg : Bytes) → Ensures Works Anything Owned (set_err msg) (λ r p. Owned p)
  unfolding set_err changed
  set_err-Owned msg =
      >>=-Ensures {Q = λ r p. Owned p} (setting-Ensures _ (λ p h. h))
        (λ u. setting-Ensures _ (λ p h. h)) (λ e p h. h)

  reported-Owned :
      (text : Bytes) (r : Result (Unit {0}))
      → Ensures Works Anything Owned (reported os text r) (λ r p. Owned p)
  reported-Owned text (ok u) = give-Ensures _ (λ p h. h)
  reported-Owned text (err e) = set_err-Owned _

  report-Owned :
      {P : Place → Type 0} (text : Bytes) (m : B (Unit {0}))
      → Ensures Works Anything P m (λ r p. Owned p)
      → Ensures Works Anything P (report os text m) (λ r p. Owned p)
  unfolding report
  report-Owned text m h = trying-Ensures h (λ r. reported-Owned text r)

  start_ssh-Owned : Ensures Works Anything Owned start_ssh (λ r p. Owned p)
  unfolding start_ssh
  start_ssh-Owned =
      >>=-Ensures {Q = λ r p. IsOk r × (Back p × (OwnsProxy p × OwnsNode c p))}
        (call-Ensures _ (λ p h. (tt, (h.0, (h.1.0, h.1.1.1)))))
        (λ u.
          setting-Ensures _
            (λ p (fine, (h, (k, n))). (h, (k, (λ e. absurd (ground (arith, e)), n)))))
        (λ e p (never, h). absurd (ground (arith, never)))

  start_proxy-Owned :
      Ensures Works Anything Owned (start_proxy os) (λ r p. IsOk r × (Back p × Rest p))
  unfolding start_proxy
  start_proxy-Owned =
      >>=-Ensures {Q = λ r p. IsOk r × (Back p × (OwnsSsh p × OwnsNode c p))}
        (call-Ensures _ (λ p (h, (k, rest)). (tt, (h, rest))))
        (λ u. setting-Ensures _ (λ p (fine, (h, rest)). (tt, (h, ((_, refl), rest)))))
        (λ e p (never, h). absurd (ground (arith, never)))

  register_after-Owned :
      (r : Result (Unit {0}))
      → Ensures Works Anything
          (λ p. IsOk r × (Back p × Rest p))
          (register_after os r)
          (λ r p. Owned p)
  register_after-Owned (err e) =
      weaken {P' = Owned} (λ p (never, h). absurd (ground (arith, never))) (λ r p h. h)
        (set_err-Owned _)
  register_after-Owned (ok u) = reading-Ensures λ p h.
      elim (Bool-cases (register_proxy p.backend.cfg)) [
        | inl e ↦ rw e (
            report-Owned _ (register os)
              (weaken (λ q (same, (fine, k)). k) (λ r q k. k.0) register-Owned))
        | inr e ↦ rw e (give-Ensures _ (λ q (same, (fine, (h, k))). Rest-Owned q h k))
      ]

  ssh_on_start-Owned :
      (p : Place)
      → Ensures Works Anything
          (λ q. (q ≡ p) × Owned q)
          (if ssh_mode p.backend.cfg == ssh_off
            then pure tt
            else report os (codes "ssh: ") start_ssh)
          (λ r q. Owned q)
  ssh_on_start-Owned p = elim (Bool-cases (ssh_mode p.backend.cfg == ssh_off)) [
    | inl e ↦ rw e (give-Ensures _ (λ q (same, h). h))
    | inr e ↦
        rw e (report-Owned _ start_ssh (weaken (λ q (same, h). h) (λ r q h. h) start_ssh-Owned))
  ]

  pub start-Owned : (key : Bytes) → Ensures Works Anything Owned (start os key) (λ r p. Owned p)
  unfolding start
  start-Owned key =
      >>=-Ensures {Q = λ r p. Owned p × (p.backend.server ≡ true)}
        (setting-Ensures _
          (λ p (h, (k, (s, n))). ((h, (k, (s, ((λ e. absurd (ground (arith, e))), n.1)))), refl)))
        (λ u.
          >>=-Ensures {Q = λ r p. Owned p}
            (call-Ensures _ (λ p ((h, (k, (s, n))), e).
              (h, (k, (s, ((λ e'. absurd (ground (arith, e, e'))), n.1))))))
            (λ u.
              >>=-Ensures {Q = λ r p. Owned p} (call-Ensures _ (λ p h. h))
                (λ u.
                  >>=-Ensures {Q = λ r p. Owned p} (setting-Ensures _ (λ p h. h))
                    (λ u.
                      >>=-Ensures {Q = λ r p. Owned p} (reading-Ensures λ p h. ssh_on_start-Owned p)
                        (λ u. trying-Ensures start_proxy-Owned (λ r. register_after-Owned r))
                        (λ e p h. h))
                    (λ e p h. h))
                (λ e p h. h))
            (λ e p h. h))
        (λ e p h. h.0)

  pub apply_outbound-Owned : Ensures Works Anything Owned (apply_outbound os) (λ r p. Owned p)
  unfolding apply_outbound
  apply_outbound-Owned = reading-Ensures λ p h. elim (Bool-cases (proxy_address p.backend == [])) [
    | inl e ↦ rw e (give-Ensures _ (λ q (same, k). k))
    | inr e ↦
        let proxy = some_of_address p.backend.proxy_ln e in
        rw e (
          >>=-Ensures {Q = λ r q. (Back q × SameSettings o q.session) × Rest q}
            (weaken
              (λ q (same, (k, (n, rest))).
                (k, ((proxy.0, ap (λ x. x.backend.proxy_ln) same ∙ proxy.1), rest)))
              (λ r q k. k) unregister-Owned)
            (λ u. reading-Ensures λ q k. elim (Bool-cases (register_proxy q.backend.cfg)) [
              | inl f ↦
                  rw f
                    (weaken (λ q' (same, ((b, s), rest)). (b, rest)) (λ r q' l. l.0) register-Owned)
              | inr f ↦ rw f (give-Ensures _ (λ q' (same, ((b, s), rest)). Rest-Owned q' b rest))
            ])
            (λ e q ((b, s), rest). Rest-Owned q b rest))
  ]

  close_ssh-Owned :
      (on : Bool)
      → Ensures Works Anything
          (λ p.
            (Back p × (OwnsProxy p × OwnsNode c p))
            × ((p.backend.ssh_srv ≡ false) × (on ≡ false → p.ssh_port ≡ false)))
          (close_ssh on)
          (λ r p. IsOk r × (Owned p × ((p.backend.ssh_srv ≡ false) × (p.ssh_port ≡ false))))
  unfolding shut_ssh
  close_ssh-Owned false =
      give-Ensures _ (λ p ((b, (k, n)), (e, f)). (tt, ((b, (k, (λ e'. f refl, n))), (e, f refl))))
  close_ssh-Owned true =
      trying-Ensures {Q = λ r p. Owned p × ((p.backend.ssh_srv ≡ false) × (p.ssh_port ≡ false))}
        (call-Ensures _ (λ p ((b, (k, n)), (e, f)). ((b, (k, (λ e'. refl, n))), (e, refl))))
        (λ r. give-Ensures _ (λ p h. (tt, h)))

  pub stop_ssh-Owned :
      Ensures Works Anything Owned stop_ssh
        (λ r p. IsOk r × (Owned p × ((p.backend.ssh_srv ≡ false) × (p.ssh_port ≡ false))))
  unfolding stop_ssh
  stop_ssh-Owned = reading-Ensures λ p h.
      put_then
        {P' = λ q.
          (Back q × (OwnsProxy q × OwnsNode c q))
          × ((q.backend.ssh_srv ≡ false) × (p.backend.ssh_srv ≡ false → q.ssh_port ≡ false))}
        _
        (λ q (same, (b, (k, (s, n)))).
          ((b, (k, n)), (refl, λ e. s (ap (λ x. x.backend.ssh_srv) same ∙ e))))
        (close_ssh-Owned p.backend.ssh_srv)

  pub set_ssh_mode-Owned :
      (mode : Bytes) → Ensures Works Anything Owned (set_ssh_mode mode) (λ r p. Owned p)
  unfolding set_ssh_mode
  set_ssh_mode-Owned mode =
      put_then {P' = Owned} _ (λ p h. h)
        (elim (Bool-cases (mode == ssh_off)) [
          | inl e ↦ rw e (weaken (λ p h. h) (λ r p h. h.1.0) stop_ssh-Owned)
          | inr e ↦ rw e (
              reading-Ensures λ p h. elim (Bool-cases p.backend.ssh_srv) [
                | inl f ↦ rw f (give-Ensures _ (λ q k. k.1))
                | inr f ↦ rw f (weaken (λ q k. k.1) (λ r q k. k) start_ssh-Owned)
              ])
        ])

  perform-Owned : (op : Op) → Ensures Works Anything Owned (perform os op) (λ r p. Owned p)
  perform-Owned applies = apply_outbound-Owned
  perform-Owned (sets_mode mode) = set_ssh_mode-Owned mode
  perform-Owned (edits f) = setting-Ensures _ (λ p h. h)

  pub perform_all-Owned :
      (ops : List Op) → Ensures Works Anything Owned (perform_all os ops) (λ r p. IsOk r × Owned p)
  unfolding perform_all
  perform_all-Owned [] = give-Ensures _ (λ p h. (tt, h))
  perform_all-Owned (op ∷ ops) = trying-Ensures (perform-Owned op) (λ r. perform_all-Owned ops)
