-- ===== src/Backend/Closing.antt =====
-- A whole life of a backend, from Start to Close, when the calls go through.
use tswipoexp.Prelude.{
  ◌≡◌, refl, ap, inl, Bool, true, false, Option, none, some, List, [], Bytes, nat_eq, list_eq,
  arith,
}
use tswipoexp.Program.Triple.{
  Ensures, >>=-Ensures, give-Ensures, reading-Ensures, setting-Ensures, weaken, Anything,
  Ensures-run, trying-Ensures,
}
use tswipoexp.Proxy.Session.{SavedProxySettings, Session, app_base, loaded_from}
use tswipoexp.Proxy.Registration.{of_this_machine}
use tswipoexp.Proxy.Undo.{IsPlain}
use tswipoexp.Proxy.Undo.Writing.{IsOk}
use tswipoexp.Proxy.Undo.Always.{SameSettings, Works}
use tswipoexp.Profiles.Config.{Config}
use tswipoexp.Backend.{
  Platform, Place, Backend, new_backend, shut_proxy, shut_node, close_proxy, close_server,
  close_once, close,
}
use tswipoexp.Backend.Owning.{
  Op, live, OwnsNode, Back, Owned, call-Ensures, put_then, start-Owned, perform_all-Owned,
  stop_ssh-Owned,
}
use tswipoexp.Backend.Sessions.{Held, unregister-Held}

module _ (os : Platform) (round : (s : SavedProxySettings) → os.unmarshal (os.marshal s) ≡ some s)
    (o : Session) (base : Bytes) where
  abbrev Mine : Bool → Place → Type 0
  Mine c = Owned os round o base c

  abbrev pub Settled : Place → Type 0
  Settled p = Held os round o base p.session × SameSettings o p.session

  -- The SSH server and the proxy are gone and the session has its settings back.
  abbrev pub Released : Place → Type 0
  Released p =
      Settled p × ((p.backend.ssh_srv ≡ false) × ((p.ssh_port ≡ false) × (p.proxy_port ≡ false)))

  abbrev Shut : Bool → Place → Type 0
  Shut c p = (p.backend.ssh_srv ≡ false) × ((p.ssh_port ≡ false) × OwnsNode c p)

  close_proxy-Released :
      (c : Bool) (ln : Option Bytes)
      → Ensures Works Anything
          (λ p.
            (p.backend.proxy_ln ≡ ln)
            × (Mine c p × ((p.backend.ssh_srv ≡ false) × (p.ssh_port ≡ false))))
          (close_proxy os ln)
          (λ r p. IsOk r × (Released p × OwnsNode c p))
  unfolding shut_proxy
  close_proxy-Released c none =
      give-Ensures _
        (λ p (e, ((b, (k, (s, n))), (f, g))). (tt, (((b, (k e).0), (f, (g, (k e).1))), n)))
  close_proxy-Released c (some addr) =
      trying-Ensures
        {Q = λ r p.
          Settled p × ((p.backend.ssh_srv ≡ false) × ((p.ssh_port ≡ false) × OwnsNode c p))}
        (weaken {P' = λ p. Back os round o base c p × Shut c p}
          (λ p (e, ((b, (k, (s, n))), (f, g))). (b, (f, (g, n)))) (λ r p h. h)
          (unregister-Held os round o base (Shut c) (λ p s k. k)))
        (λ r.
          trying-Ensures {Q = λ r p. Released p × OwnsNode c p}
            (call-Ensures _ (λ p (s, (f, (g, n))). ((s, (f, (g, refl))), n)))
            (λ r. give-Ensures _ (λ p h. (tt, h))))

  close_server-Released :
      (c server : Bool)
      → Ensures Works Anything
          (λ p. (p.backend.server ≡ server) × (Released p × OwnsNode c p))
          (close_server os server)
          (λ r p. IsOk r × (Released p × ((p.node ≡ none) × (p.backend.closed ≡ c))))
  unfolding shut_node
  close_server-Released c false = give-Ensures _ (λ p (e, (h, n)). (tt, (h, (n.0 e, n.1))))
  close_server-Released c true =
      trying-Ensures {Q = λ r p. Released p × ((p.node ≡ none) × (p.backend.closed ≡ c))}
        (call-Ensures _ (λ p (e, (h, n)). (h, (refl, n.1))))
        (λ r. setting-Ensures _ (λ p h. (tt, h)))

  abbrev pub Gone : Place → Type 0
  Gone p = Released p × (p.node ≡ none)

  close_once-Gone : Ensures Works Anything (Mine false) (close_once os) (λ r p. IsOk r × Gone p)
  unfolding close_once
  close_once-Gone =
      put_then {P' = Mine true} _ (λ p (b, (k, (s, (n, e)))). (b, (k, (s, (n, refl)))))
        (put_then {P' = Mine true} _ (λ p h. h)
          (>>=-Ensures
            {Q = λ r p.
              IsOk r × (Mine true p × ((p.backend.ssh_srv ≡ false) × (p.ssh_port ≡ false)))}
            (stop_ssh-Owned os round o base true)
            (λ u.
              >>=-Ensures {Q = λ r p. IsOk r × (Released p × OwnsNode true p)}
                (reading-Ensures λ p h.
                  weaken (λ q (same, (fine, k)). (ap (λ x. x.backend.proxy_ln) same, k))
                    (λ r q k. k) (close_proxy-Released true p.backend.proxy_ln))
                (λ u. reading-Ensures λ p h.
                  weaken (λ q (same, (fine, k)). (ap (λ x. x.backend.server) same, k))
                    (λ r q (fine, (k, (n, e))). (fine, (k, n)))
                    (close_server-Released true p.backend.server))
                (λ e p (never, h). absurd (ground (arith, never))))
            (λ e p (never, h). absurd (ground (arith, never)))))

  pub close-Gone : Ensures Works Anything (Mine false) (close os) (λ r p. Gone p)
  unfolding close
  close-Gone =
      >>=-Ensures {Q = λ r p. IsOk r × Gone p}
        (reading-Ensures
          λ p h. rw (h.1.1.1.1) (weaken (λ q (same, k). k) (λ r q k. k) close_once-Gone))
        (λ u. reading-Ensures λ p h. give-Ensures _ (λ q (same, (fine, k)). k))
        (λ e p (never, h). absurd (ground (arith, never)))

  live-Gone :
      (key : Bytes) (ops : List Op)
      → Ensures Works Anything (Mine false) (live os key ops) (λ r p. Gone p)
  unfolding live
  live-Gone key ops = trying-Ensures (start-Owned os round o base false key) (λ r.
      >>=-Ensures (perform_all-Owned os round o base false ops)
        (λ u. weaken (λ p (fine, h). h) (λ r p h. h) close-Gone)
        (λ e p (never, h). absurd (ground (arith, never))))

-- A place with a new backend that has not been started
abbrev pub begun : Session → Backend → Place
begun t b = record {
  session = t;
  node = none;
  ssh_port = false;
  proxy_port = false;
  refreshes = 0;
  notices = 0;
  saved = [];
  backend = b;
}

-- Suppose that the restore file holds nothing saved on this machine, that its directory can be found,
-- that the proxy settings have no NUL and that no call fails. However a new backend's configuration is
-- edited and applied and its SSH mode set between Start and Close, after Close the user has the
-- settings from before, the SSH server is stopped, both listeners are closed and so is the node.
pub live-closes :
    (os : Platform) (round : (s : SavedProxySettings) → os.unmarshal (os.marshal s) ≡ some s)
    (t : Session) (base : Bytes) (profile dir : Bytes) (cfg : Config) (key : Bytes) (ops : List Op)
    → of_this_machine os.marshal os.unmarshal (loaded_from os.marshal os.unmarshal t.restore_json) t
      ≡ none
    → app_base t ≡ some base
    → IsPlain t.connection
    → let start_state = begun t (new_backend profile dir cfg) in
      let p = (live os key ops (record { state = start_state; fates = []; past = [] })).1.state in
      SameSettings t p.session
      × ((p.backend.ssh_srv ≡ false) × ((p.ssh_port ≡ false) × (p.proxy_port ≡ false)))
      × (p.node ≡ none)
unfolding new_backend
live-closes os round t base profile dir cfg key ops missing located plain =
    let same : SameSettings t t = (refl, λ n. refl) in
    let h =
      Ensures-run (live-Gone os round t base key ops)
        (record { state = begun t (new_backend profile dir cfg); fates = []; past = [] })
        (
          (t, (same, located, plain), inl (refl, refl, refl, refl, missing)),
          ((λ e. (same, refl)), ((λ e. refl), ((λ e. refl), refl))),
        )
        tt tt in
    (h.0.0.0.1, h.0.0.1, h.0.1)
