-- ===== src/Pac/Routes.antt =====
-- The routes that pac.go takes from a status.
use mathlib.Core.Bool.{Bool-set}
use mathlib.Core.List.{Perm, Permᴰ, Memᴰ}
use mathlib.Core.List.Permᴰ.{nil, cons, swap, trans}
use mathlib.Core.Logic.{∥∥₁_elim}
use tswipoexp.Prelude.{
  ℕ, ◌≡◌, ◌≢◌, ◌↔◌, refl, sym, ap, ◌∙◌, inl, inr, Bool, true, false, not, ◌&&◌, ◌||◌, Option, none,
  some, List, [], ◌∷◌, ◌++◌, Bytes, ◌==◌, nat_eq, list_eq, eq_iff, Bool-cases, arith,
}
use tswipoexp.Disk.Calls.{contains}
use tswipoexp.Profiles.Store.{sort_strings}
use tswipoexp.Profiles.Store.Sorting.{contains-append, contains-sort_strings}
use tswipoexp.Profiles.Store.Strict.{
  IsStrict, Distinct, Distinct-append, IsStrict-unique, sort_strings-IsStrict,
}
use tswipoexp.Status.{Status, Peer, Prefix, Addr, v4, v6}
use tswipoexp.Profiles.Config.{Config}
use tswipoexp.Pac.Netip.{prefix_text, masked}
use tswipoexp.Pac.{takes_route, add_routes, add_peer, peer_routes, pac_inputs_from}

module _ (is_tailscale_ip : ℕ → Bool) where
  -- Whether one of these prefixes gives the route.
  abbrev pub gives : List Prefix → Bytes → Bool
  gives [] s = false
  gives (r ∷ rs) s = takes_route is_tailscale_ip r && prefix_text (masked r) == s || gives rs s

  abbrev gives_any : Option (List Prefix) → Bytes → Bool
  gives_any none s = false
  gives_any (some rs) s = gives rs s

  -- Whether one of these peers gives it.
  abbrev pub routed : List Peer → Bytes → Bool
  routed [] s = false
  routed (p ∷ ps) s = gives_any p.primary_routes s || routed ps s

  contains-add_routes :
      (rs : List Prefix) (acc : List Bytes) (s : Bytes)
      → contains (add_routes is_tailscale_ip rs acc) s ≡ (contains acc s || gives rs s)
  unfolding add_routes contains
  contains-add_routes [] acc s = ground arith
  contains-add_routes (r ∷ rs) acc s =
      let text = prefix_text (masked r) in
      elim (Bool-cases (takes_route is_tailscale_ip r && not (contains acc text))) [
        | inl e ↦ rw e (
            contains-add_routes rs (acc ++ (text ∷ [])) s
            ∙ ground (arith, e, contains-append acc (text ∷ []) s))
        | inr e ↦ rw e (contains-add_routes rs acc s ∙ ground (arith, e, eq_iff text s))
      ]

  add_routes-Distinct :
      (rs : List Prefix) (acc : List Bytes)
      → Distinct acc
      → Distinct (add_routes is_tailscale_ip rs acc)
  unfolding add_routes
  add_routes-Distinct [] acc d = d
  add_routes-Distinct (r ∷ rs) acc d =
      let text = prefix_text (masked r) in
      elim (Bool-cases (takes_route is_tailscale_ip r && not (contains acc text))) [
        | inl e ↦ rw e (
            add_routes-Distinct rs (acc ++ (text ∷ []))
              (Distinct-append acc text d (ground (arith, e))))
        | inr e ↦ rw e (add_routes-Distinct rs acc d)
      ]

  add_peer-lem :
      (o : Option (List Prefix)) (acc : List Bytes)
      → Distinct acc
      → Distinct (add_peer is_tailscale_ip o acc)
        × ((s : Bytes)
            → contains (add_peer is_tailscale_ip o acc) s ≡ (contains acc s || gives_any o s))
  add_peer-lem none acc d = (d, λ s. ground arith)
  add_peer-lem (some rs) acc d = (add_routes-Distinct rs acc d, contains-add_routes rs acc)

  peer_routes-lem :
      (ps : List Peer) (acc : List Bytes)
      → Distinct acc
      → Distinct (peer_routes is_tailscale_ip ps acc)
        × ((s : Bytes)
            → contains (peer_routes is_tailscale_ip ps acc) s ≡ (contains acc s || routed ps s))
  unfolding peer_routes
  peer_routes-lem [] acc d = (d, λ s. ground arith)
  peer_routes-lem (p ∷ ps) acc d =
      let (d', h) = add_peer-lem p.primary_routes acc d in
      let (d'', k) = peer_routes-lem ps (add_peer is_tailscale_ip p.primary_routes acc) d' in
      (d'', λ s. k s ∙ ground (arith, h s))

  routes_of-lem :
      (ps : List Peer)
      → IsStrict (sort_strings (peer_routes is_tailscale_ip ps []))
        × ((s : Bytes)
            → contains (sort_strings (peer_routes is_tailscale_ip ps [])) s ≡ routed ps s)
  unfolding contains
  routes_of-lem ps =
      let (d, h) = peer_routes-lem ps [] tt in
      (
        sort_strings-IsStrict (peer_routes is_tailscale_ip ps []) d,
        λ s. contains-sort_strings (peer_routes is_tailscale_ip ps []) s ∙ h s ∙ ground arith,
      )

  routed-Permᴰ : (ps qs : List Peer) (s : Bytes) → Permᴰ ps qs → routed ps s ≡ routed qs s
  routed-Permᴰ [] [] s nil = refl
  routed-Permᴰ (p ∷ ps) (q ∷ qs) s (cons e d) =
      ground (arith, ap (λ x. gives_any x.primary_routes s) e, routed-Permᴰ ps qs s d)
  routed-Permᴰ (p ∷ q ∷ ps) (q' ∷ p' ∷ _) s (swap e f) =
      ground
        (arith, ap (λ x. gives_any x.primary_routes s) e, ap (λ x. gives_any x.primary_routes s) f)
  routed-Permᴰ ps qs s (trans {l₂ = rs} d e) = routed-Permᴰ ps rs s d ∙ routed-Permᴰ rs qs s e

  routed-Perm : (ps qs : List Peer) (s : Bytes) → Perm ps qs → routed ps s ≡ routed qs s
  routed-Perm ps qs s p =
      ∥∥₁_elim p (Bool-set (routed ps s) (routed qs s)) (λ d. routed-Permᴰ ps qs s d)

  -- The prefix is an IPv4 one with a length other than 0, it is not at a Tailscale address, and its masked
  -- text is `s`.
  pub record IsRouteAs (s : Bytes) (r : Prefix) : Type 0 where
    pub number : ℕ
    pub ipv4 : r.addr ≡ v4 number
    pub partial : r.bits ≢ 0
    pub outside : is_tailscale_ip number ≡ false
    pub text : prefix_text (masked r) ≡ s

  -- One of the peers has such a prefix among its primary routes.
  pub record IsAdvertised (peers : List Peer) (s : Bytes) : Type 0 where
    pub peer : Peer
    pub of : Memᴰ peer peers
    pub prefixes : List Prefix
    pub primary : peer.primary_routes ≡ some prefixes
    pub prefix : Prefix
    pub among : Memᴰ prefix prefixes
    pub taken : IsRouteAs s prefix

  -- The test of the loop, at an address that is given
  abbrev takes_at : ℕ → Addr → Bool
  takes_at bits a = elim a [ v4 n ↦ not (bits == 0) && not (is_tailscale_ip n) | v6 t ↦ false ]

  takes_at_iff :
      (bits : ℕ) (a : Addr)
      → (takes_at bits a ≡ true) ↔ ((n : ℕ) × (a ≡ v4 n) × (bits ≢ 0) × (is_tailscale_ip n ≡ false))
  takes_at_iff bits (v4 n) = (
    λ h. (n, refl, (λ e. ground (arith, h, eq_iff bits 0, e)), ground (arith, h)),
    λ (m, e, partial, outside).
        ap (takes_at bits) e ∙ ground (arith, eq_iff bits 0, partial, outside),
  )
  takes_at_iff bits (v6 t) = (
    λ h. absurd (ground (arith, h)),
    λ (m, e, partial, outside).
        ap (takes_at bits) e ∙ ground (arith, eq_iff bits 0, partial, outside),
  )

  takes_route-IsRouteAs :
      (s : Bytes) (r : Prefix)
      → ((takes_route is_tailscale_ip r && prefix_text (masked r) == s) ≡ true) ↔ IsRouteAs s r
  unfolding takes_route
  takes_route-IsRouteAs s r = (
    λ h.
        let (n, e, partial, outside) = (takes_at_iff r.bits r.addr).0 (ground (arith, h)) in
        record {
          number = n;
          ipv4 = e;
          partial = partial;
          outside = outside;
          text = (eq_iff (prefix_text (masked r)) s).0 (ground (arith, h));
        },
    λ h.
        let taken : takes_route is_tailscale_ip r ≡ true =
          (takes_at_iff r.bits r.addr).1 (h.number, h.ipv4, h.partial, h.outside) in
        ground (arith, taken, (eq_iff (prefix_text (masked r)) s).1 h.text),
  )

  gives_iff :
      (rs : List Prefix) (s : Bytes)
      → (gives rs s ≡ true) ↔ ((r : Prefix) × Memᴰ r rs × IsRouteAs s r)
  gives_iff rs s = (forth rs, λ (r, m, h). back rs r m ((takes_route-IsRouteAs s r).1 h))
    where
      gives_one : Prefix → Bool
      gives_one r = takes_route is_tailscale_ip r && prefix_text (masked r) == s

      forth : (rs : List Prefix) → gives rs s ≡ true → (r : Prefix) × Memᴰ r rs × IsRouteAs s r
      forth [] h = absurd (ground (arith, h))
      forth (r ∷ rs) h = elim (Bool-cases (gives_one r)) [
        | inl e ↦ (r, Memᴰ.head refl, (takes_route-IsRouteAs s r).0 e)
        | inr e ↦ let (q, m, g) = forth rs (ground (arith, h, e)) in (q, Memᴰ.tail m, g)
      ]

      back : (rs : List Prefix) (r : Prefix) → Memᴰ r rs → gives_one r ≡ true → gives rs s ≡ true
      back [] r m h = elim m [ ]
      back (q ∷ rs) r (Memᴰ.head e) h = ground (arith, ap gives_one (sym e) ∙ h)
      back (q ∷ rs) r (Memᴰ.tail m) h = ground (arith, back rs r m h)

  routed_iff : (ps : List Peer) (s : Bytes) → (routed ps s ≡ true) ↔ IsAdvertised ps s
  routed_iff ps s =
      (forth ps, λ a. back ps a.peer a.of (given a.peer.primary_routes a.primary a.among a.taken))
    where
      found :
          (p : Peer) (ps : List Peer) (o : Option (List Prefix))
          → p.primary_routes ≡ o
          → gives_any o s ≡ true
          → IsAdvertised (p ∷ ps) s
      found p ps none e h = absurd (ground (arith, h))
      found p ps (some rs) e h =
          let (r, m, g) = (gives_iff rs s).0 h in
          record {
            peer = p;
            of = Memᴰ.head refl;
            prefixes = rs;
            primary = e;
            prefix = r;
            among = m;
            taken = g;
          }

      later : {ps : List Peer} (p : Peer) → IsAdvertised ps s → IsAdvertised (p ∷ ps) s
      later p a = record {
        peer = a.peer;
        of = Memᴰ.tail a.of;
        prefixes = a.prefixes;
        primary = a.primary;
        prefix = a.prefix;
        among = a.among;
        taken = a.taken;
      }

      forth : (ps : List Peer) → routed ps s ≡ true → IsAdvertised ps s
      forth [] h = absurd (ground (arith, h))
      forth (p ∷ ps) h = elim (Bool-cases (gives_any p.primary_routes s)) [
        | inl e ↦ found p ps p.primary_routes refl e
        | inr e ↦ later p (forth ps (ground (arith, h, e)))
      ]

      given :
          (o : Option (List Prefix)) {rs : List Prefix} {r : Prefix}
          → o ≡ some rs
          → Memᴰ r rs
          → IsRouteAs s r
          → gives_any o s ≡ true
      given o e m h = ap (λ x. gives_any x s) e ∙ (gives_iff _ s).1 (_, m, h)

      back :
          (ps : List Peer) (p : Peer)
          → Memᴰ p ps
          → gives_any p.primary_routes s ≡ true
          → routed ps s ≡ true
      back [] p m h = elim m [ ]
      back (q ∷ ps) p (Memᴰ.head e) h =
          ground (arith, ap (λ x. gives_any x.primary_routes s) (sym e) ∙ h)
      back (q ∷ ps) p (Memᴰ.tail m) h = ground (arith, back ps p m h)

  -- The routes of the inputs are in order and without duplicates, and they are exactly the masked texts
  -- of the peers' IPv4 prefixes other than those of length 0 and those at a Tailscale address.
  pub pac_inputs_from-routes :
      (st : Status) (cfg : Config) (addr : Bytes)
      → IsStrict (pac_inputs_from is_tailscale_ip (some st) cfg addr).routes
        × ((s : Bytes)
            → (contains (pac_inputs_from is_tailscale_ip (some st) cfg addr).routes s ≡ true)
              ↔ IsAdvertised st.peers s)
  unfolding pac_inputs_from
  pac_inputs_from-routes st cfg addr =
      let (strict, mine) = routes_of-lem st.peers in
      (
        strict,
        λ s. (
          λ h. (routed_iff st.peers s).0 (sym (mine s) ∙ h),
          λ a. mine s ∙ (routed_iff st.peers s).1 a,
        ),
      )

  -- The inputs do not depend on the order in which Go ranges over the map of peers, so the same status
  -- has the same fingerprint each time.
  pub pac_inputs_from-Perm :
      (st : Status) (peers : List Peer) (cfg : Config) (addr : Bytes)
      → Perm st.peers peers
      → pac_inputs_from is_tailscale_ip (some (record st { peers = peers })) cfg addr
        ≡ pac_inputs_from is_tailscale_ip (some st) cfg addr
  unfolding pac_inputs_from
  pac_inputs_from-Perm st peers cfg addr d =
      let (strict, mine) = routes_of-lem peers in
      let (strict', mine') = routes_of-lem st.peers in
      let same =
        IsStrict-unique _ _ strict strict'
          (λ s. mine s ∙ sym (routed-Perm st.peers peers s d) ∙ sym (mine' s)) in
      ap (λ rs. record (pac_inputs_from is_tailscale_ip (some st) cfg addr) { routes = rs }) same
