-- ===== src/Status/Key.antt =====
-- The fingerprint of a profile summary, the method key of backend.go, and the summaries that it tells apart.
use mathlib.Core.List.{append_assoc}
use mathlib.Core.Path.{subst}
use tswipoexp.Prelude.{
  ℕ, ◌≡◌, ◌≢◌, refl, sym, ◌∙◌, All, List, [], ◌∷◌, ◌++◌, Bytes, codes, arith, nat_eq,
}
use tswipoexp.Status.{ProfileSummary, spaced, print_list, key}

-- Two texts that go up to the first byte that is not in `p`
until-eq :
    (p : ℕ → Type 0) (c d : ℕ) (xs ys rest tail : Bytes)
    → (p c → ⊥)
    → (p d → ⊥)
    → All p xs
    → All p ys
    → xs ++ (c ∷ rest) ≡ ys ++ (d ∷ tail)
    → (xs ≡ ys) × (c ≡ d) × (rest ≡ tail)
until-eq p c d [] [] rest tail out out' h k e = (refl, ground (arith, e), ground (arith, e))
until-eq p c d [] (y ∷ ys) rest tail out out' h (k, ks) e =
    let same : y ≡ c = ground (arith, e) in absurd (out (subst p same k))
until-eq p c d (x ∷ xs) [] rest tail out out' (h, hs) k e =
    let same : x ≡ d = ground (arith, e) in absurd (out' (subst p same h))
until-eq p c d (x ∷ xs) (y ∷ ys) rest tail out out' (h, hs) (k, ks) e =
    let same : x ≡ y = ground (arith, e) in
    let (more, ends, rests) = until-eq p c d xs ys rest tail out out' hs ks (ground (arith, e)) in
    ((λ i. same i ∷ more i), ends, rests)

abbrev InIp : ℕ → Type 0
InIp x = (x ≢ b' ') × (x ≢ b']')

-- The text of an IP address: not empty, and without a space or a closing bracket.
abbrev IsIpText : Bytes → Type 0
IsIpText s = (s ≢ []) × All InIp s

abbrev InName : ℕ → Type 0
InName x = x ≢ b'|'

-- A summary whose fields can be told apart in its fingerprint: no bar in the names, and addresses as above.
pub record IsPlain (s : ProfileSummary) : Type 0 where
  pub state : All InName s.state
  pub tailnet : All InName s.tailnet
  pub account : All InName s.account
  pub hostname : All InName s.hostname
  pub dns_name : All InName s.dns_name
  pub ips : All IsIpText s.ips

-- A list of addresses as it is printed, behind its opening bracket
abbrev listed : List Bytes → Bytes
listed ss = spaced ss ++ codes "]"

-- What stands behind the first address: a space or the bracket, and the rest.
abbrev stop : List Bytes → ℕ
stop [] = b']'
stop (s ∷ ss) = b' '

abbrev later : List Bytes → Bytes
later [] = []
later (s ∷ ss) = listed (s ∷ ss)

listed-cons : (s : Bytes) (ss : List Bytes) → listed (s ∷ ss) ≡ s ++ (stop ss ∷ later ss)
listed-cons s [] = refl
listed-cons s (t ∷ ss) = simp append_assoc

stop-out : (ss : List Bytes) → InIp (stop ss) → ⊥
stop-out [] (h, k) = k refl
stop-out (s ∷ ss) (h, k) = h refl

later-eq :
    (ss ts : List Bytes)
    → (listed ss ≡ listed ts → ss ≡ ts)
    → stop ss ≡ stop ts
    → later ss ≡ later ts
    → ss ≡ ts
later-eq [] [] h e f = refl
later-eq [] (t ∷ ts) h e f = absurd (ground (arith, e))
later-eq (s ∷ ss) [] h e f = absurd (ground (arith, e))
later-eq (s ∷ ss) (t ∷ ts) h e f = h f

listed-injective :
    (ss ts : List Bytes) → All IsIpText ss → All IsIpText ts → listed ss ≡ listed ts → ss ≡ ts
listed-injective [] [] h k e = refl
listed-injective [] (t ∷ ts) h (k, ks) e =
    let (none, ends, rests) =
      until-eq InIp b']' (stop ts) [] t [] (later ts) (stop-out []) (stop-out ts) tt k.1
        (e ∙ listed-cons t ts) in
    absurd (k.0 (sym none))
listed-injective (s ∷ ss) [] (h, hs) k e =
    let (none, ends, rests) =
      until-eq InIp (stop ss) b']' s [] (later ss) [] (stop-out ss) (stop-out []) h.1 tt
        (sym (listed-cons s ss) ∙ e) in
    absurd (h.0 none)
listed-injective (s ∷ ss) (t ∷ ts) (h, hs) (k, ks) e =
    let (same, ends, rests) =
      until-eq InIp (stop ss) (stop ts) s t (later ss) (later ts) (stop-out ss) (stop-out ts) h.1
        k.1 (sym (listed-cons s ss) ∙ e ∙ listed-cons t ts) in
    λ i. same i ∷ later-eq ss ts (λ f. listed-injective ss ts hs ks f) ends rests i

abbrev bar : Bytes → Bytes → Bytes
bar s rest = s ++ (b'|' ∷ rest)

key-fields :
    (s : ProfileSummary)
    → key s
      ≡ bar s.state
          (bar s.tailnet (bar s.account (bar s.hostname (bar s.dns_name (b'[' ∷ listed s.ips)))))
unfolding key print_list
key-fields s = simp append_assoc

bar-injective :
    (s t rest tail : Bytes)
    → All InName s
    → All InName t
    → bar s rest ≡ bar t tail
    → (s ≡ t) × (rest ≡ tail)
bar-injective s t rest tail h k e =
    let (same, ends, rests) =
      until-eq InName b'|' b'|' s t rest tail (λ o. o refl) (λ o. o refl) h k e in
    (same, rests)

-- Summaries with the same fingerprint differ in their times at most.
pub key-injective :
    (s t : ProfileSummary)
    → IsPlain s
    → IsPlain t
    → key s ≡ key t
    → ◌≡◌ {A = ProfileSummary} (record s { updated_at = 0 }) (record t { updated_at = 0 })
key-injective s t h k e =
    let (state, e1) =
      bar-injective s.state t.state _ _ h.state k.state (sym (key-fields s) ∙ e ∙ key-fields t) in
    let (tailnet, e2) = bar-injective s.tailnet t.tailnet _ _ h.tailnet k.tailnet e1 in
    let (account, e3) = bar-injective s.account t.account _ _ h.account k.account e2 in
    let (hostname, e4) = bar-injective s.hostname t.hostname _ _ h.hostname k.hostname e3 in
    let (dns_name, e5) = bar-injective s.dns_name t.dns_name _ _ h.dns_name k.dns_name e4 in
    let ips = listed-injective s.ips t.ips h.ips k.ips (ground (arith, e5)) in
    λ i. record {
      state = state i;
      tailnet = tailnet i;
      account = account i;
      hostname = hostname i;
      dns_name = dns_name i;
      ips = ips i;
      updated_at = 0;
    }

append-eq_nil : (xs ys : Bytes) → xs ++ ys ≡ [] → ys ≡ []
append-eq_nil [] ys e = e
append-eq_nil (x ∷ xs) ys e = absurd (ground (arith, e))

pub key-ne-nil : (s : ProfileSummary) → key s ≢ []
key-ne-nil s e = absurd (ground (arith, append-eq_nil s.state (b'|' ∷ _) (sym (key-fields s) ∙ e)))
