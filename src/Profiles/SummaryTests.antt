-- ===== src/Profiles/SummaryTests.antt =====
-- An encoding in place of JSON, for which a profile's summary saved is the one loaded.
use tswipoexp.Prelude.{
  ℕ, zero, suc, ◌≡◌, refl, ap, ◌∙◌, List, [], ◌∷◌, ◌++◌, Bytes, length, nat_eq, list_eq,
}
use tswipoexp.Codec.{put, get, get-put-append}
use tswipoexp.Status.{ProfileSummary}
use tswipoexp.Profiles.Summary.{no_summary}

abbrev put_all : List Bytes → Bytes
put_all [] = []
put_all (s ∷ ss) = put s (put_all ss)

unfoldable get_all : ℕ → Bytes → List Bytes
get_all zero xs = []
get_all (suc n) xs = (get xs).0 ∷ get_all n (get xs).1

get_all-put_all : (ss : List Bytes) (tail : Bytes) → get_all (length ss) (put_all ss ++ tail) ≡ ss
unfolding get_all
get_all-put_all [] tail = refl
get_all-put_all (s ∷ ss) tail =
    ap (λ x. x.0 ∷ get_all (length ss) x.1) (get-put-append s (put_all ss) tail)
    ∙ ap (λ rest. s ∷ rest) (get_all-put_all ss tail)

unfoldable render : ProfileSummary → Bytes
render s =
    s.updated_at
    ∷ length s.ips
    ∷ put s.state (put s.tailnet (put s.account (put s.hostname (put s.dns_name (put_all s.ips)))))

unfoldable unmarshal : Bytes → ProfileSummary
unmarshal (at ∷ n ∷ b0) =
    let b1 = (get b0).1 in
    let b2 = (get b1).1 in
    let b3 = (get b2).1 in
    let b4 = (get b3).1 in
    record {
      state = (get b0).0;
      tailnet = (get b1).0;
      account = (get b2).0;
      hostname = (get b3).0;
      dns_name = (get b4).0;
      ips = get_all n (get b4).1;
      updated_at = at;
    }
unmarshal (at ∷ []) = no_summary
unmarshal [] = no_summary

unmarshal-render : (s : ProfileSummary) → unmarshal (render s ++ (b'\n' ∷ [])) ≡ s
unfolding unmarshal render
unmarshal-render s = simp (get-put-append, get_all-put_all)
