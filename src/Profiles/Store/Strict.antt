-- ===== src/Profiles/Store/Strict.antt =====
-- Lists in the order of sort.Strings without duplicates.
use mathlib.Core.Path.{subst}
use tswipoexp.Prelude.{
  ◌≡◌, refl, sym, ap, ◌∙◌, inl, inr, true, false, List, [], ◌∷◌, ◌++◌, Bytes, ◌==◌, nat_eq, list_eq,
  eq_iff, eq_refl, Bool-cases, has_prefix, arith,
}
use tswipoexp.Disk.Calls.{contains}
use tswipoexp.Profiles.Store.{bytes_le, insert, sort_strings}
use tswipoexp.Profiles.Store.Sorting.{
  contains-append, bytes_le_total, contains-insert, contains-sort_strings,
}

bytes_le_refl : (s : Bytes) → bytes_le s s ≡ true
unfolding bytes_le
bytes_le_refl [] = refl
bytes_le_refl (c ∷ cs) = ground (arith, bytes_le_refl cs)

pub bytes_le_antisym : (s t : Bytes) → bytes_le s t ≡ true → bytes_le t s ≡ true → s ≡ t
unfolding bytes_le
bytes_le_antisym [] [] h k = refl
bytes_le_antisym [] (d ∷ ds) h k = absurd (ground (arith, k))
bytes_le_antisym (c ∷ cs) [] h k = absurd (ground (arith, h))
bytes_le_antisym (c ∷ cs) (d ∷ ds) h k = ground (arith, bytes_le_antisym cs ds)

pub bytes_le_trans :
    (s t u : Bytes) → bytes_le s t ≡ true → bytes_le t u ≡ true → bytes_le s u ≡ true
unfolding bytes_le
bytes_le_trans [] t u h k = refl
bytes_le_trans (c ∷ cs) [] u h k = absurd (ground (arith, h))
bytes_le_trans (c ∷ cs) (d ∷ ds) [] h k = absurd (ground (arith, k))
bytes_le_trans (c ∷ cs) (d ∷ ds) (e ∷ es) h k = ground (arith, bytes_le_trans cs ds es)

-- A text stands before what it begins.
pub has_prefix-bytes_le : (s t : Bytes) → has_prefix s t ≡ true → bytes_le t s ≡ true
unfolding has_prefix bytes_le
has_prefix-bytes_le s [] h = refl
has_prefix-bytes_le [] (d ∷ ds) h = absurd (ground (arith, h))
has_prefix-bytes_le (c ∷ cs) (d ∷ ds) h = ground (arith, eq_iff c d, has_prefix-bytes_le cs ds)

-- Behind every one of the list
abbrev Before : Bytes → List Bytes → Type 0
Before m ms = (n : Bytes) → contains ms n ≡ true → bytes_le n m ≡ false

-- In order and without duplicates
abbrev pub IsStrict : List Bytes → Type 0
IsStrict [] = Unit
IsStrict (m ∷ ms) = Before m ms × IsStrict ms

contains-nil : (m : Bytes) → contains [] m ≡ false
unfolding contains
contains-nil m = refl

contains-head : (m : Bytes) (ms : List Bytes) → contains (m ∷ ms) m ≡ true
unfolding contains
contains-head m ms = rw (eq_refl m) refl

IsStrict-head :
    (m n : Bytes) (ms ns : List Bytes)
    → IsStrict (m ∷ ms)
    → IsStrict (n ∷ ns)
    → ((x : Bytes) → contains (m ∷ ms) x ≡ contains (n ∷ ns) x)
    → m ≡ n
unfolding contains
IsStrict-head m n ms ns (s, s') (t, t') same = ground (
  arith,
  eq_iff m n,
  eq_iff n m,
  same m ∙ refl,
  same n ∙ refl,
  eq_refl m,
  eq_refl n,
  s n,
  t m,
  bytes_le_total m n,
)

IsStrict-tail :
    (m : Bytes) (ms ns : List Bytes)
    → IsStrict (m ∷ ms)
    → IsStrict (m ∷ ns)
    → ((x : Bytes) → contains (m ∷ ms) x ≡ contains (m ∷ ns) x)
    → (x : Bytes) → contains ms x ≡ contains ns x
unfolding contains
IsStrict-tail m ms ns (s, s') (t, t') same x = elim (Bool-cases (m == x)) [
  | inr e ↦ ground (arith, e, same x)
  | inl e ↦
      let at_m : m ≡ x = (eq_iff m x).0 e in
      let here : bytes_le x m ≡ true = subst (λ y. bytes_le y m ≡ true) at_m (bytes_le_refl m) in
      ground (arith, here, s x, t x)
]

-- Two such lists with the same members are equal.
pub IsStrict-unique :
    (ms ns : List Bytes)
    → IsStrict ms
    → IsStrict ns
    → ((x : Bytes) → contains ms x ≡ contains ns x)
    → ms ≡ ns
IsStrict-unique [] [] s t same = refl
IsStrict-unique [] (n ∷ ns) s t same =
    absurd (ground (arith, same n, contains-nil n, contains-head n ns))
IsStrict-unique (m ∷ ms) [] s t same =
    absurd (ground (arith, same m, contains-nil m, contains-head m ms))
IsStrict-unique (m ∷ ms) (n ∷ ns) (s, s') (t, t') same =
    let e = IsStrict-head m n ms ns (s, s') (t, t') same in
    let strict : IsStrict (m ∷ ns) = subst (λ k. IsStrict (k ∷ ns)) (sym e) (t, t') in
    let same' : (x : Bytes) → contains (m ∷ ms) x ≡ contains (m ∷ ns) x =
      subst (λ k. (x : Bytes) → contains (m ∷ ms) x ≡ contains (k ∷ ns) x) (sym e) same in
    ap (λ l. m ∷ l) (IsStrict-unique ms ns s' t' (IsStrict-tail m ms ns (s, s') strict same'))
    ∙ ap (λ k. k ∷ ns) e

insert-IsStrict :
    (a : Bytes) (ms : List Bytes) → IsStrict ms → contains ms a ≡ false → IsStrict (insert a ms)
unfolding insert contains
insert-IsStrict a [] s h = (λ n k. absurd (ground (arith, k, contains-nil n)), tt)
insert-IsStrict a (m ∷ ms) (s, s') h = elim (Bool-cases (bytes_le a m)) [
  | inl e ↦ rw e (first e, (s, s'))
  | inr e ↦ rw e (second e, insert-IsStrict a ms s' third)
]
  where
    third : contains ms a ≡ false
    third = ground (arith, h)

    first : bytes_le a m ≡ true → Before a (m ∷ ms)
    first e n k =
        ground
          (arith, e, k, s n, bytes_le_trans n a m, bytes_le_antisym a m, eq_iff m n, eq_iff m a, h)

    second : bytes_le a m ≡ false → Before m (insert a ms)
    second e n k = ground (arith, e, k, s n, contains-insert a ms n, eq_iff a n)

abbrev pub Distinct : List Bytes → Type 0
Distinct [] = Unit
Distinct (m ∷ ms) = (contains ms m ≡ false) × Distinct ms

pub sort_strings-IsStrict : (ms : List Bytes) → Distinct ms → IsStrict (sort_strings ms)
unfolding sort_strings
sort_strings-IsStrict [] d = tt
sort_strings-IsStrict (m ∷ ms) (h, d) =
    insert-IsStrict m (sort_strings ms) (sort_strings-IsStrict ms d)
      (contains-sort_strings ms m ∙ h)

pub Distinct-append :
    (ms : List Bytes) (a : Bytes) → Distinct ms → contains ms a ≡ false → Distinct (ms ++ (a ∷ []))
unfolding contains
Distinct-append [] a d h = (refl, tt)
Distinct-append (m ∷ ms) a (k, d) h = (
  ground (arith, k, h, contains-append ms (a ∷ []) m, eq_iff a m, eq_iff m a),
  Distinct-append ms a d (ground (arith, h)),
)
