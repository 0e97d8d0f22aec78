-- ===== src/Ssh/EnvBlock/Distinct.antt =====
-- Which of the pairs with one key the environment block of ssh_windows.go has.
use tswipoexp.Prelude.{
  ℕ, zero, suc, ◌+◌, ◌≡◌, refl, sym, ap, ◌∙◌, inl, inr, Bool, true, false, Bool-cases, Option, none,
  some, List, [], ◌∷◌, ◌++◌, Bytes, length, ◌==◌, nat_eq, list_eq, eq_iff, if◌then◌else◌, cut,
  to_upper, arith,
}
use tswipoexp.Ssh.EnvBlock.{Table, index_of, set_at, enter, add_cut, add_pairs, distinct_pairs}

abbrev pub keyed_cut : Option (Bytes × Bytes) → Bytes → Bool
keyed_cut none k = false
keyed_cut (some (j, v)) k = to_upper j == k

-- Whether the string is a pair with a key that is `k` in capital letters.
unfoldable pub keyed : Bytes → Bytes → Bool
keyed kv k = keyed_cut (cut 61 kv) k

unfoldable pub find_pair : Bytes → List Bytes → Option Bytes
find_pair k [] = none
find_pair k (x ∷ xs) = if keyed x k then some x else find_pair k xs

abbrev or_else : Option Bytes → Option Bytes → Option Bytes
or_else none o = o
or_else (some x) o = some x

unfoldable pub last_pair : Bytes → List Bytes → Option Bytes
last_pair k [] = none
last_pair k (x ∷ xs) = or_else (last_pair k xs) (if keyed x k then some x else none)

-- The key of `x` is `k`, as its tests see it.
abbrev HasKey : Bytes → Bytes → Type 0
HasKey k x = (k' : Bytes) → keyed x k' ≡ (k == k')

-- `seen` has the keys of the list with their positions, counted from `n`.
abbrev Indexed : ℕ → List (Bytes × ℕ) → List Bytes → Type 0
Indexed n [] [] = Unit
Indexed n ((k, i) ∷ seen) (x ∷ xs) = (i ≡ n) × HasKey k x × Indexed (suc n) seen xs
Indexed n [] (x ∷ xs) = true ≡ false
Indexed n ((k, i) ∷ seen) [] = true ≡ false

-- The list `new` is `old` with `kv` for the key `k`.
abbrev Replaces : Bytes → List Bytes → List Bytes → Type 0
Replaces kv old new =
    (k' : Bytes) → find_pair k' new ≡ (if keyed kv k' then some kv else find_pair k' old)

module _ (k kv : Bytes) (key : HasKey k kv) where
  other_first :
      (m x : Bytes) (old new : List Bytes)
      → (m == k) ≡ false
      → HasKey m x
      → Replaces kv old new
      → Replaces kv (x ∷ old) (x ∷ new)
  unfolding find_pair
  other_first m x old new differs has h k' = elim (Bool-cases (keyed x k')) [
    | inl e ↦ elim (Bool-cases (keyed kv k')) [
      | inl e' ↦
          absurd
            (ground (arith, differs, eq_iff m k, eq_iff m k', eq_iff k k', has k', key k', e, e'))
      | inr e' ↦ rw (e, e') refl
    ]
    | inr e ↦ rw e (h k')
  ]

  same_first :
      (m x : Bytes) (xs : List Bytes)
      → (m == k) ≡ true
      → HasKey m x
      → Replaces kv (x ∷ xs) (kv ∷ xs)
  unfolding find_pair
  same_first m x xs same has k' = elim (Bool-cases (keyed kv k')) [
    | inl e ↦ rw e refl
    | inr e ↦
        let e' : keyed x k' ≡ false =
          has k' ∙ ap (λ j. j == k') ((eq_iff m k).0 same) ∙ sym (key k') ∙ e in
        rw (e, e') refl
  ]

  set_at-Indexed :
      (n i : ℕ) (seen : List (Bytes × ℕ)) (list : List Bytes)
      → Indexed n seen list
      → index_of k seen ≡ some i
      → (j : ℕ) × (i ≡ n + j)
        × Indexed n seen (set_at j kv list)
        × Replaces kv list (set_at j kv list)
  unfolding index_of set_at
  set_at-Indexed n i [] [] h e = absurd (ground (arith, e))
  set_at-Indexed n i [] (x ∷ xs) h e = absurd (ground (arith, h))
  set_at-Indexed n i ((m, p) ∷ seen) [] h e = absurd (ground (arith, h))
  set_at-Indexed n i ((m, p) ∷ seen) (x ∷ xs) (at, has, h) e = elim (Bool-cases (m == k)) [
    | inl same ↦ (
      zero,
      ground (arith, e, same, at),
      (at, (λ k'. key k' ∙ ap (λ j. j == k') (sym ((eq_iff m k).0 same))), h),
      same_first m x xs same has,
    )
    | inr differs ↦
        let (j, there, indexed, replaces) =
          set_at-Indexed (suc n) i seen xs h (ground (arith, e, differs)) in
        (
          suc j,
          omega (arith, there),
          (at, has, indexed),
          other_first m x xs (set_at j kv xs) differs has replaces,
        )
  ]

  append-Indexed :
      (n p : ℕ) (seen : List (Bytes × ℕ)) (list : List Bytes)
      → Indexed n seen list
      → index_of k seen ≡ none
      → p ≡ n + length list
      → Indexed n (seen ++ ((k, p) ∷ [])) (list ++ (kv ∷ [])) × Replaces kv list (list ++ (kv ∷ []))
  unfolding index_of find_pair
  append-Indexed n p [] [] h e at = ((omega (arith, at), key, tt), λ k'. refl)
  append-Indexed n p [] (x ∷ xs) h e at = absurd (ground (arith, h))
  append-Indexed n p ((m, q) ∷ seen) [] h e at = absurd (ground (arith, h))
  append-Indexed n p ((m, q) ∷ seen) (x ∷ xs) (here, has, h) e at = elim (Bool-cases (m == k)) [
    | inl same ↦ absurd (ground (arith, e, same))
    | inr differs ↦
        let (indexed, replaces) =
          append-Indexed (suc n) p seen xs h (ground (arith, e, differs)) (omega (arith, at)) in
        ((here, has, indexed), other_first m x xs (xs ++ (kv ∷ [])) differs has replaces)
  ]

HasKey-cut : (kv k v : Bytes) → cut 61 kv ≡ some (k, v) → HasKey (to_upper k) kv
unfolding keyed
HasKey-cut kv k v e k' = rw e refl

not_keyed : (kv k' : Bytes) → cut 61 kv ≡ none → keyed kv k' ≡ false
unfolding keyed
not_keyed kv k' e = rw e refl

Enters : Bytes → Table → Table → Type 0
Enters kv old new = Indexed 0 new.seen new.list × Replaces kv old.list new.list

enter-Enters :
    (kv k : Bytes) (t : Table) (key : HasKey k kv)
    → Indexed 0 t.seen t.list
    → (o : Option ℕ) → index_of k t.seen ≡ o
    → Enters kv t (enter k kv o t)
unfolding Enters
enter-Enters kv k t key h none e =
    append-Indexed k kv key 0 (length t.list) t.seen t.list h e (omega arith)
enter-Enters kv k t key h (some i) e =
    let (j, at, indexed, replaces) = set_at-Indexed k kv key 0 i t.seen t.list h e in
    let same : i ≡ j = omega (arith, at) in rw same (indexed, replaces)

add_cut-Enters :
    (kv : Bytes) (t : Table)
    → Indexed 0 t.seen t.list
    → (o : Option (Bytes × Bytes)) → cut 61 kv ≡ o
    → Enters kv t (add_cut kv o t)
unfolding Enters
add_cut-Enters kv t h none e = (h, λ k'. rw (not_keyed kv k' e) refl)
add_cut-Enters kv t h (some (k, v)) e =
    enter-Enters kv (to_upper k) t (HasKey-cut kv k v e) h (index_of (to_upper k) t.seen) refl

or_else-if :
    (later : Option Bytes) (b : Bool) (kv : Bytes) (before : Option Bytes)
    → or_else later (if b then some kv else before)
      ≡ or_else (or_else later (if b then some kv else none)) before
or_else-if (some x) b kv before = refl
or_else-if none true kv before = refl
or_else-if none false kv before = refl

find_pair-add_pairs :
    (env : List Bytes) (t : Table) (k : Bytes)
    → Indexed 0 t.seen t.list
    → find_pair k (add_pairs env t).list ≡ or_else (last_pair k env) (find_pair k t.list)
unfolding add_pairs last_pair Enters
find_pair-add_pairs [] t k h = refl
find_pair-add_pairs (kv ∷ kvs) t k h =
    let new = add_cut kv (cut 61 kv) t in
    let (indexed, replaces) = add_cut-Enters kv t h (cut 61 kv) refl in
    find_pair-add_pairs kvs new k indexed
    ∙ ap (or_else (last_pair k kvs)) (replaces k)
    ∙ or_else-if (last_pair k kvs) (keyed kv k) kv (find_pair k t.list)

-- For every key the environment block has the last of the pairs with that key in any case, and none
-- if there is no such pair.
pub find_pair-distinct_pairs :
    (env : List Bytes) (k : Bytes) → find_pair k (distinct_pairs env) ≡ last_pair k env
unfolding distinct_pairs find_pair
find_pair-distinct_pairs env k =
    find_pair-add_pairs env (record { seen = []; list = [] }) k tt ∙ nothing (last_pair k env)
  where
    nothing : (o : Option Bytes) → or_else o none ≡ o
    nothing none = refl
    nothing (some x) = refl
