-- ===== src/Tspo/Flag.antt =====
-- Which arguments hasSocketFlag of cmd/tspo finds.
use tswipoexp.Prelude.{
  ℕ, zero, suc, ◌+◌, ◌-◌, ◌≤◌, ◌≡◌, refl, ap, ◌∙◌, ◌↔◌, ◌⊎◌, inl, inr, ◌≢◌, Bool, true, false,
  Bool-cases, ◌&&◌, ◌||◌, List, [], ◌∷◌, ◌++◌, Bytes, codes, length, take, drop, get_elem?, some,
  ltb, ltb→lt, length-append, ◌==◌, nat_eq, list_eq, list_eqb, eq_iff, arith,
}
use mathlib.Core.Option.{some-injective}
use tswipoexp.Tspo.{is_socket_flag, has_socket_flag, cli_args}

-- The flag with its value in the next argument, or with a value of its own, that with one dash has to
-- be two bytes long.
unfoldable pub IsSocketFlag : Bytes → Type 0
IsSocketFlag a =
    (a ≡ codes "--socket")
    ⊎ (a ≡ codes "-socket")
    ⊎ ((v : Bytes) × (v ≢ []) × (a ≡ codes "--socket=" ++ v))
    ⊎ ((v : Bytes) × (2 ≤ length v) × (a ≡ codes "-socket=" ++ v))

take_append_drop : (n : ℕ) (a : Bytes) → a ≡ take n a ++ drop n a
take_append_drop zero a = refl
take_append_drop (suc n) [] = refl
take_append_drop (suc n) (x ∷ xs) = ap (λ t. x ∷ t) (take_append_drop n xs)

take-prefix : (p v : Bytes) → take (length p) (p ++ v) ≡ p
take-prefix [] v = refl
take-prefix (x ∷ xs) v = ap (λ t. x ∷ t) (take-prefix xs v)

long : Bytes → Bool
long a = ltb 9 (length a)

not_empty : (v : Bytes) → 1 ≤ length v → v ≢ []
not_empty [] h e = absurd (omega (arith, h))
not_empty (x ∷ xs) h e = absurd (omega (arith, ap length e))

filled : (v : Bytes) → v ≢ [] → 1 ≤ length v
filled [] h = absurd (h refl)
filled (x ∷ xs) h = omega arith

with_value :
    (n : ℕ) (p a : Bytes)
    → length p ≡ n
    → (take n a == p) ≡ true
    → 9 + 1 ≤ length a
    → (v : Bytes) × (9 + 1 ≤ n + length v) × (a ≡ p ++ v)
with_value n p a width found h =
    let whole : a ≡ p ++ drop n a =
      take_append_drop n a ∙ ap (λ t. t ++ drop n a) ((eq_iff (take n a) p).0 found) in
    (drop n a, omega (arith, ap length whole, length-append p (drop n a)), whole)

or_true : (a b c : Bool) → (a || b || c) ≡ true → (a ≡ true) ⊎ (b ≡ true) ⊎ (c ≡ true)
or_true true b c h = inl refl
or_true false true c h = inr (inl refl)
or_true false false c h = inr (inr h)

and_or_true : (a b c : Bool) → (a && (b || c)) ≡ true → (a ≡ true) × ((b ≡ true) ⊎ (c ≡ true))
and_or_true true true c h = (refl, inl refl)
and_or_true true false c h = (refl, inr h)
and_or_true false b c h = absurd (ground (arith, h))

long_enough : (a : Bytes) → long a ≡ true → 9 + 1 ≤ length a
unfolding long
long_enough a h = omega (arith, ltb→lt 9 (length a) h)

is_socket_flag_iff : (a : Bytes) → (is_socket_flag a ≡ true) ↔ IsSocketFlag a
unfolding is_socket_flag IsSocketFlag long list_eqb
is_socket_flag_iff a = (
  λ h.
      elim (or_true (a == codes "--socket") (a == codes "-socket")
        (long a && (take 9 a == codes "--socket=" || take 8 a == codes "-socket=")) h) [
          | inl e ↦ inl ((eq_iff a (codes "--socket")).0 e)
          | inr (inl e) ↦ inr (inl ((eq_iff a (codes "-socket")).0 e))
          | inr (inr e) ↦
              let (l, which) =
                and_or_true (long a) (take 9 a == codes "--socket=") (take 8 a == codes "-socket=")
                  e in
              elim which [
                | inl two ↦
                    let (v, wide, whole) =
                      with_value 9 (codes "--socket=") a refl two (long_enough a l) in
                    inr (inr (inl (v, not_empty v (omega (arith, wide)), whole)))
                | inr one ↦
                    let (v, wide, whole) =
                      with_value 8 (codes "-socket=") a refl one (long_enough a l) in
                    inr (inr (inr (v, omega (arith, wide), whole)))
              ]
        ],
  λ h. elim h [
    | inl e ↦ rw e refl
    | inr (inl e) ↦ rw e refl
    | inr (inr (inl (v, some_value, e))) ↦ rw e (ground (arith, filled v some_value))
    | inr (inr (inr (v, wide, e))) ↦ rw e (ground (arith, wide))
  ],
)

found_at :
    (args : List Bytes) (i : ℕ) (b : Bytes)
    → get_elem? args i ≡ some b
    → IsSocketFlag b
    → has_socket_flag args ≡ true
unfolding has_socket_flag
found_at [] i b at f = absurd (ground (arith, at))
found_at (a ∷ args) zero b at f =
    let here : is_socket_flag a ≡ true =
      ap is_socket_flag (some-injective a b at) ∙ (is_socket_flag_iff b).1 f in
    ground (arith, here)
found_at (a ∷ args) (suc i) b at f = let later = found_at args i b at f in ground (arith, later)

-- hasSocketFlag finds a flag in the arguments exactly if one of them is `--socket` or `-socket`, or
-- `--socket=` with a value that is not empty, or `-socket=` with a value of at least two bytes.
pub has_socket_flag_iff :
    (args : List Bytes)
    → (has_socket_flag args ≡ true)
      ↔ ((i : ℕ) × (a : Bytes) × (get_elem? args i ≡ some a) × IsSocketFlag a)
unfolding has_socket_flag
has_socket_flag_iff [] =
    (λ h. absurd (ground (arith, h)), λ (i, a, e, f). absurd (ground (arith, e)))
has_socket_flag_iff (a ∷ args) = (
  λ h. elim (Bool-cases (is_socket_flag a)) [
    | inl e ↦ (0, a, refl, (is_socket_flag_iff a).0 e)
    | inr e ↦
        let (i, b, at, f) = (has_socket_flag_iff args).0 (ground (arith, h, e)) in (suc i, b, at, f)
  ],
  λ (i, b, at, f). found_at (a ∷ args) i b at f,
)

-- If the socket has a name, the CLI runs with a socket flag among its arguments, and its last arguments
-- are those of the command, all of them and in their order.
pub cli_args-HasFlag :
    (socket : Bytes) (args : List Bytes)
    → socket ≢ []
    → ((i : ℕ) × (a : Bytes) × (get_elem? (cli_args socket args) i ≡ some a) × IsSocketFlag a)
      × (drop (length (cli_args socket args) - length args) (cli_args socket args) ≡ args)
unfolding cli_args IsSocketFlag
cli_args-HasFlag socket args named = elim (Bool-cases (has_socket_flag args)) [
  | inl e ↦
      let none_before : length args - length args ≡ 0 = omega arith in
      rw (e, none_before) ((has_socket_flag_iff args).0 e, refl)
  | inr e ↦
      let one_before : suc (length args) - length args ≡ 1 = omega arith in
      rw (e, one_before)
        ((0, codes "--socket=" ++ socket, refl, inr (inr (inl (socket, named, refl)))), refl)
]
