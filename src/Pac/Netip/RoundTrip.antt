-- ===== src/Pac/Netip/RoundTrip.antt =====
-- Every text of an IPv4 prefix in pac.go is read back.
use tswipoexp.Prelude.{
  ℕ, ◌+◌, ◌-◌, ◌*◌, ◌%◌, ◌/◌, ◌^◌, ◌≤◌, ◌<◌, ◌≡◌, refl, ap, ◌∙◌, inl, inr, true, false, not, some,
  [], ◌∷◌, ◌++◌, Bytes, ◌==◌, nat_eq, eq_iff, eq_refl, ltb, leb, cut, All, arith, Bool-cases,
}
use tswipoexp.Status.{Prefix, v4}
use tswipoexp.Pac.Netip.{
  decimal, addr_text, prefix_text, is_digit, read_number, parse_addr, parse_prefix,
}

cut-append :
    (c : ℕ) (xs rest : Bytes)
    → All (λ x. (x == c) ≡ false) xs
    → cut c (xs ++ (c ∷ rest)) ≡ some (xs, rest)
unfolding cut
cut-append c [] rest h = rw (cut, eq_refl c) refl
cut-append c (x ∷ xs) rest (h, hs) = rw (cut, h, cut-append c xs rest hs) refl

decimal-All : (c n : ℕ) → c < b'0' → All (λ x. (x == c) ≡ false) (decimal n)
unfolding decimal
decimal-All c n h = elim (Bool-cases (ltb n 10)) [
  | inl e ↦ rw e (other n, tt)
  | inr e ↦ elim (Bool-cases (ltb n 100)) [
    | inl f ↦ rw (e, f) (other (n / 10), (other (n % 10), tt))
    | inr f ↦ rw (e, f) (other (n / 100), (other (n / 10 % 10), (other (n % 10), tt)))
  ]
]
  where
    other : (d : ℕ) → (b'0' + d == c) ≡ false
    other d = ground (arith, eq_iff (b'0' + d) c)

digit-back : (d : ℕ) → d < 10 → (is_digit (b'0' + d) ≡ true) × (b'0' + d - b'0' ≡ d)
digit-back d h = (ground arith, omega arith)

not-zero : (d : ℕ) → 0 < d → not (b'0' + d == b'0') ≡ true
not-zero d h = ground (arith, eq_iff (b'0' + d) b'0')

read_one : (limit d : ℕ) → d < 10 → d ≤ limit → read_number limit ((b'0' + d) ∷ []) ≡ some d
unfolding read_number
read_one limit d h le =
    let (e, f) = digit-back d h in let g : leb d limit ≡ true = ground arith in rw (e, f, g) refl

read_two :
    (limit a b : ℕ)
    → a < 10
    → b < 10
    → 0 < a
    → a * 10 + b ≤ limit
    → read_number limit ((b'0' + a) ∷ (b'0' + b) ∷ []) ≡ some (a * 10 + b)
unfolding read_number
read_two limit a b ha hb pos le =
    let (e, f) = digit-back a ha in
    let (e', f') = digit-back b hb in
    let g : leb (a * 10 + b) limit ≡ true = ground arith in
    rw (e, e', not-zero a pos, f, f', g) refl

read_three :
    (limit a b c : ℕ)
    → a < 10
    → b < 10
    → c < 10
    → 0 < a
    → a * 100 + b * 10 + c ≤ limit
    → read_number limit ((b'0' + a) ∷ (b'0' + b) ∷ (b'0' + c) ∷ []) ≡ some (a * 100 + b * 10 + c)
unfolding read_number
read_three limit a b c ha hb hc pos le =
    let (e, f) = digit-back a ha in
    let (e', f') = digit-back b hb in
    let (e'', f'') = digit-back c hc in
    let g : leb (a * 100 + b * 10 + c) limit ≡ true = ground arith in
    rw (e, e', e'', not-zero a pos, f, f', f'', g) refl

read_number-decimal :
    (limit n : ℕ) → n ≤ limit → limit < 1000 → read_number limit (decimal n) ≡ some n
unfolding decimal
read_number-decimal limit n le h = elim (Bool-cases (ltb n 10)) [
  | inl e ↦ rw e (read_one limit n (ground arith) le)
  | inr e ↦ elim (Bool-cases (ltb n 100)) [
    | inl f ↦
        let whole : n / 10 * 10 + n % 10 ≡ n = omega arith in
        rw (e, f)
          (read_two limit (n / 10) (n % 10) (ground arith) (omega arith) (ground arith)
              (omega arith)
            ∙ ap some whole)
    | inr f ↦
        let whole : n / 100 * 100 + n / 10 % 10 * 10 + n % 10 ≡ n = omega arith in
        rw (e, f)
          (read_three limit (n / 100) (n / 10 % 10) (n % 10) (omega arith) (omega arith)
              (omega arith) (ground arith) (omega arith)
            ∙ ap some whole)
  ]
]

cut-decimal :
    (n : ℕ) (rest : Bytes) → cut b'.' (decimal n ++ (b'.' ∷ rest)) ≡ some (decimal n, rest)
cut-decimal n rest = cut-append b'.' (decimal n) rest (decimal-All b'.' n (omega arith))

byte : (n : ℕ) → read_number 255 (decimal (n % 256)) ≡ some (n % 256)
byte n = read_number-decimal 255 (n % 256) (omega arith) (omega arith)

four_bytes :
    (a : ℕ)
    → a < 2 ^ 32
    → a / 2 ^ 24 % 256 * 2 ^ 24 + a / 2 ^ 16 % 256 * 2 ^ 16 + a / 2 ^ 8 % 256 * 2 ^ 8 + a % 256 ≡ a
four_bytes a h = omega arith

parse_addr-addr_text : (a : ℕ) → a < 2 ^ 32 → parse_addr (addr_text a) ≡ some a
unfolding parse_addr addr_text
parse_addr-addr_text a h =
    rw
      (
        parse_addr,
        addr_text,
        cut-decimal (a / 2 ^ 24 % 256),
        cut-decimal (a / 2 ^ 16 % 256),
        cut-decimal (a / 2 ^ 8 % 256),
        byte (a / 2 ^ 24),
        byte (a / 2 ^ 16),
        byte (a / 2 ^ 8),
        byte a,
      )
      (ap some (four_bytes a h))

pub All-append : (p : ℕ → Type 0) (xs ys : Bytes) → All p xs → All p ys → All p (xs ++ ys)
All-append p [] ys h k = k
All-append p (x ∷ xs) ys (h, hs) k = (h, All-append p xs ys hs k)

no-slash :
    (n : ℕ) (rest : Bytes)
    → All (λ x. (x == b'/') ≡ false) rest
    → All (λ x. (x == b'/') ≡ false) (decimal n ++ (b'.' ∷ rest))
no-slash n rest h =
    All-append (λ x. (x == b'/') ≡ false) (decimal n) (b'.' ∷ rest)
      (decimal-All b'/' n (omega arith)) (refl, h)

addr_text-All : (a : ℕ) → All (λ x. (x == b'/') ≡ false) (addr_text a)
unfolding addr_text
addr_text-All a = no-slash (a / 2 ^ 24 % 256) _ (
    no-slash (a / 2 ^ 16 % 256) _
      (no-slash (a / 2 ^ 8 % 256) (decimal (a % 256)) (decimal-All b'/' (a % 256) (omega arith))))

abbrev prefix_of : ℕ → ℕ → Prefix
prefix_of a bits = record { addr = v4 a; bits = bits }

-- An IPv4 prefix that is printed for the script's inputs is read back as it was, for any address of 32
-- bits and any length up to 32.
pub parse_prefix-prefix_text :
    (a bits : ℕ)
    → a < 2 ^ 32
    → bits ≤ 32
    → parse_prefix (prefix_text (prefix_of a bits)) ≡ some (prefix_of a bits)
unfolding parse_prefix prefix_text cut
parse_prefix-prefix_text a bits h le =
    rw
      (
        parse_prefix,
        prefix_text,
        cut-append b'/' (addr_text a) (decimal bits) (addr_text-All a),
        parse_addr-addr_text a h,
        read_number-decimal 32 bits le (omega arith),
      )
      refl
