-- ===== src/Pac/Netip.antt =====
-- What pac.go uses of net/netip, at IPv4: the text of an address and of a prefix, a masked prefix, and
-- ParsePrefix at such a text.
pub mod RoundTrip
use tswipoexp.Prelude.{
  ℕ, zero, suc, ◌+◌, ◌-◌, ◌*◌, ◌%◌, ◌/◌, ◌^◌, Bool, true, false, not, ◌&&◌, ◌||◌, Option, none,
  some, List, [], ◌∷◌, ◌++◌, Bytes, codes, ◌==◌, nat_eq, list_eq, if◌then◌else◌, ltb, leb, cut,
}
use tswipoexp.Status.{Prefix, Addr, v4, v6}

-- A number below 1000 in decimal
unfoldable pub decimal : ℕ → Bytes
decimal n =
    if ltb n 10
    then (b'0' + n) ∷ []
    else if ltb n 100
    then (b'0' + n / 10) ∷ (b'0' + n % 10) ∷ []
    else (b'0' + n / 100) ∷ (b'0' + n / 10 % 10) ∷ (b'0' + n % 10) ∷ []

-- `Addr.String`
unfoldable pub addr_text : ℕ → Bytes
unfolding decimal
addr_text a =
    let last = decimal (a / 2 ^ 8 % 256) ++ (b'.' ∷ decimal (a % 256)) in
    decimal (a / 2 ^ 24 % 256) ++ (b'.' ∷ (decimal (a / 2 ^ 16 % 256) ++ (b'.' ∷ last)))

-- `Prefix.Masked`. Only IPv4 prefixes come here.
unfoldable pub masked : Prefix → Prefix
masked r = elim r.addr [
  | v4 a ↦ record { addr = v4 (a - a % 2 ^ (32 - r.bits)); bits = r.bits }
  | v6 a ↦ r
]

-- `Prefix.String`
unfoldable pub prefix_text : Prefix → Bytes
unfolding addr_text decimal
prefix_text r = elim r.addr [ v4 a ↦ addr_text a ++ (b'/' ∷ decimal r.bits) | v6 a ↦ a ]

abbrev pub is_digit : ℕ → Bool
is_digit c = leb b'0' c && leb c b'9'

abbrev pub at_most : ℕ → ℕ → Option ℕ
at_most limit n = if leb n limit then some n else none

-- One to three digits, without a zero in front, up to a limit
unfoldable pub read_number : ℕ → Bytes → Option ℕ
read_number limit [] = none
read_number limit (a ∷ []) = if is_digit a then at_most limit (a - b'0') else none
read_number limit (a ∷ b ∷ []) =
    if is_digit a && is_digit b && not (a == b'0')
    then at_most limit ((a - b'0') * 10 + (b - b'0'))
    else none
read_number limit (a ∷ b ∷ c ∷ []) =
    if is_digit a && is_digit b && is_digit c && not (a == b'0')
    then at_most limit ((a - b'0') * 100 + (b - b'0') * 10 + (c - b'0'))
    else none
read_number limit (a ∷ b ∷ c ∷ d ∷ rest) = none

abbrev pub bind {ℓ κ} : {A : Type ℓ} {B : Type κ} → Option A → (A → Option B) → Option B
bind none f = none
bind (some a) f = f a

unfoldable pub parse_addr : Bytes → Option ℕ
unfolding read_number
parse_addr s = bind (cut b'.' s) λ (a, rest). bind (cut b'.' rest) λ (b, rest').
    bind (cut b'.' rest') λ (c, d). bind (read_number 255 a) λ w. bind (read_number 255 b) λ x.
      bind (read_number 255 c)
        λ y. bind (read_number 255 d) λ z. some (w * 2 ^ 24 + x * 2 ^ 16 + y * 2 ^ 8 + z)

unfoldable pub parse_prefix : Bytes → Option Prefix
unfolding parse_addr read_number
parse_prefix s = bind (cut b'/' s) λ (a, n).
    bind (parse_addr a)
      λ addr. bind (read_number 32 n) λ bits. some (record { addr = v4 addr; bits = bits })
