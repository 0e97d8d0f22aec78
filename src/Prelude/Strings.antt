-- ===== src/Prelude/Strings.antt =====
-- Go strings as lists of bytes, and the functions of package strings that the program calls.
use Prim.Native.Nat.{ℕ, zero, suc, ◌+◌, ◌-◌}
use Prim.Native.Char.{code}
use Prim.Native.String.{String}
use mathlib.Core.Bool.{Bool, true, false, ◌&&◌, ◌||◌}
use mathlib.Core.List.{List, [], ◌∷◌, reverse, map}
use mathlib.Core.Option.{Option, none, some}
use tswipoexp.Prelude.Tests.{leb, if◌then◌else◌}
use tswipoexp.Prelude.Lists.{length}
use tswipoexp.Prelude.Equality.{◌==◌, nat_eq, list_eq}

abbrev pub Bytes : Type 0
Bytes = List ℕ

-- The bytes of an ASCII literal.
abbrev pub codes : String → Bytes
codes String.[] = []
codes (String.◌∷◌ c s) = code c ∷ codes s

unfoldable pub has_prefix : Bytes → Bytes → Bool
has_prefix s [] = true
has_prefix [] (p ∷ ps) = false
has_prefix (c ∷ cs) (p ∷ ps) = c == p && has_prefix cs ps

unfoldable pub contains_byte : Bytes → ℕ → Bool
contains_byte [] b = false
contains_byte (c ∷ cs) b = c == b || contains_byte cs b

-- `strings.ContainsAny(s, chars)` for ASCII `chars`
unfoldable pub contains_any : Bytes → Bytes → Bool
unfolding contains_byte
contains_any [] chars = false
contains_any (c ∷ cs) chars = contains_byte chars c || contains_any cs chars

-- `strings.Contains(s, sub)`
unfoldable pub contains_sub : Bytes → Bytes → Bool
unfolding has_prefix
contains_sub [] sub = has_prefix [] sub
contains_sub (c ∷ cs) sub = has_prefix (c ∷ cs) sub || contains_sub cs sub

-- `strings.Cut(s, sep)` at a one-byte separator
unfoldable pub cut : ℕ → Bytes → Option (Bytes × Bytes)
cut sep [] = none
cut sep (c ∷ cs) = elim (c == sep) [
  | true ↦ some ([], cs)
  | false ↦ elim (cut sep cs) [ none ↦ none | some (k, v) ↦ some (c ∷ k, v) ]
]

-- `strings.ToLower` and `strings.ToUpper` on ASCII; other bytes stay.
abbrev pub lower_byte : ℕ → ℕ
lower_byte c = if leb b'A' c && leb c b'Z' then c + 32 else c

abbrev pub upper_byte : ℕ → ℕ
upper_byte c = if leb b'a' c && leb c b'z' then c - 32 else c

unfoldable pub to_lower : Bytes → Bytes
to_lower = map lower_byte

unfoldable pub to_upper : Bytes → Bytes
to_upper = map upper_byte

-- The UTF-8 encodings of the characters that `unicode.IsSpace` accepts.
abbrev pub spaces : List Bytes
spaces =
    (9 ∷ [])
    ∷ (10 ∷ [])
    ∷ (11 ∷ [])
    ∷ (12 ∷ [])
    ∷ (13 ∷ [])
    ∷ (32 ∷ [])
    ∷ (0xc2 ∷ 0x85 ∷ [])
    ∷ (0xc2 ∷ 0xa0 ∷ [])
    ∷ (0xe1 ∷ 0x9a ∷ 0x80 ∷ [])
    ∷ (0xe2 ∷ 0x80 ∷ 0x80 ∷ [])
    ∷ (0xe2 ∷ 0x80 ∷ 0x81 ∷ [])
    ∷ (0xe2 ∷ 0x80 ∷ 0x82 ∷ [])
    ∷ (0xe2 ∷ 0x80 ∷ 0x83 ∷ [])
    ∷ (0xe2 ∷ 0x80 ∷ 0x84 ∷ [])
    ∷ (0xe2 ∷ 0x80 ∷ 0x85 ∷ [])
    ∷ (0xe2 ∷ 0x80 ∷ 0x86 ∷ [])
    ∷ (0xe2 ∷ 0x80 ∷ 0x87 ∷ [])
    ∷ (0xe2 ∷ 0x80 ∷ 0x88 ∷ [])
    ∷ (0xe2 ∷ 0x80 ∷ 0x89 ∷ [])
    ∷ (0xe2 ∷ 0x80 ∷ 0x8a ∷ [])
    ∷ (0xe2 ∷ 0x80 ∷ 0xa8 ∷ [])
    ∷ (0xe2 ∷ 0x80 ∷ 0xa9 ∷ [])
    ∷ (0xe2 ∷ 0x80 ∷ 0xaf ∷ [])
    ∷ (0xe2 ∷ 0x81 ∷ 0x9f ∷ [])
    ∷ (0xe3 ∷ 0x80 ∷ 0x80 ∷ [])
    ∷ []

-- The length of the first of these texts that begins `s`, or 0.
unfoldable pub prefix_width : List Bytes → Bytes → ℕ
unfolding has_prefix
prefix_width [] s = 0
prefix_width (w ∷ ws) s = if has_prefix s w then length w else prefix_width ws s

-- Drops texts of the list from the front as long as there are any; `skip` bytes of the last one
-- found are still to go.
unfoldable pub trim_front : List Bytes → ℕ → Bytes → Bytes
trim_front ws skip [] = []
trim_front ws (suc skip) (c ∷ cs) = trim_front ws skip cs
trim_front ws zero (c ∷ cs) = elim (prefix_width ws (c ∷ cs)) [
  | zero ↦ c ∷ cs
  | suc w ↦ trim_front ws w cs
]

-- `strings.TrimSpace`
unfoldable pub trim_space : Bytes → Bytes
unfolding trim_front prefix_width
trim_space s = reverse (trim_front (map reverse spaces) 0 (reverse (trim_front spaces 0 s)))

-- `strings.TrimSuffix(s, ".")`
unfoldable pub trim_dot : Bytes → Bytes
trim_dot [] = []
trim_dot (c ∷ []) = if c == b'.' then [] else c ∷ []
trim_dot (c ∷ d ∷ s) = c ∷ trim_dot (d ∷ s)

-- `strings.Trim(s, ".")`
unfoldable pub trim_dots : Bytes → Bytes
unfolding trim_front
trim_dots s = reverse (trim_front (codes "." ∷ []) 0 (reverse (trim_front (codes "." ∷ []) 0 s)))
