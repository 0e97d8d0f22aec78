-- ===== src/Proxy/Restore/Quoting.antt =====
-- A value in the .reg file of winproxy_restore.go, and how such a file is read.
use tswipoexp.Prelude.{
  ℕ, ◌≡◌, refl, inl, inr, Bool, true, false, Bool-cases, Option, none, some, [], ◌∷◌, ◌++◌, Bytes,
  ◌==◌, nat_eq, eq_iff, if◌then◌else◌, ap,
}
use tswipoexp.Proxy.Restore.{quote, backslash, replace_byte, reg_escape}

abbrev pub push : ℕ → Option (Bytes × Bytes) → Option (Bytes × Bytes)
push c none = none
push c (some (s, rest)) = some (c ∷ s, rest)

-- How a value is read from behind its first quote: a backslash takes the next byte as it is, and a
-- bare quote ends the value. The result is the value and the text behind it. The flag says that the
-- last byte was such a backslash.
unfoldable pub read_quoted : Bool → Bytes → Option (Bytes × Bytes)
read_quoted true (c ∷ cs) = push c (read_quoted false cs)
read_quoted false (c ∷ cs) =
    let rest = read_quoted (c == backslash) cs in
    if c == quote then some ([], cs) else if c == backslash then rest else push c rest
read_quoted true [] = none
read_quoted false [] = none

-- A value that is escaped reads back as itself, whatever stands behind its closing quote: it cannot
-- end early, and its end is found.
pub read_quoted-reg_escape :
    (s rest : Bytes) → read_quoted false (reg_escape s ++ (quote ∷ rest)) ≡ some (s, rest)
unfolding read_quoted reg_escape replace_byte
read_quoted-reg_escape [] rest = refl
read_quoted-reg_escape (c ∷ cs) rest = elim (Bool-cases (c == backslash)) [
  | inl e ↦ rw ((eq_iff c backslash).0 e) (ap (push backslash) (read_quoted-reg_escape cs rest))
  | inr e ↦ elim (Bool-cases (c == quote)) [
    | inl e' ↦ rw ((eq_iff c quote).0 e') (ap (push quote) (read_quoted-reg_escape cs rest))
    | inr e' ↦ rw (e, e', e, e') (ap (push c) (read_quoted-reg_escape cs rest))
  ]
]
