-- ===== src/Codec.antt =====
-- Strings with their length in front: an encoding to run the programs with where the Go program uses
-- encoding/json.
pub mod Saved
pub mod Framed
use tswipoexp.Prelude.{◌≡◌, refl, ap, [], ◌∷◌, ◌++◌, Bytes, length, take, drop}

abbrev pub put : Bytes → Bytes → Bytes
put b rest = length b ∷ (b ++ rest)

unfoldable pub get : Bytes → Bytes × Bytes
get [] = ([], [])
get (n ∷ xs) = (take n xs, drop n xs)

take-length : (b rest : Bytes) → take (length b) (b ++ rest) ≡ b
take-length [] rest = refl
take-length (c ∷ b) rest = ap (λ xs. c ∷ xs) (take-length b rest)

drop-length : (b rest : Bytes) → drop (length b) (b ++ rest) ≡ rest
drop-length [] rest = refl
drop-length (c ∷ b) rest = drop-length b rest

pub get-put : (b rest : Bytes) → get (put b rest) ≡ (b, rest)
unfolding get
get-put b rest = rw (take-length b rest, drop-length b rest) refl

take-put : (b rest tail : Bytes) → take (length b) ((b ++ rest) ++ tail) ≡ b
take-put [] rest tail = refl
take-put (c ∷ b) rest tail = ap (λ xs. c ∷ xs) (take-put b rest tail)

drop-put : (b rest tail : Bytes) → drop (length b) ((b ++ rest) ++ tail) ≡ rest ++ tail
drop-put [] rest tail = refl
drop-put (c ∷ b) rest tail = drop-put b rest tail

-- With a text behind
pub get-put-append : (b rest tail : Bytes) → get (put b rest ++ tail) ≡ (b, rest ++ tail)
unfolding get
get-put-append b rest tail = rw (take-put b rest tail, drop-put b rest tail) refl
