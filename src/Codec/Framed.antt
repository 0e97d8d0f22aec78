-- ===== src/Codec/Framed.antt =====
-- An encoding of the fields of a configuration for the runs in the test modules.
use tswipoexp.Prelude.{
  ℕ, zero, suc, ◌≡◌, refl, ap, ◌∙◌, true, false, Option, none, some, [], ◌∷◌, ◌++◌, Bytes, length,
}
use tswipoexp.Codec.{put, get, get-put-append}
use tswipoexp.Profiles.Config.Json.{Fields, Value, text, bool, null, other}
use tswipoexp.Profiles.Store.{JsonText}

abbrev pub tag : Value → Bytes → Bytes
tag (text b) rest = 0 ∷ put b rest
tag (bool true) rest = 1 ∷ rest
tag (bool false) rest = 2 ∷ rest
tag null rest = 3 ∷ rest
tag other rest = 4 ∷ rest

abbrev pub untag : Bytes → Value × Bytes
untag [] = (other, [])
untag (zero ∷ rest) = (text (get rest).0, (get rest).1)
untag (suc zero ∷ rest) = (bool true, rest)
untag (suc (suc zero) ∷ rest) = (bool false, rest)
untag (suc (suc (suc zero)) ∷ rest) = (null, rest)
untag (suc (suc (suc (suc c))) ∷ rest) = (other, rest)

untag-tag : (v : Value) (rest tail : Bytes) → untag (tag v rest ++ tail) ≡ (v, rest ++ tail)
untag-tag (text b) rest tail = ap (λ x. (text x.0, x.1)) (get-put-append b rest tail)
untag-tag (bool true) rest tail = refl
untag-tag (bool false) rest tail = refl
untag-tag null rest tail = refl
untag-tag other rest tail = refl

abbrev pub put_fields : Fields → Bytes
put_fields [] = []
put_fields ((k, v) ∷ fs) = put k (tag v (put_fields fs))

abbrev pub get_fields : ℕ → Bytes → Fields
get_fields zero xs = []
get_fields (suc n) xs = ((get xs).0, (untag (get xs).1).0) ∷ get_fields n (untag (get xs).1).1

pub get_fields-put_fields :
    (fs : Fields) (tail : Bytes) → get_fields (length fs) (put_fields fs ++ tail) ≡ fs
get_fields-put_fields [] tail = refl
get_fields-put_fields ((k, v) ∷ fs) tail =
    ap (λ x. (x.0, (untag x.1).0) ∷ get_fields (length fs) (untag x.1).1)
      (get-put-append k (tag v (put_fields fs)) tail)
    ∙ ap (λ y. (k, y.0) ∷ get_fields (length fs) y.1) (untag-tag v (put_fields fs) tail)
    ∙ ap (λ gs. (k, v) ∷ gs) (get_fields-put_fields fs tail)

abbrev pub parse_framed : Bytes → Option Fields
parse_framed [] = none
parse_framed (n ∷ xs) = some (get_fields n xs)

abbrev pub framed : JsonText
framed = record { render = λ fs. length fs ∷ put_fields fs; parse = λ b. parse_framed b }
