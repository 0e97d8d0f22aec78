-- ===== src/Profiles/Names/Valid.antt =====
-- What validProfileName of profiles.go accepts.
use mathlib.Core.List.{reverse, append_assoc, append-nil}
use tswipoexp.Prelude.{
  All, ◌≤◌, ◌≡◌, ◌≢◌, ◌↔◌, refl, sym, ◌∙◌, list_eqb, true, false, List, [], ◌∷◌, ◌++◌, map, Bytes,
  length, arith, nat_eq, list_eq, eq_iff, has_prefix, contains_byte, contains_any, spaces,
  prefix_width, trim_space, trim_space-eq_self_iff,
}
use tswipoexp.Profiles.Names.{forbidden, is_separator, valid_profile_name, split_path, dir_of}

-- A name that is usable as it stands: not empty, of at most 64 bytes, with no space at either end,
-- no forbidden byte, and no dot in front.
pub record IsName (name : Bytes) : Type 0 where
  pub nonempty : name ≢ []
  pub short : length name ≤ 64
  pub no_space_front : prefix_width spaces name ≡ 0
  pub no_space_end : prefix_width (map reverse spaces) (reverse name) ≡ 0
  pub allowed : All (λ c. contains_byte forbidden c ≡ false) name
  pub no_dot : has_prefix name (b'.' ∷ []) ≡ false

contains_any_iff :
    (s chars : Bytes) → (contains_any s chars ≡ false) ↔ All (λ c. contains_byte chars c ≡ false) s
unfolding contains_any
contains_any_iff [] chars = (λ _. tt, λ _. refl)
contains_any_iff (c ∷ cs) chars = (
  λ h. (ground arith, (contains_any_iff cs chars).0 (ground arith)),
  λ h. ground (arith, h.0, (contains_any_iff cs chars).1 h.1),
)

-- `validProfileName` accepts those names and no others.
pub valid_profile_name_iff : (name : Bytes) → (valid_profile_name name ≡ true) ↔ IsName name
unfolding valid_profile_name
valid_profile_name_iff name = (forth, back)
  where
    forth : valid_profile_name name ≡ true → IsName name
    forth h =
        let trimmed : name ≡ trim_space name = ground (arith, eq_iff name (trim_space name)) in
        let ends = (trim_space-eq_self_iff name).0 (sym trimmed) in
        record {
          nonempty = λ e. ground (arith, eq_iff name []);
          short = ground arith;
          no_space_front = ends.0;
          no_space_end = ends.1;
          allowed = (contains_any_iff name forbidden).0 (ground arith);
          no_dot = ground arith;
        }

    back : IsName name → valid_profile_name name ≡ true
    back v = ground (
      arith,
      eq_iff name [],
      eq_iff name (trim_space name),
      v.nonempty,
      v.short,
      v.no_dot,
      (trim_space-eq_self_iff name).1 (v.no_space_front, v.no_space_end),
      (contains_any_iff name forbidden).1 v.allowed,
    )

no_separator :
    (word s : Bytes)
    → All (λ c. contains_byte forbidden c ≡ false) s
    → split_path word s ≡ (word ++ s) ∷ []
unfolding split_path contains_byte
no_separator word [] h = rw (append-nil word)
no_separator word (c ∷ cs) h =
    let e : is_separator c ≡ false = ground arith in
    rw (e, split_path) (no_separator (word ++ (c ∷ [])) cs h.1 ∙ rw append_assoc)

-- The directory of a profile with a valid name stands directly in the state directory, under that
-- very name.
pub dir_of-valid :
    (top : List Bytes) (name : Bytes)
    → valid_profile_name name ≡ true
    → dir_of top name ≡ top ++ (name ∷ [])
unfolding dir_of has_prefix list_eqb
dir_of-valid top name h = go name ((valid_profile_name_iff name).0 h)
  where
    go : (n : Bytes) → IsName n → dir_of top n ≡ top ++ (n ∷ [])
    go [] v = absurd (v.nonempty refl)
    go (c ∷ cs) v =
        let e : split_path [] (c ∷ cs) ≡ (c ∷ cs) ∷ [] = no_separator [] (c ∷ cs) v.allowed in
        rw (e, dir_of) (ground (arith, v.no_dot))
