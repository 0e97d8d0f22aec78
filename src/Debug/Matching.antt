-- ===== src/Debug/Matching.antt =====
-- Every profile can be selected by its name, through the debug endpoint.
use mathlib.Core.Path.{subst}
use tswipoexp.Prelude.{
  ◌≡◌, ◌≢◌, refl, ap, ◌∙◌, inl, inr, true, false, Bool-cases, some, List, [], ◌∷◌, ◌++◌, Bytes,
  ◌==◌, nat_eq, list_eq, eq_iff, has_prefix, arith,
}
use tswipoexp.Disk.Calls.{contains}
use tswipoexp.Profiles.Store.{bytes_le, sort_strings}
use tswipoexp.Profiles.Store.Sorting.{IsSorted, sort_strings-IsSorted, contains-sort_strings}
use tswipoexp.Profiles.Store.Strict.{bytes_le_antisym, bytes_le_trans, has_prefix-bytes_le}
use tswipoexp.Debug.{match_options, match_select, found}

-- The head of a sorted list stands before all of it.
head-bytes_le :
    (m : Bytes) (ms : List Bytes) (t : Bytes)
    → IsSorted (m ∷ ms)
    → contains ms t ≡ true
    → bytes_le m t ≡ true
unfolding contains
head-bytes_le m [] t s h = absurd (ground (arith, h))
head-bytes_le m (n ∷ ns) t (le, s) h = elim (Bool-cases (n == t)) [
  | inl e ↦ subst (λ x. bytes_le m x ≡ true) ((eq_iff n t).0 e) le
  | inr e ↦ bytes_le_trans m n t le (head-bytes_le n ns t s (ground (arith, h, e)))
]

match_options-sorted :
    (text : Bytes) (options rest : List Bytes)
    → IsSorted options
    → contains options text ≡ true
    → match_options text (options ++ rest) [] ≡ found text
unfolding contains match_options
match_options-sorted text [] rest s h = absurd (ground (arith, h))
match_options-sorted text (opt ∷ options) rest s h = elim (Bool-cases (opt == text)) [
  | inl e ↦ rw e (ap found ((eq_iff opt text).0 e))
  | inr e ↦
      let later : contains options text ≡ true = ground (arith, h, e) in
      let no_prefix : has_prefix opt text ≡ false = elim (Bool-cases (has_prefix opt text)) [
        | inr none_found ↦ none_found
        | inl prefixed ↦
            let same =
              bytes_le_antisym opt text (head-bytes_le opt options text s later)
                (has_prefix-bytes_le opt text prefixed) in
            absurd (ground (arith, e, (eq_iff opt text).1 same))
      ] in
      rw (e, no_prefix) (match_options-sorted text options rest s.1 later)
]

-- Every name that is not empty and is among the profiles selects that profile in the dropdown, where the
-- names are in order and the entry for a new profile comes last: no profile whose name it begins
-- makes it ambiguous.
pub match_select-sort_strings :
    (text : Bytes) (names rest : List Bytes)
    → text ≢ []
    → contains names text ≡ true
    → match_select text (sort_strings names ++ rest) ≡ some text
unfolding match_select
match_select-sort_strings [] names rest h k = absurd (h refl)
match_select-sort_strings (c ∷ text) names rest h k =
    let listed = contains-sort_strings names (c ∷ text) ∙ k in
    rw
      (match_options-sorted (c ∷ text) (sort_strings names) rest (sort_strings-IsSorted names)
        listed)
      refl
