-- ===== src/Debug/Tests.antt =====
-- The debug endpoint at a dropdown of profiles.
use tswipoexp.Prelude.{
  ◌≡◌, ◌≢◌, refl, ap, true, none, some, List, [], ◌∷◌, ◌++◌, Bytes, codes, arith, length, list_eqb,
  has_prefix,
}
use tswipoexp.Disk.Calls.{contains}
use tswipoexp.Profiles.Store.{sort_strings}
use tswipoexp.Ui.Window.{new_profile_item}
use tswipoexp.Debug.{match_select, match_options}
use tswipoexp.Debug.Matching.{match_select-sort_strings}

abbrev names : List Bytes
names = codes "Work 2" ∷ codes "Work" ∷ codes "Work 3" ∷ []

-- Out of order, the name is one that two prefixes hide.
out_of_order :
    match_select (codes "Work") (codes "Work 2" ∷ codes "Work 3" ∷ codes "Work" ∷ []) ≡ none
unfolding match_select match_options list_eqb has_prefix
out_of_order = refl

named : codes "Work" ≢ []
named e = absurd (omega (arith, ap length e))

listed : contains names (codes "Work") ≡ true
unfolding contains list_eqb
listed = refl

match_select-sort_strings_example :
    match_select (codes "Work") (sort_strings names ++ (new_profile_item ∷ []))
    ≡ some (codes "Work")
match_select-sort_strings_example =
    match_select-sort_strings (codes "Work") names (new_profile_item ∷ []) named listed
