-- ===== src/Ui/ProfileManager/Selecting.antt =====
-- The row that the profile window of ui_profiles.go selects.
use tswipoexp.Prelude.{
  ℕ, suc, ◌≡◌, refl, ◌⊎◌, inl, inr, Bool-cases, Option, none, some, List, [], ◌∷◌, Bytes, ◌==◌,
  nat_eq, list_eq, eq_iff, if◌then◌else◌,
}
use tswipoexp.Ui.ProfileManager.{
  Manager, Facts, show_details, name_at, on_selected, select_row, row_of, reselect, reload,
}

-- Nothing is selected, or the row of the selected name.
abbrev pub IsSelected : Manager → Type 0
IsSelected m =
    ((m.selected ≡ []) × (m.row ≡ none))
    ⊎ ((i : ℕ) × (m.row ≡ some i) × (name_at m.names i ≡ m.selected))

abbrev FoundAt : Bytes → List Bytes → Option ℕ → Type 0
FoundAt name names none = Unit
FoundAt name names (some i) = name_at names i ≡ name

row_of-FoundAt : (name : Bytes) (names : List Bytes) → FoundAt name names (row_of name names)
unfolding row_of name_at
row_of-FoundAt name [] = tt
row_of-FoundAt name (n ∷ names) = elim (Bool-cases (n == name)) [
  | inl e ↦ rw e ((eq_iff n name).0 e)
  | inr e ↦ rw e (later (row_of name names) (row_of-FoundAt name names))
]
  where
    later :
        (o : Option ℕ)
        → FoundAt name names o
        → FoundAt name (n ∷ names) (elim o [ none ↦ none | some i ↦ some (suc i) ])
    later none h = tt
    later (some i) h = h

show_details-IsSelected :
    (facts : Facts) (m : Manager) → IsSelected m → IsSelected (show_details facts m)
unfolding show_details
show_details-IsSelected facts m s = elim (Bool-cases (m.selected == [])) [
  | inl e ↦ rw e s
  | inr e ↦ rw e s
]

select_row-IsSelected :
    (facts : Facts) (i : ℕ) (m : Manager)
    → name_at m.names i ≡ m.selected
    → IsSelected (select_row facts i m)
unfolding select_row on_selected
select_row-IsSelected facts i m h = elim (Bool-cases (facts.calls_back m.row i)) [
  | inl e ↦ rw e (
      show_details-IsSelected facts (record m { row = some i; selected = name_at m.names i })
        (inr (i, refl, refl)))
  | inr e ↦ rw e (inr (i, refl, h))
]

reselect-IsSelected :
    (facts : Facts) (o : Option ℕ) (m : Manager)
    → FoundAt m.selected m.names o
    → IsSelected (reselect facts o m)
reselect-IsSelected facts none m h =
    show_details-IsSelected facts (record m { selected = []; row = none }) (inl (refl, refl))
reselect-IsSelected facts (some i) m h = select_row-IsSelected facts i m h

-- After a reload the window has no profile selected and no row, or a profile that is listed and its row,
-- whatever was selected before and whether or not the list calls back.
pub reload-IsSelected :
    (facts : Facts) (names : List Bytes) (m : Manager) → IsSelected (reload facts names m)
unfolding reload
reload-IsSelected facts names m =
    let selected : Bytes = if m.selected == [] then facts.current else m.selected in
    reselect-IsSelected facts (row_of selected names)
      (record m { names = names; selected = selected }) (row_of-FoundAt selected names)
