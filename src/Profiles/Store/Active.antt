-- ===== src/Profiles/Store/Active.antt =====
-- Profiles.Active of profiles.go.
use tswipoexp.Prelude.{
  ◌≡◌, ◌≢◌, refl, true, false, List, [], ◌∷◌, Bytes, nat_eq, list_eq, eq_refl, trim_space,
  Bool-cases, arith, inl, inr,
}
use tswipoexp.Program.{Result, ok, err}
use tswipoexp.Disk.{Disk, root}
use tswipoexp.Disk.Calls.{contains, read_file}
use tswipoexp.Profiles.Names.{active_profile_file}
use tswipoexp.Profiles.Store.{list_profiles, choose, active}
use tswipoexp.Profiles.Store.Listing.{list_profiles-eq-ok}

-- The profile that the active file's outcome picks from the names: the one named there, or the
-- first.
pub record Picks (names : List Bytes) (read : Result Bytes) (name : Bytes) : Type 0 where
  pub listed : contains names name ≡ true
  pub named : (b : Bytes) → read ≡ ok b → contains names (trim_space b) ≡ true → name ≡ trim_space b
  pub first :
      ((b : Bytes) → read ≡ ok b → contains names (trim_space b) ≡ false)
      → (rest : List Bytes) × (names ≡ name ∷ rest)

contains_head : (n : Bytes) (ns : List Bytes) → contains (n ∷ ns) n ≡ true
unfolding contains
contains_head n ns = ground (arith, eq_refl n)

choose-Picks :
    (names : List Bytes) (read : Result Bytes) (d : Disk)
    → names ≢ []
    → (name : Bytes) × (choose names read d ≡ (ok name, d)) × Picks names read name
choose-Picks [] read d h = absurd (h refl)
choose-Picks (n ∷ ns) (err e) d h =
    (n, refl, record { listed = contains_head n ns; named = λ b q. cc; first = λ _. (ns, refl) })
choose-Picks (n ∷ ns) (ok b) d h = elim (Bool-cases (contains (n ∷ ns) (trim_space b))) [
  | inl there ↦ (
    trim_space b,
    rw there,
    record { listed = there; named = λ c q _. cc; first = λ no_one. let q = no_one b refl in cc },
  )
  | inr absent ↦ (
    n,
    rw absent,
    record { listed = contains_head n ns; named = λ c q there. cc; first = λ _. (ns, refl) },
  )
]

-- `Active` fails only if `List` does. It returns the listed profile that the file names, or the
-- first one when the file cannot be read or names none of them.
pub active-Picks :
    (d : Disk) {names : List Bytes} {e : Disk}
    → list_profiles d ≡ (ok names, e)
    → (name : Bytes) × (active d ≡ (ok name, (read_file (root active_profile_file) e).1))
      × Picks names (read_file (root active_profile_file) e).0 name
unfolding active
active-Picks d {names} {e} h =
    let f = read_file (root active_profile_file) e in
    let (name, chosen, picks) = choose-Picks names f.0 f.1 (list_profiles-eq-ok d h).0 in
    (name, rw h chosen, picks)
