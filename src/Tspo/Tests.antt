-- ===== src/Tspo/Tests.antt =====
-- Runs of the flag of cmd/tspo.
use tswipoexp.Prelude.{
  ℕ, ◌≡◌, refl, ◌↔◌, true, false, some, List, [], ◌∷◌, Bytes, codes, get_elem?, list_eqb,
}
use tswipoexp.Tspo.{is_socket_flag, has_socket_flag}
use tswipoexp.Tspo.Flag.{IsSocketFlag, has_socket_flag_iff}

abbrev command : List Bytes
command = codes "status" ∷ codes "-socket=s" ∷ []

-- A value of one byte after one dash is not seen.
single : has_socket_flag command ≡ false
unfolding has_socket_flag is_socket_flag list_eqb
single = refl

has_socket_flag_iff_example :
    (has_socket_flag command ≡ true)
    ↔ ((i : ℕ) × (a : Bytes) × (get_elem? command i ≡ some a) × IsSocketFlag a)
has_socket_flag_iff_example = has_socket_flag_iff command
