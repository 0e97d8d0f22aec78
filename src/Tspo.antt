-- ===== src/Tspo.antt =====
-- cmd/tspo: hasSocketFlag and the arguments that main gives the tailscale CLI. The socket of
-- localAPISocket is an argument.
mod Flag
mod Tests
use tswipoexp.Prelude.{
  ℕ, ◌≡◌, Bool, true, false, ◌&&◌, ◌||◌, List, [], ◌∷◌, ◌++◌, Bytes, codes, length, take, ltb, ◌==◌,
  nat_eq, list_eq, if◌then◌else◌,
}

-- The condition in the loop of `hasSocketFlag`
unfoldable pub is_socket_flag : Bytes → Bool
is_socket_flag a =
    a == codes "--socket"
    || a == codes "-socket"
    || (ltb 9 (length a) && (take 9 a == codes "--socket=" || take 8 a == codes "-socket="))

unfoldable pub has_socket_flag : List Bytes → Bool
has_socket_flag [] = false
has_socket_flag (a ∷ args) = is_socket_flag a || has_socket_flag args

-- The arguments that `main` runs the CLI with
unfoldable pub cli_args : Bytes → List Bytes → List Bytes
cli_args socket args = if has_socket_flag args then args else (codes "--socket=" ++ socket) ∷ args
