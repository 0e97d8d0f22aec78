-- ===== src/Ssh/Server.antt =====
-- sshServer of ssh.go: who is let in, the host key, and the exit code of a session. The login names are
-- what WhoIs and the status say; a new key's PEM text, or the error of making it, and the parser of
-- private keys are arguments.
pub mod Keys
use tswipoexp.Prelude.{
  ℕ, ◌≡◌, refl, sym, ap, ◌∙◌, ◌↔◌, ◌⊎◌, inl, inr, ◌≢◌, Bool, true, false, Bool-cases, not, ◌&&◌,
  Option, none, some, List, [], ◌∷◌, Bytes, codes, ◌==◌, nat_eq, list_eq, list_eqb, eq_iff,
  if◌then◌else◌, arith,
}
use tswipoexp.Program.{
  not_exist, io_error, Error, Result, ok, err, ◌>>=◌, ◌>>◌, pure, fail, attempt,
}
use tswipoexp.Disk.{Disk, M, inside}
use tswipoexp.Disk.Calls.{read_file, write_file_atomic}
use tswipoexp.Profiles.Config.{ssh_same_user, ssh_all_users}
use tswipoexp.Status.{Status, Self}

abbrev pub ssh_host_key_file : Bytes
ssh_host_key_file = codes "ssh_host_ed25519_key"

abbrev self_of : Option Self → (ℕ → Option Bytes) → Option Bytes
self_of none login_name = none
self_of (some self) login_name = login_name self.user_id

-- `selfID` of startSSH
unfoldable pub self_id : Option Status → Option Bytes
self_id none = none
self_id (some st) = self_of st.self st.login_name

abbrev same_login : Option Bytes → Bytes → Bool
same_login none peer = false
same_login (some self) peer = not (peer == []) && peer == self

abbrev pub login_or_empty : Option Bytes → Bytes
login_or_empty none = []
login_or_empty (some login) = login

-- The switch on the mode; the peer's UserProfile may be nil.
unfoldable pub allowed : Bytes → Option Bytes → Option Bytes → Bool
allowed mode self profile =
    if mode == ssh_all_users
    then true
    else if mode == ssh_same_user
    then same_login self (login_or_empty profile)
    else false

nothing : (codes "" == []) ≡ true
unfolding list_eqb
nothing = refl

some-injective : (a b : Bytes) → some a ≡ some b → a ≡ b
some-injective a b e = ap login_or_empty e

same_login_iff :
    (self profile : Option Bytes)
    → (same_login self (login_or_empty profile) ≡ true)
      ↔ ((login : Bytes) × (login ≢ []) × (profile ≡ some login) × (self ≡ some login))
same_login_iff none profile = (
  λ e. absurd (ground (arith, e)),
  λ (login, filled, is_peer, is_self). absurd (ground (arith, is_self)),
)
same_login_iff (some self) none = (
  λ e. absurd (ground (arith, e, nothing)),
  λ (login, filled, is_peer, is_self). absurd (ground (arith, is_peer)),
)
same_login_iff (some self) (some peer) = (
  λ e. (
    peer,
    λ empty. absurd (ground (arith, e, (eq_iff peer []).1 empty)),
    refl,
    ap some (sym ((eq_iff peer self).0 (ground (arith, e)))),
  ),
  λ (login, filled, is_peer, is_self).
      let same = some-injective peer login is_peer ∙ sym (some-injective self login is_self) in
      let not_empty : peer ≢ [] = λ e. filled (sym (some-injective peer login is_peer) ∙ e) in
      let other : (peer == []) ≡ false = ground (arith, eq_iff peer [], not_empty) in
      ground (arith, other, (eq_iff peer self).1 same),
)

-- A peer is let in exactly if the server is open to all users, or if it is open to the same user and the
-- peer has a login name that is not empty and is that of this node. In any other mode, off included,
-- nobody is let in.
pub allowed_iff :
    (mode : Bytes) (self profile : Option Bytes)
    → (allowed mode self profile ≡ true) ↔ (
        (mode ≡ ssh_all_users)
        ⊎ ((mode ≡ ssh_same_user)
            × (login : Bytes) × (login ≢ [])
            × (profile ≡ some login)
            × (self ≡ some login)))
unfolding allowed
allowed_iff mode self profile = elim (Bool-cases (mode == ssh_all_users)) [
  | inl all ↦ rw all (λ e. inl ((eq_iff mode ssh_all_users).0 all), λ h. refl)
  | inr some_mode ↦ elim (Bool-cases (mode == ssh_same_user)) [
    | inl same ↦
        rw (some_mode, same)
          (
            λ e.
                let (login, filled, is_peer, is_self) = (same_login_iff self profile).0 e in
                inr ((eq_iff mode ssh_same_user).0 same, login, filled, is_peer, is_self),
            λ h. elim h [
              | inl all ↦ absurd (ground (arith, some_mode, (eq_iff mode ssh_all_users).1 all))
              | inr (u, login, filled, is_peer, is_self) ↦
                  (same_login_iff self profile).1 (login, filled, is_peer, is_self)
            ],
          )
    | inr neither ↦
        rw (some_mode, neither)
          (
            λ e. absurd (ground (arith, e)),
            λ h. elim h [
              | inl all ↦ absurd (ground (arith, some_mode, (eq_iff mode ssh_all_users).1 all))
              | inr (user, login, filled, is_peer, is_self) ↦
                  absurd (ground (arith, neither, (eq_iff mode ssh_same_user).1 user))
            ],
          )
  ]
]

module _ (parse_key : Bytes → Option Bytes) where
  -- `generateHostKey`
  unfoldable pub generate_host_key : Result Bytes → Bytes → M Bytes
  generate_host_key fresh dir = do
    pem ← (λ d. (fresh, d))
    write_file_atomic (inside dir ssh_host_key_file) pem
    pure pem

  abbrev pub pem_of : Result Bytes → Bytes → Result Bytes → M Bytes
  pem_of fresh dir (ok b) = pure b
  pem_of fresh dir (err not_exist) = generate_host_key fresh dir
  pem_of fresh dir (err e) = fail e

  abbrev pub key_of : Option Bytes → M Bytes
  key_of none = fail io_error
  key_of (some k) = pure k

  -- What `hostKeyOnce` does
  unfoldable pub load_host_key : Result Bytes → Bytes → M Bytes
  unfolding generate_host_key
  load_host_key fresh dir = do
    found ← attempt (read_file (inside dir ssh_host_key_file))
    pem ← pem_of fresh dir found
    key_of (parse_key pem)

  abbrev once_known : Result Bytes → Bytes → Option (Result Bytes) → M Bytes
  once_known fresh dir (some r) d = (r, d)
  once_known fresh dir none d = load_host_key fresh dir d

  -- `getHostKey`, with the result that the server remembers
  unfoldable pub get_host_key :
      Result Bytes → Bytes → Option (Result Bytes) → Disk → Option (Result Bytes) × Disk
  get_host_key fresh dir once d = let (r, e) = once_known fresh dir once d in (some r, e)

  -- What becomes of a connection: closed, or served with a host key.
  pub data Outcome : Type 0 where
    closed : Outcome
    served : Bytes → Outcome

  abbrev served_with : Option (Result Bytes) → Outcome
  served_with (some (ok k)) = served k
  served_with (some (err e)) = closed
  served_with none = closed

  abbrev admit :
      Bool
      → Result Bytes
      → Bytes
      → Option (Result Bytes)
      → Disk
      → Outcome × Option (Result Bytes) × Disk
  admit false fresh dir once d = (closed, once, d)
  admit true fresh dir once d =
      let (once', e) = get_host_key fresh dir once d in (served_with once', once', e)

  -- `handleConn`; `who` is what WhoIs says, none for an error.
  unfoldable pub handle_conn :
      Option (Option Bytes)
      → Bytes
      → Option Bytes
      → Result Bytes
      → Bytes
      → Option (Result Bytes)
      → Disk
      → Outcome × Option (Result Bytes) × Disk
  unfolding allowed get_host_key
  handle_conn none mode self fresh dir once d = (closed, once, d)
  handle_conn (some profile) mode self fresh dir once d =
      admit (allowed mode self profile) fresh dir once d

-- The error of cmd.Wait: none, that of an exit with a code, or another one.
pub data WaitError : Type 0 where
  no_error other_error : WaitError
  exit_error : ℕ → WaitError

unfoldable pub exit_code : WaitError → ℕ
exit_code no_error = 0
exit_code other_error = 1
exit_code (exit_error code) = code
