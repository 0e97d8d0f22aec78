-- ===== src/Proxy/Undo/Writing.antt =====
-- What a restore writes when the calls go through.
use tswipoexp.Prelude.{
  ◌≡◌, refl, ap, true, false, Option, none, some, [], ◌∷◌, Bytes, arith, ◌==◌, nat_eq, list_eq,
  if◌then◌else◌,
}
use tswipoexp.Program.{Result, ok, err, Fate}
use tswipoexp.Program.Sealed.{syscall}
use tswipoexp.Program.Triple.{Ensures, >>=-Ensures, syscall-Ensures, give-Ensures, weaken, Anything}
use tswipoexp.Proxy.Settings.{proxy_env_vars}
use tswipoexp.Proxy.Session.{
  SavedProxySettings, Session, Connection, Env, set_per_conn_proxy, default_flags, set_variables,
  set_variable, set_user_env, other_call, restore, overlay, blank_env,
}
use tswipoexp.Proxy.Undo.{AllWork, IsPlain, connection_of}
use tswipoexp.Proxy.Undo.Variables.{shown, applied}

abbrev pub IsOk {ℓ} : {A : Type ℓ} → Result A → Type 0
IsOk (ok a) = Unit
IsOk (err e) = true ≡ false

-- The settings that a restore writes back for `c`
abbrev pub normal : Connection → Connection
normal c = record c { flags = default_flags c.flags }

abbrev pub Restored : Session → Session → Type 0
Restored o t =
    (t.connection ≡ normal o.connection)
    × ((n : Bytes) → shown (t.variables n) ≡ shown (o.variables n))

-- Nothing of the registration is left.
abbrev pub Cleaned : Session → Type 0
Cleaned t =
    (t.restore_json ≡ none) × (t.run_once ≡ none) × (t.restore_cmd ≡ none) × (t.restore_reg ≡ none)

module _ (W : Fate → Type 0) (all : AllWork W) where
  -- A call that changes what `op` says, and goes through
  pub goes {ℓ} :
      {A : Type ℓ} {R P : Session → Type 0} {Q : Result A → Session → Type 0}
      (op : Session → Result A × Session)
      → ((t : Session) → P t → R t × Q (op t).0 (op t).1)
      → Ensures W R P (syscall op) Q
  goes op h = syscall-Ensures op h (λ t junk p w. absurd (ground (arith, all junk w)))

  set_variables-applied :
      (vars : Env) (f : Bytes → Option Bytes) (c : Connection)
      → Ensures W Anything
          (λ t. (t.connection ≡ c) × (t.variables ≡ f))
          (set_variables vars)
          (λ r t. IsOk r × (t.connection ≡ c) × (t.variables ≡ (λ n. applied vars f n)))
  unfolding set_variables set_variable
  set_variables-applied [] f c = give-Ensures _ (λ t (h, h'). (tt, h, h'))
  set_variables-applied ((name, v) ∷ rest) f c =
      >>=-Ensures {Q = λ r t. IsOk r × (t.connection ≡ c) × (t.variables ≡ put f)}
        (goes _ (λ t (h, h'). (tt, (tt, h, ap put h'))))
        (λ u. weaken (λ t (k, h, h'). (h, h')) (λ r t q. q) (set_variables-applied rest (put f) c))
        (λ e t (never, h, h'). absurd (ground (arith, never)))
    where
      put : (Bytes → Option Bytes) → Bytes → Option Bytes
      put vars m = if m == name then (if v == [] then none else some v) else vars m

  set_per_conn_proxy-sets :
      (c : Connection) (f : Bytes → Option Bytes)
      → IsPlain c
      → Ensures W Anything
          (λ t. t.variables ≡ f)
          (set_per_conn_proxy c)
          (λ r t. IsOk r × (t.connection ≡ c) × (t.variables ≡ f))
  unfolding set_per_conn_proxy
  set_per_conn_proxy-sets c f plain = rw plain (goes _ (λ t h. (tt, (tt, refl, h))))

  set_user_env-applied :
      (vars : Env) (f : Bytes → Option Bytes) (c : Connection)
      → Ensures W Anything
          (λ t. (t.connection ≡ c) × (t.variables ≡ f))
          (set_user_env vars)
          (λ r t. IsOk r × (t.connection ≡ c) × (t.variables ≡ (λ n. applied vars f n)))
  unfolding set_user_env other_call
  set_user_env-applied vars f c =
      >>=-Ensures {Q = λ r t. IsOk r × (t.connection ≡ c) × (t.variables ≡ f)}
        (goes _ (λ t (h, h'). (tt, (tt, h, h'))))
        (λ u. weaken (λ t (k, h, h'). (h, h')) (λ r t q. q) (set_variables-applied vars f c))
        (λ e t (never, h, h'). absurd (ground (arith, never)))

  pub restore-applied :
      (s : SavedProxySettings) (f : Bytes → Option Bytes)
      → IsPlain (connection_of s)
      → Ensures W Anything
          (λ t. t.variables ≡ f)
          (restore s)
          (λ r t.
            IsOk r
            × (t.connection ≡ normal (connection_of s))
            × (t.variables ≡ (λ n. applied (overlay s.env (blank_env proxy_env_vars)) f n)))
  unfolding restore
  restore-applied s f plain =
      >>=-Ensures (set_per_conn_proxy-sets _ f plain)
        (λ u.
          weaken (λ t (k, h, h'). (h, h')) (λ r t q. q)
            (set_user_env-applied _ f (normal (connection_of s))))
        (λ e t (never, h, h'). absurd (ground (arith, never)))
