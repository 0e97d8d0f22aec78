-- ===== src/Proxy/Undo/Variables.antt =====
-- The environment that a restore writes is the one that was captured.
use tswipoexp.Prelude.{
  ◌≡◌, refl, sym, ap, ◌∙◌, inl, inr, true, false, Bool-cases, Option, none, some, [], ◌∷◌, Bytes,
  codes, ◌==◌, nat_eq, list_eq, list_eqb, eq_comm, eq_iff, All, if◌then◌else◌,
}
use tswipoexp.Disk.Calls.{contains}
use tswipoexp.Proxy.Settings.{proxy_env_vars}
use tswipoexp.Proxy.Session.{Env, overlay, blank_env, env_put}
use tswipoexp.Proxy.Undo.{entry, entries}

abbrev pub AreProxyVars : Env → Type 0
AreProxyVars = All (λ e. contains proxy_env_vars e.0 ≡ true)

-- An empty variable and one that is not there look the same to a program.
abbrev pub shown : Option Bytes → Bytes
shown none = []
shown (some v) = v

-- The variables after `set_variables`
abbrev pub applied : Env → (Bytes → Option Bytes) → Bytes → Option Bytes
applied [] vars n = vars n
applied ((name, v) ∷ rest) vars n =
    applied rest (λ m. if m == name then (if v == [] then none else some v) else vars m) n

shown-put : (v : Bytes) → shown (if v == [] then none else some v) ≡ v
unfolding list_eqb
shown-put [] = refl
shown-put (c ∷ cs) = refl

abbrev three : Option Bytes → Option Bytes → Option Bytes → Env
three a b c =
    (codes "HTTP_PROXY", shown a)
    ∷ (codes "HTTPS_PROXY", shown b)
    ∷ (codes "NO_PROXY", shown c)
    ∷ []

overlay-entries :
    (a b c : Option Bytes)
    → overlay
        (entry
          (codes "HTTP_PROXY")
          a
          (entry (codes "HTTPS_PROXY") b (entry (codes "NO_PROXY") c [])))
        (blank_env proxy_env_vars)
      ≡ three a b c
unfolding overlay blank_env env_put list_eqb
overlay-entries none none none = refl
overlay-entries none none (some c) = refl
overlay-entries none (some b) none = refl
overlay-entries none (some b) (some c) = refl
overlay-entries (some a) none none = refl
overlay-entries (some a) none (some c) = refl
overlay-entries (some a) (some b) none = refl
overlay-entries (some a) (some b) (some c) = refl

module _ (g f : Bytes → Option Bytes) where
  applied-three :
      ((n : Bytes) → contains proxy_env_vars n ≡ false → f n ≡ g n)
      → (n : Bytes)
      → shown (
          applied
            (three (g (codes "HTTP_PROXY")) (g (codes "HTTPS_PROXY")) (g (codes "NO_PROXY")))
            f
            n)
        ≡ shown (g n)
  unfolding contains
  applied-three out n = elim (Bool-cases (n == codes "NO_PROXY")) [
    | inl e ↦
        rw e (
          shown-put (shown (g (codes "NO_PROXY"))) ∙ ap (λ m. shown (g m)) (sym ((eq_iff n _).0 e)))
    | inr e ↦ elim (Bool-cases (n == codes "HTTPS_PROXY")) [
      | inl e' ↦
          rw (e, e')
            (shown-put (shown (g (codes "HTTPS_PROXY")))
              ∙ ap (λ m. shown (g m)) (sym ((eq_iff n _).0 e')))
      | inr e' ↦ elim (Bool-cases (n == codes "HTTP_PROXY")) [
        | inl e'' ↦
            rw (e, e', e'')
              (shown-put (shown (g (codes "HTTP_PROXY")))
                ∙ ap (λ m. shown (g m)) (sym ((eq_iff n _).0 e'')))
        | inr e'' ↦
            rw (e, e', e'')
              (ap shown (out n (rw (eq_comm _ n, e'', eq_comm _ n, e', eq_comm _ n, e) refl)))
      ]
    ]
  ]

  pub applied-overlay :
      ((n : Bytes) → contains proxy_env_vars n ≡ false → f n ≡ g n)
      → (n : Bytes)
      → shown (applied (overlay (entries proxy_env_vars g) (blank_env proxy_env_vars)) f n)
        ≡ shown (g n)
  unfolding entries
  applied-overlay out n =
      ap (λ env. shown (applied env f n)) (overlay-entries _ _ _) ∙ applied-three out n

pub overlay-AreProxyVars :
    (g : Bytes → Option Bytes)
    → AreProxyVars (overlay (entries proxy_env_vars g) (blank_env proxy_env_vars))
unfolding entries contains list_eqb
overlay-AreProxyVars g =
    rw (overlay-entries (g (codes "HTTP_PROXY")) (g (codes "HTTPS_PROXY")) (g (codes "NO_PROXY")))
      (refl, (refl, (refl, tt)))
