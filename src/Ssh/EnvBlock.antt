-- ===== src/Ssh/EnvBlock.antt =====
-- acceptEnvPair of ssh.go and envBlock of ssh_windows.go. The conversion of a string without NUL to
-- UTF-16, with its end, is an argument.
pub mod Distinct
use tswipoexp.Prelude.{
  ℕ, zero, suc, ◌+◌, ◌≡◌, refl, sym, ap, ◌∙◌, inl, inr, Bool, true, false, Bool-cases, ◌||◌, Option,
  none, some, Option-cases, List, [], ◌∷◌, ◌++◌, map, Bytes, codes, length, ◌==◌, nat_eq, list_eq,
  eq_iff, eq_refl, if◌then◌else◌, cut, to_upper, has_prefix, contains_byte, arith,
}

unfoldable pub accept_key : Bytes → Bool
accept_key k = k == codes "TERM" || k == codes "LANG" || has_prefix k (codes "LC_")

abbrev pub accept_cut : Option (Bytes × Bytes) → Bool
accept_cut none = false
accept_cut (some (k, v)) = accept_key k

unfoldable pub accept_env_pair : Bytes → Bool
accept_env_pair kv = accept_cut (cut 61 kv)

-- The variables `seen` and `list`
pub record Table : Type 0 where
  pub seen : List (Bytes × ℕ)
  pub list : List Bytes

unfoldable pub index_of : Bytes → List (Bytes × ℕ) → Option ℕ
index_of k [] = none
index_of k ((m, i) ∷ rest) = if m == k then some i else index_of k rest

unfoldable pub set_at : ℕ → Bytes → List Bytes → List Bytes
set_at n kv [] = []
set_at zero kv (x ∷ xs) = kv ∷ xs
set_at (suc n) kv (x ∷ xs) = x ∷ set_at n kv xs

abbrev pub enter : Bytes → Bytes → Option ℕ → Table → Table
enter k kv (some i) t = record t { list = set_at i kv t.list }
enter k kv none t = record {
  seen = t.seen ++ ((k, length t.list) ∷ []);
  list = t.list ++ (kv ∷ []);
}

abbrev pub add_cut : Bytes → Option (Bytes × Bytes) → Table → Table
add_cut kv none t = t
add_cut kv (some (k, v)) t = enter (to_upper k) kv (index_of (to_upper k) t.seen) t

unfoldable pub add_pairs : List Bytes → Table → Table
add_pairs [] t = t
add_pairs (kv ∷ kvs) t = add_pairs kvs (add_cut kv (cut 61 kv) t)

unfoldable pub distinct_pairs : List Bytes → List Bytes
distinct_pairs env = (add_pairs env (record { seen = []; list = [] })).list

unfoldable pub block_of : (Bytes → List ℕ) → List Bytes → Option (List ℕ)
block_of utf16 [] = some (0 ∷ [])
block_of utf16 (kv ∷ kvs) = elim (block_of utf16 kvs) [
  | none ↦ none
  | some rest ↦ if contains_byte kv 0 then none else some (utf16 kv ++ rest)
]

unfoldable pub env_block : (Bytes → List ℕ) → List Bytes → Option (List ℕ)
env_block utf16 env = block_of utf16 (distinct_pairs env)
