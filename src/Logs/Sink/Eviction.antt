-- ===== src/Logs/Sink/Eviction.antt =====
-- The eviction loop of `Write`, logsink.go.
use Prim.Native.Nat.{zero}
use tswipoexp.Prelude.{
  ℕ, suc, ◌+◌, ◌-◌, ◌%◌, ◌≤◌, ◌<◌, ◌≡◌, refl, ◌⊎◌, inl, inr, List, [], ◌∷◌, ◌++◌, Bytes, length,
  drop, arith, ltb, Bool-cases,
}
use tswipoexp.Logs.Sink.{Buffer, evict, log_buffer_max, u64_mod}

abbrev pub total : List Bytes → ℕ
total [] = 0
total (l ∷ ls) = length l + total ls

pub total-append : (xs ys : List Bytes) → total (xs ++ ys) ≡ total xs + total ys
total-append [] ys = omega arith
total-append (x ∷ xs) ys = omega (arith, total-append xs ys)

-- `r` is what is left of `ls` when the fewest lines that will do are dropped from the front.
pub record IsEviction (ls : List Bytes) (f : ℕ) (r : Buffer) : Type 0 where
  pub count : ℕ
  pub lines_eq : r.lines ≡ drop count ls
  pub first_eq : r.first ≡ f + count
  pub bytes_eq : r.bytes ≡ total r.lines
  pub fits : (r.bytes ≤ log_buffer_max) ⊎ (length r.lines ≤ 1)
  pub leaves : (ls ≡ []) ⊎ (count < length ls)
  pub fewest : (k : ℕ) → k < count → log_buffer_max < total (drop k ls)

kept_all :
    (ls : List Bytes) (f : ℕ)
    → (total ls ≤ log_buffer_max) ⊎ (length ls ≤ 1)
    → (ls ≡ []) ⊎ (0 < length ls)
    → IsEviction ls f (record { lines = ls; bytes = total ls; first = f })
kept_all ls f h n = record {
  count = 0;
  lines_eq = refl;
  first_eq = omega arith;
  bytes_eq = refl;
  fits = h;
  leaves = n;
  fewest = λ k lt. absurd (omega arith);
}

dropped_one :
    (l m : Bytes) (ls : List Bytes) (f g : ℕ) (r : Buffer)
    → log_buffer_max < total (l ∷ m ∷ ls)
    → g ≡ f + 1
    → IsEviction (m ∷ ls) g r
    → IsEviction (l ∷ m ∷ ls) f r
dropped_one l m ls f g r over next e = record {
  count = suc e.count;
  lines_eq = e.lines_eq;
  first_eq = omega (arith, e.first_eq);
  bytes_eq = e.bytes_eq;
  fits = e.fits;
  leaves = inr (ground (arith, e.leaves));
  fewest = earlier;
}
  where
    earlier : (k : ℕ) → k < suc e.count → log_buffer_max < total (drop k (l ∷ m ∷ ls))
    earlier zero h = over
    earlier (suc k) h = e.fewest k (omega arith)

pub evict-IsEviction :
    (ls : List Bytes) (b f : ℕ)
    → b ≡ total ls
    → f + length ls < u64_mod
    → IsEviction ls f (evict ls b f)
unfolding evict
evict-IsEviction [] b f e h = rw e (kept_all [] f (inr (omega arith)) (inl refl))
evict-IsEviction (l ∷ []) b f e h =
    rw e (kept_all (l ∷ []) f (inr (omega arith)) (inr (omega arith)))
evict-IsEviction (l ∷ m ∷ ls) b f e h = elim (Bool-cases (ltb log_buffer_max b)) [
  | inl over ↦ rw over (
      dropped_one l m ls f ((f + 1) % u64_mod) _ (ground arith) (omega arith)
        (evict-IsEviction (m ∷ ls) (b - length l) ((f + 1) % u64_mod) (omega arith) (omega arith)))
  | inr under ↦ rw (under, e) (kept_all (l ∷ m ∷ ls) f (inl (ground arith)) (inr (omega arith)))
]
