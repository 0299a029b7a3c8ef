-- ===== src/Base/Totals.antt =====
-- Sums of a weight over the first places of a function.
use Prim.Native.Nat.{ℕ, zero, suc, ◌+◌, ◌*◌, ◌≤◌, ◌<◌}
use mathlib.Core.Path.{◌≡◌, refl}
use native.Mathlib.Omega.{arith}
use native.Mathlib.Decide.{dec_lt}
use cse422_archive.Base.Predicates.{update}

module _ {D : Type 0} where
  -- The sum of a weight over the first `n` elements.
  pub total : (D → ℕ) → ℕ → (ℕ → D) → ℕ
  total w zero f = 0
  total w (suc n) f = total w n f + w (f n)

  total-update_above :
      (w : D → ℕ) (n : ℕ) (f : ℕ → D) (i : ℕ) (v : D)
      → n ≤ i
      → total w n (update f i v) ≡ total w n f
  unfolding total
  total-update_above w zero f i v h = refl
  total-update_above w (suc n) f i v h = ground (arith, total-update_above w n f i v)

  pub total-update :
      (w : D → ℕ) (n : ℕ) (f : ℕ → D) (i : ℕ) (v : D)
      → i < n
      → total w n (update f i v) + w (f i) ≡ total w n f + w v
  unfolding total
  total-update w zero f i v h = absurd (omega arith)
  total-update w (suc n) f i v h = elim (dec_lt i n) [
    | yes below ↦ ground (arith, total-update w n f i v below)
    | no last ↦ ground (arith, total-update_above w n f i v)
  ]

  pub total-const : (w : D → ℕ) (n : ℕ) (a : D) → total w n (λ _. a) ≡ n * w a
  unfolding total
  total-const w zero a = omega arith
  total-const w (suc n) a = grind (arith, total-const w n a)
