-- ===== src/Sort/Doubles.antt =====
-- What labs/lab2/user/sort.c computes with: doubles and their conversions.
use cse422_archive.Base.{ℕ, ◌≡◌, Bool, true, false}

-- `double`, its conversions from and to `unsigned`, and `<=`. Two exact values, those that a trip
-- through `unsigned` gives back, are comparable.
pub record Doubles : Type 1 where
  pub D : Type 0
  pub of_unsigned : ℕ → D
  pub to_unsigned : D → ℕ
  pub le : D → D → Bool
  pub total :
      (a b : D)
      → of_unsigned (to_unsigned a) ≡ a
      → of_unsigned (to_unsigned b) ≡ b
      → le a b ≡ false
      → le b a ≡ true
