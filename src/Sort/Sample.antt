-- ===== src/Sort/Sample.antt =====
-- Doubles, replies of `rand` and an array for tests of labs/lab2/user/sort.c.
use cse422_archive.Base.{ℕ, zero, suc, ◌+◌, ◌*◌, ◌%◌, ◌≡◌, true, false, arith, leb}
use cse422_archive.Machine.{Array}
use cse422_archive.Sort.Doubles.{Doubles}

-- Doubles that hold whole numbers alone.
pub whole-total : (a b : ℕ) → ◌≡◌ {A = ℕ} a a → ◌≡◌ {A = ℕ} b b → leb a b ≡ false → leb b a ≡ true
whole-total a b _ _ h = ground arith

abbrev pub whole : Doubles
whole = record { D = ℕ; of_unsigned = λ n. n; to_unsigned = λ n. n; le = leb; total = whole-total }

-- Replies of `rand` that go up and down.
abbrev pub dice : ℕ → ℕ
dice n = (n * 7 + 3) % 11

abbrev pub values : ℕ → ℕ
values zero = 5
values (suc zero) = 2
values (suc (suc zero)) = 9
values _ = 1

abbrev pub four : Array ℕ
four = record { size = 4; at = values }
