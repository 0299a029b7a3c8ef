-- ===== src/ArrSearch/Tests.antt =====
-- user_space/test_programs/arr_search.c over numbers, and the theorem at an input.
use cse422_archive.Base.{
  ℕ, zero, suc, ◌+◌, ◌-◌, ◌≤◌, ◌≡◌, refl, ◌≢◌, Option, none, some, arith, pos, negsuc,
}
use cse422_archive.Machine.{Done, done, Array}
use cse422_archive.ArrSearch.Program.{iterations_loop, main, usage, not_positive, Library}
use mathlib.Core.Path.{subst}
use cse422_archive.ArrSearch.Rounds.{Ended, main-Ended}

-- Floats as numbers; the search finds nothing.
abbrev numbers : Library
numbers = record {
  D = ℕ;
  zero_bytes = 0;
  sqrt = λ i. i;
  difference = λ x y. pos (x - y);
  bsearch = λ key values size compare. none;
}

abbrev block : ℕ → Array ℕ
block i = record { size = 512; at = λ _. i + 7 }

abbrev two_blocks : ℕ → Option (Array ℕ)
two_blocks zero = some (block 0)
two_blocks (suc zero) = some (block 1)
two_blocks (suc (suc i)) = none

some-injective : {x y : Array ℕ} → some x ≡ some y → x ≡ y
some-injective e = cc

some-ne : {x : Array ℕ} → none ≢ some x
some-ne e = cc

two_blocks-size : (i : ℕ) (values : Array ℕ) → two_blocks i ≡ some values → 512 ≤ values.size
two_blocks-size zero values e = subst (λ v. 512 ≤ v.size) (some-injective e) (omega arith)
two_blocks-size (suc zero) values e = subst (λ v. 512 ≤ v.size) (some-injective e) (omega arith)
two_blocks-size (suc (suc i)) values e = absurd (some-ne e)

no_number : main numbers two_blocks 1 (pos 3) ≡ done usage
unfolding main
no_number = refl

not_a_count : main numbers two_blocks 2 (negsuc 0) ≡ done not_positive
unfolding main iterations_loop
not_a_count = refl

main-Ended_example : Done (Ended numbers two_blocks 3) (main numbers two_blocks 2 (pos 3))
main-Ended_example = main-Ended numbers two_blocks two_blocks-size 2 3 (omega arith) (omega arith)
