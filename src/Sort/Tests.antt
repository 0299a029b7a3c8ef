-- ===== src/Sort/Tests.antt =====
-- labs/lab2/user/sort.c on a small array, and the theorems at inputs that meet their hypotheses.
use cse422_archive.Base.{ℕ, ◌<◌, ◌≡◌, refl, true, some, List, [], ◌∷◌, arith}
use cse422_archive.Machine.{read, write, Done, Outcome, done, fault, Array}
use cse422_archive.Sort.Program.{swap, partition_loop, partition, quicksort}
use cse422_archive.Sort.Sample.{whole, dice, four}
use cse422_archive.Sort.Pivot.{partition-Partitioned, Partitioned}
use cse422_archive.Sort.Malloc.{malloc_main, Passed, malloc_main-by_room}
use cse422_archive.Sort.Order.{quicksort-Sorted, Sorted}

listed : Outcome (Array ℕ × ℕ) → List ℕ
listed (done (A, _)) = A.at 0 ∷ A.at 1 ∷ A.at 2 ∷ A.at 3 ∷ []
listed _ = []

sorts_four : listed (quicksort whole dice 4 four 0 0 3) ≡ 1 ∷ 2 ∷ 5 ∷ 9 ∷ []
unfolding listed quicksort partition partition_loop swap read write
sorts_four = refl

quicksort-Sorted_example :
    Done (λ x. Sorted whole dice 0 3 four x.0) (quicksort whole dice 4 four 0 0 3)
quicksort-Sorted_example =
    quicksort-Sorted whole dice 4 four 0 0 3 (omega arith) (omega arith) (omega arith)
      (λ i a b. refl)

partition-Partitioned_example :
    Done (λ x. Partitioned whole dice 0 3 four x.0 x.2) (partition whole dice four 0 0 3)
partition-Partitioned_example =
    partition-Partitioned whole dice 0 3 (omega arith) (omega arith) four 0 (omega arith)
      (λ i a b. refl)

malloc_main-by_room_example :
    (3 < four.size → Done (Passed whole dice 3) (malloc_main whole dice 4 2 3 true (some four)))
    × (four.size ≡ 3 → malloc_main whole dice 4 2 3 true (some four) ≡ fault)
malloc_main-by_room_example =
    malloc_main-by_room whole dice 3 3 true four (omega arith) (omega arith) (omega arith)
      (λ c. refl) refl
