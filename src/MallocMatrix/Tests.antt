-- ===== src/MallocMatrix/Tests.antt =====
-- The matrix programs of user_space/test_programs on matrices of size 2, over natural numbers.
use cse422_archive.Base.{ℕ, ◌+◌, ◌%◌, ◌^◌, ◌≡◌, refl, some, [], ◌∷◌, arith, ◌==◌, All, pos, negsuc}
use cse422_archive.MallocMatrix.Program.{generate, main}
use cse422_archive.MallocMatrix.Generated.{RandomProduct}
use cse422_archive.MallocMatrix.Columns.{rows_within, columns_first}
use cse422_archive.MallocMatrix.Statistics.{less, record_run, record_runs, Stats}
use cse422_archive.MallocMatrix.Extremes.{Within, Has, total, record_runs-extremes}
use cse422_archive.MallocMatrix.Timed.{parallel_main, time_loop}
use cse422_archive.MallocMatrix.Checked.{
  assert_same, verify_product, generate_four, parallel_checked, timed_checked, aborted, passed,
}
use cse422_archive.MallocMatrix.Verdicts.{repeated_entry, Compares, timed_checked-passed}
use cse422_archive.MallocMatrix.Repeated.{same_product}
use cse422_archive.MallocMatrix.Sample.{naturals}
use cse422_archive.Machine.{read, write, Done, Outcome, done, Array}
use cse422_archive.Matrix.Program.{index_loop, col_loop, row_loop, Ending, multiplied}

abbrev counting : ℕ → ℕ
counting n = n + 1

abbrev room : Array ℕ
room = record { size = 4; at = λ _. 7 }

abbrev entry_of : Ending ℕ → ℕ → ℕ
entry_of (multiplied E) i = E.at i
entry_of _ i = 0

-- The rows 1 3 and 5 7 times the rows 2 4 and 6 8: the first entry is 1 * 2 + 3 * 6.
abbrev first_entry : Outcome (Ending ℕ) → ℕ
first_entry (done e) = entry_of e 0
first_entry _ = 0

two_by_two :
    (first_entry (main naturals counting 2 2 (some room) (some room) (some room)) ≡ 20)
    × (first_entry (parallel_main naturals counting 2 2 (some room) (some room) (some room)) ≡ 20)
unfolding main parallel_main generate columns_first rows_within row_loop col_loop index_loop read
    write
two_by_two = (refl, refl)

bounds_of_runs :
    record_runs 0
      (pos 5 ∷ negsuc 2 ∷ pos 3 ∷ [])
      (record { max_ns = pos 9; min_ns = pos 9; sum_ns = 0 })
    ≡ record { max_ns = pos 5; min_ns = negsuc 2; sum_ns = 5 }
unfolding record_runs record_run less
bounds_of_runs = refl

same_product_example :
    Done
      (RandomProduct naturals counting 2)
      (main naturals counting 2 2 (some room) (some room) (some room))
    × Done
        (RandomProduct naturals counting 2)
        (parallel_main naturals counting 2 2 (some room) (some room) (some room))
same_product_example =
    same_product naturals counting counting 2 room room room (omega arith) (omega arith)
      (omega arith) (omega arith)

abbrev unset : Stats
unset = record { max_ns = pos 9; min_ns = pos 9; sum_ns = 0 }

record_runs-extremes_example :
    All (Within (record_runs 0 (pos 5 ∷ negsuc 2 ∷ []) unset)) (pos 5 ∷ negsuc 2 ∷ [])
    × Has (record_runs 0 (pos 5 ∷ negsuc 2 ∷ []) unset).max_ns (pos 5 ∷ negsuc 2 ∷ [])
    × Has (record_runs 0 (pos 5 ∷ negsuc 2 ∷ []) unset).min_ns (pos 5 ∷ negsuc 2 ∷ [])
    × ((record_runs 0 (pos 5 ∷ negsuc 2 ∷ []) unset).sum_ns
        ≡ total (pos 5 ∷ negsuc 2 ∷ []) % 2 ^ 64)
record_runs-extremes_example = record_runs-extremes (pos 5) (negsuc 2 ∷ []) unset refl

-- The comparison of VERIFY_PARALLEL, on natural numbers: one run passes, two add up to the double.
one_run_passes :
    parallel_checked naturals ◌==◌ counting 2 2 (some room) (some room) (some room) (some room)
    ≡ done passed
unfolding parallel_checked generate_four columns_first rows_within index_loop verify_product
    assert_same read write
one_run_passes = refl

two_runs_abort :
    timed_checked naturals ◌==◌ counting counting 3 2
      (pos 2)
      unset
      (some room)
      (some room)
      (some room)
      (some room)
    ≡ done aborted
unfolding timed_checked time_loop record_run less generate_four columns_first rows_within index_loop
    verify_product assert_same read write
two_runs_abort = refl

timed_checked-passed_example :
    Done (Compares naturals ◌==◌ counting 2 (repeated_entry naturals ◌==◌ counting counting 2 2)) (
      timed_checked naturals ◌==◌ counting counting 3 2
        (pos 2)
        unset
        (some room)
        (some room)
        (some room)
        (some room))
timed_checked-passed_example =
    timed_checked-passed naturals ◌==◌ counting 2 room room room room (omega arith) (omega arith)
      (omega arith) (omega arith) (omega arith) counting 2 unset (omega arith) (omega arith)
