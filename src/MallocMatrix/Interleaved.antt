-- ===== src/MallocMatrix/Interleaved.antt =====
-- Two threads in turn in the parallel loop of user_space/test_programs/parallel_dense_mm.c, over
-- natural numbers.
use cse422_archive.MallocMatrix.Team.{Team, Step, load, store, next_row, Reach, start, later}
use cse422_archive.MallocMatrix.Columns.{columns_first}
use cse422_archive.MallocMatrix.Schedules.{schedule-Product}
use cse422_archive.MallocMatrix.Steps.{schedule-ends}
use cse422_archive.MallocMatrix.Sample.{naturals}
use cse422_archive.Machine.{read, write, Done, Array}
use cse422_archive.Base.{ℕ, zero, suc, ◌+◌, ◌*◌, ◌≤◌, ◌<◌, ◌≡◌, refl, arith, ◌⊎◌}

-- The matrix of the rows 1 2 and 3 4, and one of zeros.
abbrev counted : Array ℕ
counted = record { size = 4; at = λ i. i + 1 }

abbrev zeros : Array ℕ
zeros = record { size = 4; at = λ _. 0 }

abbrev in_turn : (y : Team ℕ) × Reach naturals counted counted 2 zeros 20 y
unfolding read write
in_turn = (
  _,
  later {col = 1}
      (later {col = 0}
        (later {col = 1}
          (later {col = 0}
            (later {col = 1}
              (later {col = 0}
                (later {col = 1}
                  (later {col = 0}
                    (later {col = 1}
                      (later {col = 0}
                        (later {col = 1}
                          (later {col = 0}
                            (later {col = 1}
                              (later {col = 0}
                                (later {col = 1}
                                  (later {col = 0}
                                    (later {col = 1}
                                      (later {col = 0}
                                        (later {col = 1}
                                          (later {col = 0} start (
                                            load 0 0 _ (omega arith) (omega arith) (omega arith)
                                              refl refl))
                                          (load 0 0 _ (omega arith) (omega arith) (omega arith) refl
                                            refl))
                                        (store 0 0 _ _ _ (omega arith) refl refl refl refl))
                                      (store 0 0 _ _ _ (omega arith) refl refl refl refl))
                                    (load 0 1 _ (omega arith) (omega arith) (omega arith) refl
                                      refl))
                                  (load 0 1 _ (omega arith) (omega arith) (omega arith) refl refl))
                                (store 0 1 _ _ _ (omega arith) refl refl refl refl))
                              (store 0 1 _ _ _ (omega arith) refl refl refl refl))
                            (next_row 0 2 (omega arith) (omega arith) (omega arith) refl))
                          (next_row 0 2 (omega arith) (omega arith) (omega arith) refl))
                        (load 1 0 _ (omega arith) (omega arith) (omega arith) refl refl))
                      (load 1 0 _ (omega arith) (omega arith) (omega arith) refl refl))
                    (store 1 0 _ _ _ (omega arith) refl refl refl refl))
                  (store 1 0 _ _ _ (omega arith) refl refl refl refl))
                (load 1 1 _ (omega arith) (omega arith) (omega arith) refl refl))
              (load 1 1 _ (omega arith) (omega arith) (omega arith) refl refl))
            (store 1 1 _ _ _ (omega arith) refl refl refl refl))
          (store 1 1 _ _ _ (omega arith) refl refl refl refl))
        (next_row 1 2 (omega arith) (omega arith) (omega arith) refl))
      (next_row 1 2 (omega arith) (omega arith) (omega arith) refl),
)

-- The square of the matrix is 7 10 and 15 22.
in_turn_values :
    (in_turn.0.matrix_c.at 0 ≡ 7)
    × (in_turn.0.matrix_c.at 1 ≡ 10)
    × (in_turn.0.matrix_c.at 2 ≡ 15)
    × (in_turn.0.matrix_c.at 3 ≡ 22)
unfolding in_turn
in_turn_values = (refl, refl, refl, refl)

in_turn_ended : (col : ℕ) → col < 2 → (in_turn.0.works col).row ≡ 2
unfolding in_turn
in_turn_ended zero h = refl
in_turn_ended (suc zero) h = refl
in_turn_ended (suc (suc col)) h = absurd (omega arith)

schedule-Product_example :
    Done
      (λ E. (i j : ℕ) → i < 2 → j < 2 → in_turn.0.matrix_c.at (i * 2 + j) ≡ E.at (i * 2 + j))
      (columns_first naturals counted counted 2 2 0 zeros)
schedule-Product_example =
    schedule-Product naturals counted counted 2 (omega arith) (omega arith) (omega arith) zeros
      (omega arith) in_turn.1 in_turn_ended

schedule-ends_example :
    (20 ≤ 2 * (2 * (2 * 2 + 1)))
    × ((col : ℕ)
        → col < 2
        → ((in_turn.0.works col).row ≡ 2)
          ⊎ ((z : Team ℕ) × Step naturals counted counted 2 col in_turn.0 z))
schedule-ends_example =
    schedule-ends naturals counted counted 2 (omega arith) (omega arith) (omega arith) zeros
      (omega arith) in_turn.1
