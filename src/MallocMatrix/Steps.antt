-- ===== src/MallocMatrix/Steps.antt =====
-- How long a schedule of the parallel loop of user_space/test_programs/parallel_dense_mm.c can be.
use cse422_archive.Matrix.Program.{Numbers}
use cse422_archive.MallocMatrix.Team.{
  Work, Team, begun, Step, load, store, next_row, Reach, start, later,
}
use cse422_archive.MallocMatrix.Schedules.{Together, column, Reach-Together, Reach-goes_on}
use cse422_archive.Base.{
  ℕ, ◌+◌, ◌-◌, ◌*◌, ◌^◌, ◌≤◌, ◌<◌, ◌≡◌, refl, ap, ◌∙◌, ◌⊎◌, Option, none, some, arith, update,
  total, total-update, total-const,
}
use cse422_archive.Machine.{Array}

-- An entry takes two steps for each of its n terms, and one to go on from it.
rest_of_row : ℕ → ℕ → ℕ
rest_of_row n row = (n - row) * (2 * n + 1)

rest_of_row-next : (n row : ℕ) → row < n → rest_of_row n row ≡ rest_of_row n (row + 1) + (2 * n + 1)
unfolding rest_of_row
rest_of_row-next n row h = ap (λ k. k * (2 * n + 1)) shorter ∙ grind arith
  where
    shorter : n - row ≡ n - (row + 1) + 1
    shorter = omega arith

module _ {D : Type 0} where
  has_loaded : Option D → ℕ
  has_loaded none = 0
  has_loaded (some x) = 1

  steps_left : ℕ → Work D → ℕ
  steps_left n w = rest_of_row n w.row - (2 * w.index + has_loaded w.loaded)

  load-steps_left :
      (n row index : ℕ) (x : D)
      → row < n
      → index < n
      → steps_left n (record { row = row; index = index; loaded = none })
        ≡ steps_left n (record { row = row; index = index; loaded = some x }) + 1
  unfolding steps_left has_loaded
  load-steps_left n row index x hr hi = omega (arith, rest_of_row-next n row hr)

  store-steps_left :
      (n row index : ℕ) (x : D)
      → row < n
      → index < n
      → steps_left n (record { row = row; index = index; loaded = some x })
        ≡ steps_left n (record { row = row; index = index + 1; loaded = none }) + 1
  unfolding steps_left has_loaded
  store-steps_left n row index x hr hi = omega (arith, rest_of_row-next n row hr)

module _ (D : Type 0) where
  next_row-steps_left :
      (n row index : ℕ)
      → row < n
      → index ≡ n
      → steps_left {D = D} n (record { row = row; index = index; loaded = none })
        ≡ steps_left {D = D} n (record { row = row + 1; index = 0; loaded = none }) + 1
  unfolding steps_left has_loaded
  next_row-steps_left n row index hr e = omega (arith, e, rest_of_row-next n row hr)

module _ (N : Numbers) where
  open N use {D}

  -- The steps that are left to all iterations together.
  all_left : ℕ → Team D → ℕ
  all_left n y = total (steps_left n) n y.works

  one_less :
      (n col : ℕ) (y : Team D) (w w' : Work D)
      → col < n
      → y.works col ≡ w
      → steps_left n w ≡ steps_left n w' + 1
      → total (steps_left n) n y.works ≡ total (steps_left n) n (update y.works col w') + 1
  one_less n col y w w' hc e h =
      omega (arith, total-update (steps_left n) n y.works col w' hc, ap (steps_left n) e, h)

  begun-all_left : (n : ℕ) (C : Array D) → 0 + all_left n (begun C) ≡ n * (n * (2 * n + 1))
  unfolding all_left steps_left has_loaded rest_of_row
  begun-all_left n C =
      zero_plus
      ∙ total-const (steps_left {D = D} n) n (record { row = 0; index = 0; loaded = none })
      ∙ ap (λ k. n * k) (omega (arith, ap (λ k. k * (2 * n + 1)) all_rows))
    where
      all_rows : n - 0 ≡ n
      all_rows = omega arith

      zero_plus : {k : ℕ} → 0 + k ≡ k
      zero_plus = omega arith

  module _ (A B : Array D) (n : ℕ) (word : n * n < 2 ^ 32) (fits_a : n * n ≤ A.size)
      (fits_b : n * n ≤ B.size) (C0 : Array D) (fits_c : n * n ≤ C0.size) where
    Step-all_left :
        {col : ℕ} {y z : Team D}
        → Step N A B n col y z
        → Together N A B n C0 y
        → all_left n y ≡ all_left n z + 1
    unfolding all_left
    Step-all_left {col} {y} (load row index x hc hr hi e r) t =
        one_less n col y _ _ hc e (load-steps_left n row index x hr hi)
    Step-all_left {col} {y} (store row index x a b hc e p q r) t =
        let c = column N A B n word fits_a fits_b C0 fits_c y col t hc e in
        let (hr, hi, _) = c.held x refl in
        one_less n col y _ _ hc e (store-steps_left n row index x hr hi)
    Step-all_left {col} {y} (next_row row index hc hr hi e) t =
        let c = column N A B n word fits_a fits_b C0 fits_c y col t hc e in
        one_less n col y _ _ hc e
          (next_row-steps_left D n row index hr (omega (arith, hi, c.index_limit)))

    Reach-all_left :
        {k : ℕ} {y : Team D} → Reach N A B n C0 k y → k + all_left n y ≡ n * (n * (2 * n + 1))
    Reach-all_left start = begun-all_left n C0
    Reach-all_left (later r s) = omega (
      arith,
      Reach-all_left r,
      Step-all_left s (Reach-Together N A B n word fits_a fits_b C0 fits_c r),
    )

    -- For a size whose square is below 2^32 and three matrices with room for it, a schedule of the
    -- parallel loop has at most n*n*(2n+1) steps, and in each team that it leads to every iteration
    -- that has not ended can take a step itself.
    pub schedule-ends :
        {k : ℕ} {y : Team D}
        → Reach N A B n C0 k y
        → (k ≤ n * (n * (2 * n + 1)))
          × ((col : ℕ) → col < n → ((y.works col).row ≡ n) ⊎ ((z : Team D) × Step N A B n col y z))
    schedule-ends r = (
      omega (arith, Reach-all_left r),
      λ col hc. Reach-goes_on N A B n word fits_a fits_b C0 fits_c col r hc,
    )
