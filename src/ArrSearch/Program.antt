-- ===== src/ArrSearch/Program.antt =====
-- user_space/test_programs/arr_search.c, whose copies are in studios/studio14. Floats, `sqrt`,
-- `bsearch` and the replies of `malloc` are parameters; the prints are left out.
use cse422_archive.Base.{
  ℕ, zero, suc, ◌+◌, Option, none, some, List, [], ◌∷◌, ltb, if◌then◌else◌, ℤ, pos, negsuc,
}
use cse422_archive.Machine.{◌>>=◌, write, Outcome, done, Array}

-- `sqrt` with its result as a float; the difference of two floats as an `int`; `bsearch`, which gives
-- an index, from a key, the elements, their number and the comparison.
pub record Library : Type 1 where
  pub D : Type 0
  pub zero_bytes : D
  pub sqrt : ℕ → D
  pub difference : D → D → ℤ
  pub bsearch : D → (ℕ → D) → ℕ → (D → D → ℤ) → Option ℕ

abbrev pub arr_size : ℕ
arr_size = 512

module _ (L : Library) where
  open L use {D, zero_bytes, sqrt, difference, bsearch}

  unfoldable pub compare_float : D → D → ℤ
  compare_float f1 f2 = difference f1 f2

  -- The loop of `library_calls`, and `memset`, with the rounds that are left.
  unfoldable pub assign : ℕ → Array D → ℕ → Outcome (Array D)
  assign zero values i = done values
  assign (suc rounds) values i =
      write values i (sqrt (i + 1)) >>= λ values. assign rounds values (i + 1)

  unfoldable pub clear : ℕ → Array D → ℕ → Outcome (Array D)
  clear zero values i = done values
  clear (suc rounds) values i = write values i zero_bytes >>= λ values. clear rounds values (i + 1)

  -- `library_calls`, by the block that `malloc` gives: `none` is -1; otherwise what `bsearch` has
  -- found, which nothing uses, and the block as it is when it is freed.
  unfoldable pub library_calls : Option (Array D) → Outcome (Option (Option ℕ × Array D))
  library_calls none = done none
  library_calls (some values) = assign arr_size values 0 >>= λ values.
      (let value = bsearch (sqrt 383) values.at arr_size compare_float in
        clear arr_size values 0 >>= λ values. done (some (value, values)))

  -- How `main` ends, with the blocks that were freed, the latest first.
  pub data Ending : Type 0 where
    usage : Ending
    not_positive : Ending
    stopped : (freed : List (Array D)) → Ending
    completed : (iterations : ℕ) (freed : List (Array D)) → Ending

  module _ (malloc : ℕ → Option (Array D)) where
    -- The loop of `main`, with the rounds that are left; `i` is also the number of calls of `malloc`.
    unfoldable pub iterate : ℕ → ℕ → ℕ → List (Array D) → Outcome Ending
    iterate zero iterations i freed = done (completed iterations freed)
    iterate (suc rounds) iterations i freed = library_calls (malloc i) >>= λ r. elim r [
      | none ↦ done (stopped freed)
      | some (value, values) ↦ iterate rounds iterations (i + 1) (values ∷ freed)
    ]

    unfoldable pub iterations_loop : ℤ → Outcome Ending
    iterations_loop (pos (suc n)) = iterate (suc n) (suc n) 0 []
    iterations_loop (pos zero) = done not_positive
    iterations_loop (negsuc n) = done not_positive

    -- `iterations` is what `atoi` gives.
    unfoldable pub main : ℕ → ℤ → Outcome Ending
    main argc iterations = if ltb argc 2 then done usage else iterations_loop iterations
