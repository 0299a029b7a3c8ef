-- ===== src/MallocMatrix/Statistics.antt =====
-- The statistics that user_space/test_programs/timed_parallel_dense_mm.c keeps of its runs. A `long`
-- is an integer, the `unsigned long` sum a number below 2^64.
use cse422_archive.Base.{
  ℕ, ◌+◌, ◌-◌, ◌%◌, ◌^◌, Bool, true, false, List, [], ◌∷◌, ltb, ◌==◌, if◌then◌else◌, ℤ, pos, negsuc,
}

-- `end.tv_nsec - start.tv_nsec`
abbrev pub elapsed : ℕ → ℕ → ℤ
elapsed start_nsec end_nsec =
    if ltb end_nsec start_nsec
    then negsuc (start_nsec - end_nsec - 1)
    else pos (end_nsec - start_nsec)

unfoldable pub less : ℤ → ℤ → Bool
less (pos a) (pos b) = ltb a b
less (pos a) (negsuc b) = false
less (negsuc a) (pos b) = true
less (negsuc a) (negsuc b) = ltb b a

-- The conversion of a `long` to `unsigned long`.
abbrev pub to_ulong : ℤ → ℕ
to_ulong (pos a) = a % 2 ^ 64
to_ulong (negsuc a) = 2 ^ 64 - 1 - a

pub record Stats : Type 0 where
  pub max_ns : ℤ
  pub min_ns : ℤ
  pub sum_ns : ℕ

-- The end of the loop's body: the first run sets both bounds.
unfoldable pub record_run : ℕ → ℤ → Stats → Stats
record_run i run s =
    let bounded =
      if i == 0
      then record s { max_ns = run; min_ns = run }
      else if less s.max_ns run
      then record s { max_ns = run }
      else if less run s.min_ns
      then record s { min_ns = run }
      else s in
    record bounded { sum_ns = (s.sum_ns + to_ulong run) % 2 ^ 64 }

unfoldable pub record_runs : ℕ → List ℤ → Stats → Stats
record_runs i [] s = s
record_runs i (run ∷ runs) s = record_runs (i + 1) runs (record_run i run s)
