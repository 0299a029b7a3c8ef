-- ===== src/TreeFork/Program.antt =====
-- The loop of user_space/tree_fork.c and the tree of processes that it makes. Whether a `fork`
-- succeeds is a parameter: it depends on the process, named by its path from the root, and on which
-- of its two calls it is.
use cse422_archive.Base.{
  ℕ, zero, suc, ◌+◌, Bool, true, ◌||◌, not, List, [], ◌∷◌, ltb, ◌==◌, if◌then◌else◌, ℤ, pos, negsuc,
}

pub data Side : Type 0 where
  left right : Side

-- What one process does, with the generation that it prints, and what its children do.
pub data Tree : Type 0 where
  -- The test of the loop fails at once: no line.
  idle : Tree
  -- The last generation: the loop is left before any `fork`.
  last : ℕ → Tree
  -- The first `fork` fails: `exit(-1)`.
  no_left : ℕ → Tree
  -- The second `fork` fails: `exit(-1)`, with one child.
  no_right : ℕ → Tree → Tree
  -- Two children.
  both : ℕ → Tree → Tree → Tree

pub data Run : Type 0 where
  usage : Run
  ran : Tree → Run

-- `(int)atoi(argv[1]) < 1` and `> 10`.
abbrev pub out_of_range : ℤ → Bool
out_of_range (pos n) = ltb n 1 || ltb 10 n
out_of_range (negsuc n) = true

abbrev pub number : ℤ → ℕ
number (pos n) = n
number (negsuc n) = 0

module _ (fork : List Side → Side → Bool) where
  -- `while (gen < generations)`, with the rounds that are left. Each child goes on with the loop.
  unfoldable pub fork_tree : ℕ → ℕ → ℕ → List Side → Tree
  fork_tree zero gen generations path = idle
  fork_tree (suc rounds) gen generations path =
      let lefts = fork_tree rounds (gen + 1) generations (left ∷ path) in
      let rights = fork_tree rounds (gen + 1) generations (right ∷ path) in
      if ltb gen generations
      then (if not (ltb (gen + 1) generations)
          then last (gen + 1)
          else (if fork path left
              then (if fork path right
                  then both (gen + 1) lefts rights
                  else no_right (gen + 1) lefts)
              else no_left (gen + 1)))
      else idle

  unfoldable pub main : ℕ → ℤ → Run
  main argc argument =
      if not (argc == 2) || out_of_range argument
      then usage
      else ran (fork_tree (number argument) 0 (number argument) [])
