-- ===== src/TreeFork/Count.antt =====
-- How many processes user_space/tree_fork.c makes.
use cse422_archive.Base.{
  ℕ, zero, suc, ◌+◌, ◌^◌, ◌≤◌, ◌<◌, ◌≡◌, refl, Bool, true, List, [], ◌∷◌, arith, ◌==◌,
  if◌then◌else◌, pos,
}
use cse422_archive.TreeFork.Program.{
  fork_tree, main, Side, left, right, Tree, idle, last, no_left, no_right, both, ran,
}
use native.Mathlib.Nat.{pow-suc}

-- The processes that print a line, and those that print the line of one generation.
unfoldable pub processes : Tree → ℕ
processes idle = 0
processes (last g) = 1
processes (no_left g) = 1
processes (no_right g l) = 1 + processes l
processes (both g l r) = 1 + processes l + processes r

unfoldable pub at_generation : ℕ → Tree → ℕ
at_generation k idle = 0
at_generation k (last g) = if g == k then 1 else 0
at_generation k (no_left g) = if g == k then 1 else 0
at_generation k (no_right g l) = (if g == k then 1 else 0) + at_generation k l
at_generation k (both g l r) = (if g == k then 1 else 0) + at_generation k l + at_generation k r

pow_pos : (n : ℕ) → 0 < 2 ^ n
pow_pos zero = omega arith
pow_pos (suc n) = omega (arith, pow-suc 2 n, pow_pos n)

module _ (fork : List Side → Side → Bool) where
  -- Whatever the forks give, the loop with `rounds` rounds left makes fewer than 2^rounds processes
  -- that print.
  pub processes-lt :
      (rounds gen generations : ℕ) (path : List Side)
      → processes (fork_tree fork rounds gen generations path) < 2 ^ rounds
  unfolding processes fork_tree
  processes-lt zero gen generations path = omega arith
  processes-lt (suc rounds) gen generations path = ground (
    arith,
    pow-suc 2 rounds,
    pow_pos rounds,
    processes-lt rounds (gen + 1) generations (left ∷ path),
    processes-lt rounds (gen + 1) generations (right ∷ path),
  )

  module _ (all : (path : List Side) (side : Side) → fork path side ≡ true) where
    at_generation-before :
        (rounds gen generations k : ℕ) (path : List Side)
        → k ≤ gen
        → at_generation k (fork_tree fork rounds gen generations path) ≡ 0
    unfolding at_generation fork_tree
    at_generation-before zero gen generations k path h = refl
    at_generation-before (suc rounds) gen generations k path h = ground (
      arith,
      all path left,
      all path right,
      at_generation-before rounds (gen + 1) generations k (left ∷ path) (omega arith),
      at_generation-before rounds (gen + 1) generations k (right ∷ path) (omega arith),
    )

    fork_tree-at_generation :
        (d rounds gen generations : ℕ) (path : List Side)
        → gen + rounds ≡ generations
        → d < rounds
        → at_generation (gen + 1 + d) (fork_tree fork rounds gen generations path) ≡ 2 ^ d
    unfolding at_generation fork_tree
    fork_tree-at_generation d zero gen generations path e h = absurd (omega arith)
    fork_tree-at_generation zero (suc rounds) gen generations path e h = ground (
      arith,
      all path left,
      all path right,
      at_generation-before rounds (gen + 1) generations (gen + 1 + 0) (left ∷ path) (omega arith),
      at_generation-before rounds (gen + 1) generations (gen + 1 + 0) (right ∷ path) (omega arith),
    )
    fork_tree-at_generation (suc d) (suc rounds) gen generations path e h = rw regroup (
        ground (
          arith,
          all path left,
          all path right,
          pow-suc 2 d,
          fork_tree-at_generation d rounds (gen + 1) generations (left ∷ path) (omega arith)
              (omega arith),
          fork_tree-at_generation d rounds (gen + 1) generations (right ∷ path) (omega arith)
              (omega arith),
        ))
      where
        regroup : gen + 1 + suc d ≡ gen + 1 + 1 + d
        regroup = omega arith

    -- Where every `fork` succeeds and the argument n is at most 10, the line of generation d + 1 is
    -- printed by 2^d processes of the tree that `main` makes, for each d below n.
    pub main-at_generation :
        (n d : ℕ)
        → d < n
        → n ≤ 10
        → (t : Tree) × (main fork 2 (pos n) ≡ ran t) × (at_generation (d + 1) t ≡ 2 ^ d)
    unfolding main
    main-at_generation n d low high = (
      fork_tree fork n 0 n [],
      ground arith,
      rw shift (fork_tree-at_generation d n 0 n [] (omega arith) low),
    )
      where
        shift : d + 1 ≡ 0 + 1 + d
        shift = omega arith
