-- ===== src/TreeFork/Tests.antt =====
-- user_space/tree_fork.c with three generations, and the theorems at inputs.
use cse422_archive.Base.{◌≡◌, refl, Bool, true, List, []}
use cse422_archive.TreeFork.Program.{fork_tree, Side, Tree, last, both}

abbrev always : List Side → Side → Bool
always _ _ = true

abbrev three_deep : Tree
three_deep = fork_tree always 3 0 3 []

three_deep_tree : three_deep ≡ both 1 (both 2 (last 3) (last 3)) (both 2 (last 3) (last 3))
unfolding fork_tree
three_deep_tree = refl
