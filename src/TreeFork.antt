-- ===== src/TreeFork.antt =====
-- user_space/tree_fork.c: a binary tree of processes, a given number of generations deep.
pub mod Program
pub mod Count
mod Tests
