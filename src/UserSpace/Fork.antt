-- ===== src/UserSpace/Fork.antt =====
-- user_space/simple_fork.c and its copy in studios/studio5, with the buffer of standard output: what
-- is still in it when the process forks is in the child's buffer too. `perror` writes elsewhere.
use cse422_archive.Base.{
  ℕ, ◌≡◌, refl, Bool, true, false, Option, none, some, List, [], ◌∷◌, ◌++◌, if◌then◌else◌, length,
}

pub data Line : Type 0 where
  as_parent_parent : ℕ → Line
  as_parent_child : ℕ → Line
  as_child_child : ℕ → Line
  as_child_parent : ℕ → Line

-- What the two processes have written to standard output when they have ended.
pub record Output : Type 0 where
  pub parent : List Line
  pub child : List Line

-- `main` in a process of number `pid`: `forked` is what `fork` gives, none where it fails, `ppid` what
-- `getppid` gives in the child, and `line_buffered` says whether a line goes out when it ends.
unfoldable pub simple_fork : Bool → ℕ → ℕ → Option ℕ → Output
simple_fork line_buffered pid ppid forked =
    let first = as_parent_parent pid in
    elim forked [
      | none ↦ record { parent = first ∷ []; child = [] }
      | some c ↦ record {
        parent = first ∷ as_parent_child c ∷ [];
        child =
            (if line_buffered then [] else first ∷ [])
            ++ as_child_child c ∷ as_child_parent ppid ∷ [];
      }
    ]

-- The two processes write four lines where lines go out when they end; elsewhere the first line is
-- written twice, by both.
simple_fork-lines :
    (pid ppid c : ℕ)
    → (length ((simple_fork true pid ppid (some c)).child) ≡ 2)
      × ((simple_fork false pid ppid (some c)).child
          ≡ as_parent_parent pid ∷ (simple_fork true pid ppid (some c)).child)
unfolding simple_fork
simple_fork-lines pid ppid c = (refl, refl)
