-- ===== src/VfsThread/Tests.antt =====
-- The thread of studios/studio15 on a small kernel, and the theorems at inputs.
use cse422_archive.Base.{
  ℕ, zero, suc, ◌+◌, ◌*◌, ◌≡◌, refl, ◌↔◌, Option, none, some, [], ◌∷◌, ◌==◌, if◌then◌else◌, ℤ, pos,
  negsuc,
}
use cse422_archive.VfsThread.Program.{
  subdir_lines, directory_lines, write_to, target, thread_fn, same_line, subdirs_line, subdir_line,
  finished, minus_one, oops, Dentry, Kernel,
}
use cse422_archive.VfsThread.Target.{Reached}
use cse422_archive.VfsThread.Ending.{thread_fn-ends, Refused, Overlooked}

-- Names are numbers. The root is 0, with a directory 1, which holds 3, and an empty one, 2. Process 7
-- has number structure 70 and task 700; what the task has open at descriptor 1 can be written to.
abbrev entries : ℕ → Dentry ℕ
entries zero = record { d_iname = 47; d_subdirs = 1 ∷ 2 ∷ [] }
entries (suc zero) = record { d_iname = 10; d_subdirs = 3 ∷ [] }
entries (suc (suc n)) = record { d_iname = 20 + n; d_subdirs = [] }

abbrev lookup : ℤ → Option ℕ
lookup (pos n) = if n == 7 then some 70 else none
lookup (negsuc n) = none

abbrev small : Kernel ℕ
small = record {
  pwd = 0;
  root = 0;
  dentry = entries;
  find_get_pid = lookup;
  get_pid_task = λ p. some (10 * p);
  files = λ t. some (t + 1);
  fcheck_files = λ fs fd. some (fs + fd);
  f_op = λ f. some 5;
  write = λ op. some (op + 1);
}

printed : (thread_fn small (pos 7)).0 ≡ same_line 47 ∷ subdirs_line ∷ subdir_line 10 ∷ []
unfolding thread_fn directory_lines subdir_lines
printed = refl

ends : (thread_fn small (pos 7)).1.0 ≡ finished
unfolding thread_fn target write_to
ends = refl

no_process : (thread_fn small (pos 8)).1 ≡ (minus_one, [])
unfolding thread_fn target
no_process = refl

thread_fn-ends_example :
    (((thread_fn small (pos 8)).1.0 ≡ finished)
      ↔ Reached small (pos 8) (thread_fn small (pos 8)).1.1)
    × (((thread_fn small (pos 8)).1.0 ≡ minus_one) ↔ Refused small (pos 8))
    × (((thread_fn small (pos 8)).1.0 ≡ oops) ↔ Overlooked small (pos 8))
thread_fn-ends_example = thread_fn-ends small (pos 8)
