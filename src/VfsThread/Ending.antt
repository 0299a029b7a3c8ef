-- ===== src/VfsThread/Ending.antt =====
-- How the thread of studios/studio15 can end.
use cse422_archive.Base.{
  ℕ, ◌≡◌, refl, sym, ◌∙◌, ◌≢◌, ◌↔◌, ◌⊎◌, inl, inr, none, some, Option-cases, ℤ,
}
use cse422_archive.VfsThread.Program.{
  write_to, target, thread_fn, finished, minus_one, oops, Kernel,
}
use cse422_archive.VfsThread.Target.{Reached, target-Reached, Reached-finished}

module _ {B : Type 0} (k : Kernel B) where
  -- The task whose number was asked for.
  pub record IsTarget (tgt_pid : ℤ) (task : ℕ) : Type 0 where
    pub pid : ℕ
    pub has_pid : k.find_get_pid tgt_pid ≡ some pid
    pub has_task : k.get_pid_task pid ≡ some task

  -- A null pointer that the thread looks for: there is no such number, or no task, or the task has no
  -- file at descriptor 1, or the file no operations.
  pub data Refused (tgt_pid : ℤ) : Type 0 where
    no_pid : k.find_get_pid tgt_pid ≡ none → Refused tgt_pid
    no_task :
        (pid : ℕ) → k.find_get_pid tgt_pid ≡ some pid → k.get_pid_task pid ≡ none → Refused tgt_pid
    no_file :
        (task files : ℕ)
        → IsTarget tgt_pid task
        → k.files task ≡ some files
        → k.fcheck_files files 1 ≡ none
        → Refused tgt_pid
    no_fileop :
        (task files file : ℕ)
        → IsTarget tgt_pid task
        → k.files task ≡ some files
        → k.fcheck_files files 1 ≡ some file
        → k.f_op file ≡ none
        → Refused tgt_pid

  -- One that it does not look for: the task has no files, or the operations no `write`.
  pub data Overlooked (tgt_pid : ℤ) : Type 0 where
    no_files : (task : ℕ) → IsTarget tgt_pid task → k.files task ≡ none → Overlooked tgt_pid
    no_write :
        (task files file fileop : ℕ)
        → IsTarget tgt_pid task
        → k.files task ≡ some files
        → k.fcheck_files files 1 ≡ some file
        → k.f_op file ≡ some fileop
        → k.write fileop ≡ none
        → Overlooked tgt_pid

  target-Refused : (tgt_pid : ℤ) → Refused tgt_pid → (target k tgt_pid).0 ≡ minus_one
  unfolding target write_to
  target-Refused tgt_pid (no_pid e) = rw (e, target) refl
  target-Refused tgt_pid (no_task pid e f) = rw (e, f, target) refl
  target-Refused tgt_pid (no_file task files t e f) =
      rw (t.has_pid, t.has_task, target) (rw (e, f, write_to) refl)
  target-Refused tgt_pid (no_fileop task files file t e f g) =
      rw (t.has_pid, t.has_task, target) (rw (e, f, g, write_to) refl)

  target-Overlooked : (tgt_pid : ℤ) → Overlooked tgt_pid → (target k tgt_pid).0 ≡ oops
  unfolding target write_to
  target-Overlooked tgt_pid (no_files task t e) =
      rw (t.has_pid, t.has_task, target) (rw (e, write_to) refl)
  target-Overlooked tgt_pid (no_write task files file fileop t e f g h) =
      rw (t.has_pid, t.has_task, target) (rw (e, f, g, h, write_to) refl)

  -- Every thread reaches the file, or meets the one kind of null pointer or the other.
  target-cases :
      (tgt_pid : ℤ) → ((target k tgt_pid).0 ≡ finished) ⊎ (Refused tgt_pid ⊎ Overlooked tgt_pid)
  target-cases tgt_pid = elim (Option-cases (k.find_get_pid tgt_pid)) [
    | inl e ↦ inr (inl (no_pid e))
    | inr (pid, e) ↦ elim (Option-cases (k.get_pid_task pid)) [
      | inl f ↦ inr (inl (no_task pid e f))
      | inr (task, f) ↦ from_task task (record { pid = pid; has_pid = e; has_task = f })
    ]
  ]
    where
      reached :
          (task files file fileop fn : ℕ)
          → IsTarget tgt_pid task
          → k.files task ≡ some files
          → k.fcheck_files files 1 ≡ some file
          → k.f_op file ≡ some fileop
          → k.write fileop ≡ some fn
          → (target k tgt_pid).0 ≡ finished
      reached task files file fileop fn t e f g h = Reached-finished k tgt_pid _ (record {
        pid = t.pid;
        task = task;
        has_pid = t.has_pid;
        has_task = t.has_task;
        written = record {
          files = files;
          file = file;
          fileop = fileop;
          fn = fn;
          has_files = e;
          has_file = f;
          has_fileop = g;
          has_write = h;
          events = refl;
        };
      })

      from_task :
          (task : ℕ)
          → IsTarget tgt_pid task
          → ((target k tgt_pid).0 ≡ finished) ⊎ (Refused tgt_pid ⊎ Overlooked tgt_pid)
      from_task task t = elim (Option-cases (k.files task)) [
        | inl e ↦ inr (inr (no_files task t e))
        | inr (files, e) ↦ elim (Option-cases (k.fcheck_files files 1)) [
          | inl f ↦ inr (inl (no_file task files t e f))
          | inr (file, f) ↦ elim (Option-cases (k.f_op file)) [
            | inl g ↦ inr (inl (no_fileop task files file t e f g))
            | inr (fileop, g) ↦ elim (Option-cases (k.write fileop)) [
              | inl h ↦ inr (inr (no_write task files file fileop t e f g h))
              | inr (fn, h) ↦ inl (reached task files file fileop fn t e f g h)
            ]
          ]
        ]
      ]

  -- The thread ends without an error exactly when all lookups succeed, and has then taken the two
  -- references and written the message with its final 0 to the file; it ends with -1 exactly when the
  -- number, its task, the task's file or the file's operations are not found; and it uses a null pointer
  -- exactly when the task has no files or the operations have no `write`.
  pub thread_fn-ends :
      (tgt_pid : ℤ)
      → (((thread_fn k tgt_pid).1.0 ≡ finished) ↔ Reached k tgt_pid (thread_fn k tgt_pid).1.1)
        × (((thread_fn k tgt_pid).1.0 ≡ minus_one) ↔ Refused tgt_pid)
        × (((thread_fn k tgt_pid).1.0 ≡ oops) ↔ Overlooked tgt_pid)
  unfolding thread_fn
  thread_fn-ends tgt_pid = (
    (target-Reached k tgt_pid, Reached-finished k tgt_pid (target k tgt_pid).1),
    (
      λ e. elim (target-cases tgt_pid) [
        | inl f ↦ absurd (finished-ne-minus_one (sym f ∙ e))
        | inr (inl r) ↦ r
        | inr (inr o) ↦ absurd (oops-ne-minus_one (sym (target-Overlooked tgt_pid o) ∙ e))
      ],
      target-Refused tgt_pid,
    ),
    (
      λ e. elim (target-cases tgt_pid) [
        | inl f ↦ absurd (finished-ne-oops (sym f ∙ e))
        | inr (inl r) ↦ absurd (oops-ne-minus_one (sym e ∙ target-Refused tgt_pid r))
        | inr (inr o) ↦ o
      ],
      target-Overlooked tgt_pid,
    ),
  )
    where
      finished-ne-minus_one : finished ≢ minus_one
      finished-ne-minus_one e = cc

      finished-ne-oops : finished ≢ oops
      finished-ne-oops e = cc

      oops-ne-minus_one : oops ≢ minus_one
      oops-ne-minus_one e = cc
