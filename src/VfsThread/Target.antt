-- ===== src/VfsThread/Target.antt =====
-- What the thread of studios/studio15 does to its target, and the references that it keeps.
use cse422_archive.Base.{ℕ, ◌+◌, ◌≡◌, refl, inl, inr, some, List, [], ◌∷◌, arith, Option-cases, ℤ}
use cse422_archive.VfsThread.Program.{
  msg, write_to, target, thread_fn, Event, got_pid, got_task, wrote, finished, Kernel,
}

-- The references that were taken; the thread gives none back.
pub held : List Event → ℕ
held [] = 0
held (got_pid p ∷ log) = held log + 1
held (got_task t ∷ log) = held log + 1
held (wrote fn file bytes offset ∷ log) = held log

module _ {B : Type 0} (k : Kernel B) where
  -- From the task a file with a `write` is found at descriptor 1, and the message is written to it.
  pub record Written (task : ℕ) (log after : List Event) : Type 0 where
    pub files : ℕ
    pub file : ℕ
    pub fileop : ℕ
    pub fn : ℕ
    pub has_files : k.files task ≡ some files
    pub has_file : k.fcheck_files files 1 ≡ some file
    pub has_fileop : k.f_op file ≡ some fileop
    pub has_write : k.write fileop ≡ some fn
    pub events : after ≡ wrote fn file msg 0 ∷ log

  write_to-Written :
      (task : ℕ) (log : List Event)
      → (write_to k task log).0 ≡ finished
      → Written task log (write_to k task log).1
  unfolding write_to
  write_to-Written task log = elim (Option-cases (k.files task)) [
    | inl e ↦ rw (e, write_to) (λ h. cc)
    | inr (files, e) ↦ elim (Option-cases (k.fcheck_files files 1)) [
      | inl e' ↦ rw (e, e', write_to) (λ h. cc)
      | inr (file, e') ↦ elim (Option-cases (k.f_op file)) [
        | inl f ↦ rw (e, e', f, write_to) (λ h. cc)
        | inr (fileop, f) ↦ elim (Option-cases (k.write fileop)) [
          | inl g ↦ rw (e, e', f, g, write_to) (λ h. cc)
          | inr (fn, g) ↦
              rw (e, e', f, g, write_to)
                (λ h. record {
                  files = files;
                  file = file;
                  fileop = fileop;
                  fn = fn;
                  has_files = e;
                  has_file = e';
                  has_fileop = f;
                  has_write = g;
                  events = refl;
                })
        ]
      ]
    ]
  ]

  Written-finished :
      (task : ℕ) (log after : List Event)
      → Written task log after
      → (write_to k task log).0 ≡ finished
  unfolding write_to
  Written-finished task log after w =
      rw (w.has_files, w.has_file, w.has_fileop, w.has_write, write_to) refl

  -- The process's number and its task are found, and the message is written.
  pub record Reached (tgt_pid : ℤ) (after : List Event) : Type 0 where
    pub pid : ℕ
    pub task : ℕ
    pub has_pid : k.find_get_pid tgt_pid ≡ some pid
    pub has_task : k.get_pid_task pid ≡ some task
    pub written : Written task (got_task task ∷ got_pid pid ∷ []) after

  pub target-Reached :
      (tgt_pid : ℤ) → (target k tgt_pid).0 ≡ finished → Reached tgt_pid (target k tgt_pid).1
  unfolding target
  target-Reached tgt_pid = elim (Option-cases (k.find_get_pid tgt_pid)) [
    | inl e ↦ rw (e, target) (λ h. cc)
    | inr (pid, e) ↦ elim (Option-cases (k.get_pid_task pid)) [
      | inl f ↦ rw (e, f, target) (λ h. cc)
      | inr (task, f) ↦
          rw (e, f, target)
            (λ h. record {
              pid = pid;
              task = task;
              has_pid = e;
              has_task = f;
              written = write_to-Written task (got_task task ∷ got_pid pid ∷ []) h;
            })
    ]
  ]

  pub Reached-finished :
      (tgt_pid : ℤ) (after : List Event) → Reached tgt_pid after → (target k tgt_pid).0 ≡ finished
  unfolding target
  Reached-finished tgt_pid after r =
      rw (r.has_pid, r.has_task, target) (Written-finished r.task _ after r.written)

  write_to-held : (task : ℕ) (log : List Event) → held (write_to k task log).1 ≡ held log
  unfolding write_to held
  write_to-held task log = ground arith

  -- Where the target's number and its task are found, the thread ends with both references, whether
  -- it has written, has met an error, or has used a null pointer.
  pub thread_fn-held :
      (tgt_pid : ℤ) (pid task : ℕ)
      → k.find_get_pid tgt_pid ≡ some pid
      → k.get_pid_task pid ≡ some task
      → held (thread_fn k tgt_pid).1.1 ≡ 2
  unfolding thread_fn target held
  thread_fn-held tgt_pid pid task e f =
      rw (e, f, target) (write_to-held task (got_task task ∷ got_pid pid ∷ []))
