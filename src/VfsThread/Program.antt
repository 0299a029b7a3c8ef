-- ===== src/VfsThread/Program.antt =====
-- studios/studio15/vfs_thread.c. The kernel's structures and its lookups are a parameter, where `none`
-- is a null pointer; an address is a number. The printed addresses and progress messages are left out.
use cse422_archive.Base.{ℕ, Option, none, some, List, [], ◌∷◌, ◌==◌, if◌then◌else◌, ℤ}

pub record Dentry (B : Type 0) : Type 0 where
  pub d_iname : B
  pub d_subdirs : List ℕ

-- `pwd` and `root` are those of the thread itself. `write` is the address of the function.
pub record Kernel (B : Type 0) : Type 0 where
  pub pwd : ℕ
  pub root : ℕ
  pub dentry : ℕ → Dentry B
  pub find_get_pid : ℤ → Option ℕ
  pub get_pid_task : ℕ → Option ℕ
  pub files : ℕ → Option ℕ
  pub fcheck_files : ℕ → ℕ → Option ℕ
  pub f_op : ℕ → Option ℕ
  pub write : ℕ → Option ℕ

pub data Line (B : Type 0) : Type 0 where
  same_line : B → Line B
  pwd_line : B → Line B
  root_line : B → Line B
  subdirs_line : Line B
  subdir_line : B → Line B

-- What the thread does to the kernel: references that it takes, and its write.
pub data Event : Type 0 where
  got_pid : ℕ → Event
  got_task : ℕ → Event
  wrote : (fn file : ℕ) (bytes : List ℕ) (offset : ℕ) → Event

-- `oops` is a use of a null pointer; `minus_one` is an error that the thread has found.
pub data Result : Type 0 where
  finished : Result
  minus_one : Result
  oops : Result

abbrev pub msg : List ℕ
msg =
    b'H' ∷ b'e' ∷ b'l' ∷ b'l' ∷ b'o' ∷ b' ' ∷ b't' ∷ b'a' ∷ b'r' ∷ b'g' ∷ b'e' ∷ b't' ∷ b'e' ∷ b'd'
    ∷ b' ' ∷ b'p' ∷ b'r' ∷ b'o' ∷ b'c' ∷ b'e' ∷ b's' ∷ b's' ∷ b'!' ∷ 0 ∷ []

module _ {B : Type 0} (k : Kernel B) where
  -- `list_for_each_entry`
  unfoldable pub subdir_lines : List ℕ → List (Line B)
  subdir_lines [] = []
  subdir_lines (d ∷ ds) =
      let rest = subdir_lines ds in
      elim (k.dentry d).d_subdirs [ [] ↦ rest | _ ∷ _ ↦ subdir_line (k.dentry d).d_iname ∷ rest ]

  unfoldable pub directory_lines : List (Line B)
  directory_lines =
      let rest = subdirs_line ∷ subdir_lines (k.dentry k.root).d_subdirs in
      if k.pwd == k.root
      then same_line (k.dentry k.pwd).d_iname ∷ rest
      else pwd_line (k.dentry k.pwd).d_iname ∷ root_line (k.dentry k.root).d_iname ∷ rest

  -- From the target's task on, with the events so far, the latest first.
  unfoldable pub write_to : ℕ → List Event → Result × List Event
  write_to pidtask log = elim (k.files pidtask) [
    | none ↦ (oops, log)
    | some files ↦ elim (k.fcheck_files files 1) [
      | none ↦ (minus_one, log)
      | some file ↦ elim (k.f_op file) [
        | none ↦ (minus_one, log)
        | some fileop ↦ elim (k.write fileop) [
          | none ↦ (oops, log)
          | some fn ↦ (finished, wrote fn file msg 0 ∷ log)
        ]
      ]
    ]
  ]

  unfoldable pub target : ℤ → Result × List Event
  target tgt_pid = elim (k.find_get_pid tgt_pid) [
    | none ↦ (minus_one, [])
    | some tgtpid_task ↦ elim (k.get_pid_task tgtpid_task) [
      | none ↦ (minus_one, got_pid tgtpid_task ∷ [])
      | some pidtask ↦ write_to pidtask (got_task pidtask ∷ got_pid tgtpid_task ∷ [])
    ]
  ]

  unfoldable pub thread_fn : ℤ → List (Line B) × (Result × List Event)
  thread_fn tgt_pid = (directory_lines, target tgt_pid)

-- `vfs_module_init`, by what `kthread_create` gives: an error, here without its sign, or a task, which
-- is woken; `vfs_module_exit` does nothing.
pub data Init : Type 0 where
  init_error : ℕ → Init
  woken : ℕ → Init

pub data Created : Type 0 where
  err_ptr : ℕ → Created
  kthread : ℕ → Created

unfoldable pub vfs_module_init : Created → Init
vfs_module_init (err_ptr e) = init_error e
vfs_module_init (kthread t) = woken t
