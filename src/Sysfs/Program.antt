-- ===== src/Sysfs/Program.antt =====
-- The attribute files of studios/studio5/kobject-example.c and family_reader.c. The kernel is a
-- parameter: `kstrtoint` in base 10, the printing of an `int`, and the processes. `printk` of the
-- ancestors is kept as a list; other messages are left out.
use cse422_archive.Base.{
  ℕ, zero, suc, ◌-◌, Bool, not, Option, none, some, List, [], ◌∷◌, ltb, ◌==◌, if◌then◌else◌, ℤ,
}

-- `kstrtoint` gives a number, or a negative error, here without its sign.
pub data Parsed : Type 0 where
  parse_error : ℕ → Parsed
  parsed : ℤ → Parsed

-- What a `store` returns: an error, without its sign, or the count of bytes.
pub data Stored : Type 0 where
  refused : ℕ → Stored
  accepted : ℕ → Stored

-- A process: its number, and its real parent.
pub record Task : Type 0 where
  pub pid : ℕ
  pub real_parent : ℕ

-- `find_vpid` with `get_pid_task`: the address of a task; and what is at an address.
pub record Kernel (B : Type 0) : Type 0 where
  pub kstrtoint : B → Parsed
  pub print_int : ℤ → B
  pub find_task : ℤ → Option ℕ
  pub task_at : ℕ → Task

-- kobject-example.c: the three variables, and the three attributes by their names.
pub record Variables : Type 0 where
  pub foo : ℤ
  pub baz : ℤ
  pub bar : ℤ

pub data Attribute : Type 0 where
  foo_attribute baz_attribute bar_attribute : Attribute

module _ {B : Type 0} (k : Kernel B) where
  -- `foo_show`, and `b_show`, which looks at the attribute's name.
  unfoldable pub show : Attribute → Variables → B
  show foo_attribute v = k.print_int v.foo
  show baz_attribute v = k.print_int v.baz
  show bar_attribute v = k.print_int v.bar

  abbrev pub stored : Attribute → ℤ → Variables → Variables
  stored foo_attribute n v = record v { foo = n }
  stored baz_attribute n v = record v { baz = n }
  stored bar_attribute n v = record v { bar = n }

  -- `foo_store` and `b_store`.
  unfoldable pub store : Attribute → B → ℕ → Variables → Stored × Variables
  store a buf count v = elim (k.kstrtoint buf) [
    | parse_error e ↦ (refused e, v)
    | parsed n ↦ (accepted count, stored a n v)
  ]

  -- family_reader.c: the loop, with `maxDepth`; it gives the processes that it prints, the latest
  -- last, and ends with the line for "init/root".
  unfoldable pub walk : ℕ → Task → List ℕ
  walk zero t = t.pid ∷ []
  walk (suc depth) t =
      let rest = walk depth (k.task_at t.real_parent) in
      if ltb 1 t.pid then t.pid ∷ rest else t.pid ∷ []

  abbrev pub max_depth : ℕ
  max_depth = 500

  unfoldable pub ancestors : ℤ → List ℕ
  ancestors pid = elim (k.find_task pid) [ none ↦ [] | some a ↦ walk max_depth (k.task_at a) ]

  -- `pidme_store`: the result, the variable, and the lines of processes.
  unfoldable pub pidme_store : B → ℕ → ℤ → Stored × ℤ × List ℕ
  pidme_store buf count pidme = elim (k.kstrtoint buf) [
    | parse_error e ↦ (refused e, pidme, [])
    | parsed n ↦ (accepted count, n, ancestors n)
  ]

  unfoldable pub pidme_show : ℤ → B
  pidme_show pidme = k.print_int pidme

-- `example_init` of both files: whether `kobject_create_and_add` and `sysfs_create_group` succeed,
-- and then the references to the kernel object that are left.
pub data Init : Type 0 where
  no_memory : Init
  group_failed : (error references : ℕ) → Init
  ready : (references : ℕ) → Init

unfoldable pub example_init : Bool → ℕ → Init
example_init created group =
    if not created then no_memory else if group == 0 then ready 1 else group_failed group (1 - 1)

unfoldable pub example_exit : ℕ → ℕ
example_exit references = references - 1
