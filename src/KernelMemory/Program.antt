-- ===== src/KernelMemory/Program.antt =====
-- The module of studios/studio12/kernel_memory.c. `printk` is left out. A block is the memory behind
-- the pages that `alloc_pages` gives, an array of `unsigned int`s by their addresses; an access
-- outside it is a fault. `kthread_stop` waits for the thread's end.
use cse422_archive.Base.{
  ℕ, zero, suc, ◌+◌, ◌*◌, ◌/◌, ◌%◌, ◌^◌, Bool, true, false, ◌&&◌, not, Option, none, some, ltb, leb,
  ◌==◌, if◌then◌else◌, update,
}
use cse422_archive.KernelMemory.Order.{my_get_order}
use cse422_archive.Machine.{◌>>=◌, Outcome, done, fault, out_of_fuel}

-- `sizeof(datatype)` and ARR_SIZE
abbrev pub struct_size : ℕ
struct_size = 32

abbrev pub arr_size : ℕ
arr_size = 8

-- The kernel's side: `alloc_pages` gives the physical address of a block of 2^order pages, for NULL
-- `page_to_pfn` gives some address, `__va` gives a physical address's virtual one, and `contents` is
-- what new pages hold.
pub record Kernel : Type 0 where
  pub page_size : ℕ
  pub ulong_mod : ℕ
  pub alloc_pages : ℕ → Option ℕ
  pub null_address : ℕ
  pub va : ℕ → ℕ
  pub contents : ℕ → ℕ

pub record Block : Type 0 where
  pub physical : ℕ
  pub start : ℕ
  pub bytes : ℕ
  pub words : ℕ → ℕ

-- The module's variables. `blocks` is what is allocated at `pages`.
pub record Module : Type 0 where
  pub nr_structs_per_page : ℕ
  pub nr_pages : ℕ
  pub order : ℕ
  pub pages : Option Block

abbrev pub loaded : Module
loaded = record { nr_structs_per_page = 0; nr_pages = 0; order = 0; pages = none }

abbrev pub inside : Block → ℕ → Bool
inside b a = not (ltb a b.start) && leb (a + 4) (b.start + b.bytes)

unfoldable pub store : Option Block → ℕ → ℕ → Outcome (Option Block)
store none a v = fault
store (some b) a v =
    if inside b a then done (some (record b { words = update b.words a v })) else fault

unfoldable pub load : Option Block → ℕ → Outcome ℕ
load none a = fault
load (some b) a = if inside b a then done (b.words a) else fault

-- `PFN_PHYS(page_to_pfn(pages))`
abbrev pub pages_phy_addr : Kernel → Option Block → ℕ
pages_phy_addr k none = k.null_address
pages_phy_addr k (some b) = b.physical

module _ (k : Kernel) (per : ℕ) where
  -- `i*nr_structs_per_page*ARR_SIZE + j*ARR_SIZE + k`, and the address of the struct.
  abbrev pub number : ℕ → ℕ → ℕ → ℕ
  number i j n = (i * per * arr_size + j * arr_size + n) % 2 ^ 32

  abbrev pub struct_address : ℕ → ℕ → ℕ → ℕ
  struct_address phys i j =
      k.va (((phys + i * k.page_size) % k.ulong_mod + j * struct_size) % k.ulong_mod)

  -- The loops of `thread_fn`, with the rounds that are left. A null struct is only reported.
  unfoldable pub fill_words : ℕ → ℕ → ℕ → ℕ → ℕ → Option Block → Outcome (Option Block)
  fill_words zero i j n this_struct b = done b
  fill_words (suc rounds) i j n this_struct b = do
    b ← (if this_struct == 0 then done b else store b (this_struct + 4 * n) (number i j n))
    fill_words rounds i j (n + 1) this_struct b

  unfoldable pub fill_structs : ℕ → ℕ → ℕ → ℕ → Option Block → Outcome (Option Block)
  fill_structs zero phys i j b = done b
  fill_structs (suc rounds) phys i j b = do
    b ← fill_words arr_size i j 0 (struct_address phys i j) b
    fill_structs rounds phys i (j + 1) b

  unfoldable pub fill_pages : ℕ → ℕ → ℕ → Option Block → Outcome (Option Block)
  fill_pages zero phys i b = done b
  fill_pages (suc rounds) phys i b = do
    b ← fill_structs per phys i 0 b
    fill_pages rounds phys (i + 1) b

  -- The loops of `kernel_memory_exit`. They carry `cleanData`.
  unfoldable pub check_words : ℕ → ℕ → ℕ → ℕ → ℕ → Option Block → Bool → Outcome Bool
  check_words zero i j n this_struct b clean = done clean
  check_words (suc rounds) i j n this_struct b clean = do
    x ← load b (this_struct + 4 * n)
    check_words rounds i j (n + 1) this_struct b (if x == number i j n then clean else false)

  unfoldable pub check_structs : ℕ → ℕ → ℕ → ℕ → Option Block → Bool → Outcome Bool
  check_structs zero phys i j b clean = done clean
  check_structs (suc rounds) phys i j b clean = do
    clean ← check_words arr_size i j 0 (struct_address phys i j) b clean
    check_structs rounds phys i (j + 1) b clean

  unfoldable pub check_pages : ℕ → ℕ → ℕ → Option Block → Bool → Outcome Bool
  check_pages zero phys i b clean = done clean
  check_pages (suc rounds) phys i b clean = do
    clean ← check_structs per phys i 0 b clean
    check_pages rounds phys (i + 1) b clean

-- The calculations at the start of `thread_fn`.
abbrev pub structs_per_page : Kernel → ℕ
structs_per_page k = k.page_size / struct_size % 2 ^ 32

abbrev pub pages_needed : ℕ → ℕ → ℕ
pages_needed nr_structs per =
    if nr_structs % per == 0 then nr_structs / per else nr_structs / per + 1

abbrev pub order_of : Option ℕ → Outcome ℕ
order_of none = out_of_fuel
order_of (some n) = done n

abbrev pub block_of : Kernel → ℕ → Option ℕ → Option Block
block_of k order none = none
block_of k order (some phys) = some (record {
  physical = phys;
  start = k.va phys;
  bytes = 2 ^ order * k.page_size;
  words = k.contents;
})

unfoldable pub thread_fn : Kernel → ℕ → Outcome Module
thread_fn k nr_structs = do
  let per = structs_per_page k
  let nr_pages = pages_needed nr_structs per
  order ← order_of (my_get_order nr_pages)
  let b = block_of k order (k.alloc_pages order)
  b ← fill_pages k per nr_pages (pages_phy_addr k b) 0 b
  done (record { nr_structs_per_page = per; nr_pages = nr_pages; order = order; pages = b })

-- `__free_pages` of NULL is a fault.
abbrev pub free_pages : Option Block → Outcome (Unit {0})
free_pages none = fault
free_pages (some b) = done tt

-- `kernel_memory_exit` gives `cleanData`.
unfoldable pub kernel_memory_exit : Kernel → Module → Outcome Bool
kernel_memory_exit k m = do
  clean ← check_pages k m.nr_structs_per_page m.nr_pages (pages_phy_addr k m.pages) 0 m.pages true
  _ ← free_pages m.pages
  done clean

-- `kernel_memory_init`: the error of `kthread_create`, or 0 with the thread woken. The thread may
-- not have run yet when the module is removed; `kthread_stop` then keeps it from running.
pub data Loading : Type 0 where
  create_failed : (error : ℕ) → Loading
  thread_woken : Loading

unfoldable pub kernel_memory_init : Option ℕ → Loading
kernel_memory_init (some error) = create_failed error
kernel_memory_init none = thread_woken

-- Loading and removing the module: `cleanData`, or `none` where the loading fails.
unfoldable pub lifetime : Kernel → ℕ → Option ℕ → Bool → Outcome (Option Bool)
lifetime k nr_structs created ran = elim (kernel_memory_init created) [
  | create_failed error ↦ done none
  | thread_woken ↦ (if ran then thread_fn k nr_structs else done loaded) >>= λ m.
      kernel_memory_exit k m >>= λ clean. done (some clean)
]
