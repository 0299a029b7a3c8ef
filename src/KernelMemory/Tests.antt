-- ===== src/KernelMemory/Tests.antt =====
-- studios/studio12/kernel_memory.c at small inputs, and the theorems at inputs.
use cse422_archive.KernelMemory.Words.{Mapped}
use cse422_archive.KernelMemory.Lifetime.{new_block, lifetime-clean}
use cse422_archive.Base.{ℕ, ◌+◌, ◌^◌, ◌≡◌, refl, true, none, some, arith, ltb, if◌then◌else◌}
use cse422_archive.KernelMemory.Order.{shift_loop, my_get_order, Covers, my_get_order-Covers}
use cse422_archive.KernelMemory.Program.{
  store, load, fill_words, fill_structs, fill_pages, check_words, check_structs, check_pages,
  thread_fn, kernel_memory_exit, kernel_memory_init, lifetime, Kernel,
}
use cse422_archive.KernelMemory.NoBlock.{lifetime-fault}
use cse422_archive.Machine.{done, fault}

orders : (my_get_order 1 ≡ some 0) × (my_get_order 8 ≡ some 3) × (my_get_order 9 ≡ some 4)
unfolding my_get_order shift_loop
orders = (refl, refl, refl)

my_get_order-Covers_example : (order : ℕ) × (my_get_order 63 ≡ some order) × Covers 63 order
my_get_order-Covers_example = my_get_order-Covers 63 (omega arith) (omega arith)

-- Two structs to a page, at physical addresses from 4096 on that are mapped 1000 higher.
abbrev small_pages : Kernel
small_pages = record {
  page_size = 70;
  ulong_mod = 2 ^ 64;
  alloc_pages = λ o. if ltb o 20 then some 4096 else none;
  null_address = 0;
  va = λ x. x + 1000;
  contents = λ _. 7;
}

abbrev no_memory : Kernel
no_memory = record small_pages { alloc_pages = λ _. none }

three_structs : lifetime small_pages 3 none true ≡ done (some true)
unfolding lifetime kernel_memory_init kernel_memory_exit thread_fn fill_pages fill_structs
    fill_words check_pages check_structs check_words my_get_order shift_loop store load
three_structs = refl

lifetime-fault_example : lifetime no_memory 3 none true ≡ fault
lifetime-fault_example =
    lifetime-fault no_memory 3 true (omega arith) (omega arith) (omega arith) (λ _ o. refl)

two_pages : my_get_order 2 ≡ some 1
unfolding my_get_order shift_loop
two_pages = refl

two_pages-Mapped : Mapped small_pages (new_block small_pages 1 4096)
two_pages-Mapped = record {
  linear = λ x h. omega arith;
  below = omega arith;
  nonnull = omega arith;
}

lifetime-clean_example : lifetime small_pages 3 none true ≡ done (some true)
lifetime-clean_example =
    lifetime-clean small_pages 3 1 4096 (omega arith) (omega arith) (omega arith) two_pages refl
      two_pages-Mapped
