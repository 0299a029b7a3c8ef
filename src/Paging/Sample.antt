-- ===== src/Paging/Sample.antt =====
-- A kernel, a range and a state of labs/lab2/mod/paging.c for tests.
use cse422_archive.Base.{ℕ, ◌+◌, ◌*◌, ◌/◌, ◌^◌, ◌≡◌, refl, none, some, arith, length}
use cse422_archive.Paging.Kernel.{log, Call, Run, ok, Kernel, State}
use cse422_archive.Paging.Driver.{do_fault, prepage_all, paging_mmap, mapped, Vma}
use cse422_archive.Paging.Ledger.{held, Balanced}
use cse422_archive.Paging.Mmap.{tracked}
use cse422_archive.Paging.System.{booted}

-- A kernel whose pages and addresses are new at each call, and whose calls succeed.
abbrev pub generous : Kernel
generous = record {
  page_size = 4096;
  ulong_mod = 2 ^ 32;
  page_align = λ a. (a + 4095) / 4096 * 4096;
  vm_io = 0x4000;
  vm_dontcopy = 0x20000;
  vm_dontexpand = 0x40000;
  vm_noreserve = 0x200000;
  vm_dontdump = 0x4000000;
  vm_pfnmap = 0x400;
  alloc_reply = λ calls. some (length calls);
  remap_reply = λ _ _ _. 0;
  kmalloc_reply = λ calls. some (length calls);
  register_reply = λ _. 0;
}

abbrev pub area : Vma
area = record {
  vm_start = 8192;
  vm_end = 20480;
  vm_flags = 0;
  vm_ops = none;
  vm_private_data = none;
}

abbrev pub fresh : ℕ → State
fresh n = log (Call.misc_register 0) (booted n)

pub fresh-Balanced : (n : ℕ) → Balanced (fresh n)
unfolding held
fresh-Balanced n = record { outstanding = refl; counted = refl; small = omega arith }

abbrev pub state_of : {A : Type 0} → Run A → State → State
state_of (ok a s) _ = s
state_of _ s = s

abbrev pub placed : Vma
placed = tracked generous 1 area

abbrev pub all_mapped : State
all_mapped = state_of (paging_mmap generous area (fresh 0)) (fresh 0)

pub prepaging_runs : paging_mmap generous area (fresh 0) ≡ ok (mapped, placed) all_mapped
unfolding paging_mmap prepage_all do_fault
prepaging_runs = refl
