-- ===== src/Paging/Tests.antt =====
-- labs/lab2/mod/paging.c on small inputs: runs, and the theorems at inputs that meet their
-- hypotheses.
use cse422_archive.Paging.Close.{AllFreed, set_count, paging_vma_close-last}
use cse422_archive.Paging.Prepage.{remapped}
use cse422_archive.Paging.Mmap.{paging_mmap-Balanced, paging_mmap-Covers}
use cse422_archive.Paging.Safety.{no_page_lost, close_returns}
use cse422_archive.Base.{
  ℕ, ◌+◌, ◌*◌, ◌%◌, ◌^◌, ◌≡◌, refl, true, Option, none, some, [], ◌∷◌, arith, length,
}
use cse422_archive.Paging.Kernel.{Run, ok, Kernel, State}
use cse422_archive.Paging.Driver.{
  do_fault, paging_vma_fault, paging_vma_close, prepage_all, paging_mmap, kmod_paging_init,
  vm_fault_nopage, mapped,
}
use cse422_archive.Paging.Sample.{
  generous, area, fresh, fresh-Balanced, state_of, placed, all_mapped, prepaging_runs,
}
use cse422_archive.Paging.Ledger.{held, pages, Keeps, Ends, Balanced}
use cse422_archive.Paging.System.{booted, granted, faulted_in, Step, Reach, start, later, System}
use cse422_archive.Paging.Contract.{Performs}
use cse422_archive.Paging.Refinement.{view, operation, Step-Performs}

-- The same with no memory for `kmalloc`.
abbrev starved : Kernel
starved = record generous { kmalloc_reply = λ _. none }

result_of : {A : Type 0} → Run A → Option A
result_of (ok a s) = some a
result_of _ = none

-- Three pages are mapped at once with demand paging off.
prepaged : Option ℕ
unfolding paging_mmap prepage_all do_fault
prepaged = elim (paging_mmap generous area (fresh 0)) [ ok _ t ↦ some t.alloc_count | _ ↦ none ]

prepaged_three : prepaged ≡ some 3
unfolding prepaged
prepaged_three = refl

-- The state after `mmap` with demand paging on, and after a fault in the mapping.
abbrev one_mapped : State
one_mapped = state_of (paging_mmap generous area (fresh 1)) (fresh 1)

abbrev one_faulted : State
one_faulted = state_of (paging_vma_fault generous placed 8192 one_mapped) one_mapped

mmap_runs : paging_mmap generous area (fresh 1) ≡ ok (mapped, placed) one_mapped
unfolding paging_mmap prepage_all do_fault
mmap_runs = refl

fault_runs : paging_vma_fault generous placed 8192 one_mapped ≡ ok vm_fault_nopage one_faulted
unfolding paging_mmap prepage_all do_fault paging_vma_fault
fault_runs = refl

init_runs : kmod_paging_init generous (booted 1) ≡ ok 0 (fresh 1)
unfolding kmod_paging_init
init_runs = refl

abbrev in_use : System
in_use = record { mem = one_faulted; vmas = placed ∷ [] }

abbrev fault_step : Step generous (record { mem = one_mapped; vmas = placed ∷ [] }) in_use
fault_step = faulted_in placed vm_fault_nopage 8192 [] [] refl fault_runs

mapped-Reach : Reach generous 1 (record { mem = one_mapped; vmas = placed ∷ [] })
mapped-Reach =
    later (start init_runs)
      (granted area placed (λ a h. refl) (omega arith) (omega arith) mmap_runs)

in_use-Reach : Reach generous 1 in_use
in_use-Reach = later mapped-Reach fault_step

no_page_lost_example :
    (held in_use.mem.calls ≡ some (pages in_use.mem.ref_page_list))
    × (in_use.mem.alloc_count ≡ (in_use.mem.free_count + length in_use.mem.ref_page_list) % 2 ^ 32)
no_page_lost_example = no_page_lost generous (omega arith) in_use-Reach

Step-Performs_example : Performs (view one_mapped) (operation fault_step) (view in_use.mem)
Step-Performs_example = Step-Performs generous (omega arith) mapped-Reach fault_step

close_returns_example : Ends (λ _ t. Balanced t) (paging_vma_close placed in_use.mem)
close_returns_example = close_returns generous (omega arith) placed [] [] in_use-Reach refl

one_faulted-Balanced : Balanced one_faulted
unfolding paging_mmap prepage_all do_fault paging_vma_fault held
one_faulted-Balanced = record { outstanding = refl; counted = refl; small = omega arith }

one_faulted-struct : one_faulted.pa_states 1 ≡ some 1
unfolding paging_mmap prepage_all do_fault paging_vma_fault
one_faulted-struct = refl

paging_vma_close-last_example :
    Ends
      (λ _ t. Balanced t × AllFreed 1 (set_count 1 0 one_faulted) t)
      (paging_vma_close placed one_faulted)
paging_vma_close-last_example =
    paging_vma_close-last placed 1 one_faulted one_faulted-Balanced refl one_faulted-struct

abbrev twice_open : State
twice_open = set_count 1 2 (fresh 1)

paging_mmap-Covers_example :
    remapped (generous.page_align (8192 + 2 * 4096)) all_mapped.calls ≡ true
paging_mmap-Covers_example =
    paging_mmap-Covers generous (omega arith) area (omega arith) (fresh 0) (fresh-Balanced 0) 2 refl
      prepaging_runs (omega arith)

paging_mmap-Balanced_example : Keeps (λ _ t. Balanced t) (paging_mmap generous area (fresh 0))
paging_mmap-Balanced_example =
    paging_mmap-Balanced generous (omega arith) area (omega arith) (fresh 0) (fresh-Balanced 0)
