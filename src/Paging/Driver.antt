-- ===== src/Paging/Driver.antt =====
-- The operations of labs/lab2/mod/paging.c, in the order of the file. `printk` is left out.
use Prim.Native.Nat.{bit_or}
use cse422_archive.Base.{
  ℕ, zero, suc, ◌+◌, ◌-◌, ◌%◌, Option, none, some, List, [], ◌∷◌, ltb, ◌==◌, if◌then◌else◌,
}
use cse422_archive.Paging.Kernel.{
  Cmd, ◌>>=◌, ◌>>◌, pure, fail, atomic_inc, atomic_dec, log, call_alloc_page, call_remap,
  call_kmalloc, call_free_page, call_kfree, list_add, list_del, count_alloc, count_free,
  load_ref_count, store_ref_count, drop_pa_state, Call, ok, out_of_fuel, Kernel, RefPageNode,
}

pub data VmFault : Type 0 where
  vm_fault_oom vm_fault_sigbus vm_fault_nopage : VmFault

-- `vm_ops` after `paging_mmap`.
pub data VmOps : Type 0 where
  paging_vma_ops : VmOps

-- The fields of `struct vm_area_struct` that the module reads or writes.
pub record Vma : Type 0 where
  pub vm_start : ℕ
  pub vm_end : ℕ
  pub vm_flags : ℕ
  pub vm_ops : Option VmOps
  pub vm_private_data : Option ℕ

-- The return value of `paging_mmap`: 0, ENOMEM (with no minus sign), or a fault code.
pub data MmapResult : Type 0 where
  mapped enomem : MmapResult
  faulted : VmFault → MmapResult

-- `kmalloc` for the node is not checked: the write to `page_node->page` is an oops on NULL.
unfoldable pub track_page : ℕ → Option ℕ → Cmd VmFault
track_page pg none = fail
track_page pg (some a) = do
  list_add (record { address = a; page = pg })
  count_alloc
  pure vm_fault_nopage

unfoldable pub map_page : Kernel → ℕ → Option ℕ → Cmd VmFault
unfolding track_page
map_page k fault_address none = pure vm_fault_oom
map_page k fault_address (some pg) = do
  status ← call_remap k (k.page_align fault_address) pg
  if status == 0
      then (do node ← call_kmalloc k; track_page pg node)
      else (do call_free_page pg; pure vm_fault_sigbus)

unfoldable pub do_fault : Kernel → ℕ → Cmd VmFault
unfolding map_page
do_fault k fault_address = do pg ← call_alloc_page k; map_page k fault_address pg

unfoldable pub paging_vma_fault : Kernel → Vma → ℕ → Cmd VmFault
paging_vma_fault k vma address = do_fault k address

unfoldable pub open_at : Option ℕ → Cmd (Unit {0})
open_at none = fail
open_at (some a) = do n ← load_ref_count a; store_ref_count a (atomic_inc n)

unfoldable pub paging_vma_open : Vma → Cmd (Unit {0})
unfolding open_at
paging_vma_open vma = open_at vma.vm_private_data

-- The loop of `list_for_each_entry_safe`, over the nodes that are left.
unfoldable pub release_pages : List RefPageNode → Cmd (Unit {0})
release_pages [] = pure tt
release_pages (n ∷ ns) = do
  call_free_page n.page
  list_del n.address
  call_kfree n.address
  count_free
  release_pages ns

unfoldable pub release_all : Cmd (Unit {0})
unfolding release_pages
release_all s = release_pages s.ref_page_list s

unfoldable pub drop_if_unused : ℕ → ℕ → Cmd (Unit {0})
drop_if_unused a n = if n == 0 then (do release_all; call_kfree a; drop_pa_state a) else pure tt

unfoldable pub close_at : Option ℕ → Cmd (Unit {0})
close_at none = fail
close_at (some a) = do
  before ← load_ref_count a
  store_ref_count a (atomic_dec before)
  n ← load_ref_count a
  drop_if_unused a n

unfoldable pub paging_vma_close : Vma → Cmd (Unit {0})
unfolding close_at
paging_vma_close vma = close_at vma.vm_private_data

-- The tests of the pre-paging loop on the result of `do_fault`.
unfoldable pub after_fault : VmFault → Cmd MmapResult → Cmd MmapResult
after_fault vm_fault_oom next = pure (faulted vm_fault_oom)
after_fault vm_fault_sigbus next = pure (faulted vm_fault_sigbus)
after_fault vm_fault_nopage next = next

-- The `for` loop of pre-paging. Its `addr` is an `unsigned long`.
unfoldable pub prepage : Kernel → ℕ → ℕ → ℕ → Cmd MmapResult
unfolding after_fault
prepage k zero addr vm_end = λ _. out_of_fuel
prepage k (suc fuel) addr vm_end =
    let round = do_fault k addr >>= λ result.
    after_fault result (prepage k fuel ((addr + k.page_size) % k.ulong_mod) vm_end) in
    if ltb addr vm_end then round else pure mapped

unfoldable pub prepage_all : Kernel → Vma → Cmd MmapResult
unfolding prepage
prepage_all k vma s =
    if s.demand_paging == 0
    then prepage k (vma.vm_end - vma.vm_start + 1) vma.vm_start vma.vm_end s
    else pure mapped s

abbrev pub with_flags : Kernel → Vma → Vma
with_flags k vma = record vma {
  vm_flags = bit_or vma.vm_flags (
      bit_or k.vm_io (
        bit_or k.vm_dontcopy
          (bit_or k.vm_dontexpand (bit_or k.vm_noreserve (bit_or k.vm_dontdump k.vm_pfnmap)))));
  vm_ops = some paging_vma_ops;
}

unfoldable pub mmap_at : Kernel → Vma → Option ℕ → Cmd (MmapResult × Vma)
mmap_at k vma none = pure (enomem, vma)
mmap_at k vma (some a) = do
  store_ref_count a 1
  let vma' = record vma { vm_private_data = some a }
  result ← prepage_all k vma'
  pure (result, vma')

unfoldable pub paging_mmap : Kernel → Vma → Cmd (MmapResult × Vma)
unfolding mmap_at
paging_mmap k vma = do pas ← call_kmalloc k; mmap_at k (with_flags k vma) pas

unfoldable pub kmod_paging_init : Kernel → Cmd ℕ
kmod_paging_init k s =
    let s' = record s { alloc_count = 0; free_count = 0 } in
    let status = k.register_reply s'.calls in
    ok (if status == 0 then 0 else status) (log (Call.misc_register status) s')

unfoldable pub kmod_paging_exit : Cmd (ℕ × ℕ)
kmod_paging_exit s = ok (s.alloc_count, s.free_count) (log Call.misc_deregister s)
