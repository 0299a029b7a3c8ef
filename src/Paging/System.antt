-- ===== src/Paging/System.antt =====
-- The module of labs/lab2/mod/paging.c in use: mappings come and go, in any order of operations.
use cse422_archive.Paging.Kernel.{ok, Kernel, State}
use cse422_archive.Paging.Driver.{
  paging_vma_fault, paging_vma_open, paging_vma_close, paging_mmap, kmod_paging_init, VmFault,
  MmapResult, mapped, Vma,
}
use cse422_archive.Base.{
  ℕ, suc, ◌+◌, ◌^◌, ◌≤◌, ◌<◌, ◌≡◌, ◌≢◌, Option, none, some, List, [], ◌∷◌, ◌++◌, ◌==◌,
  if◌then◌else◌, length,
}

-- The mappings that are open, and the module's state.
pub record System : Type 0 where
  pub mem : State
  pub vmas : List Vma

-- How many open mappings point to the `pa_state_struct` at `a`.
abbrev pub points : ℕ → Option ℕ → ℕ
points a none = 0
points a (some b) = if b == a then 1 else 0

unfoldable pub users : ℕ → List Vma → ℕ
users a [] = 0
users a (v ∷ vs) = points a v.vm_private_data + users a vs

-- `kmalloc` returns no struct that is in use.
abbrev pub IsFresh : Kernel → State → Type 0
IsFresh k s = (a : ℕ) → k.kmalloc_reply s.calls ≡ some a → s.pa_states a ≡ none

-- What the kernel may do with the module: map, fail to map, fault, copy or split a mapping
-- (`open`), unmap, and set the parameter through sysfs.
pub data Step (k : Kernel) (y : System) : System → Type 0 where
  granted :
      (vma v : Vma) {t : State}
      → IsFresh k y.mem
      → vma.vm_end + k.page_size ≤ k.ulong_mod
      → suc (length y.vmas) < 2 ^ 32
      → paging_mmap k vma y.mem ≡ ok (mapped, v) t
      → Step k y (record { mem = t; vmas = v ∷ y.vmas })
  denied :
      (vma v : Vma) {t : State} (r : MmapResult)
      → IsFresh k y.mem
      → vma.vm_end + k.page_size ≤ k.ulong_mod
      → r ≢ mapped
      → paging_mmap k vma y.mem ≡ ok (r, v) t
      → Step k y (record { mem = t; vmas = y.vmas })
  faulted_in :
      (v : Vma) {t : State} (r : VmFault) (address : ℕ) (xs ys : List Vma)
      → y.vmas ≡ xs ++ v ∷ ys
      → paging_vma_fault k v address y.mem ≡ ok r t
      → Step k y (record { mem = t; vmas = y.vmas })
  opened :
      (v : Vma) {t : State} (xs ys : List Vma)
      → y.vmas ≡ xs ++ v ∷ ys
      → suc (length y.vmas) < 2 ^ 32
      → paging_vma_open v y.mem ≡ ok tt t
      → Step k y (record { mem = t; vmas = v ∷ y.vmas })
  closed :
      (v : Vma) {t : State} (xs ys : List Vma)
      → y.vmas ≡ xs ++ v ∷ ys
      → paging_vma_close v y.mem ≡ ok tt t
      → Step k y (record { mem = t; vmas = xs ++ ys })
  set_param :
      (n : ℕ) → Step k y (record { mem = record y.mem { demand_paging = n }; vmas = y.vmas })

-- The module before `kmod_paging_init`: static data is zero, and nothing has been called.
abbrev pub booted : ℕ → State
booted n = record {
  demand_paging = n;
  ref_page_list = [];
  alloc_count = 0;
  free_count = 0;
  pa_states = λ _. none;
  calls = [];
}

pub data Reach (k : Kernel) (n : ℕ) : System → Type 0 where
  start :
      {s : State}
      → kmod_paging_init k (booted n) ≡ ok 0 s
      → Reach k n (record { mem = s; vmas = [] })
  later : {y z : System} → Reach k n y → Step k y z → Reach k n z
