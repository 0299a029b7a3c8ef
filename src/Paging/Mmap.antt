-- ===== src/Paging/Mmap.antt =====
-- `paging_mmap` of labs/lab2/mod/paging.c: what it has mapped, what it owes, and when it can fault.
use cse422_archive.Paging.Prepage.{
  remapped, Keeps-mono, Keeps-bind, Keeps-ok, CoversIf, Prepaged, prepage-Prepaged,
}
use cse422_archive.Base.{
  ℕ, ◌+◌, ◌-◌, ◌*◌, ◌≤◌, ◌<◌, ◌≡◌, refl, inl, inr, true, false, Option, none, some, ◌∷◌, arith,
  ◌==◌, Bool-cases, Option-cases, update,
}
use cse422_archive.Paging.Kernel.{and_then, log, Call, ok, oops, Kernel, State}
use cse422_archive.Paging.Driver.{
  do_fault, prepage_all, with_flags, mmap_at, paging_mmap, MmapResult, mapped, enomem, Vma,
}
use cse422_archive.Paging.Ledger.{held, Keeps, Balanced}

-- The node of a page is allocated with no check: where the kernel has a page, maps it, and has no
-- memory for the node, the handler writes through a null pointer.
pub do_fault-oops :
    (k : Kernel) (addr page : ℕ) (s : State)
    → k.alloc_reply s.calls ≡ some page
    → k.remap_reply (Call.alloc_page (some page) ∷ s.calls) (k.page_align addr) page ≡ 0
    → k.kmalloc_reply
        (Call.remap_pfn_range (k.page_align addr) page 0 ∷ Call.alloc_page (some page) ∷ s.calls)
      ≡ none
    → do_fault k addr s ≡ oops
unfolding do_fault
do_fault-oops k addr page s got done refused = ground arith

abbrev counted_one : ℕ → State → State
counted_one a s = record s { pa_states = update s.pa_states a (some 1) }

-- The mapping and the state from which `paging_mmap` goes on once `kmalloc` has answered `a`.
abbrev pub tracked : Kernel → ℕ → Vma → Vma
tracked k a vma = record (with_flags k vma) { vm_private_data = some a }

abbrev pub started : ℕ → State → State
started a s = counted_one a (log (Call.kmalloc (some a)) s)

started-Balanced : (a : ℕ) (s : State) → Balanced s → Balanced (started a s)
unfolding held
started-Balanced a s b = record {
  outstanding = b.outstanding;
  counted = b.counted;
  small = b.small;
}

refused-Balanced : (s : State) → Balanced s → Balanced (log (Call.kmalloc none) s)
unfolding held
refused-Balanced s b = record { outstanding = b.outstanding; counted = b.counted; small = b.small }

pub paging_mmap-tracked :
    (k : Kernel) (a : ℕ) (vma : Vma) (s : State)
    → k.kmalloc_reply s.calls ≡ some a
    → paging_mmap k vma s
      ≡ and_then (prepage_all k (tracked k a vma) (started a s)) (λ r t. ok (r, tracked k a vma) t)
unfolding paging_mmap mmap_at
paging_mmap-tracked k a vma s e = rw e

pub paging_mmap-refused :
    (k : Kernel) (vma : Vma) (s : State)
    → k.kmalloc_reply s.calls ≡ none
    → paging_mmap k vma s ≡ ok (enomem, with_flags k vma) (log (Call.kmalloc none) s)
unfolding paging_mmap mmap_at
paging_mmap-refused k vma s e = rw e

prepage_all-lazy :
    (k : Kernel) (vma : Vma) (s : State)
    → (s.demand_paging == 0) ≡ false
    → prepage_all k vma s ≡ ok mapped s
unfolding prepage_all
prepage_all-lazy k vma s e = rw e

module _ (k : Kernel) (pos : 0 < k.page_size) (vma : Vma)
    (fits : vma.vm_end + k.page_size ≤ k.ulong_mod) (s : State) (b : Balanced s) where
  prepage_all-Prepaged :
      (s.demand_paging == 0) ≡ true
      → Keeps (Prepaged k vma.vm_start vma.vm_end s) (prepage_all k vma s)
  unfolding prepage_all
  prepage_all-Prepaged e = rw e (
      prepage-Prepaged k vma.vm_end pos fits (vma.vm_end - vma.vm_start + 1) vma.vm_start s
        (omega arith) b)

  prepage_all-Structs : Keeps (λ _ t. t.pa_states ≡ s.pa_states) (prepage_all k vma s)
  prepage_all-Structs = elim (Bool-cases (s.demand_paging == 0)) [
    | inl e ↦
        Keeps-mono (Prepaged k vma.vm_start vma.vm_end s) _ (prepage_all k vma s)
          (prepage_all-Prepaged e) (λ r t p. p.1.0.1)
    | inr e ↦ rw (prepage_all-lazy k vma s e) refl
  ]

  prepage_all-Balanced : Keeps (λ _ t. Balanced t) (prepage_all k vma s)
  prepage_all-Balanced = elim (Bool-cases (s.demand_paging == 0)) [
    | inl e ↦
        Keeps-mono (Prepaged k vma.vm_start vma.vm_end s) _ (prepage_all k vma s)
          (prepage_all-Prepaged e) (λ r t p. p.1.1)
    | inr e ↦ rw (prepage_all-lazy k vma s e) b
  ]

module _ (k : Kernel) (pos : 0 < k.page_size) (vma : Vma)
    (fits : vma.vm_end + k.page_size ≤ k.ulong_mod) (s : State) (b : Balanced s) where
  -- From a balanced ledger, for pages of positive size and a range whose end is a page or more
  -- below the top of `unsigned long`, `paging_mmap` has enough fuel: it returns unless it stops at
  -- an oops, and whatever it returns, every page that the kernel gave is on the module's list, and
  -- the counters differ by its length.
  pub paging_mmap-Balanced : Keeps (λ _ t. Balanced t) (paging_mmap k vma s)
  paging_mmap-Balanced = elim (Option-cases (k.kmalloc_reply s.calls)) [
    | inl e ↦ rw (paging_mmap-refused k vma s e) (refused-Balanced s b)
    | inr (a, e) ↦ rw (paging_mmap-tracked k a vma s e) (
        Keeps-bind (λ _ t. Balanced t) _ (prepage_all k (tracked k a vma) (started a s)) _
          (prepage_all-Balanced k pos (tracked k a vma) fits (started a s) (started-Balanced a s b))
          (λ r t h. h))
  ]

  Prepaged_all :
      s.demand_paging ≡ 0
      → Keeps (λ x t. CoversIf k x.0 vma.vm_start vma.vm_end t) (paging_mmap k vma s)
  Prepaged_all off = elim (Option-cases (k.kmalloc_reply s.calls)) [
    | inl e ↦ rw (paging_mmap-refused k vma s e) tt
    | inr (a, e) ↦ rw (paging_mmap-tracked k a vma s e) (
        Keeps-bind (Prepaged k vma.vm_start vma.vm_end (started a s)) _
          (prepage_all k (tracked k a vma) (started a s)) _
          (prepage_all-Prepaged k pos (tracked k a vma) fits (started a s) (started-Balanced a s b)
            (ground arith))
          (λ r t h. h.0))
  ]

  -- Which `pa_state_struct`s there are afterwards, by the reply of `kmalloc`.
  abbrev pub Structs : Option ℕ → MmapResult × Vma → State → Type 0
  Structs none x t = (x.0 ≡ enomem) × (t.pa_states ≡ s.pa_states)
  Structs (some a) x t =
      (x.1.vm_private_data ≡ some a) × (t.pa_states ≡ update s.pa_states a (some 1))

  pub paging_mmap-Structs : Keeps (Structs (k.kmalloc_reply s.calls)) (paging_mmap k vma s)
  paging_mmap-Structs = elim (Option-cases (k.kmalloc_reply s.calls)) [
    | inl e ↦ rw (e, paging_mmap-refused k vma s e) (refl, refl)
    | inr (a, e) ↦
        rw (e, paging_mmap-tracked k a vma s e)
          (Keeps-bind (λ _ t. t.pa_states ≡ (started a s).pa_states) _
            (prepage_all k (tracked k a vma) (started a s)) _
            (prepage_all-Structs k pos (tracked k a vma) fits (started a s)
              (started-Balanced a s b))
            (λ r t h. (refl, h)))
  ]

  -- With demand paging off, from a balanced ledger, for pages of positive size and a range whose
  -- end is a page or more below the top of `unsigned long`, a mapping that is granted has every
  -- page of its range mapped before `paging_mmap` returns.
  pub paging_mmap-Covers :
      {v : Vma} {t : State} (i : ℕ)
      → s.demand_paging ≡ 0
      → paging_mmap k vma s ≡ ok (mapped, v) t
      → vma.vm_start + i * k.page_size < vma.vm_end
      → remapped (k.page_align (vma.vm_start + i * k.page_size)) t.calls ≡ true
  paging_mmap-Covers i off done h = Keeps-ok _ (Prepaged_all off) done i h
