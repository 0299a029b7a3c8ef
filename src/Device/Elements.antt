-- ===== src/Device/Elements.antt =====
-- The elements of an array that is mapped from the device lie on pages that the module has mapped.
use cse422_archive.Base.{ℕ, ◌+◌, ◌*◌, ◌/◌, ◌≤◌, ◌<◌, ◌≡◌, refl, true, arith}
use cse422_archive.Device.Pages.{rounded}
use cse422_archive.Paging.Kernel.{ok, Kernel, State}
use cse422_archive.Paging.Driver.{paging_mmap, mapped, Vma}
use cse422_archive.Paging.Ledger.{Balanced}
use cse422_archive.Paging.Prepage.{remapped}
use cse422_archive.Paging.Mmap.{paging_mmap-Covers}
use native.Mathlib.Nat.{mod-lt, div-add-mod, mul_comm, mul_left_comm}
use mathlib.Core.Path.{subst}

-- The page of an element, and that its 8 bytes lie on it.
page_bytes :
    (words page_size i : ℕ)
    → page_size ≡ 8 * words
    → i / words * page_size ≡ 8 * (words * (i / words))
page_bytes words page_size i e =
    rw e (rw (mul_left_comm (i / words) 8 words, mul_comm (i / words) words) refl)

module _ (k : Kernel) (words n : ℕ) (some_words : 0 < words) (whole : k.page_size ≡ 8 * words)
    (vma : Vma) (length_rounded : vma.vm_end ≡ vma.vm_start + 8 * rounded words n)
    (aligned : (j : ℕ)
      → k.page_align (vma.vm_start + j * k.page_size) ≡ vma.vm_start + j * k.page_size)
    (fits : vma.vm_end + k.page_size ≤ k.ulong_mod) (s : State) (b : Balanced s) where
  -- Where demand paging is off, the ledger is balanced, pages are of `words` doubles and the range, page
  -- aligned and ending a page or more below the top of `unsigned long`, is that of n doubles rounded up,
  -- the 8 bytes of each double of a mapping that is granted lie on one page, which the module has mapped.
  pub element-mapped :
      {v : Vma} {t : State} (i : ℕ)
      → s.demand_paging ≡ 0
      → paging_mmap k vma s ≡ ok (mapped, v) t
      → i < rounded words n
      → (p : ℕ) × (p ≤ vma.vm_start + 8 * i)
        × (vma.vm_start + 8 * i + 8 ≤ p + k.page_size)
        × (remapped p t.calls ≡ true)
  element-mapped {t} i off done h =
      let e = page_bytes words k.page_size i whole in
      let d = div-add-mod i words in
      let r = mod-lt i some_words in
      (
        vma.vm_start + i / words * k.page_size,
        omega (arith, e, d),
        omega (arith, e, d, r, whole),
        subst (λ x. remapped x t.calls ≡ true) (aligned (i / words))
            (paging_mmap-Covers k (omega (arith, whole)) vma fits s b (i / words) off done
              (omega (arith, e, d, length_rounded, h))),
      )
