-- ===== src/Device/Tests.antt =====
-- Programs of labs/lab2/user on the sample device, and the theorems at inputs.
use cse422_archive.Machine.{Done, fault}
use cse422_archive.Sort.Program.{main}
use cse422_archive.Sort.Main.{Finished}
use cse422_archive.Sort.Sample.{whole, dice, four}
use cse422_archive.Device.Quicksort.{main-by_pages}
use cse422_archive.Base.{ℕ, ◌+◌, ◌*◌, ◌%◌, ◌≤◌, ◌≡◌, refl, ◌≢◌, true, some, arith}
use cse422_archive.Device.Elements.{element-mapped}
use cse422_archive.Paging.Prepage.{remapped}
use cse422_archive.Paging.Sample.{generous, area, fresh, fresh-Balanced, all_mapped, prepaging_runs}

sample-aligned :
    (j : ℕ)
    → generous.page_align (area.vm_start + j * generous.page_size)
      ≡ area.vm_start + j * generous.page_size
sample-aligned j = omega arith

-- The range of the sample is that of 1500 doubles, in three pages of 512.
element-mapped_example :
    (p : ℕ) × (p ≤ area.vm_start + 8 * 1499)
    × (area.vm_start + 8 * 1499 + 8 ≤ p + generous.page_size)
    × (remapped p all_mapped.calls ≡ true)
element-mapped_example =
    element-mapped generous 512 1500 (omega arith) refl area refl sample-aligned (omega arith)
      (fresh 0) (fresh-Balanced 0) 1499 refl prepaging_runs (omega arith)

-- Three doubles on pages of two.
main-by_pages_example :
    (3 % 2 ≢ 0 → Done (Finished whole dice 3) (main whole dice 4 2 3 true (some four)))
    × (3 % 2 ≡ 0 → main whole dice 4 2 3 true (some four) ≡ fault)
main-by_pages_example =
    main-by_pages whole dice 3 3 2 four refl (omega arith) (omega arith) (omega arith) (omega arith)
      (λ c. refl) refl
