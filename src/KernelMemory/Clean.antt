-- ===== src/KernelMemory/Clean.antt =====
-- What the module of studios/studio12/kernel_memory.c finds when it checks its pages on exit.
use cse422_archive.KernelMemory.Words.{WroteStruct, Mapped, SamePlace}
use cse422_archive.Base.{ℕ, zero, suc, ◌+◌, ◌*◌, ◌≤◌, ◌≡◌, refl, true, some, arith, ◌==◌}
use cse422_archive.KernelMemory.Program.{
  inside, load, number, check_words, check_structs, check_pages, Kernel, Block,
}
use cse422_archive.KernelMemory.Fill.{struct_address-eq, WrotePage, WrotePages}
use cse422_archive.Machine.{done}

load-inside :
    (b : Block) (a : ℕ)
    → b.start ≤ a
    → a + 4 ≤ b.start + b.bytes
    → load (some b) a ≡ done (b.words a)
unfolding load
load-inside b a lo hi = rw e refl
  where
    e : inside b a ≡ true
    e = ground arith

module _ (k : Kernel) (per : ℕ) where
  check_words-clean :
      (rounds i j n s : ℕ) (b : Block)
      → n + rounds ≡ 8
      → b.start ≤ s
      → s + 32 ≤ b.start + b.bytes
      → WroteStruct k per i j n s b.words
      → check_words k per rounds i j n s (some b) true ≡ done true
  unfolding check_words
  check_words-clean zero i j n s b e lo hi w = refl
  check_words-clean (suc rounds) i j n s b e lo hi w =
      rw (load-inside b (s + 4 * n) (omega arith) (omega arith), same)
        (check_words-clean rounds i j (n + 1) s b (omega arith) lo hi
          (λ m x y. w m (omega arith) y))
    where
      same : (b.words (s + 4 * n) == number k per i j n) ≡ true
      same = ground (arith, w n (omega arith) (omega arith))

  module _ (b₀ : Block) (mapped : Mapped k b₀) (fits : per * 32 ≤ k.page_size) (b : Block)
      (same : SamePlace b₀ b) where
    check_structs-clean :
        (rounds i j : ℕ)
        → j + rounds ≡ per
        → i * k.page_size + k.page_size ≤ b₀.bytes
        → WrotePage k per b₀ mapped fits i j b.words
        → check_structs k per rounds b₀.physical i j (some b) true ≡ done true
    unfolding check_structs
    check_structs-clean zero i j e room w = refl
    check_structs-clean (suc rounds) i j e room w =
        rw
          (
            struct_address-eq k per b₀ mapped fits i j (omega arith),
            check_words-clean 8 i j 0 (b₀.start + (i * k.page_size + j * 32)) b refl
                (omega (arith, same.start)) (omega (arith, same.start, same.bytes))
                (w j (omega arith) (omega arith)),
          )
          (check_structs-clean rounds i (j + 1) (omega arith) room (λ l x y. w l (omega arith) y))

    pub check_pages-clean :
        (rounds pages i : ℕ)
        → i + rounds ≡ pages
        → pages * k.page_size ≤ b₀.bytes
        → WrotePages k per b₀ mapped fits pages i b.words
        → check_pages k per rounds b₀.physical i (some b) true ≡ done true
    unfolding check_pages
    check_pages-clean zero pages i e room w = refl
    check_pages-clean (suc rounds) pages i e room w =
        rw
          (check_structs-clean per i 0 (omega arith) (omega (arith, page_room))
            (w i (omega arith) (omega arith)))
          (check_pages-clean rounds pages (i + 1) (omega arith) room (λ l x y. w l (omega arith) y))
      where
        page_room : i * k.page_size + k.page_size ≤ pages * k.page_size
        page_room = grind arith
