-- ===== src/KernelMemory/Lifetime.antt =====
-- The module of studios/studio12/kernel_memory.c from its loading to its removal.
use cse422_archive.KernelMemory.Clean.{check_pages-clean}
use mathlib.Core.Path.{subst}
use native.Mathlib.Nat.{div-add-mod, div-le_self}
use cse422_archive.Base.{
  ℕ, zero, suc, ◌+◌, ◌*◌, ◌%◌, ◌^◌, ◌≤◌, ◌<◌, ◌≡◌, refl, inl, inr, true, none, some, arith, ◌==◌,
  Bool-cases,
}
use cse422_archive.KernelMemory.Order.{my_get_order, my_get_order-Covers}
use cse422_archive.KernelMemory.Program.{
  struct_size, arr_size, number, structs_per_page, pages_needed, thread_fn, kernel_memory_exit,
  kernel_memory_init, lifetime, Kernel, Block, Module,
}
use cse422_archive.KernelMemory.Words.{Mapped, SamePlace}
use cse422_archive.KernelMemory.Fill.{fill_pages-Writes}
use cse422_archive.Machine.{Outcome, done}

pub my_get_order-enough :
    (value : ℕ) → value < 2 ^ 32 → (o : ℕ) × (my_get_order value ≡ some o) × (value ≤ 2 ^ o)
unfolding my_get_order
my_get_order-enough zero word = (0, refl, omega arith)
my_get_order-enough (suc v) word =
    let (o, e, c) = my_get_order-Covers (suc v) (omega arith) word in (o, e, c.0)

-- The block that `alloc_pages` gives.
abbrev pub new_block : Kernel → ℕ → ℕ → Block
new_block k order phys = record {
  physical = phys;
  start = k.va phys;
  bytes = 2 ^ order * k.page_size;
  words = k.contents;
}

pub pages_needed-word : (n per : ℕ) → n < 2 ^ 32 → 0 < per → pages_needed n per < 2 ^ 32
pages_needed-word n per h p = elim (Bool-cases (n % per == 0)) [
  | inl e ↦ rw e (omega (arith, div-le_self n per))
  | inr e ↦ rw e (grind (arith, div-add-mod n per))
]

-- After the thread, the module has its numbers of pages and structs, and a block with every word
-- of every struct set to its number.
order-covers : (value o : ℕ) → value < 2 ^ 32 → my_get_order value ≡ some o → value ≤ 2 ^ o
order-covers value o word e =
    let (o', e', c) = my_get_order-enough value word in subst (λ x. value ≤ 2 ^ x) (cc) c

module _ (k : Kernel) (nr_structs order phys : ℕ) where
  -- After the thread, the module has its numbers of pages and structs, and a block with every word
  -- of every struct set to its number.
  pub record Holds (r : Outcome Module) : Type 0 where
    pub block : Block
    pub result :
        r
        ≡ done (record {
          nr_structs_per_page = structs_per_page k;
          nr_pages = pages_needed nr_structs (structs_per_page k);
          order = order;
          pages = some block;
        })
    pub place : SamePlace (new_block k order phys) block
    pub numbers :
        (i j m : ℕ)
        → i < pages_needed nr_structs (structs_per_page k)
        → j < structs_per_page k
        → m < arr_size
        → block.words (k.va phys + (i * k.page_size + j * struct_size) + 4 * m)
          ≡ number k (structs_per_page k) i j m

module _ (k : Kernel) (nr_structs order phys : ℕ) (room : struct_size ≤ k.page_size)
    (small : k.page_size < 2 ^ 37) (word : nr_structs < 2 ^ 32)
    (ordered : my_get_order (pages_needed nr_structs (structs_per_page k)) ≡ some order)
    (got : k.alloc_pages order ≡ some phys) (mapped : Mapped k (new_block k order phys)) where
  per : ℕ
  per = structs_per_page k

  pages : ℕ
  pages = pages_needed nr_structs per

  enough : pages ≤ 2 ^ order
  unfolding pages per
  enough = order-covers pages order (pages_needed-word nr_structs per word (omega arith)) ordered

  -- With pages of at least a struct and less than 2^37 bytes, fewer than 2^32 structs, and an
  -- `alloc_pages` that gives, for the order that the thread computes, a block mapped as one piece,
  -- `thread_fn` makes no access outside its block and ends with every word of every struct of every
  -- page set to its number.
  pub thread_fn-Holds : Holds k nr_structs order phys (thread_fn k nr_structs)
  unfolding thread_fn pages per
  thread_fn-Holds =
      let w =
        fill_pages-Writes k per (new_block k order phys) mapped (omega arith) pages pages 0
          (new_block k order phys) (record { physical = refl; start = refl; bytes = refl })
          (omega arith) (grind (arith, enough)) in
      record {
        block = w.after;
        result = rw (ordered, got, w.result) refl;
        place = w.place;
        numbers = λ i j m x y z. w.wrote i (omega arith) x j (omega arith) y m (omega arith) z;
      }

  -- With pages of at least a struct and less than 2^37 bytes, fewer than 2^32 structs, and an
  -- `alloc_pages` that gives, for the order that the thread computes, a block mapped as one piece,
  -- the module's life, its thread run, has no access outside the block, and the check on its removal
  -- finds no corrupt word.
  pub lifetime-clean : lifetime k nr_structs none true ≡ done (some true)
  unfolding lifetime kernel_memory_init kernel_memory_exit pages per
  lifetime-clean =
      let h = thread_fn-Holds in
      rw h.result (
        rw
          (
            h.place.physical,
            check_pages-clean k per (new_block k order phys) mapped (omega arith) h.block h.place
                pages pages 0 (omega arith) (grind (arith, enough))
                (λ i a b j c d m e f. h.numbers i j m b d f),
          )
          refl)
