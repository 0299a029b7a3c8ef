-- ===== src/KernelMemory/NoBlock.antt =====
-- The module of studios/studio12/kernel_memory.c without its pages.
use cse422_archive.Base.{
  ℕ, zero, suc, ◌+◌, ◌^◌, ◌≤◌, ◌<◌, ◌≡◌, refl, inl, inr, Bool, true, false, Option, none, some,
  arith, ◌==◌, Bool-cases,
}
use cse422_archive.KernelMemory.Program.{
  struct_size, arr_size, store, load, struct_address, fill_words, fill_structs, fill_pages,
  check_words, check_structs, check_pages, structs_per_page, pages_needed, thread_fn,
  kernel_memory_exit, kernel_memory_init, lifetime, Kernel, Block, Module,
}
use cse422_archive.KernelMemory.Lifetime.{my_get_order-enough, pages_needed-word}
use cse422_archive.Machine.{◌>>=◌, Outcome, done, fault, out_of_fuel}

-- A run of the fill that has no block: it stops at a fault, or goes on with no block.
Without : Outcome (Option Block) → Type 0
Without (done none) = Unit
Without (done (some b)) = ⊥
Without fault = Unit
Without out_of_fuel = ⊥

Without-bind :
    (r : Outcome (Option Block)) (f : Option Block → Outcome (Option Block))
    → Without r
    → Without (f none)
    → Without (r >>= f)
unfolding Without
Without-bind (done none) f h g = g
Without-bind (done (some b)) f h g = absurd h
Without-bind fault f h g = h
Without-bind out_of_fuel f h g = absurd h

module _ (k : Kernel) (per : ℕ) where
  fill_words-Without : (rounds i j n s : ℕ) → Without (fill_words k per rounds i j n s none)
  unfolding Without fill_words store
  fill_words-Without zero i j n s = tt
  fill_words-Without (suc rounds) i j n s = elim (Bool-cases (s == 0)) [
    | inl e ↦ rw e (fill_words-Without rounds i j (n + 1) s)
    | inr e ↦ rw e tt
  ]

  fill_structs-Without : (rounds phys i j : ℕ) → Without (fill_structs k per rounds phys i j none)
  unfolding Without fill_structs
  fill_structs-Without zero phys i j = tt
  fill_structs-Without (suc rounds) phys i j =
      Without-bind (fill_words k per arr_size i j 0 (struct_address k per phys i j) none) _
        (fill_words-Without arr_size i j 0 (struct_address k per phys i j))
        (fill_structs-Without rounds phys i (j + 1))

  fill_pages-Without : (rounds phys i : ℕ) → Without (fill_pages k per rounds phys i none)
  unfolding Without fill_pages
  fill_pages-Without zero phys i = tt
  fill_pages-Without (suc rounds) phys i =
      Without-bind (fill_structs k per per phys i 0 none) _ (fill_structs-Without per phys i 0)
        (fill_pages-Without rounds phys (i + 1))

-- A check that ends at a fault or with a verdict.
Ends : Outcome Bool → Type 0
Ends (done c) = Unit
Ends fault = Unit
Ends out_of_fuel = ⊥

Ends-bind :
    (r : Outcome Bool) (f : Bool → Outcome Bool)
    → Ends r
    → ((c : Bool) → Ends (f c))
    → Ends (r >>= f)
unfolding Ends
Ends-bind (done c) f h g = g c
Ends-bind fault f h g = h
Ends-bind out_of_fuel f h g = absurd h

abbrev stopped : Outcome Bool
stopped = fault

then_fault : (r : Outcome Bool) → Ends r → (r >>= λ c. stopped) ≡ stopped
unfolding Ends
then_fault (done c) h = refl
then_fault fault h = refl
then_fault out_of_fuel h = absurd h

module _ (k : Kernel) (per : ℕ) where
  check_words-Ends :
      (rounds i j n s : ℕ) (c : Bool) → Ends (check_words k per rounds i j n s none c)
  unfolding Ends check_words load
  check_words-Ends zero i j n s c = tt
  check_words-Ends (suc rounds) i j n s c = tt

  check_structs-Ends :
      (rounds phys i j : ℕ) (c : Bool) → Ends (check_structs k per rounds phys i j none c)
  unfolding Ends check_structs
  check_structs-Ends zero phys i j c = tt
  check_structs-Ends (suc rounds) phys i j c =
      Ends-bind (check_words k per arr_size i j 0 (struct_address k per phys i j) none c) _
        (check_words-Ends arr_size i j 0 (struct_address k per phys i j) c)
        (λ d. check_structs-Ends rounds phys i (j + 1) d)

  check_pages-Ends : (rounds phys i : ℕ) (c : Bool) → Ends (check_pages k per rounds phys i none c)
  unfolding Ends check_pages
  check_pages-Ends zero phys i c = tt
  check_pages-Ends (suc rounds) phys i c =
      Ends-bind (check_structs k per per phys i 0 none c) _ (check_structs-Ends per phys i 0 c)
        (λ d. check_pages-Ends rounds phys (i + 1) d)

exit-no_pages :
    (k : Kernel) (per pages order : ℕ)
    → kernel_memory_exit k
        (record { nr_structs_per_page = per; nr_pages = pages; order = order; pages = none })
      ≡ fault
unfolding kernel_memory_exit
exit-no_pages k per pages order =
    then_fault (check_pages k per pages k.null_address 0 none true)
      (check_pages-Ends k per pages k.null_address 0 true)

abbrev with_pages : ℕ → ℕ → ℕ → Option Block → Module
with_pages per pages order b = record {
  nr_structs_per_page = per;
  nr_pages = pages;
  order = order;
  pages = b;
}

after_fill :
    (k : Kernel) (per pages order : ℕ) (r : Outcome (Option Block))
    → Without r
    → (r
        >>= (λ b. done (with_pages per pages order b))
        >>= (λ m. kernel_memory_exit k m >>= λ c. done (some c)))
      ≡ fault
unfolding Without
after_fill k per pages order (done none) h = rw (exit-no_pages k per pages order) refl
after_fill k per pages order (done (some b)) h = absurd h
after_fill k per pages order fault h = refl
after_fill k per pages order out_of_fuel h = absurd h

-- For pages of at least a struct and less than 2^37 bytes, and fewer than 2^32 structs, the life of
-- the module ends in a fault, at the fill or on its removal, where the module is removed before its
-- thread has run, or where `alloc_pages` gives no pages.
pub lifetime-fault :
    (k : Kernel) (nr_structs : ℕ) (ran : Bool)
    → struct_size ≤ k.page_size
    → k.page_size < 2 ^ 37
    → nr_structs < 2 ^ 32
    → (ran ≡ true → (o : ℕ) → k.alloc_pages o ≡ none)
    → lifetime k nr_structs none ran ≡ fault
unfolding lifetime kernel_memory_init thread_fn
lifetime-fault k nr_structs false room small word refused = rw (exit-no_pages k 0 0 0) refl
lifetime-fault k nr_structs true room small word refused =
    let (o, e, c) =
      my_get_order-enough pages (pages_needed-word nr_structs per word (omega arith)) in
    rw (e, refused refl o)
      (after_fill k per pages o (fill_pages k per pages k.null_address 0 none)
        (fill_pages-Without k per pages k.null_address 0))
  where
    per : ℕ
    per = structs_per_page k

    pages : ℕ
    pages = pages_needed nr_structs per
