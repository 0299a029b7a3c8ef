-- ===== src/Device/Quicksort.antt =====
-- The call of `quicksort` in labs/lab2/user/sort.c, with the size as the last index, on whole pages.
use cse422_archive.Base.{ℕ, suc, ◌%◌, ◌^◌, ◌<◌, ◌≡◌, ◌∙◌, ◌≢◌, true, some, arith}
use cse422_archive.Machine.{Done, fault, Array}
use cse422_archive.Sort.Program.{main}
use cse422_archive.Device.Pages.{rounded, rounded-whole, rounded-room}
use cse422_archive.Sort.Doubles.{Doubles}
use cse422_archive.Sort.Exchange.{IsExact}
use cse422_archive.Sort.Main.{main-past_end, Finished, main-Finished}

module _ (F : Doubles) (rand : ℕ → ℕ) where
  open F use {D, of_unsigned, to_unsigned, le}

  -- On a mapping of whole pages for n doubles, at least one and fewer than 2^32, over exact values and
  -- with more fuel than elements, `main` of sort ends with its elements in order where n does not fill
  -- the last page, and reads past the mapping's end where it does.
  pub main-by_pages :
      (fuel n words : ℕ) (A : Array D)
      → A.size ≡ rounded words n
      → 0 < words
      → 0 < n
      → n < 2 ^ 32
      → n < suc fuel
      → ((c : ℕ) → IsExact F rand (of_unsigned (rand c)))
      → IsExact F rand (A.at n)
      → (n % words ≢ 0 → Done (Finished F rand n) (main F rand (suc fuel) 2 n true (some A)))
        × (n % words ≡ 0 → main F rand (suc fuel) 2 n true (some A) ≡ fault)
  main-by_pages fuel n words A size some_words positive word enough exact extra = (
    λ ne.
        main-Finished F rand (suc fuel) n A
          (omega (arith, size, rounded-room words n some_words ne)) word enough exact extra,
    λ e. main-past_end F rand fuel n A (size ∙ rounded-whole words n e) positive word,
  )
