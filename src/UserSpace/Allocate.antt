-- ===== src/UserSpace/Allocate.antt =====
-- user_space/ten_malloc.c. `malloc` is a parameter that answers by the calls so far, the latest first;
-- a `size_t` has `w` bits, which is more than an `int` has or as many.
use mathlib.Core.List.{append_assoc, append-nil}
use cse422_archive.Base.{
  ℕ, zero, suc, ◌-◌, ◌%◌, ◌^◌, ◌≡◌, refl, sym, ap, ◌∙◌, not, Option, List, [], ◌∷◌, ◌++◌, ◌==◌,
  if◌then◌else◌, length, arith, ℤ, pos, negsuc,
}

-- `malloc` with the size and its reply, and `free`.
pub data Call : Type 0 where
  malloc_call : ℕ → Option ℕ → Call
  free_call : Option ℕ → Call

pub data Ending : Type 0 where
  usage : Ending
  finished : List Call → Ending

-- `bytes * sizeof(char)`: an `int` as a `size_t`.
unfoldable pub to_size : ℕ → ℤ → ℕ
to_size w (pos n) = n % 2 ^ w
to_size w (negsuc n) = 2 ^ w - 1 - n

-- The second loop of `main`.
unfoldable pub release : List (Option ℕ) → List Call → List Call
release [] log = log
release (p ∷ ps) log = release ps (free_call p ∷ log)

module _ (malloc_reply : List Call → ℕ → Option ℕ) where
  -- The first loop of `main`, with the rounds that are left: the pointers, and the calls.
  unfoldable pub allocate : ℕ → ℕ → List Call → List (Option ℕ) × List Call
  allocate zero size log = ([], log)
  allocate (suc rounds) size log =
      let p = malloc_reply log size in
      let (mem, log') = allocate rounds size (malloc_call size p ∷ log) in (p ∷ mem, log')

  -- `main`, from the number that `atoi` gives.
  unfoldable pub ten_malloc : ℕ → ℕ → ℤ → Ending
  ten_malloc w argc bytes =
      if not (argc == 2)
      then usage
      else let (mem, log) = allocate 10 (to_size w bytes) [] in finished (release mem log)

-- What the calls of a log have given and taken back, in order of time.
abbrev pub given : List Call → List (Option ℕ)
given [] = []
given (malloc_call size p ∷ log) = given log ++ p ∷ []
given (free_call p ∷ log) = given log

abbrev pub freed : List Call → List (Option ℕ)
freed [] = []
freed (malloc_call size p ∷ log) = freed log
freed (free_call p ∷ log) = freed log ++ p ∷ []

release-given : (ps : List (Option ℕ)) (log : List Call) → given (release ps log) ≡ given log
unfolding release
release-given [] log = refl
release-given (p ∷ ps) log = release-given ps (free_call p ∷ log)

release-freed : (ps : List (Option ℕ)) (log : List Call) → freed (release ps log) ≡ freed log ++ ps
unfolding release
release-freed [] log = sym (append-nil (freed log))
release-freed (p ∷ ps) log =
    release-freed ps (free_call p ∷ log) ∙ append_assoc (freed log) (p ∷ []) ps

module _ (malloc_reply : List Call → ℕ → Option ℕ) where
  record Allocated (rounds : ℕ) (log : List Call) (x : List (Option ℕ) × List Call) : Type 0 where
    given_too : given x.1 ≡ given log ++ x.0
    freed_same : freed x.1 ≡ freed log
    as_many : length x.0 ≡ rounds

  allocate-Allocated :
      (rounds size : ℕ) (log : List Call)
      → Allocated rounds log (allocate malloc_reply rounds size log)
  unfolding allocate
  allocate-Allocated zero size log = record {
    given_too = sym (append-nil (given log));
    freed_same = refl;
    as_many = refl;
  }
  allocate-Allocated (suc rounds) size log =
      let p = malloc_reply log size in
      let h = allocate-Allocated rounds size (malloc_call size p ∷ log) in
      record {
        given_too = h.given_too ∙ append_assoc (given log) (p ∷ []) _;
        freed_same = h.freed_same;
        as_many = omega (arith, h.as_many);
      }

  -- The program has made ten calls of `malloc`, and has freed what each of them gave, in their order.
  abbrev pub Returned : Ending → Type 0
  Returned usage = ⊥
  Returned (finished log) = (length (given log) ≡ 10) × (freed log ≡ given log)

  -- Whatever size it is given and whatever `malloc` replies, `ten_malloc` frees what each of its ten
  -- calls of `malloc` gave, once and in their order.
  ten_malloc-Returned : (w : ℕ) (bytes : ℤ) → Returned (ten_malloc malloc_reply w 2 bytes)
  unfolding ten_malloc
  ten_malloc-Returned w bytes =
      let (mem, log) = allocate malloc_reply 10 (to_size w bytes) [] in
      let h = allocate-Allocated 10 (to_size w bytes) [] in
      let same : given (release mem log) ≡ mem = release-given mem log ∙ h.given_too in
      (
        ap length same ∙ h.as_many,
        release-freed mem log ∙ ap (λ xs. xs ++ mem) h.freed_same ∙ sym same,
      )
