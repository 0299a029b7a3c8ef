-- ===== src/LineFile/Reader.antt =====
-- studios/studio16/readfile.c, with the size of its buffer and what `getline` is told of it. `getline`
-- is taken to find the memory that it needs.
use cse422_archive.Base.{
  ℕ, zero, suc, ◌+◌, ◌-◌, ◌*◌, ◌%◌, ◌^◌, Bool, true, false, Option, none, some, List, [], ◌∷◌, ◌++◌,
  ◌==◌, if◌then◌else◌, length, ltb, leb,
}
use cse422_archive.LineFile.Program.{Bytes, space, newline}

-- A `FILE *` being read: what is left, and the end-of-file indicator.
pub record Stream : Type 0 where
  pub left : Bytes
  pub eof : Bool

abbrev pub at_end : Stream
at_end = record { left = []; eof = true }

abbrev pub more_of : Bytes → Stream
more_of bytes = record { left = bytes; eof = false }

-- `getLineLen`: the digits up to a space or the end. Its `int` is its bit pattern.
unfoldable pub get_line_len : Bytes → ℕ → ℕ × Stream
get_line_len [] len = (len, at_end)
get_line_len (c ∷ cs) len =
    let rest = get_line_len cs ((len * 10 + (c + 2 ^ 32 - b'0')) % 2 ^ 32) in
    if c == space then (len, more_of cs) else rest

-- What `getline` of the C library reads: up to a newline or the end.
unfoldable pub line_of : Bytes → Bytes × Stream
line_of [] = ([], at_end)
line_of (c ∷ cs) =
    let rest = line_of cs in if c == newline then (c ∷ [], more_of cs) else (c ∷ rest.0, rest.1)

-- What the reader does: the usage line, a crash on a null `FILE *`, a call of `getline` whose buffer is
-- unset or shorter than it is told, or what it prints; `no_fuel` only where the loop had too little.
pub data Readout : Type 0 where
  misused null_stream bad_buffer no_fuel : Readout
  printed : Bytes → Readout

-- `printf("%s", ...)` stops before a zero.
unfoldable pub up_to_zero : Bytes → Bytes
up_to_zero [] = []
up_to_zero (c ∷ cs) = let rest = up_to_zero cs in if c == 0 then [] else c ∷ rest

-- The variable `data`: it starts unset, is null where there was no memory, or points to a block.
pub data Buffer : Type 0 where
  unset null_buffer : Buffer
  block : (size : ℕ) → Buffer

-- What the reader uses of the C library: whether `malloc` and `realloc` find a block of a size, the size
-- that `getline`, told a size, makes of its buffer for a line that needs more, and what a buffer shows
-- after a `getline` that found nothing, which is not documented. `unsigned long` is below `ulong_mod`.
pub record Libc : Type 0 where
  pub ulong_mod : ℕ
  pub has_room : ℕ → Bool
  pub grown : (told needed : ℕ) → ℕ
  pub stale : Bytes

module _ (k : Libc) where
  -- An `int` as an `unsigned long`.
  unfoldable pub as_ulong : ℕ → ℕ
  as_ulong n = if ltb n (2 ^ 31) then n else n + k.ulong_mod - 2 ^ 32

  -- `malloc` the first time, and `realloc` from then on.
  unfoldable pub allocated : ℕ → Buffer
  allocated size = if k.has_room size then block size else null_buffer

  unfoldable pub resized : ℕ → ℕ → Buffer → Buffer
  unfolding allocated
  resized len maxlen buffer = if ltb maxlen len then allocated len else buffer

  -- What is asked of the application: a null pointer, or a block of at least the size that it tells.
  unfoldable pub allows : ℕ → Buffer → Bool
  allows told unset = false
  allows told null_buffer = true
  allows told (block size) = leb told size

  -- The buffer after `getline` has read a line: a line needs its bytes and a zero.
  unfoldable pub after_line : ℕ → ℕ → Buffer → Buffer
  after_line told zero buffer = buffer
  after_line told (suc n) unset = unset
  after_line told (suc n) null_buffer = block (k.grown 0 (n + 2))
  after_line told (suc n) (block size) =
      if ltb told (n + 2) then block (k.grown told (n + 2)) else block size

  abbrev pub shown : Bytes → Bytes
  shown [] = k.stale
  shown (c ∷ cs) = up_to_zero (c ∷ cs)

  -- `while (!feof(fp))`, with the rounds of fuel.
  unfoldable pub read_loop : ℕ → Stream → Buffer → ℕ → Bytes → Readout
  unfolding as_ulong resized allows after_line up_to_zero
  read_loop zero s buffer maxlen out = no_fuel
  read_loop (suc fuel) s buffer maxlen out =
      let count = get_line_len s.left 0 in
      let len = as_ulong count.0 in
      let buffer' = resized len maxlen buffer in
      let maxlen' = if ltb maxlen len then len else maxlen in
      let line = line_of count.1.left in
      let rest =
        read_loop fuel line.1 (after_line len (length line.0) buffer') maxlen'
          (out ++ shown line.0) in
      if s.eof then printed out else if allows len buffer' then rest else bad_buffer

  unfoldable pub readfile : List Bytes → Option Bytes → Readout
  unfolding read_loop
  readfile argv none = if length argv == 1 then null_stream else misused
  readfile argv (some bytes) =
      let round = read_loop (length bytes + 3) (more_of bytes) unset 0 [] in
      if length argv == 1 then round else misused
