-- ===== src/LineFile/Short.antt =====
-- Where readfile of studios/studio16 gives `getline` a buffer that is too short.
use cse422_archive.Base.{
  ℕ, suc, ◌+◌, ◌^◌, ◌≤◌, ◌<◌, ◌≡◌, refl, ap, inl, true, false, some, List, [], ◌∷◌, arith, ltb,
  length, All,
}
use cse422_archive.LineFile.Program.{Bytes}
use cse422_archive.LineFile.Reader.{
  more_of, allocated, resized, allows, after_line, read_loop, readfile, bad_buffer, Buffer, unset,
  block, Libc,
}
use cse422_archive.LineFile.Write.{words}
use cse422_archive.LineFile.Room.{size_of, longest, resized-allows}
use cse422_archive.LineFile.Records.{
  appended, file_of, Line, appended-file_of, told_of, next_buffer, read_loop-record,
}

module _ (k : Libc) (big : 2 ^ 32 ≤ k.ulong_mod) where
  -- What `getline` makes of the buffer for a line.
  abbrev block_for : List Bytes → Buffer
  block_for run = block (k.grown (size_of run) (size_of run + 1))

  after_line-block :
      (run : List Bytes) (size : ℕ)
      → after_line k (size_of run) (suc (length (words run))) (block size) ≡ block_for run
  unfolding after_line
  after_line-block run size = rw more (ap (λ n. block (k.grown (size_of run) n)) (omega arith))
    where
      more : ltb (size_of run) (length (words run) + 2) ≡ true
      more = ground arith

  first_block :
      (run : List Bytes)
      → k.has_room (size_of run) ≡ true
      → next_buffer k big run 0 unset ≡ block_for run
  unfolding resized allocated
  first_block run room = rw (some_bytes, room) (after_line-block run (size_of run))
    where
      some_bytes : ltb 0 (size_of run) ≡ true
      some_bytes = ground arith

  kept_block :
      (run : List Bytes) (maxlen size : ℕ)
      → size_of run ≤ maxlen
      → told_of k big run maxlen (block size) ≡ block size
  unfolding resized
  kept_block run maxlen size h = ground arith

  later_block :
      (run : List Bytes) (maxlen size : ℕ)
      → size_of run ≤ maxlen
      → next_buffer k big run maxlen (block size) ≡ block_for run
  later_block run maxlen size h = rw (kept_block run maxlen size h) (after_line-block run size)

  block-allows :
      (n size : ℕ)
      → (n ≤ size → allows k n (block size) ≡ true) × (size < n → allows k n (block size) ≡ false)
  unfolding allows
  block-allows n size = (λ h. ground arith, λ h. ground arith)

  module _ (enough : (told needed : ℕ) → needed ≤ k.grown told needed) where
    third_line :
        (fuel : ℕ) (a b c : List Bytes) (runs : List (List Bytes))
        → All Line (a ∷ b ∷ c ∷ runs)
        → k.has_room (size_of a) ≡ true
        → k.grown (size_of b) (size_of b + 1) < size_of c
        → size_of c ≤ size_of a
        → read_loop k
            (suc (suc (suc fuel)))
            (more_of (file_of k.ulong_mod (a ∷ b ∷ c ∷ runs)))
            unset
            0
            []
          ≡ bad_buffer
    third_line fuel a b c runs h room short fits =
        let wide = enough (size_of b) (size_of b + 1) in
        let tall = enough (size_of a) (size_of a + 1) in
        let first = resized-allows k (size_of a) 0 0 unset (omega arith) (inl (omega arith)) refl in
        rw
          (
            read_loop-record k big (suc (suc fuel)) a (b ∷ c ∷ runs) unset 0 [] h.0,
            first,
            first_block a room,
            longest_first,
          )
          (rw
            (
              read_loop-record k big (suc fuel) b (c ∷ runs) (block_for a) (size_of a) _ h.1.0,
              kept_block b (size_of a) (k.grown (size_of a) (size_of a + 1))
                  (omega (arith, wide, short, fits)),
              (block-allows (size_of b) (k.grown (size_of a) (size_of a + 1))).0
                  (omega (arith, wide, tall, short, fits)),
              after_line-block b (k.grown (size_of a) (size_of a + 1)),
              longest_kept (omega (arith, wide, short, fits)),
            )
            (rw
              (
                read_loop-record k big fuel c runs (block_for b) (size_of a) _ h.1.1.0,
                kept_block c (size_of a) (k.grown (size_of b) (size_of b + 1)) fits,
                (block-allows (size_of c) (k.grown (size_of b) (size_of b + 1))).1 short,
              )
              refl))
      where
        longest_first : longest 0 (size_of a) ≡ size_of a
        longest_first = ground arith

        longest_kept : size_of b ≤ size_of a → longest (size_of a) (size_of b) ≡ size_of a
        longest_kept h = ground arith

    -- Where there is room for a block of the first line's length, a third line that is at most as long
    -- as the first, but longer than the buffer that `getline` has made for the second, makes readfile
    -- call `getline` with a buffer that is shorter than it says, where `unsigned long` has at least 32
    -- bits and `getline` makes its buffer as large as a line needs.
    pub readfile-bad_buffer :
        (name : Bytes) (a b c : List Bytes) (runs : List (List Bytes))
        → All Line (a ∷ b ∷ c ∷ runs)
        → k.has_room (size_of a) ≡ true
        → k.grown (size_of b) (size_of b + 1) < size_of c
        → size_of c ≤ size_of a
        → readfile k (name ∷ []) (some (appended k.ulong_mod name (a ∷ b ∷ c ∷ runs) []))
          ≡ bad_buffer
    unfolding readfile
    readfile-bad_buffer name a b c runs h room short fits =
        rw
          (
            appended-file_of k.ulong_mod name (a ∷ b ∷ c ∷ runs) [] h,
            three (length (file_of k.ulong_mod (a ∷ b ∷ c ∷ runs))),
          )
          (third_line (length (file_of k.ulong_mod (a ∷ b ∷ c ∷ runs))) a b c runs h room short
            fits)
      where
        three : (n : ℕ) → n + 3 ≡ suc (suc (suc n))
        three n = omega arith
