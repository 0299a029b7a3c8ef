-- ===== src/LineFile/Records.antt =====
-- The file that appendfile_count of studios/studio16 makes, and a round of readfile over it.
use cse422_archive.Base.{
  ℕ, suc, ◌^◌, ◌≤◌, ◌<◌, ◌≡◌, refl, sym, ap, ◌∙◌, ◌≢◌, false, some, List, [], ◌∷◌, ◌++◌, arith,
  ◌==◌, if◌then◌else◌, length, length-append, All,
}
use cse422_archive.LineFile.Program.{
  Bytes, space, newline, decimal, write_length, appendfile_count, Written, usage, crashed, no_file,
  wrote,
}
use cse422_archive.LineFile.Reader.{
  more_of, line_of, up_to_zero, as_ulong, resized, allows, after_line, shown, read_loop, bad_buffer,
  Buffer, Libc,
}
use cse422_archive.LineFile.Write.{words}
use cse422_archive.LineFile.Number.{
  write_length-length, get_line_len-decimal, appendfile_count-appends,
}
use cse422_archive.LineFile.Room.{size_of, longest}
use mathlib.Core.List.{append_assoc, append-nil}

-- No newline, and no zero, which ends a C string.
abbrev pub Plain : ℕ → Type 0
Plain c = (c ≢ newline) × (c ≢ 0)

pub line_of-line :
    (text rest : Bytes)
    → All Plain text
    → line_of (text ++ newline ∷ rest) ≡ (text ++ newline ∷ [], more_of rest)
unfolding line_of
line_of-line [] rest h = refl
line_of-line (c ∷ cs) rest h = rw (not_newline, line_of-line cs rest h.1) refl
  where
    not_newline : (c == newline) ≡ false
    not_newline = ground (arith, h.0.0)

-- A number and a line, as appendfile_count appends them.
abbrev record_of : Bytes → Bytes → Bytes
record_of number text = number ++ space ∷ (text ++ newline ∷ [])

-- The file after a command line of appendfile_count for each list of words.
abbrev contents : Written → Bytes
contents (wrote bytes) = bytes
contents usage = []
contents crashed = []
contents no_file = []

unfoldable pub appended : ℕ → Bytes → List (List Bytes) → Bytes → Bytes
appended ulong_mod name [] old = old
appended ulong_mod name (run ∷ runs) old =
    appended ulong_mod name runs (contents (appendfile_count ulong_mod (name ∷ run) (some old)))

unfoldable pub texts : List (List Bytes) → Bytes
texts [] = []
texts (run ∷ runs) = (words run ++ newline ∷ []) ++ texts runs

unfoldable pub file_of : ℕ → List (List Bytes) → Bytes
file_of ulong_mod [] = []
file_of ulong_mod (run ∷ runs) =
    record_of (decimal (write_length ulong_mod run 0)) (words run) ++ file_of ulong_mod runs

-- At least one word, no newline and no zero in the words, and fewer than 2^31 bytes.
abbrev pub Line : List Bytes → Type 0
Line run = (1 ≤ length run) × All Plain (words run) × (size_of run < 2 ^ 31)

pub appended-file_of :
    (ulong_mod : ℕ) (name : Bytes) (runs : List (List Bytes)) (old : Bytes)
    → All Line runs
    → appended ulong_mod name runs old ≡ old ++ file_of ulong_mod runs
unfolding appended file_of
appended-file_of ulong_mod name [] old h = sym (append-nil old)
appended-file_of ulong_mod name (run ∷ runs) old h =
    rw (appendfile_count-appends ulong_mod (name ∷ run) old (omega (arith, h.0.0))) (
      appended-file_of ulong_mod name runs (old ++ added) h.1
      ∙ append_assoc old added (file_of ulong_mod runs))
  where
    added : Bytes
    added = record_of (decimal (write_length ulong_mod run 0)) (words run)

pub length-file_of :
    (ulong_mod : ℕ) (runs : List (List Bytes)) → length runs ≤ length (file_of ulong_mod runs)
unfolding file_of
length-file_of ulong_mod [] = omega arith
length-file_of ulong_mod (run ∷ runs) = omega (
  arith,
  length-append (record_of number (words run)) (file_of ulong_mod runs),
  length-append number (space ∷ (words run ++ newline ∷ [])),
  length-file_of ulong_mod runs,
)
  where
    number : Bytes
    number = decimal (write_length ulong_mod run 0)

pub up_to_zero-line :
    (text : Bytes) → All Plain text → up_to_zero (text ++ newline ∷ []) ≡ text ++ newline ∷ []
unfolding up_to_zero
up_to_zero-line [] h = refl
up_to_zero-line (c ∷ cs) h = rw (not_zero, up_to_zero-line cs h.1) refl
  where
    not_zero : (c == 0) ≡ false
    not_zero = ground (arith, h.0.1)

module _ (k : Libc) (big : 2 ^ 32 ≤ k.ulong_mod) where
  -- The record of a run, in the file.
  pub added : List Bytes → Bytes
  added run = record_of (decimal (size_of run)) (words run)

  pub as_ulong-size_of : (run : List Bytes) → Line run → as_ulong k (size_of run) ≡ size_of run
  unfolding as_ulong
  as_ulong-size_of run h = ground (arith, h.2)

  pub file_of-next :
      (run : List Bytes) (runs : List (List Bytes))
      → Line run
      → file_of k.ulong_mod (run ∷ runs)
        ≡ decimal (size_of run) ++ space ∷ (words run ++ newline ∷ file_of k.ulong_mod runs)
  unfolding file_of
  file_of-next run runs h = rw counted (
      append_assoc (decimal (size_of run)) (space ∷ (words run ++ newline ∷ [])) rest
      ∙ ap (λ x. decimal (size_of run) ++ space ∷ x) (append_assoc (words run) (newline ∷ []) rest))
    where
      counted : write_length k.ulong_mod run 0 ≡ size_of run
      counted = write_length-length k.ulong_mod run 0 (omega (arith, h.2, big)) ∙ omega arith

      rest : Bytes
      rest = file_of k.ulong_mod runs

  -- What a round makes of the buffer.
  abbrev pub told_of : List Bytes → ℕ → Buffer → Buffer
  told_of run maxlen buffer = resized k (size_of run) maxlen buffer

  abbrev pub next_buffer : List Bytes → ℕ → Buffer → Buffer
  next_buffer run maxlen buffer =
      after_line k (size_of run) (suc (length (words run))) (told_of run maxlen buffer)

  pub read_loop-record :
      (fuel : ℕ) (run : List Bytes) (runs : List (List Bytes)) (buffer : Buffer) (maxlen : ℕ)
      (out : Bytes)
      → Line run
      → read_loop k (suc fuel) (more_of (file_of k.ulong_mod (run ∷ runs))) buffer maxlen out ≡ (
          if allows k (size_of run) (told_of run maxlen buffer)
          then read_loop k fuel
              (more_of (file_of k.ulong_mod runs))
              (next_buffer run maxlen buffer)
              (longest maxlen (size_of run))
              (out ++ (words run ++ newline ∷ []))
          else bad_buffer)
  unfolding read_loop
  read_loop-record fuel run runs buffer maxlen out h =
      rw
        (
          file_of-next run runs h,
          get_line_len-decimal (size_of run) (words run ++ newline ∷ file_of k.ulong_mod runs)
              (omega (arith, h.2)),
          as_ulong-size_of run h,
          line_of-line (words run) (file_of k.ulong_mod runs) h.1,
          length_line,
          shows (words run) h.1,
        )
        refl
    where
      length_line : length (words run ++ newline ∷ []) ≡ suc (length (words run))
      length_line = omega (arith, length-append (words run) (newline ∷ []))

      shows :
          (text : Bytes) → All Plain text → shown k (text ++ newline ∷ []) ≡ text ++ newline ∷ []
      shows [] p = refl
      shows (c ∷ cs) p = up_to_zero-line (c ∷ cs) p
