-- ===== src/LineFile/Tests.antt =====
-- The programs of studios/studio16 on short files, and the theorems at inputs.
use cse422_archive.LineFile.Room.{size_of, Steady}
use cse422_archive.LineFile.Records.{Plain, appended, texts, Line}
use cse422_archive.LineFile.Short.{readfile-bad_buffer}
use cse422_archive.Base.{
  ℕ, zero, suc, ◌+◌, ◌*◌, ◌^◌, ◌≤◌, ◌<◌, ◌≡◌, refl, inl, inr, true, some, List, [], ◌∷◌, ◌++◌,
  arith, ltb, if◌then◌else◌, length, length-append, replicate, length-replicate, All,
}
use cse422_archive.LineFile.Program.{
  Bytes, space, print_words, write_at, write_lines, writefile_sys, appendfile, decimal_digits,
  decimal, write_length, appendfile_count, wrote,
}
use cse422_archive.LineFile.Reader.{
  more_of, get_line_len, line_of, up_to_zero, as_ulong, allocated, resized, allows, after_line,
  read_loop, readfile, bad_buffer, printed, Libc,
}
use cse422_archive.LineFile.Write.{words}
use cse422_archive.LineFile.Number.{appendfile_count-get_line_len}
use cse422_archive.LineFile.Read.{readfile-appended}

abbrev name : Bytes
name = 102 ∷ []

abbrev ab : Bytes
ab = 97 ∷ 98 ∷ []

abbrev five_bytes : Bytes
five_bytes = 120 ∷ 121 ∷ 122 ∷ 121 ∷ 120 ∷ []

abbrev two_words : List Bytes
two_words = ab ∷ (99 ∷ []) ∷ []

-- "ab\n" over "xyzyx" leaves "ab\nyx".
sys_test : writefile_sys (name ∷ ab ∷ []) (some five_bytes) ≡ wrote (97 ∷ 98 ∷ 10 ∷ 121 ∷ 120 ∷ [])
unfolding writefile_sys write_lines write_at
sys_test = refl

-- "6 ab c \n"
count_test :
    appendfile_count (2 ^ 64) (name ∷ two_words) (some [])
    ≡ wrote (54 ∷ 32 ∷ 97 ∷ 98 ∷ 32 ∷ 99 ∷ 32 ∷ 10 ∷ [])
unfolding appendfile_count write_length print_words decimal_digits
count_test = refl

-- Memory for every block, and a `getline` that makes its buffer twice as large, or as large as needed.
abbrev library : Libc
library = record {
  ulong_mod = 2 ^ 64;
  has_room = λ _. true;
  grown = λ told needed. if ltb needed (2 * told) then 2 * told else needed;
  stale = 63 ∷ [];
}

library-grown : (told needed : ℕ) → needed ≤ library.grown told needed
library-grown told needed = ground arith

-- A line of "b", once or more.
abbrev letters : ℕ → List Bytes
letters n = replicate n 98 ∷ []

letters-Plain : (n : ℕ) → All Plain (replicate n 98 ++ space ∷ [])
letters-Plain zero = ((λ e. omega arith, λ e. omega arith), tt)
letters-Plain (suc n) = ((λ e. omega arith, λ e. omega arith), letters-Plain n)

letters-size : (n : ℕ) → size_of (letters n) ≡ n + 2
unfolding words
letters-size n =
    omega (arith, length-append (replicate n 98) (space ∷ []), length-replicate {A = ℕ} n 98)

letters-Line : (n : ℕ) → n + 2 < 2 ^ 31 → Line (letters n)
unfolding words
letters-Line n h = (omega arith, letters-Plain n, omega (arith, letters-size n))

read_test :
    readfile library (name ∷ []) (some (54 ∷ 32 ∷ 97 ∷ 98 ∷ 32 ∷ 99 ∷ 32 ∷ 10 ∷ []))
    ≡ printed (97 ∷ 98 ∷ 32 ∷ 99 ∷ 32 ∷ 10 ∷ 63 ∷ [])
unfolding readfile read_loop get_line_len line_of as_ulong resized allocated allows after_line
    up_to_zero
read_test = refl

two_words_short : length (words two_words) + 1 < 2 ^ 31
unfolding words
two_words_short = omega arith

appendfile_count-get_line_len_example :
    (text : Bytes) × (appendfile (name ∷ two_words) (some five_bytes) ≡ wrote (five_bytes ++ text))
    × (appendfile_count (2 ^ 64) (name ∷ two_words) (some five_bytes)
        ≡ wrote (five_bytes ++ (decimal (length text) ++ space ∷ text)))
    × (get_line_len (decimal (length text) ++ space ∷ text) 0 ≡ (length text, more_of text))
appendfile_count-get_line_len_example =
    appendfile_count-get_line_len (2 ^ 64) (name ∷ two_words) five_bytes (omega arith) (omega arith)
      two_words_short

-- Lines of 3, 4 and 9 bytes.
abbrev steady : List (List Bytes)
steady = letters 1 ∷ letters 2 ∷ letters 7 ∷ []

steady-Steady : Steady 0 0 steady
unfolding words
steady-Steady = (inl (omega arith), (inr (omega arith), (inl (omega arith), tt)))

readfile-appended_example :
    readfile library (name ∷ []) (some (appended (2 ^ 64) name steady []))
    ≡ printed (texts steady ++ 63 ∷ [])
readfile-appended_example =
    readfile-appended library (omega arith) library-grown name steady (omega arith)
      (
        letters-Line 1 (omega arith),
        (letters-Line 2 (omega arith), (letters-Line 7 (omega arith), tt)),
      )
      steady-Steady

-- Lines of 12, 3 and 10 bytes: after the second the buffer has 6.
readfile-bad_buffer_example :
    readfile library
      (name ∷ [])
      (some (appended (2 ^ 64) name (letters 10 ∷ letters 1 ∷ letters 8 ∷ []) []))
    ≡ bad_buffer
unfolding words
readfile-bad_buffer_example =
    readfile-bad_buffer library (omega arith) library-grown name (letters 10) (letters 1)
      (letters 8) []
      (
        letters-Line 10 (omega arith),
        (letters-Line 1 (omega arith), (letters-Line 8 (omega arith), tt)),
      )
      refl (omega arith) (omega arith)
