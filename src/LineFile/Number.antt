-- ===== src/LineFile/Number.antt =====
-- The count that appendfile_count of studios/studio16 puts before a line, and readfile reads back.
use cse422_archive.Base.{
  ℕ, zero, suc, ◌+◌, ◌-◌, ◌*◌, ◌/◌, ◌%◌, ◌^◌, ◌≤◌, ◌<◌, ◌≡◌, refl, ap, ◌∙◌, ◌≢◌, inl, inr, false,
  some, List, [], ◌∷◌, ◌++◌, arith, ltb, ◌==◌, Bool-cases, length, length-append, All, All-append,
}
use cse422_archive.LineFile.Program.{
  Bytes, space, newline, rest_of, appendfile, decimal_digits, decimal, write_length,
  appendfile_count, wrote,
}
use cse422_archive.LineFile.Reader.{more_of, get_line_len}
use cse422_archive.LineFile.Write.{words, print_words-words}
use mathlib.Core.List.{append_assoc}
use native.Mathlib.Nat.{mod-eq_of_lt}

-- What the loop adds up: the bytes of the words with their spaces, and the newline.
pub write_length-length :
    (ulong_mod : ℕ) (args : List Bytes) (len : ℕ)
    → len + length (words args) + 1 < ulong_mod
    → write_length ulong_mod args len ≡ len + length (words args) + 1
unfolding write_length words
write_length-length ulong_mod [] len h = mod-eq_of_lt {m = ulong_mod} (omega arith) ∙ omega arith
write_length-length ulong_mod (a ∷ args) len h =
    rw (mod-eq_of_lt {n = len + (length a + 1)} {m = ulong_mod} (omega (arith, size))) (
      write_length-length ulong_mod args (len + (length a + 1)) (omega (arith, size))
      ∙ omega (arith, size))
  where
    size : length (a ++ space ∷ words args) ≡ length a + suc (length (words args))
    size = length-append a (space ∷ words args)

-- Digits.
abbrev pub NoSpace : ℕ → Type 0
NoSpace c = c ≢ space

digit-NoSpace : (d : ℕ) → b'0' + d ≢ space
digit-NoSpace d e = omega arith

pub decimal_digits-NoSpace : (fuel n : ℕ) → All NoSpace (decimal_digits fuel n)
unfolding decimal_digits
decimal_digits-NoSpace zero n = tt
decimal_digits-NoSpace (suc fuel) n = elim (Bool-cases (ltb n 10)) [
  | inl e ↦ rw e (digit-NoSpace n, tt)
  | inr e ↦ rw e (
      All-append NoSpace (decimal_digits fuel (n / 10)) _ (decimal_digits-NoSpace fuel (n / 10))
        (digit-NoSpace (n % 10), tt))
]

get_line_len-digit :
    (d len : ℕ) (rest : Bytes)
    → len * 10 + d < 2 ^ 32
    → get_line_len ((b'0' + d) ∷ rest) len ≡ get_line_len rest (len * 10 + d)
unfolding get_line_len
get_line_len-digit d len rest h = rw (no_space, value) refl
  where
    no_space : ((b'0' + d) == space) ≡ false
    no_space = ground (arith, digit-NoSpace d)

    value : (len * 10 + (b'0' + d + 2 ^ 32 - b'0')) % 2 ^ 32 ≡ len * 10 + d
    value = omega (arith, h)

get_line_len-digits :
    (fuel n : ℕ) (rest : Bytes)
    → n < fuel
    → n < 2 ^ 32
    → get_line_len (decimal_digits fuel n ++ rest) 0 ≡ get_line_len rest n
unfolding decimal_digits
get_line_len-digits zero n rest h w = absurd (omega arith)
get_line_len-digits (suc fuel) n rest h w = elim (Bool-cases (ltb n 10)) [
  | inl e ↦
      rw e (get_line_len-digit n 0 rest (omega arith) ∙ ap (λ k. get_line_len rest k) (omega arith))
  | inr e ↦
      rw (e, append_assoc (decimal_digits fuel (n / 10)) ((b'0' + n % 10) ∷ []) rest)
        (get_line_len-digits fuel (n / 10) ((b'0' + n % 10) ∷ rest) (ground arith) (omega arith)
          ∙ get_line_len-digit (n % 10) (n / 10) rest (omega arith)
          ∙ ap (λ k. get_line_len rest k) (omega arith))
]

-- The reader gets each number below 2^32 back from what `%lu ` prints, and stops after the space.
pub get_line_len-decimal :
    (n : ℕ) (rest : Bytes)
    → n < 2 ^ 32
    → get_line_len (decimal n ++ space ∷ rest) 0 ≡ (n, more_of rest)
unfolding get_line_len
get_line_len-decimal n rest h = get_line_len-digits (n + 1) n (space ∷ rest) (omega arith) h

append-cons : (old a b : Bytes) (c : ℕ) → (old ++ (a ++ c ∷ [])) ++ b ≡ old ++ (a ++ c ∷ b)
append-cons old a b c =
    append_assoc old (a ++ c ∷ []) b ∙ ap (λ x. old ++ x) (append_assoc a (c ∷ []) b)

abbrev pub line_text : List Bytes → Bytes
line_text argv = words (rest_of argv) ++ newline ∷ []

pub appendfile_count-appends :
    (ulong_mod : ℕ) (argv : List Bytes) (old : Bytes)
    → 2 ≤ length argv
    → appendfile_count ulong_mod argv (some old)
      ≡ wrote (old ++ (decimal (write_length ulong_mod (rest_of argv) 0) ++ space ∷ line_text argv))
unfolding appendfile_count
appendfile_count-appends ulong_mod argv old h =
    rw (enough, print_words-words args (old ++ (number ++ space ∷ []))) (ap wrote regroup)
  where
    args : List Bytes
    args = rest_of argv

    number : Bytes
    number = decimal (write_length ulong_mod args 0)

    enough : ltb (length argv) 2 ≡ false
    enough = ground arith

    regroup :
        ((old ++ (number ++ space ∷ [])) ++ words args) ++ newline ∷ []
        ≡ old ++ (number ++ space ∷ line_text argv)
    regroup =
        append_assoc (old ++ (number ++ space ∷ [])) (words args) (newline ∷ [])
        ∙ append-cons old number (line_text argv) space

-- Given a file name and at least one argument, where the text with its newline is shorter than
-- 2^31 bytes and `unsigned long` has at least 32 bits, appendfile_count appends the text that
-- appendfile appends, after that text's length, which getLineLen reads back, stopping at the text.
pub appendfile_count-get_line_len :
    (ulong_mod : ℕ) (argv : List Bytes) (old : Bytes)
    → 2 ^ 32 ≤ ulong_mod
    → 2 ≤ length argv
    → length (words (rest_of argv)) + 1 < 2 ^ 31
    → (text : Bytes) × (appendfile argv (some old) ≡ wrote (old ++ text))
      × (appendfile_count ulong_mod argv (some old)
          ≡ wrote (old ++ (decimal (length text) ++ space ∷ text)))
      × (get_line_len (decimal (length text) ++ space ∷ text) 0 ≡ (length text, more_of text))
unfolding appendfile
appendfile_count-get_line_len ulong_mod argv old big h short = (
  text,
  rw (enough, print_words-words args old, append_assoc old (words args) (newline ∷ [])) refl,
  rw (appendfile_count-appends ulong_mod argv old h, counted) refl,
  get_line_len-decimal (length text) text (omega (arith, size)),
)
  where
    args : List Bytes
    args = rest_of argv

    text : Bytes
    text = line_text argv

    enough : ltb (length argv) 2 ≡ false
    enough = ground arith

    size : length text ≡ length (words args) + 1
    size = length-append (words args) (newline ∷ [])

    counted : write_length ulong_mod args 0 ≡ length text
    counted = write_length-length ulong_mod args 0 (omega arith) ∙ omega (arith, size)
