-- ===== src/LineFile/Write.antt =====
-- What the writers of studios/studio16 leave in a file.
use cse422_archive.Base.{
  ℕ, zero, suc, ◌+◌, ◌≤◌, ◌≡◌, refl, sym, ap, ◌∙◌, false, Option, none, some, List, [], ◌∷◌, ◌++◌,
  arith, ltb, length, length-append, take, drop,
}
use cse422_archive.LineFile.Program.{
  Bytes, space, newline, print_lines, put_lines, print_words, write_at, write_lines, rest_of,
  writefile, writefile_fputs, writefile_sys, wrote,
}
use mathlib.Core.List.{append_assoc, append-nil}

unfoldable pub lines : List Bytes → Bytes
lines [] = []
lines (a ∷ args) = a ++ newline ∷ lines args

unfoldable pub words : List Bytes → Bytes
words [] = []
words (a ∷ args) = a ++ space ∷ words args

cons_assoc :
    (file a : Bytes) (b : ℕ) (rest : Bytes)
    → (file ++ (a ++ b ∷ [])) ++ rest ≡ file ++ (a ++ b ∷ rest)
cons_assoc file a b rest =
    append_assoc file (a ++ b ∷ []) rest ∙ ap (λ x. file ++ x) (append_assoc a (b ∷ []) rest)

print_lines-lines : (args : List Bytes) (file : Bytes) → print_lines args file ≡ file ++ lines args
unfolding print_lines lines
print_lines-lines [] file = sym (append-nil file)
print_lines-lines (a ∷ args) file =
    print_lines-lines args (file ++ (a ++ newline ∷ [])) ∙ cons_assoc file a newline (lines args)

put_lines-print_lines :
    (args : List Bytes) (file : Bytes) → put_lines args file ≡ print_lines args file
unfolding print_lines put_lines
put_lines-print_lines [] file = refl
put_lines-print_lines (a ∷ args) file =
    put_lines-print_lines args ((file ++ a) ++ newline ∷ [])
    ∙ ap (λ x. print_lines args x) (append_assoc file a (newline ∷ []))

pub print_words-words :
    (args : List Bytes) (file : Bytes) → print_words args file ≡ file ++ words args
unfolding print_words words
print_words-words [] file = sym (append-nil file)
print_words-words (a ∷ args) file =
    print_words-words args (file ++ (a ++ space ∷ [])) ∙ cons_assoc file a space (words args)

-- writefile and writefile_fputs end in the same way on every command line and every file.
pub writefile_fputs-writefile :
    (argv : List Bytes) (file : Option Bytes) → writefile_fputs argv file ≡ writefile argv file
unfolding writefile_fputs writefile
writefile_fputs-writefile argv none = refl
writefile_fputs-writefile argv (some old) = rw (put_lines-print_lines (rest_of argv) []) refl

take-pre : (pre x : Bytes) → take (length pre) (pre ++ x) ≡ pre
take-pre [] x = refl
take-pre (b ∷ pre) x = ap (λ y. b ∷ y) (take-pre pre x)

drop-pre : (pre x : Bytes) (n k : ℕ) → k ≡ length pre + n → drop k (pre ++ x) ≡ drop n x
drop-pre [] x n k e = ap (λ i. drop i x) (omega arith)
drop-pre (b ∷ pre) x n zero e = absurd (omega arith)
drop-pre (b ∷ pre) x n (suc k) e = drop-pre pre x n k (omega arith)

drop-drop : (n m k : ℕ) (x : Bytes) → k ≡ m + n → drop n (drop m x) ≡ drop k x
drop-drop n zero k x e = ap (λ i. drop i x) (omega arith)
drop-drop n (suc m) zero x e = absurd (omega arith)
drop-drop zero (suc m) (suc k) [] e = refl
drop-drop (suc n) (suc m) (suc k) [] e = refl
drop-drop n (suc m) (suc k) (b ∷ x) e = drop-drop n m k x (omega arith)

write_at-pre :
    (pre b old : Bytes) → write_at (length pre) b (pre ++ old) ≡ (pre ++ b) ++ drop (length b) old
unfolding write_at
write_at-pre pre b old =
    rw (take-pre pre old, drop-pre pre old (length b) (length pre + length b) refl)
      (sym (append_assoc pre b (drop (length b) old)))

write_lines-pre :
    (args : List Bytes) (offset : ℕ) (pre old : Bytes)
    → offset ≡ length pre
    → write_lines args offset (pre ++ old) ≡ (pre ++ lines args) ++ drop (length (lines args)) old
unfolding write_lines lines
write_lines-pre [] offset pre old e = ap (λ x. x ++ old) (sym (append-nil pre))
write_lines-pre (a ∷ args) offset pre old e =
    rw (e, write_at-pre pre a old, written)
      (write_lines-pre args (length pre + length a + 1) ((pre ++ a) ++ newline ∷ [])
          (drop 1 (drop (length a) old))
          (omega (arith, length-append pre a, length-append (pre ++ a) (newline ∷ [])))
        ∙ rw (left, right) refl)
  where
    written :
        write_at (length pre + length a) (newline ∷ []) ((pre ++ a) ++ drop (length a) old)
        ≡ ((pre ++ a) ++ newline ∷ []) ++ drop 1 (drop (length a) old)
    written =
        rw (sym (length-append pre a))
          (write_at-pre (pre ++ a) (newline ∷ []) (drop (length a) old))

    left : ((pre ++ a) ++ newline ∷ []) ++ lines args ≡ pre ++ (a ++ newline ∷ lines args)
    left =
        append_assoc (pre ++ a) (newline ∷ []) (lines args)
        ∙ append_assoc pre a (newline ∷ lines args)

    right :
        drop (length (lines args)) (drop 1 (drop (length a) old))
        ≡ drop (length (a ++ newline ∷ lines args)) old
    right =
        drop-drop (length (lines args)) 1 (1 + length (lines args)) (drop (length a) old) refl
        ∙ drop-drop (1 + length (lines args)) (length a) (length (a ++ newline ∷ lines args)) old
            (omega (arith, length-append a (newline ∷ lines args)))

-- Given a file name and at least one argument, writefile_sys leaves in a file what writefile would
-- leave, followed by what the old contents had after as many bytes.
writefile_sys-overwrites :
    (argv : List Bytes) (old : Bytes)
    → 2 ≤ length argv
    → (new : Bytes) × (writefile argv (some old) ≡ wrote new)
      × (writefile_sys argv (some old) ≡ wrote (new ++ drop (length new) old))
unfolding writefile writefile_sys
writefile_sys-overwrites argv old h = (
  lines (rest_of argv),
  rw (enough, print_lines-lines (rest_of argv) []) refl,
  rw (enough, write_lines-pre (rest_of argv) 0 [] old refl) refl,
)
  where
    enough : ltb (length argv) 2 ≡ false
    enough = ground arith
