-- ===== src/LineFile/Read.antt =====
-- What readfile of studios/studio16 prints of a file that appendfile_count made.
use cse422_archive.Base.{
  ℕ, zero, suc, ◌+◌, ◌^◌, ◌≤◌, ◌<◌, ◌≡◌, refl, sym, ap, ◌∙◌, ◌⊎◌, inl, inr, true, false, some, List,
  [], ◌∷◌, ◌++◌, arith, ltb, length, All,
}
use cse422_archive.LineFile.Program.{Bytes, newline}
use cse422_archive.LineFile.Reader.{
  more_of, get_line_len, line_of, as_ulong, resized, allows, read_loop, readfile, printed, Buffer,
  unset, Libc,
}
use cse422_archive.LineFile.Write.{words}
use cse422_archive.LineFile.Room.{
  size_of, longest, Steady, Ready, resized-allows, after_line-Ready, Ready-allows,
}
use cse422_archive.LineFile.Records.{
  appended, texts, file_of, Line, appended-file_of, length-file_of, told_of, next_buffer,
  read_loop-record,
}
use mathlib.Core.List.{append_assoc}

module _ (k : Libc) (big : 2 ^ 32 ≤ k.ulong_mod) where
  no_records : file_of k.ulong_mod [] ≡ []
  unfolding file_of
  no_records = refl

  read_loop-nothing :
      (fuel : ℕ) (buffer : Buffer) (maxlen : ℕ) (out : Bytes)
      → allows k 0 buffer ≡ true
      → read_loop k (suc (suc fuel)) (more_of []) buffer maxlen out ≡ printed (out ++ k.stale)
  unfolding read_loop get_line_len line_of as_ulong resized
  read_loop-nothing fuel buffer maxlen out e = rw (not_below maxlen, e) refl
    where
      not_below : (m : ℕ) → ltb m 0 ≡ false
      not_below m = ground arith

  module _ (enough : (told needed : ℕ) → needed ≤ k.grown told needed) where
    -- A round whose call is allowed leaves the buffer ready for the next.
    next_buffer-Ready :
        (run : List Bytes) (maxlen : ℕ) (buffer : Buffer)
        → allows k (size_of run) (told_of k big run maxlen buffer) ≡ true
        → Ready (longest maxlen (size_of run)) (size_of run) (next_buffer k big run maxlen buffer)
    next_buffer-Ready run maxlen buffer e =
        after_line-Ready k enough (length (words run)) (longest maxlen (size_of run))
          (told_of k big run maxlen buffer) e

    longest-positive : (maxlen n : ℕ) → 0 < longest maxlen (n + 1)
    longest-positive maxlen n = ground arith

    read_loop-records :
        (fuel : ℕ) (runs : List (List Bytes)) (buffer : Buffer) (maxlen last : ℕ) (out : Bytes)
        → All Line runs
        → Steady maxlen last runs
        → Ready maxlen last buffer
        → (0 < length runs) ⊎ (0 < maxlen)
        → length runs + 2 ≤ fuel
        → read_loop k fuel (more_of (file_of k.ulong_mod runs)) buffer maxlen out
          ≡ printed (out ++ (texts runs ++ k.stale))
    unfolding texts
    read_loop-records zero runs buffer maxlen last out h s r u f = absurd (omega arith)
    read_loop-records (suc zero) runs buffer maxlen last out h s r u f = absurd (omega arith)
    read_loop-records (suc (suc fuel)) [] buffer maxlen last out h s r u f = rw no_records (
        read_loop-nothing fuel buffer maxlen out
          (Ready-allows k maxlen last buffer (ground (arith, u)) r))
    read_loop-records (suc fuel) (run ∷ runs) buffer maxlen last out h s r u f =
        let allowed = resized-allows k (size_of run) maxlen last buffer (omega arith) s.0 r in
        rw (read_loop-record k big fuel run runs buffer maxlen out h.0, allowed)
          (read_loop-records fuel runs (next_buffer k big run maxlen buffer)
              (longest maxlen (size_of run)) (size_of run) (out ++ line run) h.1 s.1
              (next_buffer-Ready run maxlen buffer allowed)
              (inr (longest-positive maxlen (length (words run)))) (omega arith)
            ∙ ap printed (
                append_assoc out (line run) (texts runs ++ k.stale)
                ∙ ap (λ x. out ++ x) (sym (append_assoc (line run) (texts runs) k.stale))))
      where
        line : List Bytes → Bytes
        line run = words run ++ newline ∷ []

    -- The file that runs of appendfile_count make from an empty one, one run or more, each with at
    -- least one word, no newline and no zero in its words, and a line of fewer than 2^31 bytes, which is
    -- longer than all lines before it or at most a byte longer than the line just before it, is
    -- printed by readfile as the lines of the words, and after them what the failing last `getline`
    -- leaves in the buffer, where `unsigned long` has at least 32 bits and `getline` makes its buffer as
    -- large as the line needs.
    pub readfile-appended :
        (name : Bytes) (runs : List (List Bytes))
        → 0 < length runs
        → All Line runs
        → Steady 0 0 runs
        → readfile k (name ∷ []) (some (appended k.ulong_mod name runs []))
          ≡ printed (texts runs ++ k.stale)
    unfolding readfile
    readfile-appended name runs some_run h s = rw (appended-file_of k.ulong_mod name runs [] h) (
        read_loop-records (length (file_of k.ulong_mod runs) + 3) runs unset 0 0 [] h s refl
          (inl some_run) (omega (arith, length-file_of k.ulong_mod runs)))
