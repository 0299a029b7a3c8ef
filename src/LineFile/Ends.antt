-- ===== src/LineFile/Ends.antt =====
-- readfile of studios/studio16 ends.
use cse422_archive.Base.{
  ℕ, zero, suc, ◌+◌, ◌-◌, ◌*◌, ◌%◌, ◌^◌, ◌≤◌, ◌<◌, ◌≡◌, ◌≢◌, inl, inr, false, some, [], ◌∷◌, arith,
  ◌==◌, if◌then◌else◌, Bool-cases, length,
}
use cse422_archive.LineFile.Program.{Bytes, newline}
use cse422_archive.LineFile.Reader.{
  more_of, get_line_len, line_of, read_loop, readfile, no_fuel, Stream, Libc, Buffer, unset,
  as_ulong, resized, allows,
}

-- Each round takes at least a byte, or sets the end-of-file indicator.
get_line_len-shorter :
    (bytes : Bytes) (len : ℕ) → length (get_line_len bytes len).1.left ≤ length bytes
unfolding get_line_len
get_line_len-shorter [] len = omega arith
get_line_len-shorter (c ∷ cs) len =
    ground (arith, get_line_len-shorter cs ((len * 10 + (c + 2 ^ 32 - b'0')) % 2 ^ 32))

record Shorter (bytes : Bytes) (s : Stream) : Type 0 where
  left_less : length s.left ≤ length bytes
  progress : s.eof ≡ false → length s.left < length bytes

line_of-Shorter : (bytes : Bytes) → Shorter bytes (line_of bytes).1
unfolding line_of
line_of-Shorter [] = record { left_less = omega arith; progress = λ e. cc }
line_of-Shorter (c ∷ cs) = elim (Bool-cases (c == newline)) [
  | inl e ↦ rw e record { left_less = omega arith; progress = λ _. omega arith }
  | inr e ↦
      let r = line_of-Shorter cs in
      rw e record {
        left_less = omega (arith, r.left_less);
        progress = λ f. omega (arith, r.progress f);
      }
]

-- The rounds that a stream needs at most.
abbrev rounds : Stream → ℕ
rounds s = if s.eof then 1 else length s.left + 2

rounds-line : (bytes : Bytes) → rounds (line_of bytes).1 < length bytes + 2
rounds-line bytes = ground (arith, line_of-Shorter bytes)

module _ (k : Libc) where
  read_loop-ends :
      (fuel : ℕ) (s : Stream) (buffer : Buffer) (maxlen : ℕ) (out : Bytes)
      → rounds s ≤ fuel
      → read_loop k fuel s buffer maxlen out ≢ no_fuel
  unfolding read_loop
  read_loop-ends zero s buffer maxlen out h = absurd (ground arith)
  read_loop-ends (suc fuel) s buffer maxlen out h = elim (Bool-cases s.eof) [
    | inl e ↦ rw e (λ q. cc)
    | inr e ↦ elim (Bool-cases (allows k (len s) (buffer' s))) [
      | inl f ↦ rw (e, f) (read_loop-ends fuel (next s) _ _ _ (ground (arith, less s)))
      | inr f ↦ rw (e, f) (λ q. cc)
    ]
  ]
    where
      after : Stream → Bytes
      after s = (get_line_len s.left 0).1.left

      len : Stream → ℕ
      len s = as_ulong k (get_line_len s.left 0).0

      buffer' : Stream → Buffer
      buffer' s = resized k (len s) maxlen buffer

      next : Stream → Stream
      next s = (line_of (after s)).1

      less : (s : Stream) → rounds (next s) < length s.left + 2
      less s = omega (arith, rounds-line (after s), get_line_len-shorter s.left 0)

  -- On every file that can be opened, whatever is in it, readfile has enough fuel.
  pub readfile-ends : (name bytes : Bytes) → readfile k (name ∷ []) (some bytes) ≢ no_fuel
  unfolding readfile
  readfile-ends name bytes =
      read_loop-ends (length bytes + 3) (more_of bytes) unset 0 [] (ground arith)
