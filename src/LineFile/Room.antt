-- ===== src/LineFile/Room.antt =====
-- The buffer of readfile of studios/studio16: when a call of `getline` is one that is allowed.
use cse422_archive.Base.{
  ℕ, suc, ◌+◌, ◌≤◌, ◌<◌, ◌≡◌, refl, ◌⊎◌, inl, inr, true, false, List, [], ◌∷◌, arith, ltb, length,
  Bool-cases, if◌then◌else◌,
}
use cse422_archive.LineFile.Program.{Bytes}
use cse422_archive.LineFile.Write.{words}
use cse422_archive.LineFile.Reader.{
  Libc, Buffer, unset, null_buffer, block, allocated, resized, allows, after_line,
}

-- The length of a line with its newline.
abbrev pub size_of : List Bytes → ℕ
size_of run = length (words run) + 1

abbrev pub longest : ℕ → ℕ → ℕ
longest maxlen len = if ltb maxlen len then len else maxlen

-- Each line is longer than all lines before it, or at most a byte longer than the line before it.
abbrev pub Steady : (maxlen last : ℕ) → List (List Bytes) → Type 0
Steady maxlen last [] = Unit
Steady maxlen last (run ∷ runs) =
    ((maxlen < size_of run) ⊎ (size_of run ≤ last + 1))
    × Steady (longest maxlen (size_of run)) (size_of run) runs

-- The buffer has room for the last line and its zero; it is unset only before the first.
abbrev pub Ready : (maxlen last : ℕ) → Buffer → Type 0
Ready maxlen last unset = maxlen ≡ 0
Ready maxlen last null_buffer = Unit
Ready maxlen last (block size) = last + 1 ≤ size

module _ (k : Libc) where
  allocated-allows : (n : ℕ) → allows k n (allocated k n) ≡ true
  unfolding allows allocated
  allocated-allows n = ground arith

  kept-allows :
      (n maxlen last : ℕ) (buffer : Buffer)
      → 0 < n
      → n ≤ maxlen
      → n ≤ last + 1
      → Ready maxlen last buffer
      → allows k n buffer ≡ true
  unfolding allows
  kept-allows n maxlen last unset some m h r = absurd (omega (arith, r))
  kept-allows n maxlen last null_buffer some m h r = refl
  kept-allows n maxlen last (block size) some m h r = ground (arith, r)

  pub resized-allows :
      (n maxlen last : ℕ) (buffer : Buffer)
      → 0 < n
      → (maxlen < n) ⊎ (n ≤ last + 1)
      → Ready maxlen last buffer
      → allows k n (resized k n maxlen buffer) ≡ true
  unfolding resized
  resized-allows n maxlen last buffer some h r = elim (Bool-cases (ltb maxlen n)) [
    | inl e ↦ rw e (allocated-allows n)
    | inr e ↦ let (m, l) = not_longer e in rw e (kept-allows n maxlen last buffer some m l r)
  ]
    where
      not_longer : ltb maxlen n ≡ false → (n ≤ maxlen) × (n ≤ last + 1)
      not_longer e = (ground (arith, e), ground (arith, h, e))

  module _ (enough : (told needed : ℕ) → needed ≤ k.grown told needed) where
    pub after_line-Ready :
        (n maxlen : ℕ) (buffer : Buffer)
        → allows k (n + 1) buffer ≡ true
        → Ready maxlen (n + 1) (after_line k (n + 1) (suc n) buffer)
    unfolding after_line allows
    after_line-Ready n maxlen unset e = cc
    after_line-Ready n maxlen null_buffer e = omega (arith, enough 0 (n + 2))
    after_line-Ready n maxlen (block size) e =
        let more : ltb (n + 1) (n + 2) ≡ true = ground arith in
        rw more (omega (arith, enough (n + 1) (n + 2)))

  -- Once there has been a line, a `getline` that is told 0 is allowed.
  pub Ready-allows :
      (maxlen last : ℕ) (buffer : Buffer)
      → 0 < maxlen
      → Ready maxlen last buffer
      → allows k 0 buffer ≡ true
  unfolding allows
  Ready-allows maxlen last unset some r = absurd (omega (arith, r))
  Ready-allows maxlen last null_buffer some r = refl
  Ready-allows maxlen last (block size) some r = ground arith
