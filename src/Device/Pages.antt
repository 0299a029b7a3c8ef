-- ===== src/Device/Pages.antt =====
-- Arrays of doubles in whole pages, as `mmap_malloc` of labs/lab2/user gets them.
use native.Mathlib.Nat.{mod-lt}
use cse422_archive.Base.{ℕ, ◌+◌, ◌-◌, ◌%◌, ◌<◌, ◌≡◌, refl, ◌≢◌, arith, ◌==◌, if◌then◌else◌}

-- `mmap` gives whole pages: `n` doubles rounded up, where a page has `words` of them.
abbrev pub rounded : ℕ → ℕ → ℕ
rounded words n = if n % words == 0 then n else n + (words - n % words)

pub rounded-whole : (words n : ℕ) → n % words ≡ 0 → rounded words n ≡ n
rounded-whole words n e = rw e refl

-- Where the last page is not filled there is room for one more.
pub rounded-room : (words n : ℕ) → 0 < words → n % words ≢ 0 → n < rounded words n
rounded-room words n some_words ne = ground (arith, mod-lt n some_words)
