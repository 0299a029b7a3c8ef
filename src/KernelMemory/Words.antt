-- ===== src/KernelMemory/Words.antt =====
-- What the innermost loop of `thread_fn` in studios/studio12/kernel_memory.c writes.
use cse422_archive.Base.{
  ℕ, zero, suc, ◌+◌, ◌*◌, ◌≤◌, ◌<◌, ◌≡◌, refl, ◌∙◌, ◌⊎◌, inl, inr, true, false, Option, some, arith,
  ℕ_discrete, ◌==◌, update, update_self,
}
use cse422_archive.KernelMemory.Program.{inside, store, number, fill_words, Kernel, Block}
use mathlib.Core.Path.{subst}
use cse422_archive.Machine.{Outcome, done}

-- A block that is mapped as one piece, not at address 0.
pub record Mapped (k : Kernel) (b : Block) : Type 0 where
  pub linear : (x : ℕ) → x < b.bytes → k.va (b.physical + x) ≡ b.start + x
  pub below : b.physical + b.bytes ≤ k.ulong_mod
  pub nonnull : 0 < b.start

pub record SamePlace (b c : Block) : Type 0 where
  pub physical : c.physical ≡ b.physical
  pub start : c.start ≡ b.start
  pub bytes : c.bytes ≡ b.bytes

-- What a loop does to the words: those it writes, and those that are neither below `low` nor at
-- `high` or above.
pub record Writes (b : Block) (low high : ℕ) (Wrote : (ℕ → ℕ) → Type 0) (r : Outcome (Option Block))
    : Type 0 where
  pub after : Block
  pub result : r ≡ done (some after)
  pub place : SamePlace b after
  pub wrote : Wrote after.words
  pub kept : (a : ℕ) → (a < low) ⊎ (high ≤ a) → after.words a ≡ b.words a

pub SamePlace-trans : {a b c : Block} → SamePlace a b → SamePlace b c → SamePlace a c
SamePlace-trans p q = record {
  physical = q.physical ∙ p.physical;
  start = q.start ∙ p.start;
  bytes = q.bytes ∙ p.bytes;
}

store-inside :
    (b : Block) (a v : ℕ)
    → b.start ≤ a
    → a + 4 ≤ b.start + b.bytes
    → store (some b) a v ≡ done (some (record b { words = update b.words a v }))
unfolding store
store-inside b a v lo hi = rw e refl
  where
    e : inside b a ≡ true
    e = ground arith

-- What is outside a range is outside each range within it.
pub outside :
    (low high low' high' a : ℕ)
    → low ≤ low'
    → high' ≤ high
    → (a < low) ⊎ (high ≤ a)
    → (a < low') ⊎ (high' ≤ a)
outside low high low' high' a l m (inl h) = inl (omega arith)
outside low high low' high' a l m (inr h) = inr (omega arith)

other :
    (low high a v : ℕ) (w : ℕ → ℕ) → low < high → (a < low) ⊎ (high ≤ a) → update w low v a ≡ w a
other low high a v w lt (inl h) = ground arith
other low high a v w lt (inr h) = ground arith

module _ (k : Kernel) (per : ℕ) where
  abbrev pub WroteStruct : ℕ → ℕ → ℕ → ℕ → (ℕ → ℕ) → Type 0
  WroteStruct i j n s w = (m : ℕ) → n ≤ m → m < 8 → w (s + 4 * m) ≡ number k per i j m

  pub fill_words-Writes :
      (rounds i j n s : ℕ) (b : Block)
      → n + rounds ≡ 8
      → 0 < s
      → b.start ≤ s
      → s + 32 ≤ b.start + b.bytes
      → Writes b
          (s + 4 * n)
          (s + 32)
          (WroteStruct i j n s)
          (fill_words k per rounds i j n s (some b))
  unfolding fill_words
  fill_words-Writes zero i j n s b e nonnull lo hi = record {
    after = b;
    result = refl;
    place = record { physical = refl; start = refl; bytes = refl };
    wrote = λ m x y. absurd (omega arith);
    kept = λ a h. refl;
  }
  fill_words-Writes (suc rounds) i j n s b e nonnull lo hi =
      let b' : Block = record b { words = update b.words (s + 4 * n) (number k per i j n) } in
      let rest = fill_words-Writes rounds i j (n + 1) s b' (omega arith) nonnull lo hi in
      record {
        after = rest.after;
        result =
            rw
              (
                not_null,
                store-inside b (s + 4 * n) (number k per i j n) (omega arith) (omega arith),
              )
              rest.result;
        place = record {
          physical = rest.place.physical;
          start = rest.place.start;
          bytes = rest.place.bytes;
        };
        wrote = λ m x y. elim (ℕ_discrete n m) [
          | yes p ↦
              subst (λ q. rest.after.words (s + 4 * q) ≡ number k per i j q) p
                (rest.kept (s + 4 * n) (inl (omega arith))
                  ∙ update_self b.words (s + 4 * n) (number k per i j n))
          | no ne ↦ rest.wrote m (omega arith) y
        ];
        kept = λ a h.
            rest.kept a (
              outside (s + 4 * n) (s + 32) (s + 4 * (n + 1)) (s + 32) a (omega arith) (omega arith)
                h)
            ∙ other (s + 4 * n) (s + 32) a (number k per i j n) b.words (omega arith) h;
      }
    where
      not_null : (s == 0) ≡ false
      not_null = ground arith
