-- ===== src/KernelMemory/Fill.antt =====
-- What the outer loops of `thread_fn` in studios/studio12/kernel_memory.c write.
use cse422_archive.KernelMemory.Words.{
  SamePlace-trans, outside, WroteStruct, fill_words-Writes, Mapped, SamePlace, Writes,
}
use cse422_archive.Base.{
  ℕ, zero, suc, ◌+◌, ◌*◌, ◌%◌, ◌≤◌, ◌<◌, ◌≡◌, refl, ap, ◌∙◌, inl, some, arith, ℕ_discrete,
}
use cse422_archive.KernelMemory.Program.{struct_address, fill_structs, fill_pages, Kernel, Block}
use mathlib.Core.Path.{subst}
use native.Mathlib.Nat.{mod-eq_of_lt}

module _ (k : Kernel) (per : ℕ) where
  module _ (b₀ : Block) (mapped : Mapped k b₀) (fits : per * 32 ≤ k.page_size) where
    pub struct_address-eq :
        (i j : ℕ)
        → i * k.page_size + j * 32 < b₀.bytes
        → struct_address k per b₀.physical i j ≡ b₀.start + (i * k.page_size + j * 32)
    struct_address-eq i j h =
        ap (λ x. k.va ((x + j * 32) % k.ulong_mod)) (mod-eq_of_lt (omega (arith, h, mapped.below)))
        ∙ ap k.va (mod-eq_of_lt (omega (arith, h, mapped.below)) ∙ omega arith)
        ∙ mapped.linear (i * k.page_size + j * 32) h

    abbrev pub WrotePage : ℕ → ℕ → (ℕ → ℕ) → Type 0
    WrotePage i j w =
        (l : ℕ)
        → j ≤ l
        → l < per
        → WroteStruct k per i l 0 (b₀.start + (i * k.page_size + l * 32)) w

    fill_structs-Writes :
        (rounds i j : ℕ) (b : Block)
        → SamePlace b₀ b
        → j + rounds ≡ per
        → i * k.page_size + k.page_size ≤ b₀.bytes
        → Writes b
            (b₀.start + (i * k.page_size + j * 32))
            (b₀.start + (i * k.page_size + k.page_size))
            (WrotePage i j)
            (fill_structs k per rounds b₀.physical i j (some b))
    unfolding fill_structs
    fill_structs-Writes zero i j b same e room = record {
      after = b;
      result = refl;
      place = record { physical = refl; start = refl; bytes = refl };
      wrote = λ l x y. absurd (omega arith);
      kept = λ a h. refl;
    }
    fill_structs-Writes (suc rounds) i j b same e room =
        let first =
          fill_words-Writes k per 8 i j 0 (s j) b refl (omega (arith, mapped.nonnull))
            (omega (arith, same.start)) (omega (arith, same.start, same.bytes)) in
        let rest =
          fill_structs-Writes rounds i (j + 1) first.after (SamePlace-trans same first.place)
            (omega arith) room in
        record {
          after = rest.after;
          result = rw (struct_address-eq i j (omega arith), first.result) rest.result;
          place = SamePlace-trans first.place rest.place;
          wrote = λ l x y. elim (ℕ_discrete j l) [
            | yes p ↦
                subst (λ q. WroteStruct k per i q 0 (s q) rest.after.words) p
                  (λ m u v. rest.kept (s j + 4 * m) (inl (omega arith)) ∙ first.wrote m u v)
            | no ne ↦ rest.wrote l (omega arith) y
          ];
          kept = λ a h.
              rest.kept a
                (outside (s j) (end i) (s (j + 1)) (end i) a (omega arith) (omega arith) h)
              ∙ first.kept a
                  (outside (s j) (end i) (s j + 4 * 0) (s j + 32) a (omega arith) (omega arith) h);
        }
      where
        end : ℕ → ℕ
        end i = b₀.start + (i * k.page_size + k.page_size)

        s : ℕ → ℕ
        s j = b₀.start + (i * k.page_size + j * 32)

    -- The pages from `i` on, each with all its structs, and nothing below them.
    abbrev pub WrotePages : ℕ → ℕ → (ℕ → ℕ) → Type 0
    WrotePages pages i w = (l : ℕ) → i ≤ l → l < pages → WrotePage l 0 w

    pub fill_pages-Writes :
        (rounds pages i : ℕ) (b : Block)
        → SamePlace b₀ b
        → i + rounds ≡ pages
        → pages * k.page_size ≤ b₀.bytes
        → Writes b
            (b₀.start + i * k.page_size)
            (b₀.start + pages * k.page_size)
            (WrotePages pages i)
            (fill_pages k per rounds b₀.physical i (some b))
    unfolding fill_pages
    fill_pages-Writes zero pages i b same e room = record {
      after = b;
      result = refl;
      place = record { physical = refl; start = refl; bytes = refl };
      wrote = λ l x y. absurd (omega arith);
      kept = λ a h. refl;
    }
    fill_pages-Writes (suc rounds) pages i b same e room =
        let first = fill_structs-Writes per i 0 b same (omega arith) (omega (arith, page_room)) in
        let rest =
          fill_pages-Writes rounds pages (i + 1) first.after (SamePlace-trans same first.place)
            (omega arith) room in
        record {
          after = rest.after;
          result = rw first.result rest.result;
          place = SamePlace-trans first.place rest.place;
          wrote = λ l x y. elim (ℕ_discrete i l) [
            | yes p ↦
                subst (λ q. WrotePage q 0 rest.after.words) p
                  (λ j u v m w z.
                    rest.kept (b₀.start + (i * k.page_size + j * 32) + 4 * m)
                      (inl (omega (arith, next, v, z, fits)))
                    ∙ first.wrote j u v m w z)
            | no ne ↦ rest.wrote l (omega arith) y
          ];
          kept = λ a h.
              rest.kept a (
                outside (at i) (at pages) (at (i + 1)) (at pages) a (omega (arith, next))
                  (omega arith) h)
              ∙ first.kept a (
                  outside (at i) (at pages) (b₀.start + (i * k.page_size + 0 * 32))
                    (b₀.start + (i * k.page_size + k.page_size)) a (omega arith)
                    (omega (arith, page_room)) h);
        }
      where
        at : ℕ → ℕ
        at x = b₀.start + x * k.page_size

        next : (i + 1) * k.page_size ≡ i * k.page_size + k.page_size
        next = grind arith

        page_room : i * k.page_size + k.page_size ≤ pages * k.page_size
        page_room = grind arith
