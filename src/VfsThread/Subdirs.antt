-- ===== src/VfsThread/Subdirs.antt =====
-- The directories that the thread of studios/studio15 prints.
use cse422_archive.Base.{ℕ, ◌≡◌, refl, sym, ap, ◌∙◌, ◌≢◌, ◌↔◌, inl, inr, List, [], ◌∷◌, List-cases}
use cse422_archive.VfsThread.Program.{subdir_lines, subdir_line, Kernel}
use mathlib.Core.List.{Memᴰ}

subdir_line-injective : {B : Type 0} {x y : B} → subdir_line x ≡ subdir_line y → x ≡ y
subdir_line-injective e = cc

cons-ne {ℓ} : {A : Type ℓ} {x : A} {xs : List A} → x ∷ xs ≢ []
cons-ne e = cc

module _ {B : Type 0} (k : Kernel B) where
  -- A child with children of its own has the name.
  pub Parent : B → ℕ → Type 0
  Parent name d = ((k.dentry d).d_subdirs ≢ []) × ((k.dentry d).d_iname ≡ name)

  Source : B → List ℕ → Type 0
  Source name ds = (d : ℕ) × Memᴰ d ds × Parent name d

  further : (name : B) (d : ℕ) (ds : List ℕ) → Source name ds → Source name (d ∷ ds)
  unfolding Source
  further name d ds (c, m, p) = (c, Memᴰ.tail m, p)

  listed : (name : B) (ds : List ℕ) → Memᴰ (subdir_line name) (subdir_lines k ds) → Source name ds
  unfolding subdir_lines Source Parent
  listed name [] = λ m. elim m [ ]
  listed name (d ∷ ds) = elim (List-cases (k.dentry d).d_subdirs) [
    | inl e ↦ rw (e, subdir_lines) (λ m. further name d ds (listed name ds m))
    | inr (c, cs, e) ↦
        rw (e, subdir_lines)
          (λ m. elim m [
            | Memᴰ.head p ↦ (d, Memᴰ.head refl, (rw e cons-ne, sym (subdir_line-injective p)))
            | Memᴰ.tail m ↦ further name d ds (listed name ds m)
          ])
  ]

  source : (name : B) (ds : List ℕ) → Source name ds → Memᴰ (subdir_line name) (subdir_lines k ds)
  unfolding subdir_lines Source Parent
  source name [] (c, m, p) = elim m [ ]
  source name (d ∷ ds) (c, Memᴰ.head i, p) = elim (List-cases (k.dentry d).d_subdirs) [
    | inl e ↦ absurd (p.0 (ap (λ x. (k.dentry x).d_subdirs) i ∙ e))
    | inr (x, xs, e) ↦
        rw (e, subdir_lines)
          (Memᴰ.head (ap subdir_line (sym p.1 ∙ ap (λ x. (k.dentry x).d_iname) i)))
  ]
  source name (d ∷ ds) (c, Memᴰ.tail m, p) = elim (List-cases (k.dentry d).d_subdirs) [
    | inl e ↦ rw (e, subdir_lines) (source name ds (c, m, p))
    | inr (x, xs, e) ↦ rw (e, subdir_lines) (Memᴰ.tail (source name ds (c, m, p)))
  ]

  -- A name is printed as that of a subdirectory of the root exactly when a child of the root that has
  -- children itself has that name.
  pub subdir_lines-Parent :
      (name : B)
      → Memᴰ (subdir_line name) (subdir_lines k (k.dentry k.root).d_subdirs)
        ↔ ((d : ℕ) × Memᴰ d (k.dentry k.root).d_subdirs × Parent name d)
  unfolding Source
  subdir_lines-Parent name =
      let ds = (k.dentry k.root).d_subdirs in (listed name ds, source name ds)
