-- ===== src/Sysfs/Attributes.antt =====
-- What is read back from the attributes of studios/studio5/kobject-example.c.
use cse422_archive.Base.{ℕ, ◌≡◌, refl, ◌≢◌, ℤ}
use cse422_archive.Sysfs.Program.{
  show, stored, store, parse_error, parsed, refused, accepted, Attribute, foo_attribute,
  baz_attribute, bar_attribute, Kernel, Variables,
}

module _ {B : Type 0} (k : Kernel B) where
  show-stored : (a : Attribute) (n : ℤ) (v : Variables) → show k a (stored k a n v) ≡ k.print_int n
  unfolding show
  show-stored foo_attribute n v = refl
  show-stored baz_attribute n v = refl
  show-stored bar_attribute n v = refl

  show-other :
      (a b : Attribute) (n : ℤ) (v : Variables) → a ≢ b → show k b (stored k a n v) ≡ show k b v
  unfolding show
  show-other foo_attribute foo_attribute n v h = absurd (h refl)
  show-other foo_attribute baz_attribute n v h = refl
  show-other foo_attribute bar_attribute n v h = refl
  show-other baz_attribute foo_attribute n v h = refl
  show-other baz_attribute baz_attribute n v h = absurd (h refl)
  show-other baz_attribute bar_attribute n v h = refl
  show-other bar_attribute foo_attribute n v h = refl
  show-other bar_attribute baz_attribute n v h = refl
  show-other bar_attribute bar_attribute n v h = absurd (h refl)

  -- A write of a text that is parsed as a number is accepted with its count, the number is read back,
  -- and every other attribute reads as before.
  pub store-show :
      (a b : Attribute) (buf : B) (count : ℕ) (v : Variables) (n : ℤ)
      → k.kstrtoint buf ≡ parsed n
      → a ≢ b
      → ((store k a buf count v).0 ≡ accepted count)
        × (show k a (store k a buf count v).1 ≡ k.print_int n)
        × (show k b (store k a buf count v).1 ≡ show k b v)
  unfolding store
  store-show a b buf count v n p h = rw (p, store) (refl, show-stored a n v, show-other a b n v h)

  store-refused :
      (a : Attribute) (buf : B) (count e : ℕ) (v : Variables)
      → k.kstrtoint buf ≡ parse_error e
      → store k a buf count v ≡ (refused e, v)
  unfolding store
  store-refused a buf count e v p = rw (p, store)
