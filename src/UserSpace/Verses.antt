-- ===== src/UserSpace/Verses.antt =====
-- user_space/test_programs/sing.c and its copy in studios/studio14.
use cse422_archive.Base.{
  ℕ, zero, suc, ◌*◌, ◌≡◌, refl, not, List, [], ◌∷◌, ◌++◌, ◌==◌, if◌then◌else◌, length, arith, ℤ,
  pos, negsuc,
}

-- The lines of the song, in order, and the usage line.
pub data Line : Type 0 where
  the_road down_from now_far and_i pursuing until_it where_many and_whither bilbo : Line
  usage : Line

abbrev pub verse : List Line
verse =
    the_road ∷ down_from ∷ now_far ∷ and_i ∷ pursuing ∷ until_it ∷ where_many ∷ and_whither ∷ bilbo
    ∷ []

-- The loop, with the rounds that are left.
unfoldable pub verses : ℕ → List Line
verses zero = []
verses (suc rounds) = verse ++ verses rounds

-- `main`, from the number that `atoi` gives: `i < iterations` is of two `int`s.
unfoldable pub sing : ℕ → ℤ → List Line
sing argc (pos iterations) = if not (argc == 2) then usage ∷ [] else verses iterations
sing argc (negsuc n) = if not (argc == 2) then usage ∷ [] else []

-- n verses have 9 * n lines.
verses-length : (n : ℕ) → length (verses n) ≡ 9 * n
unfolding verses
verses-length zero = refl
verses-length (suc n) = omega (arith, verses-length n)
