-- ===== src/ArrSearch/Rounds.antt =====
-- What a run of user_space/test_programs/arr_search.c does with its blocks.
use cse422_archive.Base.{
  ℕ, zero, suc, ◌+◌, ◌≤◌, ◌<◌, ◌≡◌, refl, sym, ◌∙◌, inl, inr, false, Option, none, some, List, [],
  ◌∷◌, arith, ℕ_discrete, ltb, Option-cases, length, All, update, pos,
}
use cse422_archive.Machine.{write-ok, Done, Done-mono, Done-bind, Outcome, done, Array}
use mathlib.Core.Path.{subst}
use cse422_archive.ArrSearch.Program.{
  arr_size, assign, clear, library_calls, iterate, iterations_loop, main, Ending, usage,
  not_positive, stopped, completed, Library,
}

not_few : (argc : ℕ) → 2 ≤ argc → ltb argc 2 ≡ false
not_few argc h = ground arith

module _ (L : Library) where
  open L use {D, zero_bytes, sqrt, difference, bsearch}

  assign-size :
      (rounds : ℕ) (values : Array D) (i : ℕ)
      → i + rounds ≤ values.size
      → Done (λ v. v.size ≡ values.size) (assign L rounds values i)
  unfolding assign
  assign-size zero values i h = refl
  assign-size (suc rounds) values i h =
      rw (write-ok values i (sqrt (i + 1)) (omega arith))
        (assign-size rounds _ (i + 1) (omega arith))

  -- From `i` up to `last` the elements are zero, and below `i` they are the old ones.
  record ClearedFrom (values v : Array D) (i last : ℕ) : Type 0 where
    below : (j : ℕ) → j < i → v.at j ≡ values.at j
    zeros : (j : ℕ) → i ≤ j → j < last → v.at j ≡ zero_bytes

  one_more :
      (values v : Array D) (i last : ℕ)
      → ClearedFrom (record values { at = update values.at i zero_bytes }) v (i + 1) last
      → ClearedFrom values v i last
  one_more values v i last c = record {
    below = λ j h. c.below j (omega arith) ∙ ground arith;
    zeros = λ j a b. elim (ℕ_discrete i j) [
      | yes e ↦ c.below j (omega arith) ∙ ground arith
      | no ne ↦ c.zeros j (omega arith) b
    ];
  }

  clear-ClearedFrom :
      (rounds : ℕ) (values : Array D) (i last : ℕ)
      → i + rounds ≡ last
      → last ≤ values.size
      → Done (λ v. ClearedFrom values v i last) (clear L rounds values i)
  unfolding clear
  clear-ClearedFrom zero values i last e h = record {
    below = λ j a. refl;
    zeros = λ j a b. absurd (omega arith);
  }
  clear-ClearedFrom (suc rounds) values i last e h =
      rw (write-ok values i zero_bytes (omega arith)) (
        Done-mono (clear L rounds _ (i + 1))
          (clear-ClearedFrom rounds _ (i + 1) last (omega arith) h)
          λ v c. one_more values v i last c)

  -- All 512 elements are zero.
  pub Cleared : Array D → Type 0
  Cleared v = (j : ℕ) → j < arr_size → v.at j ≡ zero_bytes

  -- The call has returned 0, with a block that is cleared.
  Freed : Option (Option ℕ × Array D) → Type 0
  Freed none = ⊥
  Freed (some r) = Cleared r.1

  library_calls-Freed :
      (values : Array D) → 512 ≤ values.size → Done Freed (library_calls L (some values))
  unfolding library_calls Freed Cleared
  library_calls-Freed values h =
      Done-bind (λ v. v.size ≡ values.size) Freed (assign L arr_size values 0) _
        (assign-size arr_size values 0 h)
        λ v e.
          Done-bind (λ w. ClearedFrom v w 0 512) Freed (clear L arr_size v 0) _
            (clear-ClearedFrom 512 v 0 512 refl (omega arith)) λ w c j b. c.zeros j (omega arith) b

  module _ (malloc : ℕ → Option (Array D)) where
    -- Either all iterations are done, with as many blocks freed, or `malloc` has refused the next
    -- block; the freed blocks are cleared.
    pub Ended : ℕ → Ending L → Type 0
    Ended n usage = ⊥
    Ended n not_positive = ⊥
    Ended n (stopped freed) =
        (length freed < n) × (malloc (length freed) ≡ none) × All Cleared freed
    Ended n (completed iterations freed) = (iterations ≡ n) × (length freed ≡ n) × All Cleared freed

    -- What is done after a call that has returned 0.
    resumed :
        (n : ℕ) (freed : List (Array D)) (f : Array D → Outcome (Ending L))
        → ((v : Array D) → Cleared v → Done (Ended n) (f v))
        → (r : Option (Option ℕ × Array D)) → Freed r
        → Done (Ended n) (elim r [ none ↦ done (stopped freed) | some (value, values) ↦ f values ])
    unfolding Freed
    resumed n freed f h none c = absurd c
    resumed n freed f h (some (value, values)) c = h values c

    module _
        (enough : (i : ℕ) (values : Array D) → malloc i ≡ some values → 512 ≤ values.size) where
      iterate-Ended :
          (rounds n i : ℕ) (freed : List (Array D))
          → i + rounds ≡ n
          → length freed ≡ i
          → All Cleared freed
          → Done (Ended n) (iterate L malloc rounds n i freed)
      unfolding iterate Ended library_calls
      iterate-Ended zero n i freed e l c = (refl, omega arith, c)
      iterate-Ended (suc rounds) n i freed e l c = elim (Option-cases (malloc i)) [
        | inl none_left ↦
            rw none_left (omega arith, subst (λ j. malloc j ≡ none) (sym l) none_left, c)
        | inr (values, given) ↦ rw given (
            Done-bind Freed (Ended n) (library_calls L (some values)) _
              (library_calls-Freed values (enough i values given))
              (resumed n freed (λ v. iterate L malloc rounds n (i + 1) (v ∷ freed))
                (λ v z.
                  iterate-Ended rounds n (i + 1) (v ∷ freed) (omega arith) (omega arith) (z, c))))
      ]

      -- Given an argument that is a positive number n, where each block that `malloc` gives has room
      -- for 512 floats, `main` makes no access out of bounds: it does n iterations and frees n blocks,
      -- or it stops at the first block that `malloc` refuses, having freed the blocks before it; each
      -- block is zero when it is freed.
      pub main-Ended : (argc n : ℕ) → 2 ≤ argc → 0 < n → Done (Ended n) (main L malloc argc (pos n))
      unfolding main iterations_loop
      main-Ended argc zero a p = absurd (omega arith)
      main-Ended argc (suc n) a p =
          rw (not_few argc a) (iterate-Ended (suc n) (suc n) 0 [] (omega arith) refl tt)
