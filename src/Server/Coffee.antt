-- ===== src/Server/Coffee.antt =====
-- When the server of studios/studio18 stops, and that it then has closed what it opened.
use mathlib.Core.Path.{subst}
use cse422_archive.Base.{
  ℕ, zero, suc, ◌+◌, ◌≤◌, ◌<◌, ◌≡◌, ap, ◌∙◌, ◌≢◌, ◌↔◌, ◌⊎◌, inl, inr, true, false, List, ◌∷◌, arith,
  ℕ_discrete, ◌==◌, Bool-cases,
}
use cse422_archive.Server.Program.{coffee, data_len, ntohs, receive, Event, received}

-- One of the 20 numbers is 418, and there is no newline before it.
abbrev pub Coffee : (ℕ → ℕ) → Type 0
Coffee words =
    (i : ℕ) × (i < data_len)
    × (ntohs (words i) ≡ coffee)
    × ((j : ℕ) → j < i → ntohs (words j) ≢ b'\n')

test_true : {a b : ℕ} → (a == b) ≡ true → a ≡ b
test_true e = ground arith

pub test_false : {a b : ℕ} → (a == b) ≡ false → a ≢ b
test_false e f = ground arith

receive-coffee :
    (rounds i recv_data : ℕ) (words : ℕ → ℕ) (log : List Event)
    → (p : ℕ) → i ≤ p
    → p < i + rounds
    → ntohs (words p) ≡ coffee
    → ((j : ℕ) → i ≤ j → j < p → ntohs (words j) ≢ b'\n')
    → (receive rounds i words recv_data log).0 ≡ coffee
unfolding receive
receive-coffee zero i recv_data words log p lo hi at clear = absurd (omega arith)
receive-coffee (suc rounds) i recv_data words log p lo hi at clear =
    elim (Bool-cases (ntohs (words i) == b'\n')) [
      | inl e ↦ absurd (not_here (test_true e))
      | inr e ↦ elim (Bool-cases (ntohs (words i) == coffee)) [
        | inl f ↦ rw (e, f) (test_true f)
        | inr f ↦
            rw (e, f)
              (receive-coffee rounds (i + 1) (ntohs (words i)) words
                (received (ntohs (words i)) ∷ log) p (elsewhere (test_false f)) (omega arith) at
                (λ j l m. clear j (omega arith) m))
      ]
    ]
  where
    elsewhere : ntohs (words i) ≢ coffee → i + 1 ≤ p
    elsewhere ne = elim (ℕ_discrete i p) [
      | yes q ↦ absurd (ne (ap (λ k. ntohs (words k)) q ∙ at))
      | no nq ↦ omega arith
    ]

    not_here : ntohs (words i) ≡ b'\n' → ⊥
    not_here e = elim (ℕ_discrete i p) [
      | yes q ↦ omega (arith, e, at, ap (λ k. ntohs (words k)) q)
      | no nq ↦ clear i (omega arith) (omega arith) e
    ]

-- The first of the words from `i` on, `rounds` of them, that ends the loop with a termination.
Found : (ℕ → ℕ) → ℕ → ℕ → Type 0
Found words i rounds =
    (p : ℕ) × (i ≤ p)
    × (p < i + rounds)
    × (ntohs (words p) ≡ coffee)
    × ((j : ℕ) → i ≤ j → j < p → ntohs (words j) ≢ b'\n')

extend :
    (words : ℕ → ℕ) (i rounds v : ℕ)
    → ntohs (words i) ≢ b'\n'
    → (v ≡ coffee) ⊎ Found words (i + 1) rounds
    → v ≢ coffee
    → {recv_data : ℕ} → (recv_data ≡ coffee) ⊎ Found words i (suc rounds)
unfolding Found
extend words i rounds v h (inl e) ne = absurd (ne e)
extend words i rounds v h (inr (p, lo, hi, at, clear)) ne = inr (
  p,
  omega arith,
  omega arith,
  at,
  λ j l m. elim (ℕ_discrete i j) [
    | yes q ↦ subst (λ k. ntohs (words k) ≢ b'\n') q h
    | no nq ↦ clear j (omega arith) m
  ],
)

receive-none :
    (rounds i recv_data : ℕ) (words : ℕ → ℕ) (log : List Event)
    → (receive rounds i words recv_data log).0 ≡ coffee
    → (recv_data ≡ coffee) ⊎ Found words i rounds
unfolding receive Found
receive-none zero i recv_data words log e = inl e
receive-none (suc rounds) i recv_data words log e = elim (Bool-cases (ntohs (words i) == b'\n')) [
  | inl f ↦ absurd (omega (arith, test_true f, (rw f at e)))
  | inr f ↦ elim (Bool-cases (ntohs (words i) == coffee)) [
    | inl g ↦ inr (i, omega arith, omega arith, test_true g, λ j l m. absurd (omega arith))
    | inr g ↦
        extend words i rounds (ntohs (words i)) (test_false f)
          (receive-none rounds (i + 1) (ntohs (words i)) words (received (ntohs (words i)) ∷ log)
            (rw (f, g) at e))
          (test_false g)
  ]
]

pub receive_iff :
    (words : ℕ → ℕ) (log : List Event)
    → ((receive data_len 0 words 0 log).0 ≡ coffee) ↔ Coffee words
unfolding Found
receive_iff words log = (
  (λ e. elim (receive-none data_len 0 0 words log e) [
    | inl f ↦ absurd (omega arith)
    | inr (p, lo, hi, at, clear) ↦ (p, omega arith, at, λ j l. clear j (omega arith) l)
  ]),
  (λ (p, hi, at, clear).
      receive-coffee data_len 0 0 words log p (omega arith) (omega arith) at (λ j l m. clear j m)),
)
