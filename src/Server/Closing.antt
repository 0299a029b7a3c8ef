-- ===== src/Server/Closing.antt =====
-- The server of studios/studio18 stops at the first client that asks for coffee, and closes every
-- descriptor that it opened.
use mathlib.Core.Path.{subst}
use cse422_archive.Base.{
  ℕ, zero, suc, ◌+◌, ◌≤◌, ◌<◌, ◌≡◌, refl, sym, ◌∙◌, ◌↔◌, inl, inr, true, false, some, List, [], ◌∷◌,
  arith, ℕ_discrete, ◌==◌, if◌then◌else◌, Bool-cases,
}
use cse422_archive.Server.Program.{
  coffee, data_len, ntohs, receive, client_served, serve, main, Event, opened, received, terminate,
  short_read, closed, Ending, failed, stopped, no_fuel, Calls,
}
use cse422_archive.Server.Coffee.{Coffee, test_false, receive_iff}

unfoldable remove : ℕ → List ℕ → List ℕ
remove d [] = []
remove d (x ∷ xs) = if x == d then xs else x ∷ remove d xs

-- The descriptors that are open after the events, the latest opened first.
unfoldable pub left_open : List Event → List ℕ
unfolding remove
left_open [] = []
left_open (opened d ∷ log) = d ∷ left_open log
left_open (received v ∷ log) = left_open log
left_open (terminate ∷ log) = left_open log
left_open (short_read n ∷ log) = left_open log
left_open (closed d ∷ log) = remove d (left_open log)

receive-left_open :
    (rounds i recv_data : ℕ) (words : ℕ → ℕ) (log : List Event)
    → left_open (receive rounds i words recv_data log).1 ≡ left_open log
unfolding receive left_open
receive-left_open zero i recv_data words log = refl
receive-left_open (suc rounds) i recv_data words log =
    elim (Bool-cases (ntohs (words i) == b'\n')) [
      | inl e ↦ rw e refl
      | inr e ↦ elim (Bool-cases (ntohs (words i) == coffee)) [
        | inl f ↦ rw (e, f) refl
        | inr f ↦
            rw (e, f)
              (receive-left_open rounds (i + 1) (ntohs (words i)) words
                (received (ntohs (words i)) ∷ log))
      ]
    ]

remove_first : (d : ℕ) (xs : List ℕ) → remove d (d ∷ xs) ≡ xs
unfolding remove
remove_first d xs = ground arith

module _ (calls : Calls) where
  served-left_open :
      (client cfd len : ℕ) (log : List Event)
      → left_open (client_served calls client cfd len (opened cfd ∷ log)).1 ≡ left_open log
  unfolding client_served left_open
  served-left_open client cfd len log =
      rw (receive-left_open data_len 0 0 (calls.words client) (opened cfd ∷ log))
        (remove_first cfd (left_open log))

  served-coffee :
      (client cfd len : ℕ) (log : List Event)
      → ((client_served calls client cfd len log).0 ≡ coffee) ↔ Coffee (calls.words client)
  unfolding client_served
  served-coffee client cfd len log = receive_iff (calls.words client) log

  -- `accept` and `read` succeed for a client.
  abbrev pub Answered : ℕ → Type 0
  Answered c = ((cfd : ℕ) × (calls.accept c ≡ some cfd)) × ((len : ℕ) × (calls.read c ≡ some len))

  -- The server has stopped, and nothing that it opened is open.
  abbrev pub AllClosed : Ending → Type 0
  AllClosed (stopped log) = left_open log ≡ []
  AllClosed (failed log) = ⊥
  AllClosed no_fuel = ⊥

  serve-stops :
      (fuel sfd c cfd len : ℕ) (log : List Event)
      → calls.accept c ≡ some cfd
      → calls.read c ≡ some len
      → ((client_served calls c cfd len (opened cfd ∷ log)).0 == coffee) ≡ true
      → serve calls (suc fuel) sfd c log
        ≡ stopped (closed sfd ∷ (client_served calls c cfd len (opened cfd ∷ log)).1)
  unfolding serve
  serve-stops fuel sfd c cfd len log a r e = rw (a, r, e, serve)

  serve-goes_on :
      (fuel sfd c cfd len : ℕ) (log : List Event)
      → calls.accept c ≡ some cfd
      → calls.read c ≡ some len
      → ((client_served calls c cfd len (opened cfd ∷ log)).0 == coffee) ≡ false
      → serve calls (suc fuel) sfd c log
        ≡ serve calls fuel sfd (c + 1) (client_served calls c cfd len (opened cfd ∷ log)).1
  unfolding serve
  serve-goes_on fuel sfd c cfd len log a r e = rw (a, r, e, serve)

  serve-AllClosed :
      (k fuel sfd c : ℕ) (log : List Event)
      → c ≤ k
      → k < c + fuel
      → left_open log ≡ sfd ∷ []
      → ((j : ℕ) → c ≤ j → j ≤ k → Answered j)
      → ((j : ℕ) → c ≤ j → j < k → ¬ Coffee (calls.words j))
      → Coffee (calls.words k)
      → AllClosed (serve calls fuel sfd c log)
  unfolding left_open
  serve-AllClosed k zero sfd c log le enough e ok earlier last = absurd (omega arith)
  serve-AllClosed k (suc fuel) sfd c log le enough e ok earlier last =
      let ((cfd, a), (len, r)) = ok c (omega arith) le in
      let log' : List Event = (client_served calls c cfd len (opened cfd ∷ log)).1 in
      let still = served-left_open c cfd len log ∙ e in
      elim (Bool-cases ((client_served calls c cfd len (opened cfd ∷ log)).0 == coffee)) [
        | inl f ↦ rw (serve-stops fuel sfd c cfd len log a r f, still) (remove_first sfd [])
        | inr f ↦ rw (serve-goes_on fuel sfd c cfd len log a r f) (
            serve-AllClosed k fuel sfd (c + 1) log' (later cfd len f) (omega arith) still
              (λ j l m. ok j (omega arith) m) (λ j l m. earlier j (omega arith) m) last)
      ]
    where
      later :
          (cfd len : ℕ)
          → ((client_served calls c cfd len (opened cfd ∷ log)).0 == coffee) ≡ false
          → c + 1 ≤ k
      later cfd len f = elim (ℕ_discrete c k) [
        | yes q ↦ absurd (
            test_false f (
              (served-coffee c cfd len (opened cfd ∷ log)).1
                (subst (λ j. Coffee (calls.words j)) (sym q) last)))
        | no nq ↦ omega arith
      ]

  main-serves :
      (fuel sfd : ℕ)
      → calls.socket ≡ some sfd
      → calls.bind ≡ true
      → calls.listen ≡ true
      → main calls fuel ≡ serve calls fuel sfd 0 (opened sfd ∷ [])
  unfolding main
  main-serves fuel sfd s b l = ground arith

  -- Where the socket is set up, every client up to the k-th is accepted and read, and the k-th is the
  -- first that asks for coffee, `main` stops after that client, with fuel for the k + 1 clients, and has
  -- closed every descriptor that it opened.
  pub main-AllClosed :
      (k fuel sfd : ℕ)
      → calls.socket ≡ some sfd
      → calls.bind ≡ true
      → calls.listen ≡ true
      → k < fuel
      → ((j : ℕ) → j ≤ k → Answered j)
      → ((j : ℕ) → j < k → ¬ Coffee (calls.words j))
      → Coffee (calls.words k)
      → AllClosed (main calls fuel)
  unfolding left_open
  main-AllClosed k fuel sfd s b l enough ok earlier last = rw (main-serves fuel sfd s b l) (
      serve-AllClosed k fuel sfd 0 (opened sfd ∷ []) (omega arith) (omega arith) refl
        (λ j x y. ok j y) (λ j x y. earlier j y) last)
