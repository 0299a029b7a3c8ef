-- ===== src/Server/Tests.antt =====
-- The server of studios/studio18 with two clients, the second of which asks for coffee.
use cse422_archive.Base.{ℕ, zero, suc, ◌*◌, ◌≤◌, ◌<◌, ◌≡◌, refl, true, some, List, [], ◌∷◌, arith}
use cse422_archive.Server.Program.{
  receive, client_served, serve, main, Event, opened, received, terminate, short_read, closed,
  stopped, Calls,
}
use cse422_archive.Server.Coffee.{Coffee}
use cse422_archive.Server.Closing.{Answered, AllClosed, main-AllClosed}

-- 7 and a newline, then 418, each in network order.
abbrev sent : ℕ → ℕ → ℕ
sent zero zero = 7 * 256
sent zero (suc i) = 10 * 256
sent (suc client) i = 0xa201

abbrev two_clients : Calls
two_clients = record {
  socket = some 3;
  bind = true;
  listen = true;
  accept = λ _. some 4;
  read = λ _. some 8;
  words = sent;
}

abbrev events : List Event
events =
    closed 3
    ∷ (closed 4
        ∷ (short_read 8
            ∷ (terminate
                ∷ (opened 4
                    ∷ (closed 4 ∷ (short_read 8 ∷ (received 7 ∷ (opened 4 ∷ (opened 3 ∷ [])))))))))

run : main two_clients 2 ≡ stopped events
unfolding main serve client_served receive
run = refl

first_plain : (j : ℕ) → j < 1 → ¬ Coffee (two_clients.words j)
first_plain zero h (zero, l, e, clear) = omega arith
first_plain zero h (suc i, l, e, clear) = omega arith
first_plain (suc j) h c = absurd (omega arith)

answered : (j : ℕ) → j ≤ 1 → Answered two_clients j
answered j h = ((4, refl), (8, refl))

second-Coffee : Coffee (two_clients.words 1)
second-Coffee = (0, omega arith, refl, λ j h. absurd (omega arith))

main-AllClosed_example : AllClosed two_clients (main two_clients 2)
main-AllClosed_example =
    main-AllClosed two_clients 1 2 3 refl refl refl (omega arith) answered first_plain second-Coffee
