-- ===== src/Server/Program.antt =====
-- studios/studio18/serverip.c. The replies of the system calls are a parameter, by the client's
-- number. The buffer of 20 numbers is given as it is after `read`: where `read` was short, the rest is
-- what `malloc` left there. The host's name and the clients' addresses are left out.
use cse422_archive.Base.{
  ℕ, zero, suc, ◌+◌, ◌*◌, ◌/◌, ◌%◌, Bool, true, false, not, Option, none, some, List, [], ◌∷◌, ◌==◌,
  if◌then◌else◌,
}

-- `none` is a call that fails. A descriptor is the reply of `socket` and `accept`.
pub record Calls : Type 0 where
  pub socket : Option ℕ
  pub bind : Bool
  pub listen : Bool
  pub accept : ℕ → Option ℕ
  pub read : ℕ → Option ℕ
  pub words : ℕ → ℕ → ℕ

pub data Event : Type 0 where
  opened : ℕ → Event
  received : ℕ → Event
  terminate : Event
  short_read : ℕ → Event
  closed : ℕ → Event

-- How the server ends, with its events, the latest first: `exit(EXIT_FAILURE)` or 0.
pub data Ending : Type 0 where
  failed : List Event → Ending
  stopped : List Event → Ending
  no_fuel : Ending

abbrev pub coffee : ℕ
coffee = 418

abbrev pub data_len : ℕ
data_len = 20

-- `ntohs` on an `unsigned int`, on a machine that keeps the low byte first.
abbrev pub ntohs : ℕ → ℕ
ntohs x = x % 256 * 256 + x / 256 % 256

-- The loop over the data, with the rounds that are left; it gives `recv_data` too.
unfoldable pub receive : ℕ → ℕ → (ℕ → ℕ) → ℕ → List Event → ℕ × List Event
receive zero i words recv_data log = (recv_data, log)
receive (suc rounds) i words recv_data log =
    let value = ntohs (words i) in
    let rest = receive rounds (i + 1) words value (received value ∷ log) in
    if value == b'\n'
    then (value, log)
    else if value == coffee
    then (value, terminate ∷ log)
    else rest

module _ (calls : Calls) where
  -- What is done with a client whose descriptor is `cfd`, once `read` has given `len` bytes.
  unfoldable pub client_served : ℕ → ℕ → ℕ → List Event → ℕ × List Event
  client_served client cfd len log =
      let (value, log') = receive data_len 0 (calls.words client) 0 log in
      (value, closed cfd ∷ short_read len ∷ log')

  -- `while(1)`, with the rounds of fuel and the number of the client.
  unfoldable pub serve : ℕ → ℕ → ℕ → List Event → Ending
  serve zero sfd client log = no_fuel
  serve (suc fuel) sfd client log = elim (calls.accept client) [
    | none ↦ failed log
    | some cfd ↦ elim (calls.read client) [
      | none ↦ failed (opened cfd ∷ log)
      | some len ↦
          (let served = client_served client cfd len (opened cfd ∷ log) in
            elim (served.0 == coffee) [
              | true ↦ stopped (closed sfd ∷ served.1)
              | false ↦ serve fuel sfd (client + 1) served.1
            ])
    ]
  ]

  unfoldable pub main : ℕ → Ending
  main fuel = elim calls.socket [
    | none ↦ failed []
    | some sfd ↦
        if not calls.bind
        then failed (opened sfd ∷ [])
        else if not calls.listen
        then failed (opened sfd ∷ [])
        else serve fuel sfd 0 (opened sfd ∷ [])
  ]
