-- ===== src/Signals/System.antt =====
-- studios/studio20/sender.c and receiver.c, with the kernel's queue of SIGRTMIN between them. A signal
-- is its `sival_int`; signals of one number are delivered in the order in which they were queued.
-- `sigqueue` may refuse one, and the sender does not look at its result.
use cse422_archive.Base.{
  ℕ, suc, ◌+◌, ◌-◌, ◌%◌, ◌≡◌, ◌≢◌, Bool, true, false, not, Option, none, some, List, [], ◌∷◌, ◌++◌,
  ltb, ◌==◌, if◌then◌else◌, ℤ, pos, negsuc,
}

-- How the sender starts: the usage line, more signals than the soft limit, or the number of zeros
-- that its loop sends.
pub data Sending : Type 0 where
  usage over_limit : Sending
  sends : ℕ → Sending

-- The comparison of a `long` with the unsigned `rlim_cur`.
abbrev pub as_unsigned : ℕ → ℤ → ℕ
as_unsigned ulong_mod (pos n) = n % ulong_mod
as_unsigned ulong_mod (negsuc n) = ulong_mod - 1 - n

abbrev pub rounds : ℤ → ℕ
rounds (pos n) = n
rounds (negsuc n) = 0

unfoldable pub sender : ℕ → ℕ → ℤ → ℕ → Sending
sender ulong_mod argc number soft_limit =
    if not (argc == 3)
    then usage
    else if ltb soft_limit (as_unsigned ulong_mod number)
    then over_limit
    else sends (rounds number)

-- `done` and `count` of the receiver
pub record Receiver : Type 0 where
  pub done_flag : ℕ
  pub count : ℕ

unfoldable pub sig_handler : ℕ → Receiver → Receiver
sig_handler value r =
    let counted = if value == 0 then record r { count = r.count + 1 } else r in
    if value == 1 then record counted { done_flag = 1 } else counted

-- What the sender has left to send, the queue, the zeros that `sigqueue` refused, whether it refused
-- the one, and the receiver with what it has printed.
pub record System : Type 0 where
  pub left : ℕ
  pub sent_last : Bool
  pub queue : List ℕ
  pub refused : ℕ
  pub refused_last : Bool
  pub receiver : Receiver
  pub printed : Option ℕ

pub data Step (y : System) : System → Type 0 where
  send_zero : {m : ℕ} → y.left ≡ suc m → Step y (record y { left = m; queue = y.queue ++ 0 ∷ [] })
  refuse_zero : {m : ℕ} → y.left ≡ suc m → Step y (record y { left = m; refused = y.refused + 1 })
  send_one :
      y.left ≡ 0
      → y.sent_last ≡ false
      → Step y (record y { sent_last = true; queue = y.queue ++ 1 ∷ [] })
  refuse_one :
      y.left ≡ 0 → y.sent_last ≡ false → Step y (record y { sent_last = true; refused_last = true })
  deliver :
      {value : ℕ} {queue : List ℕ}
      → y.queue ≡ value ∷ queue
      → Step y (record y { queue = queue; receiver = sig_handler value y.receiver })
  print_count :
      y.receiver.done_flag ≢ 0
      → y.printed ≡ none
      → Step y (record y { printed = some y.receiver.count })

-- The receiver waits before the sender starts.
abbrev pub waiting : ℕ → System
waiting n = record {
  left = n;
  sent_last = false;
  queue = [];
  refused = 0;
  refused_last = false;
  receiver = record { done_flag = 0; count = 0 };
  printed = none;
}

pub data Reach (n : ℕ) : System → Type 0 where
  start : Reach n (waiting n)
  later : {y z : System} → Reach n y → Step y z → Reach n z
