-- ===== src/Signals/Count.antt =====
-- What the receiver of studios/studio20 prints.
use cse422_archive.Base.{
  ℕ, ◌+◌, ◌≡◌, refl, sym, ap, ◌∙◌, true, false, Option, none, some, List, [], ◌∷◌, ◌++◌, arith,
  ◌==◌, if◌then◌else◌, All, All-append,
}
use cse422_archive.Signals.System.{
  sig_handler, waiting, Step, send_zero, refuse_zero, send_one, refuse_one, deliver, print_count,
  Reach, start, later, Receiver, System,
}
use mathlib.Core.Path.{subst}
use mathlib.Core.Bool.{false≢true}

unfoldable pub zeros : List ℕ → ℕ
zeros [] = 0
zeros (v ∷ vs) = (if v == 0 then 1 else 0) + zeros vs

zeros-append : (xs ys : List ℕ) → zeros (xs ++ ys) ≡ zeros xs + zeros ys
unfolding zeros
zeros-append [] ys = omega arith
zeros-append (x ∷ xs) ys = omega (arith, zeros-append xs ys)

abbrev pub Zero : ℕ → Type 0
Zero v = v ≡ 0

-- The sender in its loop; the one in the queue, behind zeros; the one refused; the one delivered.
pub data Phase (y : System) : Type 0 where
  sending :
      y.sent_last ≡ false
      → All Zero y.queue
      → y.receiver.done_flag ≡ 0
      → y.refused_last ≡ false
      → y.printed ≡ none
      → Phase y
  queued :
      (zs : List ℕ)
      → y.sent_last ≡ true
      → y.left ≡ 0
      → All Zero zs
      → y.queue ≡ zs ++ 1 ∷ []
      → y.receiver.done_flag ≡ 0
      → y.refused_last ≡ false
      → y.printed ≡ none
      → Phase y
  lost :
      y.sent_last ≡ true
      → y.left ≡ 0
      → All Zero y.queue
      → y.receiver.done_flag ≡ 0
      → y.refused_last ≡ true
      → y.printed ≡ none
      → Phase y
  ended :
      y.sent_last ≡ true
      → y.left ≡ 0
      → y.queue ≡ []
      → y.receiver.done_flag ≡ 1
      → y.refused_last ≡ false
      → ((c : ℕ) → y.printed ≡ some c → c ≡ y.receiver.count)
      → Phase y

pub record Inv (n : ℕ) (y : System) : Type 0 where
  pub total : y.receiver.count + zeros y.queue + y.left + y.refused ≡ n
  pub phase : Phase y

waiting-Inv : (n : ℕ) → Inv n (waiting n)
unfolding zeros
waiting-Inv n = record { total = omega arith; phase = sending refl tt refl refl refl }

-- Every step keeps the zeros that are delivered, queued, refused or left.
abbrev pub balance : System → ℕ
balance y = y.receiver.count + zeros y.queue + y.left + y.refused

handled :
    (value : ℕ) (queue : List ℕ) (r : Receiver)
    → (sig_handler value r).count + zeros queue ≡ r.count + zeros (value ∷ queue)
unfolding sig_handler zeros
handled value queue r = ground arith

Step-balance : {y z : System} → Step y z → balance z ≡ balance y
unfolding zeros
Step-balance {y} (send_zero e) = omega (arith, zeros-append y.queue (0 ∷ []))
Step-balance (refuse_zero e) = omega arith
Step-balance {y} (send_one e f) = omega (arith, zeros-append y.queue (1 ∷ []))
Step-balance (refuse_one e f) = refl
Step-balance {y} (deliver {value} {queue} e) =
    omega (arith, handled value queue y.receiver, ap zeros e)
Step-balance (print_count h e) = refl

cons-head : {v w : ℕ} {vs ws : List ℕ} → v ∷ vs ≡ w ∷ ws → v ≡ w
cons-head e = cc

cons-tail : {v w : ℕ} {vs ws : List ℕ} → v ∷ vs ≡ w ∷ ws → vs ≡ ws
cons-tail e = cc

deliver-Zero :
    (y : System) (value : ℕ) (queue : List ℕ)
    → All Zero y.queue
    → y.queue ≡ value ∷ queue
    → (value ≡ 0) × All Zero queue
deliver-Zero y value queue h e = subst (All Zero) e h

handler-zero : (r : Receiver) → (sig_handler 0 r).done_flag ≡ r.done_flag
unfolding sig_handler
handler-zero r = refl

handler-one : (r : Receiver) → (sig_handler 1 r).done_flag ≡ 1
unfolding sig_handler
handler-one r = refl

nil-ne-cons : {P : Type 0} {xs vs : List ℕ} {v : ℕ} → xs ≡ [] → xs ≡ v ∷ vs → P
nil-ne-cons q e = cc

none-ne-some : {P : Type 0} {o : Option ℕ} {c : ℕ} → o ≡ none → o ≡ some c → P
none-ne-some p f = cc

deliver-Phase :
    (y : System) (value : ℕ) (queue : List ℕ)
    → y.queue ≡ value ∷ queue
    → Phase y
    → Phase (record y { queue = queue; receiver = sig_handler value y.receiver })
deliver-Phase y value queue e (sending s q d r p) =
    let (v, q') = deliver-Zero y value queue q e in
    sending s q' (rw v (handler-zero y.receiver ∙ d)) r p
deliver-Phase y value queue e (queued [] s l z q d r p) =
    ended s l (cons-tail (sym e ∙ q)) (rw (cons-head (sym e ∙ q)) (handler-one y.receiver)) r
      (λ c f. none-ne-some p f)
deliver-Phase y value queue e (queued (x ∷ zs) s l z q d r p) =
    queued zs s l z.1 (cons-tail (sym e ∙ q))
      (rw (cons-head (sym e ∙ q) ∙ z.0) (handler-zero y.receiver ∙ d)) r p
deliver-Phase y value queue e (lost s l q d r p) =
    let (v, q') = deliver-Zero y value queue q e in
    lost s l q' (rw v (handler-zero y.receiver ∙ d)) r p
deliver-Phase y value queue e (ended s l q d r p) = nil-ne-cons q e

Step-Phase : {y z : System} → Step y z → Phase y → Phase z
Step-Phase {y} (send_zero e) (sending s q d r p) =
    sending s (All-append Zero y.queue (0 ∷ []) q (refl, tt)) d r p
Step-Phase (send_zero e) (queued zs s l z q d r p) = absurd (ground (arith, e, l))
Step-Phase (send_zero e) (lost s l q d r p) = absurd (ground (arith, e, l))
Step-Phase (send_zero e) (ended s l q d r p) = absurd (ground (arith, e, l))
Step-Phase (refuse_zero e) (sending s q d r p) = sending s q d r p
Step-Phase (refuse_zero e) (queued zs s l z q d r p) = absurd (ground (arith, e, l))
Step-Phase (refuse_zero e) (lost s l q d r p) = absurd (ground (arith, e, l))
Step-Phase (refuse_zero e) (ended s l q d r p) = absurd (ground (arith, e, l))
Step-Phase {y} (send_one e f) (sending s q d r p) = queued y.queue refl e q refl d r p
Step-Phase (send_one e f) (queued zs s l z q d r p) = absurd (false≢true (sym f ∙ s))
Step-Phase (send_one e f) (lost s l q d r p) = absurd (false≢true (sym f ∙ s))
Step-Phase (send_one e f) (ended s l q d r p) = absurd (false≢true (sym f ∙ s))
Step-Phase (refuse_one e f) (sending s q d r p) = lost refl e q d refl p
Step-Phase (refuse_one e f) (queued zs s l z q d r p) = absurd (false≢true (sym f ∙ s))
Step-Phase (refuse_one e f) (lost s l q d r p) = absurd (false≢true (sym f ∙ s))
Step-Phase (refuse_one e f) (ended s l q d r p) = absurd (false≢true (sym f ∙ s))
Step-Phase {y} (deliver {value} {queue} e) h = deliver-Phase y value queue e h
Step-Phase (print_count h e) (sending s q d r p) = absurd (h d)
Step-Phase (print_count h e) (queued zs s l z q d r p) = absurd (h d)
Step-Phase (print_count h e) (lost s l q d r p) = absurd (h d)
Step-Phase (print_count h e) (ended s l q d r p) = ended s l q d r (λ c f. cc)

pub Reach-Inv : {n : ℕ} {y : System} → Reach n y → Inv n y
Reach-Inv {n} start = waiting-Inv n
Reach-Inv (later r st) =
    let i = Reach-Inv r in
    record { total = Step-balance st ∙ i.total; phase = Step-Phase st i.phase }

printed-total : (n c : ℕ) (y : System) → Inv n y → y.printed ≡ some c → c + y.refused ≡ n
unfolding zeros
printed-total n c y i f = elim i.phase [
  | sending s q d r p ↦ none-ne-some p f
  | queued zs s l z q d r p ↦ none-ne-some p f
  | lost s l q d r p ↦ none-ne-some p f
  | ended s l q d r shows ↦ omega (arith, i.total, l, ap zeros q, shows c f)
]

module _ {n : ℕ} {y : System} (r : Reach n y) where
  -- In every reachable state in which the receiver has printed a count, that count is the number of
  -- zeros the sender sent, less those that `sigqueue` refused.
  pub printed-sent : (c : ℕ) → y.printed ≡ some c → c + y.refused ≡ n
  printed-sent c f = printed-total n c y (Reach-Inv r) f

  -- In every reachable state in which `sigqueue` has refused the last signal, the receiver has not
  -- printed anything, and its flag is 0, so that it waits on.
  lost-waits : y.refused_last ≡ true → (y.printed ≡ none) × (y.receiver.done_flag ≡ 0)
  lost-waits e = elim (Reach-Inv r).phase [
    | sending s q d f p ↦ absurd (false≢true (sym f ∙ e))
    | queued zs s l z q d f p ↦ absurd (false≢true (sym f ∙ e))
    | lost s l q d f p ↦ (p, d)
    | ended s l q d f p ↦ absurd (false≢true (sym f ∙ e))
  ]
