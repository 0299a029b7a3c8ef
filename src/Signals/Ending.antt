-- ===== src/Signals/Ending.antt =====
-- The sender and the receiver of studios/studio20 come to an end.
use cse422_archive.Base.{
  ℕ, zero, suc, ◌+◌, ◌*◌, ◌<◌, ◌≡◌, refl, sym, ap, ◌∙◌, false, Option, none, some, List, [], ◌∷◌,
  ◌++◌, arith, if◌then◌else◌, length, length-append,
}
use cse422_archive.Signals.System.{
  Step, send_zero, refuse_zero, send_one, refuse_one, deliver, print_count, Reach, System,
}
use cse422_archive.Signals.Count.{Reach-Inv, printed-sent, sending, queued, lost, ended}
use mathlib.Core.Bool.{false≢true}

-- The steps that are left at most.
unfoldable pub steps_left : System → ℕ
steps_left y =
    2 * y.left
    + (if y.sent_last then 0 else 2)
    + length y.queue
    + (elim y.printed [ none ↦ 1 | some c ↦ 0 ])

-- Each step of the sender, the kernel or the receiver leaves fewer steps: every run ends.
pub Step-steps_left : {y z : System} → Step y z → steps_left z < steps_left y
unfolding steps_left
Step-steps_left {y} (send_zero e) = omega (arith, length-append y.queue (0 ∷ []))
Step-steps_left (refuse_zero e) = omega arith
Step-steps_left {y} (send_one e f) = rw f (omega (arith, length-append y.queue (1 ∷ [])))
Step-steps_left (refuse_one e f) = rw f (omega arith)
Step-steps_left (deliver e) = omega (arith, ap length e)
Step-steps_left (print_count h e) = rw e (omega arith)

module _ {n : ℕ} {y : System} (r : Reach n y) where
  -- A reachable state from which no step leads on, where `sigqueue` has not refused the last signal:
  -- the receiver has printed the number of the zeros that were not refused.
  pub stuck-printed :
      ((z : System) → ¬ Step y z)
      → y.refused_last ≡ false
      → (c : ℕ) × (y.printed ≡ some c) × (c + y.refused ≡ n)
  stuck-printed h e = elim (Reach-Inv r).phase [
    | sending s q d f p ↦ absurd (unsent y.left refl s)
    | queued zs s l z q d f p ↦ absurd (undelivered zs q)
    | lost s l q d f p ↦ absurd (false≢true (sym e ∙ f))
    | ended s l q d f p ↦ shown_or_stuck y.printed refl d
  ]
    where
      unsent : (m : ℕ) → y.left ≡ m → y.sent_last ≡ false → ⊥
      unsent zero l s = h _ (send_one l s)
      unsent (suc m) l s = h _ (send_zero l)

      undelivered : (zs : List ℕ) → y.queue ≡ zs ++ 1 ∷ [] → ⊥
      undelivered [] q = h _ (deliver q)
      undelivered (v ∷ vs) q = h _ (deliver q)

      shown_or_stuck :
          (o : Option ℕ)
          → y.printed ≡ o
          → y.receiver.done_flag ≡ 1
          → (c : ℕ) × (y.printed ≡ some c) × (c + y.refused ≡ n)
      shown_or_stuck none f d = absurd (h _ (print_count (λ g. omega arith) f))
      shown_or_stuck (some c) f d = (c, f, printed-sent r c f)
