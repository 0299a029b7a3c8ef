-- ===== src/Timers/Stopped.antt =====
-- Once the module of labs/lab1 is removed, none of its threads is left.
use cse422_archive.Base.{ℕ, ◌<◌, ◌≡◌, sym, ◌∙◌, ◌≢◌, arith, ℕ_discrete, update_ne, update_all}
use cse422_archive.Timers.System.{
  stopped, with_thread, Line, count, sleep, asleep, check, ended, Phase, loading, in_use, stopping,
  joining, removed, crashed, Step, create_thread, create_failed, start_timer, count_round,
  fall_asleep, stay_awake, resume, go_on, terminate, timer_expire, expire_missing, cancel_timer,
  stop_thread, stop_missing, all_stopped, joined, Reach, start, later, Thread, Module,
}

-- How many threads the removal has seen end.
abbrev ended_to : ℕ → Phase → ℕ
ended_to n (loading i) = 0
ended_to n in_use = 0
ended_to n (stopping i) = i
ended_to n (joining i) = i
ended_to n removed = n
ended_to n crashed = 0

module _ (n : ℕ) where
  Joined : Module → Type 0
  Joined y = (k : ℕ) → k < ended_to n y.phase → k < n → (y.threads k).line ≡ ended

  -- A step of a thread that has not ended is none of one that has.
  kept :
      (y : Module) (i : ℕ) (t : Thread)
      → (y.threads i).line ≢ ended
      → Joined y
      → Joined (with_thread y i t)
  unfolding Joined
  kept y i t ne j k a b =
      rw (update_ne y.threads {i = i} {j = k} t (λ e. ne (rw e (j k a b)))) (j k a b)

  not_line :
      (y : Module) (i : ℕ) (l : Line)
      → (y.threads i).line ≡ l
      → l ≢ ended
      → (y.threads i).line ≢ ended
  not_line y i l e ne p = ne (sym e ∙ p)

  Step-Joined : {y z : Module} → Step n y z → Joined y → Joined z
  unfolding Joined
  Step-Joined (create_thread e l) j = λ k a b. absurd (omega arith)
  Step-Joined (create_failed e l) j = λ k a b. absurd (omega arith)
  Step-Joined (start_timer e l) j = λ k a b. absurd (omega arith)
  Step-Joined {y} (count_round i l e) j = kept y i _ (not_line y i count e (λ f. cc)) j
  Step-Joined {y} (fall_asleep i l e g) j = kept y i _ (not_line y i sleep e (λ f. cc)) j
  Step-Joined {y} (stay_awake i l e g) j = kept y i _ (not_line y i sleep e (λ f. cc)) j
  Step-Joined {y} (resume i l e g) j = kept y i _ (not_line y i asleep e (λ f. cc)) j
  Step-Joined {y} (go_on i l e g) j = kept y i _ (not_line y i check e (λ f. cc)) j
  Step-Joined {y} (terminate i l e g) j = kept y i _ (not_line y i check e (λ f. cc)) j
  Step-Joined (timer_expire e h) j = j
  Step-Joined (expire_missing i e l h) j = λ k a b. absurd (omega arith)
  Step-Joined (cancel_timer e) j = λ k a b. absurd (omega arith)
  Step-Joined {y} (stop_thread {i} e l h) j =
      update_all (λ k t. k < i → k < n → t.line ≡ ended) y.threads i (stopped (y.threads i))
        (λ k a b. j k (rw e a) b) (λ a b. absurd (omega arith))
  Step-Joined (stop_missing e l h) j = λ k a b. absurd (omega arith)
  Step-Joined (all_stopped e l) j = λ k a b. j k (rw e (omega arith)) b
  Step-Joined {y} (joined {i} e l) j =
      λ k a b. elim (ℕ_discrete k i) [ yes p ↦ rw p l | no ne ↦ j k (rw e (omega arith)) b ]

  Reach-Joined : {y : Module} → Reach n y → Joined y
  unfolding Joined
  Reach-Joined start = λ k a b. absurd (omega arith)
  Reach-Joined (later r s) = Step-Joined s (Reach-Joined r)

  -- In every reachable state in which the module is removed each of its threads has ended.
  pub removed-ended :
      {y : Module} (k : ℕ) → Reach n y → y.phase ≡ removed → k < n → (y.threads k).line ≡ ended
  unfolding Joined
  removed-ended k r e h = Reach-Joined r k (rw e h) h
