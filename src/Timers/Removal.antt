-- ===== src/Timers/Removal.antt =====
-- The removal of the module of labs/lab1 may wait forever.
use cse422_archive.Base.{
  ℕ, zero, suc, ◌≤◌, ◌<◌, ◌≡◌, refl, sym, ap, ◌∙◌, ◌≢◌, true, false, arith, ℕ_discrete, update,
  update_self, update_ne,
}
use cse422_archive.Timers.System.{
  fresh, with_thread, Line, missing, count, sleep, asleep, check, ended, loading, in_use, stopping,
  joining, Step, create_thread, create_failed, start_timer, count_round, fall_asleep, stay_awake,
  resume, go_on, terminate, timer_expire, expire_missing, cancel_timer, stop_thread, stop_missing,
  all_stopped, joined, Reach, start, later, Steps, here, onward, Thread, Module,
}
use mathlib.Core.Path.{subst}
use mathlib.Core.Bool.{false≢true}

in_use-ne-joining : {P : Type 0} {i : ℕ} → in_use ≡ joining i → P
in_use-ne-joining e = cc

loading-ne-joining : {P : Type 0} {i j : ℕ} → loading i ≡ joining j → P
loading-ne-joining e = cc

stopping-ne-joining : {P : Type 0} {i j : ℕ} → stopping i ≡ joining j → P
stopping-ne-joining e = cc

joining-injective : {i j : ℕ} → joining i ≡ joining j → i ≡ j
joining-injective e = cc

count-ne-missing : count ≢ missing
count-ne-missing e = cc

asleep-ne-ended : {P : Type 0} → asleep ≡ ended → P
asleep-ne-ended e = cc

module _ (n : ℕ) where
  -- The removal waits for the first thread, which is asleep, with the timer off.
  pub record Hanging (y : Module) : Type 0 where
    pub phase : y.phase ≡ joining 0
    pub timer : y.timer_on ≡ false
    pub line : (y.threads 0).line ≡ asleep
    pub state : (y.threads 0).interruptible ≡ true

  -- A step of another thread changes nothing of it.
  other_thread : (y : Module) (i : ℕ) (t : Thread) → i ≢ 0 → Hanging y → Hanging (with_thread y i t)
  other_thread y i t ne h = record {
    phase = h.phase;
    timer = h.timer;
    line = rw (update_ne y.threads t ne) h.line;
    state = rw (update_ne y.threads t ne) h.state;
  }

  elsewhere :
      (y : Module) (i : ℕ) (l : Line) → Hanging y → (y.threads i).line ≡ l → l ≢ asleep → i ≢ 0
  elsewhere y i l h e ne p = ne (sym e ∙ ap (λ j. (y.threads j).line) p ∙ h.line)

  not_resumed : (y : Module) (i : ℕ) → Hanging y → (y.threads i).interruptible ≡ false → i ≢ 0
  not_resumed y i h e p = false≢true (sym e ∙ ap (λ j. (y.threads j).interruptible) p ∙ h.state)

  Step-Hanging : {y z : Module} → Step n y z → Hanging y → Hanging z
  Step-Hanging {y} (count_round i l e) h = other_thread y i _ (elsewhere y i count h e (λ f. cc)) h
  Step-Hanging {y} (fall_asleep i l e f) h =
      other_thread y i _ (elsewhere y i sleep h e (λ f. cc)) h
  Step-Hanging {y} (stay_awake i l e f) h = other_thread y i _ (elsewhere y i sleep h e (λ f. cc)) h
  Step-Hanging {y} (resume i l e f) h = other_thread y i _ (not_resumed y i h f) h
  Step-Hanging {y} (go_on i l e f) h = other_thread y i _ (elsewhere y i check h e (λ f. cc)) h
  Step-Hanging {y} (terminate i l e f) h = other_thread y i _ (elsewhere y i check h e (λ f. cc)) h
  Step-Hanging (create_thread e l) h = loading-ne-joining (sym e ∙ h.phase)
  Step-Hanging (create_failed e l) h = loading-ne-joining (sym e ∙ h.phase)
  Step-Hanging (start_timer e l) h = loading-ne-joining (sym e ∙ h.phase)
  Step-Hanging (timer_expire e p) h = absurd (false≢true (sym h.timer ∙ e))
  Step-Hanging (expire_missing i e l p) h = absurd (false≢true (sym h.timer ∙ e))
  Step-Hanging (cancel_timer e) h = in_use-ne-joining (sym e ∙ h.phase)
  Step-Hanging (stop_thread e l p) h = stopping-ne-joining (sym e ∙ h.phase)
  Step-Hanging (stop_missing e l p) h = stopping-ne-joining (sym e ∙ h.phase)
  Step-Hanging (all_stopped e l) h = stopping-ne-joining (sym e ∙ h.phase)
  Step-Hanging {y} (joined {i} e l) h =
      asleep-ne-ended
        (sym h.line ∙ ap (λ j. (y.threads j).line) (sym (joining-injective (sym e ∙ h.phase))) ∙ l)

  Steps-Hanging : {y z : Module} → Steps n y z → Hanging y → Hanging z
  Steps-Hanging here h = h
  Steps-Hanging (onward r s) h = Step-Hanging s (Steps-Hanging r h)

  -- The first `i` threads have been created, and have done nothing; the timer is off.
  record Created (i : ℕ) : Type 0 where
    y : Module
    reach : Reach n y
    phase : y.phase ≡ loading i
    timer : y.timer_on ≡ false
    created : (k : ℕ) → k < i → y.threads k ≡ fresh count

  created_to : (i : ℕ) → i ≤ n → Created i
  created_to zero h = record {
    y = _;
    reach = start;
    phase = refl;
    timer = refl;
    created = λ k a. absurd (omega arith);
  }
  created_to (suc i) h =
      let c = created_to i (omega arith) in
      record {
        y = _;
        reach = later c.reach (create_thread c.phase h);
        phase = refl;
        timer = c.timer;
        created = λ k a. elim (ℕ_discrete i k) [
          | yes e ↦
              subst (λ x. update c.y.threads i (fresh count) x ≡ fresh count) e
                (update_self c.y.threads i (fresh count))
          | no ne ↦ update_ne c.y.threads (fresh count) ne ∙ c.created k (omega arith)
        ];
      }

  -- With at least one thread there is a run, in which the removal stops the first thread just before
  -- that thread sets its state, after which the removal waits for that thread in every state that can
  -- follow: neither the timer nor the removal wakes it again.
  pub removal-hangs :
      0 < n → (y : Module) × Reach n y × ((z : Module) → Steps n y z → z.phase ≡ joining 0)
  removal-hangs some_thread =
      let c = created_to n (omega arith) in
      let at_count : (c.y.threads 0).line ≡ count = ap (λ t. t.line) (c.created 0 some_thread) in
      (
        _,
        later
            (later
              (later (later (later c.reach (start_timer c.phase (omega arith))) (cancel_timer refl))
                (stop_thread refl some_thread (rw at_count count-ne-missing)))
              (count_round 0 some_thread at_count))
            (fall_asleep 0 some_thread refl refl),
        λ z r.
            (Steps-Hanging r
              (record { phase = refl; timer = refl; line = refl; state = refl })).phase,
      )
