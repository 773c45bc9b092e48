-- ===== src/Mlfq/Expiry.antt =====
-- Lines 145 to 169: the job that has used up its quantum stays at its level or moves down.
use sysalgos.Base.{
  ℕ, zero, suc, ◌+◌, ◌-◌, ◌<◌, ◌≡◌, refl, ap, ◌∙◌, List, arith, put, if◌then◌else◌, Bool, true,
  ◌==◌, Yields, returns, if_cases, if_both, not,
}
use sysalgos.Base.Int.{pos, pos_part, eqb_ℤ}
use sysalgos.Mlfq.Scheduler.{
  numqueues, Job, State, remove_first, rejoin, iotime, demote, expire, allotment, quantum,
  decrement,
}
use sysalgos.Mlfq.Sums.{total-put_same}
use sysalgos.Mlfq.Invariant.{Inv, IsOrdered, work}
use sysalgos.Mlfq.Runs.{Off, rejoin-Inv}

-- At time `t`, all I/O ends in order and `w` units of work are left.
pub record Timed (n h t w : ℕ) (s : State) : Type 0 where
  pub ordered : IsOrdered t (t + iotime) h s.io
  pub same_time : s.time ≡ t
  pub same_work : work n s.jobs ≡ w

pub Timed-put :
    {n h t w : ℕ} {s : State} (j : ℕ) (job : Job) (queues : ℕ → List ℕ)
    → job.time_left ≡ (s.jobs j).time_left
    → Timed n h t w s
    → Timed n h t w (record s { jobs = put s.jobs j job; queues = queues })
unfolding work
Timed-put {n = n} {s = s} j job queues e timed = record {
  ordered = timed.ordered;
  same_time = timed.same_time;
  same_work =
      total-put_same (λ job. pos_part job.time_left) n s.jobs j job (ap pos_part e)
      ∙ timed.same_work;
}

-- The state after the pass.
pub record Ran (n h c t w : ℕ) (s : State) : Type 0 where
  pub inv : Inv n h c s
  pub timed : Timed n h t w s

-- The job has used up its quantum; it has left its queue.
rejoin-Ran :
    {n h c t w i j : ℕ} {s : State} (issued_io : Bool) (l : ℕ) (job : Job)
    → Off n h c issued_io i j s
    → Timed n h t w s
    → l < numqueues
    → job.priority ≡ l
    → job.start_time ≡ (s.jobs j).start_time
    → job.finish_time ≡ (s.jobs j).finish_time
    → job.time_left ≡ (s.jobs j).time_left
    → Ran n h c t w (record s { jobs = put s.jobs j job; queues = rejoin issued_io s.queues l j })
rejoin-Ran {s = s} issued_io l job off timed lt e₁ e₂ e₃ e₄ = record {
  inv = rejoin-Inv issued_io l job off lt e₁ e₂ e₃ e₄;
  timed = Timed-put _ job (rejoin issued_io s.queues l _) e₄ timed;
}

-- From a queue above the lowest, the job moves one queue down.
demote-Ran :
    {n h c t w j : ℕ} {s : State} (issued_io : Bool) (i : ℕ) (job : Job)
    → Off n h c issued_io i j s
    → Timed n h t w s
    → not (job.priority == 0) ≡ true
    → job.priority ≡ i
    → job.start_time ≡ (s.jobs j).start_time
    → job.finish_time ≡ (s.jobs j).finish_time
    → job.time_left ≡ (s.jobs j).time_left
    → Yields (Ran n h c t w) (demote issued_io i j job s)
unfolding demote
demote-Ran issued_io zero job off timed above e₁ e₂ e₃ e₄ = absurd (ground arith)
demote-Ran issued_io (suc below) job off timed above e₁ e₂ e₃ e₄ = returns (
    rejoin-Ran issued_io below
      (record job {
        priority = job.priority - 1;
        alloted_time_left = allotment;
        ticks_left = quantum;
      })
      off timed (omega (arith, off.below)) (omega (arith, e₁)) e₂ e₃ e₄)

pub expire-Ran :
    {n h c t w : ℕ} {s : State} (issued_io : Bool) (i j : ℕ)
    → Off n h c issued_io i j
        (record s { queues = if issued_io then s.queues else remove_first s.queues i })
    → Timed n h t w s
    → Yields (Ran n h c t w) (expire issued_io i j s)
unfolding expire
expire-Ran {n = n} {h = h} {c = c} {t = t} {w = w} {s = s} issued_io i j off timed =
    let s' = record s { queues = if issued_io then s.queues else remove_first s.queues i } in
    let job = record (s.jobs j) { alloted_time_left = decrement (s.jobs j).alloted_time_left } in
    let timed' : Timed n h t w s' = record {
      ordered = timed.ordered;
      same_time = timed.same_time;
      same_work = timed.same_work;
    } in
    if_both (Yields (Ran n h c t w)) (eqb_ℤ job.alloted_time_left (pos 0))
      (if_cases (Yields (Ran n h c t w)) (not (job.priority == 0))
        (λ above. demote-Ran issued_io i job off timed' above off.level refl refl refl)
        (λ lowest. returns (
          rejoin-Ran issued_io i
            (record job { ticks_left = quantum; alloted_time_left = allotment }) off timed'
            off.below off.level refl refl refl)))
      (returns (
        rejoin-Ran issued_io i (record job { ticks_left = quantum }) off timed' off.below off.level
          refl refl refl))
