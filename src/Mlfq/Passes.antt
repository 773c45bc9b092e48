-- ===== src/Mlfq/Passes.antt =====
-- The passes of the loop of `main`, to its end.
use sysalgos.Base.{
  ℕ, zero, suc, ◌+◌, ◌-◌, ◌≤◌, ◌<◌, ◌≡◌, refl, sym, subst, arith, Option, none, some, dec_lt, ltb,
  ok, Yields, returns, Yields-value, ltb→lt, if_cases, Yields-after, Yields-weaken,
}
use sysalgos.Base.Int.{pos_part}
use sysalgos.Mlfq.Scheduler.{
  numqueues, Job, State, iotime, arrive, end_io, boost, find_job_to_run, run_or_idle, pass,
}
use sysalgos.Mlfq.Sums.{total, total-le_member}
use sysalgos.Mlfq.Queues.{Found, idle, top, find_job_to_run-Found}
use sysalgos.Mlfq.Invariant.{Inv, IsOrdered, done, work}
use sysalgos.Mlfq.Arrivals.{arrive-Inv}
use sysalgos.Mlfq.Io.{Ended, end_io-Ended}
use sysalgos.Mlfq.Boost.{boost-Ended}
use sysalgos.Mlfq.Runs.{Running, Running-due}
use sysalgos.Mlfq.Jobs.{run_job-Ran}
use sysalgos.Mlfq.Loop.{
  Ready, to_do, Passed, Settled, IsOrdered-weaken, Inv-weaken, idle-early, idle-Passed,
}
use sysalgos.Mlfq.Scheduler.{run, run_job}

run_job-Passed :
    {n h i j : ℕ} {s : State}
    → Settled n h s
    → Running n h (s.time + 1) i j s
    → Yields (Passed n (to_do n h s)) (run_job i j s)
unfolding to_do work
run_job-Passed {n = n} {h = h} {i = i} {j = j} {s = s} settled running =
    let h' = h + (s.time + 1 + iotime - h) in
    let runs = Running-due running in
    let some_work : 0 < work n s.jobs = omega (
      arith,
      total-le_member (λ job. pos_part job.time_left) n s.jobs j runs.0,
      (running.inv.sound j runs.0).works runs.2,
    ) in
    let running' : Running n h' (s.time + 1) i j s = record {
      inv = Inv-weaken (omega arith) running.inv;
      below = running.below;
      rest = running.rest;
      first = running.first;
    } in
    Yields-weaken
      (run_job-Ran {w = work n s.jobs - 1} running' (omega arith) (omega arith)
        (IsOrdered-weaken (s.time + 1) s.io (omega arith) (omega arith) settled.ordered))
      (λ s' ran. record {
        horizon = h';
        ready = record {
          inv = subst (λ t. Inv n h' t s') (sym ran.timed.same_time) ran.inv;
          ordered =
              subst (λ t. IsOrdered t (t + iotime) h' s'.io) (sym ran.timed.same_time)
                ran.timed.ordered;
        };
        less = omega (arith, ran.timed.same_time, ran.timed.same_work);
      })

run_or_idle-Passed :
    {n h : ℕ} {s : State} (found : Option (ℕ × ℕ))
    → Settled n h s
    → s.finished < n
    → Found numqueues s.queues found
    → Yields (Passed n (to_do n h s)) (run_or_idle found s)
unfolding run_or_idle
run_or_idle-Passed none settled busy (idle empty) =
    returns (idle-Passed settled (idle-early settled busy empty))
run_or_idle-Passed (some (i, j)) settled busy (top i' j' js lt first higher) =
    run_job-Passed settled (record { inv = settled.inv; below = lt; rest = js; first = first })

-- If the invariant holds and jobs are not finished, a pass yields a state, without the panic of `demote`; the
-- invariant holds of it again, and less is left to do.
pub pass-Passed :
    {n h : ℕ} {s : State}
    → Ready n h s
    → s.finished < n
    → Yields (Passed n (to_do n h s)) (pass n s)
unfolding pass to_do
pass-Passed {n = n} {h = h} {s = s} ready busy =
    let s₁ = record s { queues = arrive n 0 s.jobs s.time s.queues } in
    let s₂ = boost (end_io s₁.io s₁) in
    let ended : Ended n h (s.time + 1) (s.time + iotime) s₁ s₂ =
      boost-Ended n h (s.time + 1) (s.time + iotime) s₁ (end_io s₁.io s₁) (
        end_io-Ended n h (s.time + 1) (s.time + iotime) s₁.io s₁ (arrive-Inv n h s ready.inv)
          ready.ordered) in
    let settled : Settled n h s₂ = record {
      inv = subst (λ t. Inv n h (t + 1) s₂) (sym ended.same_time) ended.inv;
      ordered =
          subst (λ t. IsOrdered (t + 1) (t + iotime) h s₂.io) (sym ended.same_time) ended.ordered;
    } in
    let same_to_do : to_do n h s₂ ≡ to_do n h s = omega (arith, ended.same_time, ended.same_work) in
    let busy' : s₂.finished < n = omega (arith, ended.same_finished) in
    subst (λ m. Yields (Passed n m) (pass n s)) same_to_do
      (run_or_idle-Passed (find_job_to_run numqueues s₂.queues) settled busy'
        (find_job_to_run-Found numqueues s₂.queues))

done_le : (o : Option ℕ) → done o ≤ 1
unfolding done
done_le none = omega arith
done_le (some t) = omega arith

done_bound : (n : ℕ) (jobs : ℕ → Job) → total (λ job. done job.finish_time) n jobs ≤ n
unfolding total
done_bound zero jobs = omega arith
done_bound (suc n) jobs = omega (arith, done_bound n jobs, done_le (jobs n).finish_time)

all_done :
    (n : ℕ) (jobs : ℕ → Job)
    → n ≤ total (λ job. done job.finish_time) n jobs
    → (k : ℕ) → k < n
    → done (jobs k).finish_time ≡ 1
unfolding total
all_done zero jobs h k lt = absurd (omega arith)
all_done (suc n) jobs h k lt =
    let here = done_le (jobs n).finish_time in
    elim (dec_lt k n) [
      | yes below ↦ all_done n jobs (omega arith) k below
      | no last ↦ let e : k ≡ n = omega arith in rw e (omega (arith, done_bound n jobs))
    ]

-- The loop has ended: each job has its finish time.
pub record Finished (n : ℕ) (o : Option State) : Type 0 where
  pub last : State
  pub is_last : o ≡ some last
  pub counted : last.finished ≡ n
  pub all : (k : ℕ) → k < n → done (last.jobs k).finish_time ≡ 1

finished_all : {n h : ℕ} {s : State} → Ready n h s → n ≤ s.finished → Finished n (some s)
finished_all {n = n} {s = s} ready over = record {
  last = s;
  is_last = refl;
  counted = omega (arith, ready.inv.counted, done_bound n s.jobs);
  all = all_done n s.jobs (omega (arith, ready.inv.counted));
}

-- As much fuel as there is to do is enough.
pub run-Finished :
    (fuel : ℕ) {n h : ℕ} {s : State}
    → Ready n h s
    → to_do n h s ≤ fuel
    → Yields (Finished n) (run fuel n s)
unfolding run
run-Finished zero {n = n} {h = h} {s = s} ready enough =
    if_cases (Yields (Finished n)) (ltb s.finished n)
      (λ busy. absurd (nothing_less (Yields-value (pass-Passed ready (ltb→lt s.finished n busy)))))
      (λ idle. returns (finished_all ready (ground arith)))
  where
    nothing_less : (s' : State) × (pass n s ≡ ok s') × Passed n (to_do n h s) s' → ⊥
    nothing_less (s', _, passed) = omega (arith, passed.less)
run-Finished (suc fuel) {n = n} {s = s} ready enough =
    if_cases (Yields (Finished n)) (ltb s.finished n)
      (λ busy.
        Yields-after (pass-Passed ready (ltb→lt s.finished n busy))
          (λ s' passed. run-Finished fuel passed.ready (omega (arith, passed.less))))
      (λ idle. returns (finished_all ready (ground arith)))
