-- ===== src/Mlfq/Finish.antt =====
-- Lines 126 to 133: a job whose last unit of time has run leaves its queue for good.
use sysalgos.Base.{
  ℕ, ◌+◌, ◌<◌, ◌≡◌, refl, ◌≢◌, ap, sym, subst, [], map, arith, some, put, put_all, put_self,
  put_other,
}
use sysalgos.Mlfq.Scheduler.{numqueues, Job, State, remove_first, use_tick, finish}
use sysalgos.Mlfq.Sums.{count, count_here, count_other, total-put_same, total-put}
use sysalgos.Mlfq.Queues.{queued}
use sysalgos.Mlfq.Invariant.{Inv, Sound, done, due, job_of, put_level-IsPlaced}
use sysalgos.Mlfq.Runs.{Running, Running-due, remove_first-Off}
use sysalgos.Mlfq.Expiry.{Timed, Timed-put}
use sysalgos.Mlfq.Ticks.{ticked}

due-done : (n c k : ℕ) (job : Job) → done job.finish_time ≡ 1 → due n c k job ≡ 0
unfolding due
due-done n c k job e = ground arith

-- Job `j` is written twice.
put_twice :
    (P : ℕ → Job → Type 0) (jobs : ℕ → Job) (j : ℕ) (a b : Job)
    → P j b
    → ((k : ℕ) → j ≢ k → P k (jobs k))
    → (k : ℕ) → P k (put (put jobs j a) j b k)
put_twice P jobs j a b here others =
    put_all P (put jobs j a) j b here
      (λ k ne. subst (P k) (sym (put_other jobs a ne)) (others k ne))

pub finish-Inv :
    {n h c i j : ℕ} {s : State} → Running n h c i j s → Inv n h c (finish i j (use_tick j s))
unfolding finish use_tick ticked done
finish-Inv {n = n} {h = h} {c = c} {i = i} {j = j} {s = s} running =
    let inv = running.inv in
    let off = remove_first-Off running in
    let runs = Running-due running in
    let last = ticked (s.jobs j) s.time in
    let job = record (put s.jobs j last j) { finish_time = some (s.time + 1) } in
    let same : put s.jobs j last j ≡ last = put_self s.jobs j last in
    record {
      sound =
          put_twice (λ k job. k < n → Sound h c job) s.jobs j last job
            (λ _. record {
              level = subst (λ job. job.priority < numqueues) (sym same) (inv.sound j runs.0).level;
              fresh = λ le. absurd (omega (arith, le, ap (λ job. job.start_time) same, runs.1));
              late = λ le. absurd (omega (arith, le, ap (λ job. job.start_time) same, runs.1));
              starts = subst (λ job. job.start_time < h) (sym same) (inv.sound j runs.0).starts;
              works = λ unfinished. absurd (omega (arith, unfinished));
            })
            (λ k _. inv.sound k);
      places =
          put_twice
            (λ k job.
              queued k (remove_first s.queues i) + count k (map job_of s.io) ≡ due n c k job)
            s.jobs j last job
            (omega (arith, off.places j, runs.3, count_here j [], due-done n c j job refl))
            (λ k ne. omega (arith, off.places k, count_other ne));
      placed =
          put_level-IsPlaced _ (put s.jobs j last) j job refl
            (put_level-IsPlaced _ s.jobs j last refl off.placed);
      counted = omega (
        arith,
        total-put (λ job. done job.finish_time) n (put s.jobs j last) j job runs.0,
        total-put_same (λ job. done job.finish_time) n s.jobs j last refl,
        ap (λ job. done job.finish_time) same,
        runs.2,
        inv.counted,
      );
    }

pub finish-Timed :
    {n h t w : ℕ} {s : State} (i j : ℕ) → Timed n h t w s → Timed n h t w (finish i j s)
unfolding finish
finish-Timed {s = s} i j timed =
    Timed-put {s = record s { finished = s.finished + 1 }} j
      (record (s.jobs j) { finish_time = some s.time }) (remove_first s.queues i) refl
      (record { ordered = timed.ordered; same_time = timed.same_time; same_work = timed.same_work })
