-- ===== src/Mlfq/Boost.antt =====
-- Lines 92 to 108: at the times that are multiples of `BOOSTTIME`, every job that waits moves to the highest queue.
use sysalgos.Base.{
  ℕ, zero, suc, ◌+◌, ◌-◌, ◌<◌, ◌≡◌, refl, ap, sym, subst, ◌∙◌, List, [], ◌∷◌, ◌++◌, map, arith,
  if_both, not, ◌%◌, put, put_all, dec_lt, ltb, ◌&&◌, Bool, true, false, ◌==◌, lt→ltb,
}
use sysalgos.Base.Int.{pos_part}
use sysalgos.Mlfq.Scheduler.{
  numqueues, highest_priority, allotment, quantum, Job, State, reset_jobs, reset_all, drain, boost,
  boosttime,
}
use sysalgos.Mlfq.Sums.{
  count, total, count_here, count_other, count_nil, total_cong, total-le_member,
}
use sysalgos.Mlfq.Queues.{queued, queued-drain}
use sysalgos.Mlfq.Invariant.{Inv, Sound, IsPlaced, done, due, job_of, work}
use sysalgos.Mlfq.Io.{Ended}

-- A job that is put back to the highest priority, if `b`.
unfoldable pub reset_if : Bool → Job → Job
reset_if true job = record job {
  priority = highest_priority;
  alloted_time_left = allotment;
  ticks_left = quantum;
}
reset_if false job = job

reset_if-reset_if :
    (a b : ℕ) (job : Job)
    → reset_if (ltb 0 b) (reset_if (ltb 0 a) job) ≡ reset_if (ltb 0 (a + b)) job
unfolding reset_if
reset_if-reset_if a b job = ground arith

reset_if-false : (job : Job) → job ≡ reset_if false job
unfolding reset_if
reset_if-false job = refl

put-reset :
    (jobs : ℕ → Job) (j k : ℕ)
    → put jobs j (reset_if true (jobs j)) k ≡ reset_if (ltb 0 (count k (j ∷ []))) (jobs k)
put-reset jobs j =
    put_all (λ k job. job ≡ reset_if (ltb 0 (count k (j ∷ []))) (jobs k)) jobs j
      (reset_if true (jobs j)) (rw (lt→ltb 0 (count j (j ∷ [])) (count_here j [])) refl)
      (λ k ne. rw (count_other ne) (reset_if-false (jobs k)))

pub reset_jobs_lem :
    (js : List ℕ) (jobs : ℕ → Job) (k : ℕ)
    → reset_jobs js jobs k ≡ reset_if (ltb 0 (count k js)) (jobs k)
unfolding reset_jobs count reset_if
reset_jobs_lem [] jobs k = refl
reset_jobs_lem (j ∷ js) jobs k =
    reset_jobs_lem js (put jobs j (reset_if true (jobs j))) k
    ∙ ap (reset_if (ltb 0 (count k js))) (put-reset jobs j k)
    ∙ reset_if-reset_if (count k (j ∷ [])) (count k js) (jobs k)
    ∙ ap (λ m. reset_if (ltb 0 m) (jobs k)) (omega arith)

-- The jobs that stand in a queue are put back, and no others.
pub reset_all_lem :
    (queues : ℕ → List ℕ) (jobs : ℕ → Job) (k : ℕ)
    → reset_all numqueues 0 queues jobs k ≡ reset_if (ltb 0 (queued k queues)) (jobs k)
unfolding reset_all queued total
reset_all_lem queues jobs k =
    let jobs₀ = reset_jobs (queues 0) jobs in
    let jobs₁ = reset_jobs (queues 1) jobs₀ in
    let reset_if_held : ℕ → Job → Job = λ i. reset_if (ltb 0 (count k (queues i))) in
    reset_jobs_lem (queues 2) jobs₁ k
    ∙ ap (reset_if_held 2) (
        reset_jobs_lem (queues 1) jobs₀ k
        ∙ ap (reset_if_held 1) (reset_jobs_lem (queues 0) jobs k)
        ∙ reset_if-reset_if (count k (queues 0)) (count k (queues 1)) (jobs k))
    ∙ reset_if-reset_if (count k (queues 0) + count k (queues 1)) (count k (queues 2)) (jobs k)
    ∙ ap (λ m. reset_if (ltb 0 m) (jobs k)) (omega arith)

reset_if-Sound : (h c : ℕ) (b : Bool) (job : Job) → Sound h c job → Sound h c (reset_if b job)
unfolding reset_if
reset_if-Sound h c true job sound = record {
  level = omega arith;
  fresh = λ _. refl;
  late = sound.late;
  starts = sound.starts;
  works = sound.works;
}
reset_if-Sound h c false job sound = sound

-- What a reset leaves as it is.
reset_if_same :
    (b : Bool) (job : Job)
    → ((reset_if b job).start_time ≡ job.start_time)
      × ((reset_if b job).finish_time ≡ job.finish_time)
      × ((reset_if b job).time_left ≡ job.time_left)
unfolding reset_if
reset_if_same true job = (refl, refl, refl)
reset_if_same false job = (refl, refl, refl)

highest_when_held :
    (queues : ℕ → List ℕ) (jobs : ℕ → Job) (k : ℕ)
    → 0 < queued k queues
    → (reset_all numqueues 0 queues jobs k).priority ≡ highest_priority
unfolding reset_if
highest_when_held queues jobs k held =
    ap (λ job. job.priority)
      (reset_all_lem queues jobs k
        ∙ ap (λ b. reset_if b (jobs k)) (lt→ltb 0 (queued k queues) held))

drained-IsPlaced :
    (queues : ℕ → List ℕ) (jobs : ℕ → Job)
    → IsPlaced (drain (numqueues - 1) queues) (reset_all numqueues 0 queues jobs)
unfolding IsPlaced drain queued
drained-IsPlaced queues jobs zero k lt ne = count_nil k
drained-IsPlaced queues jobs (suc zero) k lt ne = count_nil k
drained-IsPlaced queues jobs (suc (suc zero)) k lt ne = elim (dec_lt 0 (queued k queues)) [
  | yes held ↦ absurd (ne (highest_when_held queues jobs k held))
  | no unheld ↦
      let drained = drain (numqueues - 1) queues in
      omega
        (arith, total-le_member (count k) numqueues drained 2 (omega arith), queued-drain k queues)
]
drained-IsPlaced queues jobs (suc (suc (suc i))) k lt ne = absurd (omega arith)

-- The state after a boost.
unfoldable boosted : State → State
boosted s = record s {
  jobs = reset_all numqueues 0 s.queues s.jobs;
  queues = drain (numqueues - 1) s.queues;
}

due-reset_if : (n c k : ℕ) (b : Bool) (job : Job) → due n c k (reset_if b job) ≡ due n c k job
unfolding due reset_if
due-reset_if n c k true job = refl
due-reset_if n c k false job = refl

boosted-Inv : (n h c : ℕ) (s : State) → Inv n h c s → Inv n h c (boosted s)
unfolding boosted
boosted-Inv n h c s inv =
    let reset = reset_all_lem s.queues s.jobs in
    let held : ℕ → Bool = λ k. ltb 0 (queued k s.queues) in
    record {
      sound = λ k lt.
          subst (Sound h c) (sym (reset k))
            (reset_if-Sound h c (held k) (s.jobs k) (inv.sound k lt));
      places = λ k.
          ap (λ m. m + count k (map job_of s.io)) (queued-drain k s.queues)
          ∙ inv.places k
          ∙ sym (ap (due n c k) (reset k) ∙ due-reset_if n c k (held k) (s.jobs k));
      placed = drained-IsPlaced s.queues s.jobs;
      counted =
          inv.counted
          ∙ total_cong (λ job. done job.finish_time) n s.jobs
              (reset_all numqueues 0 s.queues s.jobs)
              (λ k _. sym (
                ap (λ job. done job.finish_time) (reset k)
                ∙ ap done (reset_if_same (held k) (s.jobs k)).1));
    }

pub boost-Ended :
    (n h c now : ℕ) (s₀ s : State) → Ended n h c now s₀ s → Ended n h c now s₀ (boost s)
unfolding boost boosted work
boost-Ended n h c now s₀ s ended =
    let reset = reset_all_lem s.queues s.jobs in
    if_both (Ended n h c now s₀) (not (s.time == 0) && s.time % boosttime == 0)
      (record {
        inv = boosted-Inv n h c s ended.inv;
        ordered = ended.ordered;
        same_time = ended.same_time;
        same_finished = ended.same_finished;
        same_work =
            total_cong (λ job. pos_part job.time_left) n (boosted s).jobs s.jobs
              (λ k _.
                ap (λ job. pos_part job.time_left) (reset k)
                ∙ ap pos_part (reset_if_same (ltb 0 (queued k s.queues)) (s.jobs k)).2)
            ∙ ended.same_work;
      })
      ended

lower_empty :
    (queues : ℕ → List ℕ) (i : ℕ) → i < highest_priority → drain (numqueues - 1) queues i ≡ []
unfolding drain
lower_empty queues zero h = refl
lower_empty queues (suc zero) h = refl
lower_empty queues (suc (suc i)) h = absurd (omega arith)

-- When it is time to boost, the highest queue holds its own jobs, then those of each lower queue in turn, the lower
-- queues are empty, and exactly the jobs that stand in a queue get the highest priority and a full quantum and
-- allotment.
pub boost_lem :
    (s : State)
    → 0 < s.time
    → s.time % boosttime ≡ 0
    → ((boost s).queues highest_priority ≡ s.queues 2 ++ s.queues 1 ++ s.queues 0)
      × ((i : ℕ) → i < highest_priority → (boost s).queues i ≡ [])
      × ((k : ℕ) → (boost s).jobs k ≡ reset_if (ltb 0 (queued k s.queues)) (s.jobs k))
unfolding boost drain
boost_lem s later due_now =
    let now : (not (s.time == 0) && s.time % boosttime == 0) ≡ true = ground arith in
    rw now (refl, lower_empty s.queues, reset_all_lem s.queues s.jobs)
