-- ===== src/Mlfq/Arrivals.antt =====
-- Lines 65 to 70: a job joins the highest queue when its start time has come.
use sysalgos.Base.{
  ℕ, zero, suc, ◌+◌, ◌≤◌, ◌<◌, ◌≡◌, refl, List, [], ◌∷◌, arith, if◌then◌else◌, ltb, leb, ◌&&◌, Bool,
  true, false, ◌==◌, ℕ_discrete,
}
use sysalgos.Mlfq.Scheduler.{highest_priority, Job, State, add_job_to_end, arrive}
use sysalgos.Mlfq.Sums.{count}
use sysalgos.Mlfq.Queues.{queued, queued-add_job_to_end}
use sysalgos.Mlfq.Invariant.{Inv, Sound, IsPlaced, add_job_to_end-IsPlaced, done, due}

-- Whether job `k`, of `m` jobs from `i` on, starts at `time`.
unfoldable arriving : (m i k time : ℕ) → Job → ℕ
arriving m i k time job = if leb i k && (ltb k (i + m) && (job.start_time == time)) then 1 else 0

queued-joins :
    (k : ℕ) (queues : ℕ → List ℕ) (i : ℕ) (b : Bool)
    → queued k (if b then add_job_to_end queues highest_priority i else queues)
      ≡ queued k queues + (if b then count k (i ∷ []) else 0)
queued-joins k queues i true = queued-add_job_to_end k queues highest_priority i (omega arith)
queued-joins k queues i false = omega arith

joins-IsPlaced :
    (queues : ℕ → List ℕ) (jobs : ℕ → Job) (i : ℕ) (b : Bool)
    → (b ≡ true → (jobs i).priority ≡ highest_priority)
    → IsPlaced queues jobs
    → IsPlaced (if b then add_job_to_end queues highest_priority i else queues) jobs
joins-IsPlaced queues jobs i true e h =
    add_job_to_end-IsPlaced queues jobs highest_priority i (e refl) h
joins-IsPlaced queues jobs i false e h = h

arriving_next :
    (m i k time : ℕ) (jobs : ℕ → Job)
    → (if (jobs i).start_time == time then count k (i ∷ []) else 0)
        + arriving m (i + 1) k time (jobs k)
      ≡ arriving (suc m) i k time (jobs k)
unfolding arriving count
arriving_next m i k time jobs = elim (ℕ_discrete i k) [
  | yes e ↦ rw e (ground arith)
  | no ne ↦ ground arith
]

arriving_none : (i k time : ℕ) (job : Job) → arriving 0 i k time job ≡ 0
unfolding arriving
arriving_none i k time job = ground arith

queued-arrive :
    (m i k : ℕ) (jobs : ℕ → Job) (time : ℕ) (queues : ℕ → List ℕ)
    → queued k (arrive m i jobs time queues) ≡ queued k queues + arriving m i k time (jobs k)
unfolding arrive
queued-arrive zero i k jobs time queues = omega (arith, arriving_none i k time (jobs k))
queued-arrive (suc m) i k jobs time queues = omega (
  arith,
  queued-arrive m (i + 1) k jobs time
      (if (jobs i).start_time == time then add_job_to_end queues highest_priority i else queues),
  queued-joins k queues i ((jobs i).start_time == time),
  arriving_next m i k time jobs,
)

arrive-IsPlaced :
    (m i : ℕ) (jobs : ℕ → Job) (time : ℕ) (queues : ℕ → List ℕ)
    → ((k : ℕ) → k < i + m → time ≤ (jobs k).start_time → (jobs k).priority ≡ highest_priority)
    → IsPlaced queues jobs
    → IsPlaced (arrive m i jobs time queues) jobs
unfolding arrive
arrive-IsPlaced zero i jobs time queues fresh h = h
arrive-IsPlaced (suc m) i jobs time queues fresh h =
    arrive-IsPlaced m (i + 1) jobs time
      (if (jobs i).start_time == time then add_job_to_end queues highest_priority i else queues)
      (λ k lt. fresh k (omega arith))
      (joins-IsPlaced queues jobs i ((jobs i).start_time == time)
        (λ e. fresh i (omega arith) (grind arith)) h)

due_next :
    (n c k : ℕ) (job : Job)
    → (k < n → c ≤ job.start_time → done job.finish_time ≡ 0)
    → due n c k job + arriving n 0 k c job ≡ due n (c + 1) k job
unfolding due arriving
due_next n c k job late = ground arith

Sound-later : (h c : ℕ) (job : Job) → Sound h c job → Sound h (c + 1) job
Sound-later h c job sound = record {
  level = sound.level;
  fresh = λ le. sound.fresh (omega arith);
  late = λ le. sound.late (omega arith);
  starts = sound.starts;
  works = sound.works;
}

pub arrive-Inv :
    (n h : ℕ) (s : State)
    → Inv n h s.time s
    → Inv n h (s.time + 1) (record s { queues = arrive n 0 s.jobs s.time s.queues })
arrive-Inv n h s inv = record {
  sound = λ k lt. Sound-later h s.time (s.jobs k) (inv.sound k lt);
  places = λ k. omega (
    arith,
    queued-arrive n 0 k s.jobs s.time s.queues,
    inv.places k,
    due_next n s.time k (s.jobs k) (λ lt. (inv.sound k lt).late),
  );
  placed =
      arrive-IsPlaced n 0 s.jobs s.time s.queues (λ k lt. (inv.sound k (omega arith)).fresh)
        inv.placed;
  counted = inv.counted;
}
