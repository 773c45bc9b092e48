-- ===== src/Mlfq/Invariant.antt =====
-- Where the jobs of `main` stand: an invariant of its loop, which the passes to come keep.
use sysalgos.Base.{
  ℕ, ◌+◌, ◌-◌, ◌≤◌, ◌<◌, ◌≡◌, refl, ◌≢◌, ap, sym, ◌∙◌, List, [], ◌∷◌, ◌++◌, map, arith, Option,
  none, some, put, put_all, if◌then◌else◌, ltb, ◌&&◌,
}
use sysalgos.Base.Int.{pos_part}
use sysalgos.Mlfq.Scheduler.{
  numqueues, highest_priority, Job, State, add_job_to_end, remove_first, tail,
}
use sysalgos.Mlfq.Sums.{total, count, count-append, count-tail, count_other}
use sysalgos.Mlfq.Queues.{queued}

-- Whether a job has finished.
unfoldable pub done : Option ℕ → ℕ
done none = 0
done (some t) = 1

-- How often job `k` stands in a queue or at the I/O: once from its arrival, by clock `c`, to its end.
unfoldable pub due : (n c k : ℕ) → Job → ℕ
due n c k job = if ltb k n && ltb job.start_time c then 1 - done job.finish_time else 0

-- What holds of each job, when those that start before `c` have arrived and all start before `h`.
pub record Sound (h c : ℕ) (job : Job) : Type 0 where
  pub level : job.priority < numqueues
  pub fresh : c ≤ job.start_time → job.priority ≡ highest_priority
  pub late : c ≤ job.start_time → done job.finish_time ≡ 0
  pub starts : job.start_time < h
  pub works : done job.finish_time ≡ 0 → 0 < pos_part job.time_left

-- A job stands in no queue but that of its priority.
unfoldable pub IsPlaced : (ℕ → List ℕ) → (ℕ → Job) → Type 0
IsPlaced queues jobs = (i k : ℕ) → i < numqueues → (jobs k).priority ≢ i → count k (queues i) ≡ 0

-- I/O that ends in order, from `lo` to `now` and never after `h`.
unfoldable pub IsOrdered : (lo now h : ℕ) → List (ℕ × ℕ) → Type 0
IsOrdered lo now h [] = Unit
IsOrdered lo now h ((j, end) ∷ io) = (lo ≤ end) × (end ≤ now) × (end ≤ h) × IsOrdered end now h io

abbrev pub job_of : ℕ × ℕ → ℕ
job_of (j, end) = j

pub record Inv (n h c : ℕ) (s : State) : Type 0 where
  pub sound : (k : ℕ) → k < n → Sound h c (s.jobs k)
  pub places : (k : ℕ) → queued k s.queues + count k (map job_of s.io) ≡ due n c k (s.jobs k)
  pub placed : IsPlaced s.queues s.jobs
  pub counted : s.finished ≡ total (λ job. done job.finish_time) n s.jobs

pub add_job_to_end-IsPlaced :
    (queues : ℕ → List ℕ) (jobs : ℕ → Job) (i j : ℕ)
    → (jobs j).priority ≡ i
    → IsPlaced queues jobs
    → IsPlaced (add_job_to_end queues i j) jobs
unfolding IsPlaced
add_job_to_end-IsPlaced queues jobs i j e h i' k lt ne =
    put_all (λ i' js. i' < numqueues → (jobs k).priority ≢ i' → count k js ≡ 0) queues i
      (queues i ++ j ∷ [])
      (λ lt ne.
        let other : j ≢ k = λ same. ne (ap (λ j. (jobs j).priority) (sym same) ∙ e) in
        omega (arith, count-append k (queues i) (j ∷ []), h i k lt ne, count_other other))
      (λ i' _ lt ne. h i' k lt ne) i' lt ne

pub remove_first-IsPlaced :
    (queues : ℕ → List ℕ) (jobs : ℕ → Job) (i : ℕ)
    → IsPlaced queues jobs
    → IsPlaced (remove_first queues i) jobs
unfolding IsPlaced
remove_first-IsPlaced queues jobs i h i' k lt ne =
    put_all (λ i' js. i' < numqueues → (jobs k).priority ≢ i' → count k js ≡ 0) queues i
      (tail (queues i)) (λ lt ne. omega (arith, count-tail k (queues i), h i k lt ne))
      (λ i' _ lt ne. h i' k lt ne) i' lt ne

pub put-IsPlaced :
    (queues : ℕ → List ℕ) (jobs : ℕ → Job) (j : ℕ) (job : Job)
    → ((i : ℕ) → i < numqueues → job.priority ≢ i → count j (queues i) ≡ 0)
    → IsPlaced queues jobs
    → IsPlaced queues (put jobs j job)
unfolding IsPlaced
put-IsPlaced queues jobs j job here h i k lt =
    put_all (λ k job. job.priority ≢ i → count k (queues i) ≡ 0) jobs j job (here i lt)
      (λ k ne. h i k lt) k

-- Another job at `j` that stands at the same level.
pub put_level-IsPlaced :
    (queues : ℕ → List ℕ) (jobs : ℕ → Job) (j : ℕ) (job : Job)
    → job.priority ≡ (jobs j).priority
    → IsPlaced queues jobs
    → IsPlaced queues (put jobs j job)
unfolding IsPlaced
put_level-IsPlaced queues jobs j job e h =
    put-IsPlaced queues jobs j job (λ i lt ne. h i j lt (λ e'. ne (e ∙ e'))) h

-- The work that is left, of `n` jobs.
unfoldable pub work : ℕ → (ℕ → Job) → ℕ
work n jobs = total (λ job. pos_part job.time_left) n jobs

-- A job that stands in a queue or at the I/O has arrived, is not finished, and stands there once.
pub due_pos :
    (n c k : ℕ) (job : Job)
    → 0 < due n c k job
    → (k < n) × (job.start_time < c) × (done job.finish_time ≡ 0) × (due n c k job ≡ 1)
unfolding due
due_pos n c k job h = (ground arith, ground arith, ground arith, ground arith)

-- Only these four parts of a job matter to the invariant.
pub Sound-same :
    {h c : ℕ} {job : Job} (job' : Job)
    → job'.priority ≡ job.priority
    → job'.start_time ≡ job.start_time
    → job'.finish_time ≡ job.finish_time
    → job'.time_left ≡ job.time_left
    → Sound h c job
    → Sound h c job'
Sound-same job' e₁ e₂ e₃ e₄ sound = record {
  level = rw e₁ sound.level;
  fresh = λ le. e₁ ∙ sound.fresh (omega arith);
  late = λ le. ap done e₃ ∙ sound.late (omega arith);
  starts = rw e₂ sound.starts;
  works = λ e. rw e₄ (sound.works (ap done (sym e₃) ∙ e));
}

pub due-put_same :
    (n c k : ℕ) (jobs : ℕ → Job) (j : ℕ) (job : Job)
    → job.start_time ≡ (jobs j).start_time
    → job.finish_time ≡ (jobs j).finish_time
    → due n c k (put jobs j job k) ≡ due n c k (jobs k)
unfolding due
due-put_same n c k jobs j job e e' =
    put_all (λ k job. due n c k job ≡ due n c k (jobs k)) jobs j job (rw (e, e') refl) (λ k _. refl)
      k
