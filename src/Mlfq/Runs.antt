-- ===== src/Mlfq/Runs.antt =====
-- Lines 116 to 169: the job that runs stays, waits for its I/O, or joins a queue again.
use sysalgos.Base.{
  ℕ, ◌+◌, ◌<◌, ◌≡◌, refl, ap, sym, ◌∙◌, List, [], ◌∷◌, ◌++◌, map, arith, put, put_all, put_self,
  if◌then◌else◌, Bool, true, false, ℕ_discrete,
}
use sysalgos.Mlfq.Scheduler.{numqueues, Job, State, remove_first, start_io, rejoin, iotime}
use sysalgos.Mlfq.Sums.{count, total, count_here, total-put_same, total-le_member}
use sysalgos.Mlfq.Queues.{queued, queued-remove_first, queued-add_job_to_end, count-queued}
use sysalgos.Mlfq.Invariant.{
  Inv, Sound, Sound-same, IsPlaced, done, due, due_pos, due-put_same, job_of,
  add_job_to_end-IsPlaced, remove_first-IsPlaced, put-IsPlaced, put_level-IsPlaced,
}

-- Job `j` stands first in queue `i`.
pub record Running (n h c i j : ℕ) (s : State) : Type 0 where
  pub inv : Inv n h c s
  pub below : i < numqueues
  pub rest : List ℕ
  pub first : s.queues i ≡ j ∷ rest

module _ {n h c i j : ℕ} {s : State} (running : Running n h c i j s) where
  held : 0 < count j (s.queues i)
  held = rw running.first (count_here j running.rest)

  pub Running-due :
      (j < n)
      × ((s.jobs j).start_time < c)
      × (done (s.jobs j).finish_time ≡ 0)
      × (due n c j (s.jobs j) ≡ 1)
  unfolding queued
  Running-due = due_pos n c j (s.jobs j) (
      omega (
        arith,
        held,
        running.inv.places j,
        total-le_member (count j) numqueues s.queues i running.below,
      ))

  pub Running-level : (s.jobs j).priority ≡ i
  unfolding IsPlaced
  Running-level = elim (ℕ_discrete (s.jobs j).priority i) [
    | yes e ↦ e
    | no ne ↦ absurd (omega (arith, held, running.inv.placed i j running.below ne))
  ]

-- Job `j`, of priority `i`, has left its queue; it is at the I/O if `issued_io`, else it is nowhere.
pub record Off (n h c : ℕ) (issued_io : Bool) (i j : ℕ) (s : State) : Type 0 where
  pub sound : (k : ℕ) → k < n → Sound h c (s.jobs k)
  pub places :
      (k : ℕ)
      → queued k s.queues + count k (map job_of s.io) + (if issued_io then 0 else count k (j ∷ []))
        ≡ due n c k (s.jobs k)
  pub placed : IsPlaced s.queues s.jobs
  pub counted : s.finished ≡ total (λ job. done job.finish_time) n s.jobs
  pub is_job : j < n
  pub arrived : (s.jobs j).start_time < c
  pub unqueued : queued j s.queues ≡ 0
  pub level : (s.jobs j).priority ≡ i
  pub below : i < numqueues

pub remove_first-Off :
    {n h c i j : ℕ} {s : State}
    → Running n h c i j s
    → Off n h c false i j (record s { queues = remove_first s.queues i })
remove_first-Off {n = n} {c = c} {i = i} {j = j} {s = s} running =
    let inv = running.inv in
    let runs = Running-due running in
    let fewer =
      λ (k : ℕ). queued-remove_first k s.queues i j running.rest running.below running.first in
    record {
      sound = inv.sound;
      places = λ k. omega (arith, fewer k, inv.places k);
      placed = remove_first-IsPlaced s.queues s.jobs i inv.placed;
      counted = inv.counted;
      is_job = runs.0;
      arrived = runs.1;
      unqueued = omega (arith, fewer j, inv.places j, runs.3, count_here j []);
      level = Running-level running;
      below = running.below;
    }

count-issued :
    (k : ℕ) (io : List (ℕ × ℕ)) (j end : ℕ)
    → count k (map job_of (io ++ (j, end) ∷ [])) ≡ count k (map job_of io) + count k (j ∷ [])
unfolding count
count-issued k [] j end = omega arith
count-issued k ((i, t) ∷ io) j end = omega (arith, count-issued k io j end)

pub start_io-Off :
    {n h c i j : ℕ} {s : State} → Running n h c i j s → Off n h c true i j (start_io i j s)
unfolding start_io
start_io-Off {n = n} {h = h} {c = c} {i = i} {j = j} {s = s} running =
    let off = remove_first-Off running in
    let job = record (s.jobs j) { doing_io = true } in
    record {
      sound =
          put_all (λ k job. k < n → Sound h c job) s.jobs j job
            (λ lt. Sound-same job refl refl refl refl (off.sound j lt)) (λ k _. off.sound k);
      places = λ k. omega (
        arith,
        off.places k,
        count-issued k s.io j (s.time + iotime),
        due-put_same n c k s.jobs j job refl refl,
      );
      placed = put_level-IsPlaced _ s.jobs j job refl off.placed;
      counted =
          off.counted ∙ sym (total-put_same (λ job. done job.finish_time) n s.jobs j job refl);
      is_job = off.is_job;
      arrived =
          put_all (λ k job. k ≡ j → job.start_time < c) s.jobs j job (λ _. off.arrived)
            (λ k ne e. absurd (ne (sym e))) j refl;
      unqueued = off.unqueued;
      level = ap (λ job. job.priority) (put_self s.jobs j job) ∙ off.level;
      below = off.below;
    }

-- A job that is at the I/O needs no queue.
pub Off-Inv : {n h c i j : ℕ} {s : State} → Off n h c true i j s → Inv n h c s
Off-Inv off = record {
  sound = off.sound;
  places = λ k. omega (arith, off.places k);
  placed = off.placed;
  counted = off.counted;
}

-- Job `j` at level `l` joins queue `l`, now or when its I/O has ended.
pub rejoin-Inv :
    {n h c i j : ℕ} {s : State} (issued_io : Bool) (l : ℕ) (job : Job)
    → Off n h c issued_io i j s
    → l < numqueues
    → job.priority ≡ l
    → job.start_time ≡ (s.jobs j).start_time
    → job.finish_time ≡ (s.jobs j).finish_time
    → job.time_left ≡ (s.jobs j).time_left
    → Inv n h c (record s { jobs = put s.jobs j job; queues = rejoin issued_io s.queues l j })
rejoin-Inv {n = n} {h = h} {c = c} {j = j} {s = s} issued_io l job off lt e₁ e₂ e₃ e₄ = record {
  sound =
      put_all (λ k job. k < n → Sound h c job) s.jobs j job (λ _. levelled (off.sound j off.is_job))
        (λ k _. off.sound k);
  places =
      λ k. queued-rejoin k issued_io ∙ off.places k ∙ sym (due-put_same n c k s.jobs j job e₂ e₃);
  placed = rejoin-IsPlaced issued_io;
  counted =
      off.counted ∙ sym (total-put_same (λ job. done job.finish_time) n s.jobs j job (ap done e₃));
}
  where
    unqueued_at : (i : ℕ) → i < numqueues → count j (s.queues i) ≡ 0
    unqueued_at i lt = omega (arith, off.unqueued, count-queued j s.queues i lt)

    levelled : Sound h c (s.jobs j) → Sound h c job
    levelled sound = record {
      level = rw e₁ lt;
      fresh = λ le. absurd (omega (arith, le, e₂, off.arrived));
      late = λ le. absurd (omega (arith, le, e₂, off.arrived));
      starts = rw e₂ sound.starts;
      works = λ e. rw e₄ (sound.works (ap done (sym e₃) ∙ e));
    }

    moved : IsPlaced s.queues (put s.jobs j job)
    moved =
        put-IsPlaced s.queues s.jobs j job (λ i lt _. omega (arith, unqueued_at i lt)) off.placed

    queued-rejoin :
        (k : ℕ) (issued_io : Bool)
        → queued k (rejoin issued_io s.queues l j) + count k (map job_of s.io)
          ≡ queued k s.queues
            + count k (map job_of s.io)
            + (if issued_io then 0 else count k (j ∷ []))
    queued-rejoin k true = omega arith
    queued-rejoin k false = omega (arith, queued-add_job_to_end k s.queues l j lt)

    rejoin-IsPlaced :
        (issued_io : Bool) → IsPlaced (rejoin issued_io s.queues l j) (put s.jobs j job)
    rejoin-IsPlaced true = moved
    rejoin-IsPlaced false =
        add_job_to_end-IsPlaced s.queues (put s.jobs j job) l j
          (ap (λ job. job.priority) (put_self s.jobs j job) ∙ e₁) moved
