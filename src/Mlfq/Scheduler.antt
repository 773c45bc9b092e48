-- ===== src/Mlfq/Scheduler.antt =====
-- The parts of one pass of the loop of `main`, the pass, and the loop.
mod Table
pub use Table.*
use sysalgos.Base.{
  ℕ, zero, suc, ◌+◌, ◌-◌, ◌%◌, Bool, true, false, not, ◌&&◌, Option, none, some, List, [], ◌∷◌,
  ◌++◌, ◌==◌, ltb, put, if◌then◌else◌, Exec, ok, exits, ◌>>=◌,
}
use sysalgos.Base.Int.{ℤ, pos, negsuc, eqb_ℤ}

-- `findJobToRun`, below queue `i`
unfoldable pub find_job_to_run : ℕ → (ℕ → List ℕ) → Option (ℕ × ℕ)
find_job_to_run zero queues = none
find_job_to_run (suc i) queues = elim (queues i) [
  | [] ↦ find_job_to_run i queues
  | j ∷ js ↦ some (i, j)
]

-- Lines 65 to 70, with `n` jobs left from job `i` on.
unfoldable pub arrive : (n i : ℕ) → (ℕ → Job) → ℕ → (ℕ → List ℕ) → ℕ → List ℕ
arrive zero i jobs time queues = queues
arrive (suc n) i jobs time queues =
    arrive n (i + 1) jobs time
      (if (jobs i).start_time == time then add_job_to_end queues highest_priority i else queues)

-- Lines 72 to 89: I/O that ends now, up to the first entry that does not.
unfoldable pub end_io : List (ℕ × ℕ) → State → State
end_io [] s = record s { io = [] }
end_io ((j, end) ∷ io) s =
    let job = s.jobs j in
    let next = end_io io (record s {
      queues = add_job_to_end s.queues job.priority j;
      jobs = put s.jobs j (record job { doing_io = false });
    }) in
    if end == s.time then next else record s { io = (j, end) ∷ io }

-- Lines 97 to 101, for one queue.
unfoldable pub reset_jobs : List ℕ → (ℕ → Job) → ℕ → Job
reset_jobs [] jobs = jobs
reset_jobs (j ∷ js) jobs = reset_jobs js (
    put jobs j (record (jobs j) {
      priority = highest_priority;
      alloted_time_left = allotment;
      ticks_left = quantum;
    }))

-- Lines 96 to 102, from queue `i` on.
unfoldable pub reset_all : (n i : ℕ) → (ℕ → List ℕ) → (ℕ → Job) → ℕ → Job
reset_all zero i queues jobs = jobs
reset_all (suc n) i queues jobs = reset_all n (i + 1) queues (reset_jobs (queues i) jobs)

-- Lines 103 to 106, below queue `i`.
unfoldable pub drain : ℕ → (ℕ → List ℕ) → ℕ → List ℕ
drain zero queues = queues
drain (suc i) queues =
    drain i (put (put queues highest_priority (queues highest_priority ++ queues i)) i [])

-- Lines 92 to 108.
unfoldable pub boost : State → State
boost s =
    if not (boosttime == 0) && (not (s.time == 0) && s.time % boosttime == 0)
    then record s {
      jobs = reset_all numqueues 0 s.queues s.jobs;
      queues = drain (numqueues - 1) s.queues;
    }
    else s

unfoldable pub decrement : ℤ → ℤ
decrement (pos zero) = negsuc 0
decrement (pos (suc n)) = pos n
decrement (negsuc n) = negsuc (suc n)

-- `runTime - timeLeft`; `timeLeft` has only been counted down from `runTime`.
unfoldable pub elapsed : ℕ → ℤ → ℕ
elapsed run_time (pos n) = run_time - n
elapsed run_time (negsuc n) = run_time + n + 1

abbrev pub or_now : Option ℕ → ℕ → Option ℕ
or_now none time = some time
or_now (some t) time = some t

-- Lines 137 to 141, with the time counted up already.
unfoldable pub start_io : ℕ → ℕ → State → State
start_io curr_queue j s = record s {
  jobs = put s.jobs j (record (s.jobs j) { doing_io = true });
  io = s.io ++ (j, s.time + iotime) ∷ [];
  queues = remove_first s.queues curr_queue;
}

-- A job that has issued I/O joins its queue when that has ended.
abbrev pub rejoin : Bool → (ℕ → List ℕ) → ℕ → ℕ → ℕ → List ℕ
rejoin issued_io queues i j = if issued_io then queues else add_job_to_end queues i j

-- Lines 151 to 156. From queue 0 the program indexes with -1, which panics.
unfoldable pub demote : Bool → ℕ → ℕ → Job → State → Exec State
demote issued_io zero j job s = exits 2
demote issued_io (suc below) j job s = ok (record s {
  jobs = put s.jobs j (record job {
    priority = job.priority - 1;
    alloted_time_left = allotment;
    ticks_left = quantum;
  });
  queues = rejoin issued_io s.queues below j;
})

-- Lines 145 to 169: the job has used up its quantum.
unfoldable pub expire : Bool → ℕ → ℕ → State → Exec State
expire issued_io curr_queue j s =
    let s' = record s {
      queues = if issued_io then s.queues else remove_first s.queues curr_queue;
    } in
    let job = record (s.jobs j) { alloted_time_left = decrement (s.jobs j).alloted_time_left } in
    let stays = ok (record s' {
      jobs = put s.jobs j (record job { ticks_left = quantum });
      queues = rejoin issued_io s'.queues curr_queue j;
    }) in
    let restarts = ok (record s' {
      jobs = put s.jobs j (record job { ticks_left = quantum; alloted_time_left = allotment });
      queues = rejoin issued_io s'.queues curr_queue j;
    }) in
    if eqb_ℤ job.alloted_time_left (pos 0)
    then if not (job.priority == 0) then demote issued_io curr_queue j job s' else restarts
    else stays

-- Lines 126 to 133.
unfoldable pub finish : ℕ → ℕ → State → State
finish curr_queue j s = record s {
  finished = s.finished + 1;
  queues = remove_first s.queues curr_queue;
  jobs = put s.jobs j (record (s.jobs j) { finish_time = some s.time });
}

-- Line 136.
abbrev pub issues_io : Job → Bool
issues_io job = not (job.io_freq == 0) && elapsed job.run_time job.time_left % job.io_freq == 0

-- Lines 116 to 124.
unfoldable pub use_tick : ℕ → State → State
use_tick j s = record s {
  jobs = put s.jobs j (record (s.jobs j) {
    time_left = decrement (s.jobs j).time_left;
    ticks_left = decrement (s.jobs j).ticks_left;
    first_run_time = or_now (s.jobs j).first_run_time s.time;
  });
  time = s.time + 1;
}

-- Lines 116 to 170: the job runs for one unit of time.
unfoldable pub run_job : ℕ → ℕ → State → Exec State
run_job curr_queue j s =
    let s₁ = use_tick j s in
    let job = s₁.jobs j in
    let issued_io = issues_io job in
    let s₂ = if issued_io then start_io curr_queue j s₁ else s₁ in
    if eqb_ℤ job.time_left (pos 0)
    then ok (finish curr_queue j s₁)
    else if eqb_ℤ job.ticks_left (pos 0)
    then expire issued_io curr_queue j s₂
    else ok s₂

-- Lines 110 to 170, for the job found.
unfoldable pub run_or_idle : Option (ℕ × ℕ) → State → Exec State
run_or_idle none s = ok (record s { time = s.time + 1 })
run_or_idle (some (curr_queue, j)) s = run_job curr_queue j s

-- One pass of the loop with `n` jobs, lines 65 to 170.
unfoldable pub pass : ℕ → State → Exec State
pass n s =
    let s₁ = record s { queues = arrive n 0 s.jobs s.time s.queues } in
    let s₂ = boost (end_io s₁.io s₁) in run_or_idle (find_job_to_run numqueues s₂.queues) s₂

-- `for finishedJobs < numJobs`, for at most `fuel` passes; `none` where they are not enough.
unfoldable pub run : (fuel n : ℕ) → State → Exec (Option State)
run zero n s = if ltb s.finished n then ok none else ok (some s)
run (suc fuel) n s =
    let rest = pass n s >>= run fuel n in if ltb s.finished n then rest else ok (some s)
