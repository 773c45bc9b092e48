-- ===== src/Mlfq/Tests.antt =====
-- The scheduler at concrete inputs.
use sysalgos.Base.{
  ℕ, zero, suc, ◌+◌, ◌*◌, ◌<◌, ◌≡◌, refl, arith, Option, none, some, [], ◌∷◌, Exec, ok, Yields, ltb,
}
use sysalgos.Mlfq.Scheduler.{
  State, initial, highest_priority, run, pass, run_or_idle, find_job_to_run, boost, end_io, arrive,
  run_job, use_tick, decrement, elapsed, start_io, drain, reset_all, reset_jobs, finish, expire,
  demote,
}
use sysalgos.Mlfq.Sums.{total}
use sysalgos.Mlfq.Queues.{queued, Found, find_job_to_run-Found}
use sysalgos.Mlfq.Boost.{boost_lem, reset_if}
use sysalgos.Mlfq.Loop.{Passed, to_do}
use sysalgos.Mlfq.Passes.{Finished, pass-Passed}
use sysalgos.Mlfq.Ends.{start_time_of, run_time_of, initial-Ready, main_ends}

-- Job 0 issues I/O after each two units of time; job 1 uses up its quantum.
abbrev two_jobs : ℕ → ℕ × ℕ × ℕ
two_jobs zero = (0, 5, 2)
two_jobs (suc j) = (1, 12, 0)

abbrev finish_times : Exec (Option State) → Option (Option ℕ × Option ℕ)
finish_times (ok (some s)) = some ((s.jobs 0).finish_time, (s.jobs 1).finish_time)
finish_times _ = none

two_jobs-run : finish_times (run 30 2 (initial two_jobs)) ≡ some (some 22, some 14)
unfolding run pass run_or_idle find_job_to_run boost end_io arrive run_job use_tick decrement
    elapsed start_io drain reset_all reset_jobs finish expire demote
two_jobs-run = refl

two_jobs_sound : (j : ℕ) → j < 2 → (start_time_of (two_jobs j) < 2) × (0 < run_time_of (two_jobs j))
two_jobs_sound zero lt = (omega arith, omega arith)
two_jobs_sound (suc j) lt = (omega arith, omega arith)

main_ends_example :
    Yields (Finished 2) (run (6 * total run_time_of 2 two_jobs + 2) 2 (initial two_jobs))
main_ends_example = main_ends 2 2 two_jobs two_jobs_sound

pass-Passed_example : Yields (Passed 2 (to_do 2 2 (initial two_jobs))) (pass 2 (initial two_jobs))
pass-Passed_example = pass-Passed (initial-Ready 2 2 two_jobs two_jobs_sound) (omega arith)

-- Job 1 waits in the lowest queue when it is time to boost.
abbrev waiting : State
waiting = record (initial two_jobs) {
  queues = λ i. elim i [ zero ↦ 1 ∷ [] | suc _ ↦ [] ];
  time = 10;
}

boost_lem_example :
    ((boost waiting).queues highest_priority ≡ 1 ∷ [])
    × ((i : ℕ) → i < highest_priority → (boost waiting).queues i ≡ [])
    × ((k : ℕ)
        → (boost waiting).jobs k ≡ reset_if (ltb 0 (queued k waiting.queues)) (waiting.jobs k))
boost_lem_example = boost_lem waiting (omega arith) (omega arith)

-- A job that has nothing to do when it starts never ends.
no_time : ℕ → ℕ × ℕ × ℕ
no_time j = (0, 0, 0)

no_time-run : finish_times (run 40 1 (initial no_time)) ≡ none
unfolding no_time run pass run_or_idle find_job_to_run boost end_io arrive run_job use_tick
    decrement elapsed start_io drain reset_all reset_jobs finish expire demote
no_time-run = refl

-- Job 1 waits in the lowest queue, and the others are empty.
find_job_to_run-Found_example : Found 3 waiting.queues (find_job_to_run 3 waiting.queues)
find_job_to_run-Found_example = find_job_to_run-Found 3 waiting.queues
