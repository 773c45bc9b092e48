-- ===== src/Mlfq/Ends.antt =====
-- `main` for given jobs: the simulation ends.
use sysalgos.Base.{ℕ, zero, suc, ◌+◌, ◌*◌, ◌<◌, ◌≡◌, refl, sym, arith, Yields}
use sysalgos.Mlfq.Scheduler.{Job, new_job, initial, run}
use sysalgos.Mlfq.Sums.{count, total}
use sysalgos.Mlfq.Queues.{queued}
use sysalgos.Mlfq.Invariant.{IsPlaced, IsOrdered, done, due, work}
use sysalgos.Mlfq.Loop.{Ready, to_do}
use sysalgos.Mlfq.Passes.{Finished, run-Finished}

abbrev pub start_time_of : ℕ × ℕ × ℕ → ℕ
start_time_of (start_time, run_time, io_freq) = start_time

abbrev pub run_time_of : ℕ × ℕ × ℕ → ℕ
run_time_of (start_time, run_time, io_freq) = run_time

nothing_due : (n k : ℕ) (job : Job) → due n 0 k job ≡ 0
unfolding due
nothing_due n k job = ground arith

nothing_done :
    (n : ℕ) (input : ℕ → ℕ × ℕ × ℕ) → total (λ job. done job.finish_time) n (initial input).jobs ≡ 0
unfolding total done
nothing_done zero input = refl
nothing_done (suc n) input = omega (arith, nothing_done n input)

all_to_do :
    (n : ℕ) (input : ℕ → ℕ × ℕ × ℕ) → work n (initial input).jobs ≡ total run_time_of n input
unfolding total work
all_to_do zero input = refl
all_to_do (suc n) input = omega (arith, all_to_do n input)

pub initial-Ready :
    (n h : ℕ) (input : ℕ → ℕ × ℕ × ℕ)
    → ((j : ℕ) → j < n → (start_time_of (input j) < h) × (0 < run_time_of (input j)))
    → Ready n h (initial input)
unfolding queued total count IsPlaced IsOrdered done
initial-Ready n h input given = record {
  inv = record {
    sound = λ k lt. record {
      level = omega arith;
      fresh = λ _. refl;
      late = λ _. refl;
      starts = (given k lt).0;
      works = λ _. (given k lt).1;
    };
    places = λ k. sym (nothing_due n k (new_job (input k)));
    placed = λ i k lt ne. refl;
    counted = sym (nothing_done n input);
  };
  ordered = tt;
}

-- For `n` jobs that start before `h` and run for one unit of time or more, the simulation ends, after at most six
-- passes for each unit of their run times and `h` more; it does not panic, and every job has its finish time.
pub main_ends :
    (n h : ℕ) (input : ℕ → ℕ × ℕ × ℕ)
    → ((j : ℕ) → j < n → (start_time_of (input j) < h) × (0 < run_time_of (input j)))
    → Yields (Finished n) (run (6 * total run_time_of n input + h) n (initial input))
unfolding to_do
main_ends n h input given =
    run-Finished (6 * total run_time_of n input + h) (initial-Ready n h input given)
      (omega (arith, all_to_do n input))
