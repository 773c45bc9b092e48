-- ===== src/Mlfq/Scheduler/Table.antt =====
-- constants.go, the state of `main`, and its queues. Job numbers, times and frequencies are not negative; what
-- the loop counts down is an integer.
use sysalgos.Base.{ℕ, ◌-◌, Bool, false, Option, none, List, [], ◌∷◌, ◌++◌, put}
use sysalgos.Base.Int.{ℤ, pos}

abbrev pub numqueues : ℕ
numqueues = 3

abbrev pub iotime : ℕ
iotime = 5

abbrev pub quantum : ℤ
quantum = pos 10

abbrev pub allotment : ℤ
allotment = pos 1

abbrev pub boosttime : ℕ
boosttime = 10

abbrev pub highest_priority : ℕ
highest_priority = numqueues - 1

-- `first_run_time` and `finish_time` are -1, here `none`, until they are set.
pub record Job : Type 0 where
  pub priority : ℕ
  pub ticks_left : ℤ
  pub alloted_time_left : ℤ
  pub start_time : ℕ
  pub run_time : ℕ
  pub time_left : ℤ
  pub io_freq : ℕ
  pub doing_io : Bool
  pub first_run_time : Option ℕ
  pub finish_time : Option ℕ

-- A queue holds job numbers, its front first; an entry of the I/O queue is a job and the end of its I/O.
pub record State : Type 0 where
  pub jobs : ℕ → Job
  pub queues : ℕ → List ℕ
  pub io : List (ℕ × ℕ)
  pub time : ℕ
  pub finished : ℕ

-- Lines 43 to 50, for the three numbers of a job.
abbrev pub new_job : ℕ × ℕ × ℕ → Job
new_job (start_time, run_time, io_freq) = record {
  priority = highest_priority;
  ticks_left = quantum;
  alloted_time_left = allotment;
  start_time = start_time;
  run_time = run_time;
  time_left = pos run_time;
  io_freq = io_freq;
  doing_io = false;
  first_run_time = none;
  finish_time = none;
}

abbrev pub initial : (ℕ → ℕ × ℕ × ℕ) → State
initial input = record {
  jobs = λ j. new_job (input j);
  queues = λ _. [];
  io = [];
  time = 0;
  finished = 0;
}

-- `addJobToEnd`, at queue `i`
abbrev pub add_job_to_end : (ℕ → List ℕ) → ℕ → ℕ → ℕ → List ℕ
add_job_to_end queues i j = put queues i (queues i ++ j ∷ [])

abbrev pub tail : List ℕ → List ℕ
tail [] = []
tail (j ∷ js) = js

-- `removeJobAt(0)`, at queue `i`
abbrev pub remove_first : (ℕ → List ℕ) → ℕ → ℕ → List ℕ
remove_first queues i = put queues i (tail (queues i))
