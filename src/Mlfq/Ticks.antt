-- ===== src/Mlfq/Ticks.antt =====
-- Lines 116 to 169: one unit of time of the job that runs ends, and there is less work then.
use sysalgos.Base.{ℕ, zero, suc, ◌+◌, ◌<◌, ◌≡◌, refl, ap, sym, ◌∙◌, arith, put_all, put_self, false}
use sysalgos.Base.Int.{ℤ, pos, negsuc, pos_part, eqb_ℤ}
use sysalgos.Mlfq.Scheduler.{Job, State, iotime, use_tick, decrement, or_now}
use sysalgos.Mlfq.Sums.{total-put_same, total-put}
use sysalgos.Mlfq.Invariant.{Sound, IsOrdered, done, due-put_same, work, put_level-IsPlaced}
use sysalgos.Mlfq.Runs.{Running, Running-due}
use sysalgos.Mlfq.Expiry.{Timed}

decrement_pos : (z : ℤ) → 0 < pos_part z → suc (pos_part (decrement z)) ≡ pos_part z
unfolding decrement
decrement_pos (pos zero) h = absurd (omega arith)
decrement_pos (pos (suc m)) h = refl
decrement_pos (negsuc m) h = absurd (omega arith)

pub decrement_left :
    (z : ℤ) → 0 < pos_part z → eqb_ℤ (decrement z) (pos 0) ≡ false → 0 < pos_part (decrement z)
unfolding decrement
decrement_left (pos zero) h e = absurd (omega arith)
decrement_left (pos (suc m)) h e = ground arith
decrement_left (negsuc m) h e = absurd (omega arith)

unfoldable pub ticked : Job → ℕ → Job
ticked job time = record job {
  time_left = decrement job.time_left;
  ticks_left = decrement job.ticks_left;
  first_run_time = or_now job.first_run_time time;
}

pub use_tick-Running :
    {n h c i j : ℕ} {s : State}
    → 0 < pos_part (decrement (s.jobs j).time_left)
    → Running n h c i j s
    → Running n h c i j (use_tick j s)
unfolding use_tick ticked
use_tick-Running {n = n} {h = h} {c = c} {j = j} {s = s} more running =
    let inv = running.inv in
    let job = ticked (s.jobs j) s.time in
    let sound = inv.sound j (Running-due running).0 in
    record {
      inv = record {
        sound =
            put_all (λ k job. k < n → Sound h c job) s.jobs j job
              (λ _. record {
                level = sound.level;
                fresh = sound.fresh;
                late = sound.late;
                starts = sound.starts;
                works = λ _. more;
              })
              (λ k _. inv.sound k);
        places = λ k. inv.places k ∙ sym (due-put_same n c k s.jobs j job refl refl);
        placed = put_level-IsPlaced s.queues s.jobs j job refl inv.placed;
        counted =
            inv.counted ∙ sym (total-put_same (λ job. done job.finish_time) n s.jobs j job refl);
      };
      below = running.below;
      rest = running.rest;
      first = running.first;
    }

pub use_tick-Timed :
    {n h i c j w : ℕ} {s : State}
    → Running n h c i j s
    → 0 < pos_part (s.jobs j).time_left
    → suc w ≡ work n s.jobs
    → IsOrdered (s.time + 1) (s.time + 1 + iotime) h s.io
    → Timed n h (s.time + 1) w (use_tick j s)
unfolding use_tick work ticked
use_tick-Timed {n = n} {j = j} {s = s} running more e ordered = record {
  ordered = ordered;
  same_time = refl;
  same_work = omega (
    arith,
    total-put (λ job. pos_part job.time_left) n s.jobs j (ticked (s.jobs j) s.time)
        (Running-due running).0,
    decrement_pos (s.jobs j).time_left more,
    e,
  );
}

pub use_tick-time_left :
    (j : ℕ) (s : State) → ((use_tick j s).jobs j).time_left ≡ decrement (s.jobs j).time_left
unfolding use_tick ticked
use_tick-time_left j s = ap (λ job. job.time_left) (put_self s.jobs j (ticked (s.jobs j) s.time))
