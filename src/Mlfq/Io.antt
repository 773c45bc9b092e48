-- ===== src/Mlfq/Io.antt =====
-- Lines 72 to 89: a job whose I/O ends now joins the queue of its priority.
use sysalgos.Base.{
  ℕ, ◌+◌, ◌<◌, ◌≡◌, refl, sym, subst, ◌∙◌, List, [], ◌∷◌, map, arith, put, put_all, true, false,
  ◌==◌, ℕ_discrete,
}
use sysalgos.Base.Int.{pos_part}
use sysalgos.Mlfq.Scheduler.{State, add_job_to_end, end_io}
use sysalgos.Mlfq.Sums.{count, count_here, count-append, total-put_same}
use sysalgos.Mlfq.Queues.{queued, queued-add_job_to_end}
use sysalgos.Mlfq.Invariant.{
  Inv, Sound, Sound-same, IsOrdered, add_job_to_end-IsPlaced, put_level-IsPlaced, done, due,
  due_pos, due-put_same, job_of, work,
}

-- The state after one entry, and after all that end now.
unfoldable joined : State → ℕ → State
joined s j = record s {
  queues = add_job_to_end s.queues (s.jobs j).priority j;
  jobs = put s.jobs j (record (s.jobs j) { doing_io = false });
}

joined-Inv :
    (n h c : ℕ) (s : State) (j end : ℕ) (io : List (ℕ × ℕ))
    → Inv n h c (record s { io = (j, end) ∷ io })
    → Inv n h c (record (joined s j) { io = io })
unfolding joined
joined-Inv n h c s j end io inv =
    let job = record (s.jobs j) { doing_io = false } in
    let held : 0 < due n c j (s.jobs j) =
      omega (arith, inv.places j, count_here j (map job_of io)) in
    let sound = inv.sound j (due_pos n c j (s.jobs j) held).0 in
    record {
      sound =
          put_all (λ k job. k < n → Sound h c job) s.jobs j job
            (λ _. Sound-same job refl refl refl refl sound) (λ k _. inv.sound k);
      places = λ k.
          let moved : queued k (add_job_to_end s.queues (s.jobs j).priority j)
                + count k (map job_of io)
              ≡ due n c k (s.jobs k) =
            omega (
              arith,
              queued-add_job_to_end k s.queues (s.jobs j).priority j sound.level,
              inv.places k,
              count-append k (j ∷ []) (map job_of io),
            ) in
          moved ∙ sym (due-put_same n c k s.jobs j job refl refl);
      placed =
          put_level-IsPlaced _ s.jobs j job refl
            (add_job_to_end-IsPlaced s.queues s.jobs (s.jobs j).priority j refl inv.placed);
      counted =
          inv.counted ∙ sym (total-put_same (λ job. done job.finish_time) n s.jobs j job refl);
    }

-- What holds after the phase that takes `s` to `s'`: the invariant, all I/O that is left ends later, and no work is done.
pub record Ended (n h c now : ℕ) (s s' : State) : Type 0 where
  pub inv : Inv n h c s'
  pub ordered : IsOrdered (s.time + 1) now h s'.io
  pub same_time : s'.time ≡ s.time
  pub same_finished : s'.finished ≡ s.finished
  pub same_work : work n s'.jobs ≡ work n s.jobs

pub end_io-Ended :
    (n h c now : ℕ) (io : List (ℕ × ℕ)) (s : State)
    → Inv n h c (record s { io = io })
    → IsOrdered s.time now h io
    → Ended n h c now s (end_io io s)
unfolding end_io IsOrdered joined work
end_io-Ended n h c now [] s inv ordered = record {
  inv = inv;
  ordered = tt;
  same_time = refl;
  same_finished = refl;
  same_work = refl;
}
end_io-Ended n h c now ((j, end) ∷ io) s inv (ge, le, le', ordered) = elim (ℕ_discrete end s.time) [
  | yes e ↦
      let now_ends : (end == s.time) ≡ true = ground arith in
      let rest =
        end_io-Ended n h c now io (joined s j) (joined-Inv n h c s j end io inv)
          (subst (λ lo. IsOrdered lo now h io) e ordered) in
      rw now_ends (record {
        inv = rest.inv;
        ordered = rest.ordered;
        same_time = rest.same_time;
        same_finished = rest.same_finished;
        same_work =
            rest.same_work
            ∙ total-put_same (λ job. pos_part job.time_left) n s.jobs j
                (record (s.jobs j) { doing_io = false }) refl;
      })
  | no ne ↦
      let ends_later : (end == s.time) ≡ false = ground arith in
      rw ends_later (record {
        inv = inv;
        ordered = (omega arith, le, le', ordered);
        same_time = refl;
        same_finished = refl;
        same_work = refl;
      })
]
