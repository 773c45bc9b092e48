-- ===== src/Mlfq/Jobs.antt =====
-- Lines 116 to 170: the job that runs.
use sysalgos.Base.{
  ℕ, suc, ◌+◌, ◌≤◌, ◌≡◌, refl, ap, sym, subst, List, [], ◌∷◌, ◌++◌, arith, if◌then◌else◌, Bool,
  true, false, ok, Yields, returns, if_cases,
}
use sysalgos.Base.Int.{pos, eqb_ℤ}
use sysalgos.Mlfq.Scheduler.{
  State, remove_first, start_io, iotime, use_tick, expire, run_job, issues_io,
}
use sysalgos.Mlfq.Invariant.{IsOrdered, work}
use sysalgos.Mlfq.Runs.{Running, Running-due, remove_first-Off, start_io-Off, Off-Inv}
use sysalgos.Mlfq.Expiry.{Timed, Timed-put, Ran, expire-Ran}
use sysalgos.Mlfq.Ticks.{use_tick-time_left, use_tick-Running, use_tick-Timed, decrement_left}
use sysalgos.Mlfq.Finish.{finish-Inv, finish-Timed}

IsOrdered-append :
    (lo now h : ℕ) (io : List (ℕ × ℕ)) (j end : ℕ)
    → lo ≤ end
    → now ≤ end
    → end ≤ h
    → IsOrdered lo now h io
    → IsOrdered lo end h (io ++ (j, end) ∷ [])
unfolding IsOrdered
IsOrdered-append lo now h [] j end le le' le'' ordered = (le, omega arith, le'', tt)
IsOrdered-append lo now h ((i, t) ∷ io) j end le le' le'' (a, b, d, ordered) =
    (a, omega arith, d, IsOrdered-append t now h io j end (omega arith) le' le'' ordered)

start_io-Timed :
    {n h t w : ℕ} {s : State} (i j : ℕ)
    → t + iotime ≤ h
    → Timed n h t w s
    → Timed n h t w (start_io i j s)
unfolding start_io
start_io-Timed {h = h} {t = t} {s = s} i j le timed =
    let e = timed.same_time in
    Timed-put {s = record s { io = s.io ++ (j, s.time + iotime) ∷ [] }} j
      (record (s.jobs j) { doing_io = true }) (remove_first s.queues i) refl
      (record {
        ordered =
            subst (λ end. IsOrdered t (t + iotime) h (s.io ++ (j, end) ∷ []))
              (ap (λ t. t + iotime) (sym e))
              (IsOrdered-append t (t + iotime) h s.io j (t + iotime) (omega arith) (omega arith) le
                timed.ordered);
        same_time = timed.same_time;
        same_work = timed.same_work;
      })

-- The job that has work left.
goes_on :
    {n h c i j t w : ℕ} {s : State} (issued_io expired : Bool)
    → t + iotime ≤ h
    → Running n h c i j s
    → Timed n h t w s
    → Yields (Ran n h c t w) (
        if expired
        then expire issued_io i j (if issued_io then start_io i j s else s)
        else ok (if issued_io then start_io i j s else s))
unfolding start_io
goes_on {i = i} {j = j} true true le running timed =
    expire-Ran true i j (start_io-Off running) (start_io-Timed i j le timed)
goes_on {i = i} {j = j} false true le running timed =
    expire-Ran false i j (remove_first-Off running) timed
goes_on {i = i} {j = j} true false le running timed =
    returns (record { inv = Off-Inv (start_io-Off running); timed = start_io-Timed i j le timed })
goes_on false false le running timed = returns (record { inv = running.inv; timed = timed })

pub run_job-Ran :
    {n h c i j w : ℕ} {s : State}
    → Running n h c i j s
    → suc w ≡ work n s.jobs
    → s.time + 1 + iotime ≤ h
    → IsOrdered (s.time + 1) (s.time + 1 + iotime) h s.io
    → Yields (Ran n h c (s.time + 1) w) (run_job i j s)
unfolding run_job
run_job-Ran {n = n} {h = h} {c = c} {i = i} {j = j} {w = w} {s = s} running e le ordered =
    let runs = Running-due running in
    let more = (running.inv.sound j runs.0).works runs.2 in
    let timed = use_tick-Timed running more e ordered in
    let s₁ = use_tick j s in
    let job = s₁.jobs j in
    if_cases (Yields (Ran n h c (s.time + 1) w)) (eqb_ℤ job.time_left (pos 0))
      (λ ends. returns (record { inv = finish-Inv running; timed = finish-Timed i j timed }))
      (λ left.
        goes_on (issues_io job) (eqb_ℤ job.ticks_left (pos 0)) le
          (use_tick-Running
            (decrement_left (s.jobs j).time_left more
              (subst (λ z. eqb_ℤ z (pos 0) ≡ false) (use_tick-time_left j s) left))
            running)
          timed)
