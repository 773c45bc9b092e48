-- ===== src/Mlfq/Loop.antt =====
-- The loop of `main`: what holds at its head, and a pass that finds no job.
use sysalgos.Base.{
  ℕ, zero, suc, ◌+◌, ◌-◌, ◌*◌, ◌≤◌, ◌<◌, ◌≡◌, List, [], ◌∷◌, map, arith, dec_lt, ℕ_discrete,
}
use sysalgos.Mlfq.Scheduler.{numqueues, Job, State, iotime}
use sysalgos.Mlfq.Sums.{count, total}
use sysalgos.Mlfq.Queues.{queued}
use sysalgos.Mlfq.Invariant.{Inv, IsOrdered, done, due, job_of, work}

-- What holds when the loop tests its condition, and what is left to do then.
pub record Ready (n h : ℕ) (s : State) : Type 0 where
  pub inv : Inv n h s.time s
  pub ordered : IsOrdered s.time (s.time + iotime) h s.io

unfoldable pub to_do : (n h : ℕ) → State → ℕ
to_do n h s = 6 * work n s.jobs + (h - s.time)

-- After a pass: less to do than `m`.
pub record Passed (n m : ℕ) (s : State) : Type 0 where
  pub horizon : ℕ
  pub ready : Ready n horizon s
  pub less : to_do n horizon s < m

-- Before a job is found: all that start by now have arrived, and all I/O that is left ends later.
pub record Settled (n h : ℕ) (s : State) : Type 0 where
  pub inv : Inv n h (s.time + 1) s
  pub ordered : IsOrdered (s.time + 1) (s.time + iotime) h s.io

pub IsOrdered-weaken :
    (lo : ℕ) {now now' h h' : ℕ} (io : List (ℕ × ℕ))
    → now ≤ now'
    → h ≤ h'
    → IsOrdered lo now h io
    → IsOrdered lo now' h' io
unfolding IsOrdered
IsOrdered-weaken lo [] le le' ordered = tt
IsOrdered-weaken lo ((j, end) ∷ io) le le' (a, b, c, ordered) =
    (a, omega arith, omega arith, IsOrdered-weaken end io le le' ordered)

pub Inv-weaken : {n h h' c : ℕ} {s : State} → h ≤ h' → Inv n h c s → Inv n h' c s
Inv-weaken le inv = record {
  sound = λ k lt. record {
    level = (inv.sound k lt).level;
    fresh = (inv.sound k lt).fresh;
    late = (inv.sound k lt).late;
    starts = omega (arith, (inv.sound k lt).starts);
    works = (inv.sound k lt).works;
  };
  places = inv.places;
  placed = inv.placed;
  counted = inv.counted;
}

-- A job that is not finished, while there are any.
unfinished :
    (n : ℕ) (jobs : ℕ → Job)
    → total (λ job. done job.finish_time) n jobs < n
    → (k : ℕ) × (k < n) × (done (jobs k).finish_time ≡ 0)
unfolding total
unfinished zero jobs h = absurd (omega arith)
unfinished (suc n) jobs h = elim (ℕ_discrete (done (jobs n).finish_time) 0) [
  | yes e ↦ (n, omega arith, e)
  | no ne ↦ let rest = unfinished n jobs (omega arith) in (rest.0, omega (arith, rest.1), rest.2)
]

pending_io :
    (lo now h k : ℕ) (io : List (ℕ × ℕ))
    → IsOrdered lo now h io
    → 0 < count k (map job_of io)
    → lo ≤ h
unfolding IsOrdered count
pending_io lo now h k [] ordered pending = absurd (omega arith)
pending_io lo now h k ((j, end) ∷ io) (a, b, c, ordered) pending = omega arith

queued_empty :
    (k : ℕ) (queues : ℕ → List ℕ) → ((i : ℕ) → i < numqueues → queues i ≡ []) → queued k queues ≡ 0
unfolding queued total count
queued_empty k queues empty =
    rw (empty 0 (omega arith), empty 1 (omega arith), empty 2 (omega arith)) (omega arith)

due_one :
    (n c k : ℕ) (job : Job)
    → k < n
    → job.start_time < c
    → done job.finish_time ≡ 0
    → due n c k job ≡ 1
unfolding due
due_one n c k job lt arrived unfinished = ground arith

-- When all queues are empty, something is still to come.
pub idle-early :
    {n h : ℕ} {s : State}
    → Settled n h s
    → s.finished < n
    → ((i : ℕ) → i < numqueues → s.queues i ≡ [])
    → s.time < h
idle-early {n = n} {h = h} {s = s} settled busy empty =
    let inv = settled.inv in
    let job = unfinished n s.jobs (omega (arith, inv.counted)) in
    let k = job.0 in
    elim (dec_lt (s.jobs k).start_time (s.time + 1)) [
      | yes arrived ↦
          let at_io : 0 < count k (map job_of s.io) = omega (
            arith,
            inv.places k,
            queued_empty k s.queues empty,
            due_one n (s.time + 1) k (s.jobs k) job.1 arrived job.2,
          ) in
          omega (arith, pending_io (s.time + 1) (s.time + iotime) h k s.io settled.ordered at_io)
      | no late ↦ omega (arith, (inv.sound k job.1).starts)
    ]

pub idle-Passed :
    {n h : ℕ} {s : State}
    → Settled n h s
    → s.time < h
    → Passed n (to_do n h s) (record s { time = s.time + 1 })
unfolding to_do
idle-Passed {n = n} {h = h} {s = s} settled early = record {
  horizon = h;
  ready = record {
    inv = record {
      sound = settled.inv.sound;
      places = settled.inv.places;
      placed = settled.inv.placed;
      counted = settled.inv.counted;
    };
    ordered = IsOrdered-weaken (s.time + 1) s.io (omega arith) (omega arith) settled.ordered;
  };
  less = omega arith;
}
