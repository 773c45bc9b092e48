-- ===== src/Mlfq/Queues.antt =====
-- `addJobToEnd`, `removeJobAt` and `findJobToRun`: what the queues hold, and which job is found.
use sysalgos.Base.{
  ℕ, zero, suc, ◌+◌, ◌≤◌, ◌<◌, ◌≡◌, refl, ap, List, [], ◌∷◌, ◌++◌, ◌∙◌, ◌-◌, arith, Option, none,
  some, dec_lt,
}
use sysalgos.Mlfq.Scheduler.{numqueues, add_job_to_end, remove_first, tail, find_job_to_run, drain}
use sysalgos.Mlfq.Sums.{total, total-put, count, count-append, total-le_member}

-- How often job `k` stands in the queues.
unfoldable pub queued : ℕ → (ℕ → List ℕ) → ℕ
queued k queues = total (count k) numqueues queues

pub count-queued :
    (k : ℕ) (queues : ℕ → List ℕ) (i : ℕ) → i < numqueues → count k (queues i) ≤ queued k queues
unfolding queued
count-queued k queues i h = total-le_member (count k) numqueues queues i h

pub queued-add_job_to_end :
    (k : ℕ) (queues : ℕ → List ℕ) (i j : ℕ)
    → i < numqueues
    → queued k (add_job_to_end queues i j) ≡ queued k queues + count k (j ∷ [])
unfolding queued
queued-add_job_to_end k queues i j h = omega (
  arith,
  total-put (count k) numqueues queues i (queues i ++ j ∷ []) h,
  count-append k (queues i) (j ∷ []),
)

pub queued-remove_first :
    (k : ℕ) (queues : ℕ → List ℕ) (i j : ℕ) (js : List ℕ)
    → i < numqueues
    → queues i ≡ j ∷ js
    → queued k (remove_first queues i) + count k (j ∷ []) ≡ queued k queues
unfolding queued count
queued-remove_first k queues i j js h e =
    let less : count k (tail (queues i)) + count k (j ∷ []) ≡ count k (queues i) =
      rw e (omega arith) in
    omega (arith, total-put (count k) numqueues queues i (tail (queues i)) h, less)

-- Moving all jobs up keeps each one, and the lower queues are left empty.
pub queued-drain :
    (k : ℕ) (queues : ℕ → List ℕ) → queued k (drain (numqueues - 1) queues) ≡ queued k queues
unfolding queued total drain count
queued-drain k queues =
    omega (
      arith,
      count-append k (queues 2 ++ queues 1) (queues 0),
      count-append k (queues 2) (queues 1),
    )

-- What `findJobToRun` finds below queue `n`: nothing when these queues are empty, else the first job of the highest
-- queue that is not.
pub data Found (n : ℕ) (queues : ℕ → List ℕ) : Option (ℕ × ℕ) → Type 0 where
  idle : ((i : ℕ) → i < n → queues i ≡ []) → Found n queues none
  top :
      (i j : ℕ) (js : List ℕ)
      → i < n
      → queues i ≡ j ∷ js
      → ((k : ℕ) → i < k → k < n → queues k ≡ [])
      → Found n queues (some (i, j))

-- An empty queue `n` above leaves what is found below it.
found_below :
    {n : ℕ} {queues : ℕ → List ℕ} {found : Option (ℕ × ℕ)}
    → queues n ≡ []
    → Found n queues found
    → Found (suc n) queues found
found_below {n = n} {queues = queues} e (idle empty) =
    idle (λ i h. elim (dec_lt i n) [ yes lt ↦ empty i lt | no last ↦ ap queues (omega arith) ∙ e ])
found_below {n = n} {queues = queues} e (top i j js h first higher) =
    top i j js (omega arith) first (λ k above h'. elim (dec_lt k n) [
      | yes lt ↦ higher k above lt
      | no last ↦ ap queues (omega arith) ∙ e
    ])

-- The job found below queue `n` is the first of the highest queue there that is not empty, and none is found only
-- when all of them are empty.
pub find_job_to_run-Found :
    (n : ℕ) (queues : ℕ → List ℕ) → Found n queues (find_job_to_run n queues)
unfolding find_job_to_run
find_job_to_run-Found zero queues = idle (λ i h. absurd (omega arith))
find_job_to_run-Found (suc n) queues = at_queue (queues n) refl (find_job_to_run-Found n queues)
  where
    at_queue :
        (js : List ℕ)
        → queues n ≡ js
        → Found n queues (find_job_to_run n queues)
        → Found (suc n) queues (elim js [ [] ↦ find_job_to_run n queues | j ∷ js ↦ some (n, j) ])
    at_queue [] e found = found_below e found
    at_queue (j ∷ js) e found = top n j js (omega arith) e (λ k above h. absurd (omega arith))
