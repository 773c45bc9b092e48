-- ===== src/Shell/Loop/Tracking.antt =====
-- The table of background jobs against the effects of a session: every process that it holds was submitted.
use sysalgos.Base.{
  ℕ, ◌≡◌, ◌≢◌, refl, Bool, true, false, ◌||◌, List, [], ◌∷◌, ◌++◌, ◌==◌, if◌then◌else◌, arith,
  Bool-cases, inl, inr,
}
use sysalgos.Libc.Text.{Bytes}
use sysalgos.Shell.Jobs.{record_job, reap}
use sysalgos.Shell.Loop.{Effect, enters, waits, submits, interrupts}

-- Whether a session submits process `pid` in the background, and whether it interrupts it.
unfoldable pub was_submitted : ℕ → List Effect → Bool
was_submitted pid [] = false
was_submitted pid (submits p arguments ∷ effects) = (p == pid) || was_submitted pid effects
was_submitted pid (effect ∷ effects) = was_submitted pid effects

unfoldable pub was_interrupted : ℕ → List Effect → Bool
was_interrupted pid [] = false
was_interrupted pid (interrupts p ∷ effects) = (p == pid) || was_interrupted pid effects
was_interrupted pid (effect ∷ effects) = was_interrupted pid effects

-- Every process of the table was submitted.
unfoldable pub IsTracked : List Effect → List ℕ → Type 0
IsTracked effects [] = Unit
IsTracked effects (p ∷ table) = (p ≢ 0 → was_submitted p effects ≡ true) × IsTracked effects table

pub submitted_before :
    (pid : ℕ) (effects more : List Effect)
    → was_submitted pid effects ≡ true
    → was_submitted pid (effects ++ more) ≡ true
unfolding was_submitted
submitted_before pid [] more h = absurd (ground arith)
submitted_before pid (submits p arguments ∷ effects) more h =
    let rest = submitted_before pid effects more in ground (arith, rest)
submitted_before pid (enters path ∷ effects) more h = submitted_before pid effects more h
submitted_before pid (waits p arguments ∷ effects) more h = submitted_before pid effects more h
submitted_before pid (interrupts p ∷ effects) more h = submitted_before pid effects more h

pub submitted_now :
    (pid : ℕ) (arguments : List Bytes) (effects : List Effect)
    → was_submitted pid (effects ++ submits pid arguments ∷ []) ≡ true
unfolding was_submitted
submitted_now pid arguments [] = ground arith
submitted_now pid arguments (submits p arguments' ∷ effects) =
    ground (arith, submitted_now pid arguments effects)
submitted_now pid arguments (enters path ∷ effects) = submitted_now pid arguments effects
submitted_now pid arguments (waits p arguments' ∷ effects) = submitted_now pid arguments effects
submitted_now pid arguments (interrupts p ∷ effects) = submitted_now pid arguments effects

pub IsTracked-append :
    (effects more : List Effect) (table : List ℕ)
    → IsTracked effects table
    → IsTracked (effects ++ more) table
unfolding IsTracked
IsTracked-append effects more [] h = tt
IsTracked-append effects more (p ∷ table) (here, rest) = (
  λ taken. submitted_before p effects more (here taken),
  IsTracked-append effects more table rest,
)

pub record_job-IsTracked :
    (pid : ℕ) (effects : List Effect) (table : List ℕ)
    → was_submitted pid effects ≡ true
    → IsTracked effects table
    → IsTracked effects (record_job pid table)
unfolding IsTracked record_job
record_job-IsTracked pid effects [] h t = tt
record_job-IsTracked pid effects (p ∷ table) h (here, rest) = elim (Bool-cases (p == 0)) [
  | inl free ↦ rw free (λ _. h, rest)
  | inr taken ↦ rw taken (here, record_job-IsTracked pid effects table h rest)
]

kept :
    (effects : List Effect) (p : ℕ) (free running : Bool)
    → (p ≢ 0 → was_submitted p effects ≡ true)
    → (if free then p else if running then p else 0) ≢ 0
    → was_submitted (if free then p else if running then p else 0) effects ≡ true
kept effects p true running here = here
kept effects p false true here = here
kept effects p false false here = λ ne. absurd (ne refl)

pub reap-IsTracked :
    (running : ℕ → Bool) (effects : List Effect) (table : List ℕ)
    → IsTracked effects table
    → IsTracked effects (reap running table)
unfolding IsTracked reap
reap-IsTracked running effects [] t = tt
reap-IsTracked running effects (p ∷ table) (here, rest) =
    (kept effects p (p == 0) (running p) here, reap-IsTracked running effects table rest)

-- Before its end a session has interrupted no process.
unfoldable pub IsQuiet : List Effect → Type 0
IsQuiet effects = (pid : ℕ) → was_interrupted pid effects ≡ false

pub IsQuiet-append :
    (effects more : List Effect) → IsQuiet effects → IsQuiet more → IsQuiet (effects ++ more)
unfolding IsQuiet was_interrupted
IsQuiet-append [] more h h' = h'
IsQuiet-append (submits p arguments ∷ effects) more h h' = IsQuiet-append effects more h h'
IsQuiet-append (enters path ∷ effects) more h h' = IsQuiet-append effects more h h'
IsQuiet-append (waits p arguments ∷ effects) more h h' = IsQuiet-append effects more h h'
IsQuiet-append (interrupts p ∷ effects) more h h' = let e = h p in absurd (ground arith)
