-- ===== src/Shell/Jobs/Live.antt =====
-- The table as the list of the processes that it holds.
use sysalgos.Base.{
  ℕ, suc, ◌≤◌, ◌<◌, ◌≡◌, refl, ap, Bool-cases, inl, inr, ◌≢◌, Bool, true, List, [], ◌∷◌, ◌++◌,
  arith, ◌==◌, length, if◌then◌else◌,
}
use sysalgos.Shell.Jobs.{record_job, reap, killed}

-- The processes of a list that still run.
abbrev pub still : (ℕ → Bool) → List ℕ → List ℕ
still running [] = []
still running (p ∷ ps) = if running p then p ∷ still running ps else still running ps

-- Reaping leaves the processes that run, in their order, and the size of the table.
pub reap_lem :
    (running : ℕ → Bool) (table : List ℕ)
    → (killed (reap running table) ≡ still running (killed table))
      × (length (reap running table) ≡ length table)
unfolding reap killed
reap_lem running [] = (refl, refl)
reap_lem running (p ∷ table) = ground (arith, reap_lem running table)

pub killed-le : (table : List ℕ) → length (killed table) ≤ length table
unfolding killed
killed-le [] = omega arith
killed-le (p ∷ table) = ground (arith, killed-le table)

pub length-record_job : (pid : ℕ) (table : List ℕ) → length (record_job pid table) ≡ length table
unfolding record_job
length-record_job pid [] = refl
length-record_job pid (p ∷ table) = ground (arith, length-record_job pid table)

-- In a table with a free place a process is recorded among those that the table holds, which keep
-- their order.
pub record_free :
    (pid : ℕ) (table : List ℕ)
    → pid ≢ 0
    → length (killed table) < length table
    → (front : List ℕ) × (back : List ℕ) × (killed table ≡ front ++ back)
      × (killed (record_job pid table) ≡ front ++ pid ∷ back)
unfolding record_job killed
record_free pid [] h lt = absurd (omega arith)
record_free pid (p ∷ table) h lt = elim (Bool-cases (p == 0)) [
  | inl free ↦ ([], killed table, rw free, rw free (ground arith))
  | inr taken ↦
      let (front, back, e, e') = record_free pid table h (ground arith) in
      (p ∷ front, back, rw taken (ap (λ t. p ∷ t) e), rw (taken, taken) (ap (λ t. p ∷ t) e'))
]

-- A full table stays as it was, and the process is not recorded.
pub record_full :
    (pid : ℕ) (table : List ℕ) → length (killed table) ≡ length table → record_job pid table ≡ table
unfolding record_job killed
record_full pid [] e = refl
record_full pid (p ∷ table) e = elim (Bool-cases (p == 0)) [
  | inl free ↦ absurd (too_short p table free e)
  | inr taken ↦ rw taken (ap (λ t. p ∷ t) (record_full pid table (ground arith)))
]
  where
    too_short :
        (p : ℕ) (table : List ℕ)
        → (p == 0) ≡ true
        → length (killed (p ∷ table)) ≡ suc (length table)
        → ⊥
    too_short p table free e = ground (arith, killed-le table)
