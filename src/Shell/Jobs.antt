-- ===== src/Shell/Jobs.antt =====
-- The table `backgroundTasks` of my_shell.c: 64 places, where 0 is a free one.
pub mod Live
use sysalgos.Base.{ℕ, ◌≡◌, refl, Bool, true, false, List, [], ◌∷◌, ◌==◌, replicate, if◌then◌else◌}

abbrev pub max_bg_cmd : ℕ
max_bg_cmd = 64

-- Lines 85 to 88.
abbrev pub no_jobs : List ℕ
no_jobs = replicate max_bg_cmd 0

-- Lines 152 to 159: the first free place takes the process; without one it is not recorded.
unfoldable pub record_job : ℕ → List ℕ → List ℕ
record_job pid [] = []
record_job pid (p ∷ table) = if p == 0 then pid ∷ table else p ∷ record_job pid table

-- Lines 99 to 114: a process that `waitpid` does not report as running leaves its place.
unfoldable pub reap : (running : ℕ → Bool) → List ℕ → List ℕ
reap running [] = []
reap running (p ∷ table) = (if p == 0 then p else if running p then p else 0) ∷ reap running table

-- Lines 192 to 201: the processes that get the signal at the end.
unfoldable pub killed : List ℕ → List ℕ
killed [] = []
killed (p ∷ table) = if p == 0 then killed table else p ∷ killed table
