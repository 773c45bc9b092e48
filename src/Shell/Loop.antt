-- ===== src/Shell/Loop.antt =====
-- `main` of my_shell.c: a line is read and split, finished jobs leave the table, and the first token
-- says what is done. What the child processes run is recorded as an effect.
pub mod Rounds
pub mod Background
pub mod Tracking
pub mod Interrupts
mod Tests
use sysalgos.Base.{
  ℕ, ◌+◌, Bool, true, false, Option, none, some, List, [], ◌∷◌, ◌++◌, map, if◌then◌else◌, length,
  Exec, ok, ◌>>=◌,
}
use sysalgos.Libc.Text.{Bytes, codes, c_string, strcmp_eq, zeros, write_at}
use sysalgos.Shell.Tokenize.{tokenize, cells, shift_left}
use sysalgos.Shell.Jobs.{no_jobs, record_job, reap, killed}

abbrev pub max_input_size : ℕ
max_input_size = 1024

-- What a round meets: the processes that `waitpid` reports as running, and the process that `fork` makes.
pub record Calls : Type 0 where
  pub running : ℕ → Bool
  pub forked : Option ℕ

-- `chdir`; a child that runs the arguments while the shell waits; one that runs them in the background;
-- a SIGINT at the end.
pub data Effect : Type 0 where
  enters : Option Bytes → Effect
  waits : ℕ → List Bytes → Effect
  submits : ℕ → List Bytes → Effect
  interrupts : ℕ → Effect

pub record State : Type 0 where
  pub table : List ℕ
  pub effects : List Effect
  pub looping : Bool

abbrev pub started : State
started = record { table = no_jobs; effects = []; looping = true }

abbrev pub first : List Bytes → Option Bytes
first [] = none
first (token ∷ tokens) = some token

-- The arguments that `execvp` reads: the pointers up to the first NULL.
unfoldable pub argv : List (Option Bytes) → List Bytes
argv [] = []
argv (none ∷ array) = []
argv (some token ∷ array) = token ∷ argv array

-- Lines 136 to 164, by the result of `fork`. One that fails is only reported.
unfoldable pub submit : Option ℕ → List Bytes → State → State
submit none arguments s = s
submit (some pid) arguments s = record s {
  table = record_job pid s.table;
  effects = s.effects ++ submits pid arguments ∷ [];
}

-- Lines 133 to 164.
unfoldable pub background : ℕ → Calls → List Bytes → State → Exec State
background places c tokens s = do
  array ← shift_left (cells places tokens)
  ok (submit c.forked (argv array) s)

-- Lines 169 to 188.
unfoldable pub foreground : Calls → List Bytes → State → State
foreground c tokens s = elim c.forked [
  | none ↦ s
  | some pid ↦ record s { effects = s.effects ++ waits pid tokens ∷ [] }
]

-- Lines 116 to 189.
unfoldable pub dispatch : ℕ → Calls → List Bytes → State → Exec State
dispatch places c [] s = ok s
dispatch places c (command ∷ arguments) s =
    if strcmp_eq command (codes "cd")
    then ok (record s { effects = s.effects ++ enters (first arguments) ∷ [] })
    else if strcmp_eq command (codes "exit")
    then ok (record s { looping = false })
    else if strcmp_eq command (codes "&")
    then background places c (command ∷ arguments) s
    else ok (foreground c (command ∷ arguments) s)

-- Lines 92 to 97: what `scanf` reads of a line, and the newline that replaces its NUL.
unfoldable pub command_line : Bytes → Exec Bytes
command_line typed = do
  line ← write_at 0 (typed ++ 0 ∷ []) (zeros max_input_size)
  text ← c_string line
  line' ← write_at (length text) (codes "\n") line
  c_string line'

-- Lines 92 to 189.
unfoldable pub round : ℕ → Calls → Bytes → State → Exec State
round places c typed s = do
  line ← command_line typed
  tokens ← tokenize line
  dispatch places c tokens (record s { table = reap c.running s.table })

-- `while (1)`, over the lines that are typed.
unfoldable pub run : ℕ → List (Calls × Bytes) → State → Exec State
run places [] s = ok s
run places ((c, typed) ∷ events) s =
    let next = round places c typed s >>= λ s'. run places events s' in
    if s.looping then next else ok s

-- The effects of a session; one that has left the loop interrupts its jobs (lines 192 to 201).
unfoldable pub shell_main : ℕ → List (Calls × Bytes) → Exec (List Effect)
shell_main places events = do
  s ← run places events started
  ok (if s.looping then s.effects else s.effects ++ map interrupts (killed s.table))
