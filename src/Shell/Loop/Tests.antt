-- ===== src/Shell/Loop/Tests.antt =====
-- Concrete sessions of the shell, and the theorems on its loop at them.
use sysalgos.Base.{ℕ, List, ◌≡◌, ◌≢◌, refl, true, false, some, [], ◌∷◌, arith, ok, undefined}
use sysalgos.Libc.Text.{Bytes, codes, strcmp_eq, write_at, c_string}
use sysalgos.Shell.Tokenize.{tokenize, scan, add_token, shift_left, shift_loop, load, store}
use sysalgos.Shell.Jobs.{killed, reap, record_job}
use sysalgos.Shell.Loop.{
  Calls, Effect, State, started, submit, dispatch, round, shell_main, run, command_line, background,
  argv, foreground,
}
use sysalgos.Shell.Loop.Rounds.{IsTyped, Command, IsForeground, shell_main-programs}
use sysalgos.Shell.Loop.Tracking.{was_submitted, was_interrupted}
use sysalgos.Shell.Loop.Interrupts.{interrupted-submitted}
use sysalgos.Shell.Loop.Background.{Submitted, round-background, dispatch-background}

abbrev child : ℕ → Calls
child pid = record { running = λ p. false; forked = some pid }

abbrev list_home : Command
list_home = record {
  running = λ p. false;
  pid = 7;
  typed = codes "ls -l";
  lead = [];
  line = (codes "ls", codes " ") ∷ (codes "-l", codes "\n") ∷ [];
}

list_home-IsTyped : IsTyped (codes "ls -l") [] list_home.line
list_home-IsTyped = (
  omega arith,
  omega arith,
  refl,
  tt,
  (
    (ground arith, (refl, (refl, tt)), omega arith, ground arith, (refl, tt)),
    ((ground arith, (refl, (refl, tt)), omega arith, ground arith, (refl, tt)), tt),
  ),
  omega arith,
)

list_home-IsForeground : IsForeground list_home
unfolding strcmp_eq
list_home-IsForeground = (list_home-IsTyped, (refl, refl, (refl, (refl, tt))))

shell_main-programs_example :
    shell_main 64 ((child 7, codes "ls -l") ∷ (child 8, codes "exit") ∷ [])
    ≡ ok (Effect.waits 7 (codes "ls" ∷ codes "-l" ∷ []) ∷ [])
shell_main-programs_example =
    shell_main-programs 64 (list_home ∷ []) (child 8) (list_home-IsForeground, tt)

submit_line-IsTyped :
    IsTyped (codes "& ls") [] ((codes "&", codes " ") ∷ (codes "ls", codes "\n") ∷ [])
submit_line-IsTyped = (
  omega arith,
  omega arith,
  refl,
  tt,
  (
    (ground arith, (refl, tt), omega arith, ground arith, (refl, tt)),
    ((ground arith, (refl, (refl, tt)), omega arith, ground arith, (refl, tt)), tt),
  ),
  omega arith,
)

round-background_example : round 64 (child 7) (codes "& ls") started ≡ undefined
round-background_example =
    round-background (child 7) (codes "& ls") [] (codes " ") ((codes "ls", codes "\n") ∷ []) started
      submit_line-IsTyped

seven_forked : (child 7).forked ≢ some 0
seven_forked e = cc

dispatch-background_example :
    (s : State) × (dispatch 65 (child 7) (codes "&" ∷ codes "ls" ∷ []) started ≡ ok s)
    × Submitted (some 7) (codes "ls" ∷ []) started s
dispatch-background_example =
    dispatch-background 0 (child 7) (codes "ls" ∷ []) started (omega arith) seven_forked

-- A job still runs when the shell is left; `malloc` has given one place more than asked for.
abbrev left_session : List (Calls × Bytes)
left_session =
    (record { running = λ p. true; forked = some 7 }, codes "& ls")
    ∷ (record { running = λ p. true; forked = some 8 }, codes "exit")
    ∷ []

abbrev left_effects : List Effect
left_effects = Effect.submits 7 (codes "ls" ∷ []) ∷ Effect.interrupts 7 ∷ []

left_session_run : shell_main 65 left_session ≡ ok left_effects
unfolding shell_main run round command_line write_at c_string tokenize scan add_token dispatch
    strcmp_eq background shift_left shift_loop load store submit argv killed reap record_job
    foreground
left_session_run = refl

left_effects_interrupt : was_interrupted 7 left_effects ≡ true
unfolding was_interrupted
left_effects_interrupt = refl

interrupted-submitted_example : was_submitted 7 left_effects ≡ true
interrupted-submitted_example =
    interrupted-submitted 65 left_session left_effects 7 left_session_run left_effects_interrupt
