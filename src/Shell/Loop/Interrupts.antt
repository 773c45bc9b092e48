-- ===== src/Shell/Loop/Interrupts.antt =====
-- The processes that a session interrupts at its end, lines 192 to 201.
use sysalgos.Base.{
  ℕ, zero, suc, ◌≡◌, ◌≢◌, refl, sym, subst, ◌∙◌, Bool, true, false, Option, none, some, List, [],
  ◌∷◌, ◌++◌, map, ◌==◌, if◌then◌else◌, if_both, ok, Ensures, Ensures_at, ℕ_discrete, replicate,
  yields, on_value, on_test, after, arith,
}
use sysalgos.Libc.Text.{Bytes, codes, strcmp_eq}
use sysalgos.Shell.Tokenize.{tokenize, cells, shift_left}
use sysalgos.Shell.Jobs.{max_bg_cmd, reap, killed}
use sysalgos.Shell.Loop.{
  Calls, Effect, enters, waits, submits, interrupts, State, started, first, argv, submit,
  background, foreground, dispatch, command_line, round, run, shell_main,
}
use sysalgos.Shell.Loop.Tracking.{
  was_submitted, was_interrupted, IsTracked, IsQuiet, submitted_before, submitted_now,
  IsTracked-append, record_job-IsTracked, reap-IsTracked, IsQuiet-append,
}

record IsSound (s : State) : Type 0 where
  pub tracked : IsTracked s.effects s.table
  pub quiet : IsQuiet s.effects

-- An effect that is no signal.
extended :
    (s : State) (effect : Effect)
    → IsQuiet (effect ∷ [])
    → IsSound s
    → IsSound (record s { effects = s.effects ++ effect ∷ [] })
extended s effect q sound = record {
  tracked = IsTracked-append s.effects (effect ∷ []) s.table sound.tracked;
  quiet = IsQuiet-append s.effects (effect ∷ []) sound.quiet q;
}

submit-IsSound :
    (forked : Option ℕ) (arguments : List Bytes) (s : State)
    → IsSound s
    → IsSound (submit forked arguments s)
unfolding submit IsQuiet was_interrupted
submit-IsSound none arguments s sound = sound
submit-IsSound (some pid) arguments s sound =
    let s' = extended s (submits pid arguments) (λ _. refl) sound in
    record {
      tracked =
          record_job-IsTracked pid (s.effects ++ submits pid arguments ∷ []) s.table
            (submitted_now pid arguments s.effects) s'.tracked;
      quiet = s'.quiet;
    }

foreground-IsSound :
    (c : Calls) (tokens : List Bytes) (s : State) → IsSound s → IsSound (foreground c tokens s)
unfolding foreground IsQuiet was_interrupted
foreground-IsSound c tokens s sound = child c.forked
  where
    child :
        (forked : Option ℕ)
        → IsSound (elim forked [
          | none ↦ s
          | some pid ↦ record s { effects = s.effects ++ waits pid tokens ∷ [] }
        ])
    child none = sound
    child (some pid) = extended s (waits pid tokens) (λ _. refl) sound

dispatch-IsSound :
    (places : ℕ) (c : Calls) (tokens : List Bytes) (s : State)
    → IsSound s
    → Ensures IsSound (dispatch places c tokens s)
unfolding dispatch background IsQuiet was_interrupted
dispatch-IsSound places c [] s sound = yields sound
dispatch-IsSound places c (command ∷ arguments) s sound =
    on_test (strcmp_eq command (codes "cd"))
      (λ _. yields (extended s (enters (first arguments)) (λ _. refl) sound))
      λ _.
        on_test (strcmp_eq command (codes "exit"))
          (λ _. yields (record { tracked = sound.tracked; quiet = sound.quiet }))
          λ _.
            on_test (strcmp_eq command (codes "&"))
              (λ _.
                on_value (shift_left (cells places (command ∷ arguments)))
                  λ array _. yields (submit-IsSound c.forked (argv array) s sound))
              λ _. yields (foreground-IsSound c (command ∷ arguments) s sound)

round-IsSound :
    (places : ℕ) (c : Calls) (typed : Bytes) (s : State)
    → IsSound s
    → Ensures IsSound (round places c typed s)
unfolding round
round-IsSound places c typed s sound = on_value (command_line typed) λ line _.
    on_value (tokenize line) λ tokens _.
      dispatch-IsSound places c tokens (record s { table = reap c.running s.table })
        (record {
          tracked = reap-IsTracked c.running s.effects s.table sound.tracked;
          quiet = sound.quiet;
        })

run-IsSound :
    (places : ℕ) (events : List (Calls × Bytes)) (s : State)
    → IsSound s
    → Ensures IsSound (run places events s)
unfolding run
run-IsSound places [] s sound = yields sound
run-IsSound places ((c, typed) ∷ events) s sound =
    on_test s.looping
      (λ _. after (round-IsSound places c typed s sound) (run-IsSound places events))
      (λ _. yields sound)

-- The interrupted processes were submitted.
unfoldable AreOwn : List Effect → Type 0
AreOwn effects = (pid : ℕ) → was_interrupted pid effects ≡ true → was_submitted pid effects ≡ true

interrupted-append :
    (pid : ℕ) (effects more : List Effect)
    → was_interrupted pid effects ≡ false
    → was_interrupted pid (effects ++ more) ≡ was_interrupted pid more
unfolding was_interrupted
interrupted-append pid [] more h = refl
interrupted-append pid (submits p arguments ∷ effects) more h =
    interrupted-append pid effects more h
interrupted-append pid (enters path ∷ effects) more h = interrupted-append pid effects more h
interrupted-append pid (waits p arguments ∷ effects) more h = interrupted-append pid effects more h
interrupted-append pid (interrupts p ∷ effects) more h =
    let rest = interrupted-append pid effects more in ground (arith, rest)

killed-submitted :
    (pid : ℕ) (effects : List Effect) (table : List ℕ)
    → IsTracked effects table
    → was_interrupted pid (map interrupts (killed table)) ≡ true
    → was_submitted pid effects ≡ true
unfolding was_interrupted killed IsTracked
killed-submitted pid effects [] t h = absurd (ground arith)
killed-submitted pid effects (p ∷ table) (here, rest) h =
    place (killed-submitted pid effects table rest) (p == 0) (λ taken. ground arith) h
  where
    place :
        (was_interrupted pid (map interrupts (killed table)) ≡ true
          → was_submitted pid effects ≡ true)
        → (free : Bool) → (free ≡ false → p ≢ 0)
        → was_interrupted pid (map interrupts (if free then killed table else p ∷ killed table))
          ≡ true
        → was_submitted pid effects ≡ true
    place later true ne h = later h
    place later false ne h = elim (ℕ_discrete p pid) [
      | yes e ↦ subst (λ q. was_submitted q effects ≡ true) e (here (ne refl))
      | no other ↦ later (ground arith)
    ]

ending-AreOwn :
    (s : State)
    → IsSound s
    → AreOwn (if s.looping then s.effects else s.effects ++ map interrupts (killed s.table))
unfolding AreOwn IsQuiet
ending-AreOwn s sound =
    if_both AreOwn s.looping (λ pid h. let e = sound.quiet pid in absurd (ground arith))
      (λ pid h. submitted_before pid s.effects (map interrupts (killed s.table)) (
        killed-submitted pid s.effects s.table sound.tracked (
          sym (interrupted-append pid s.effects (map interrupts (killed s.table)) (sound.quiet pid))
          ∙ h)))

no_jobs-IsTracked : (n : ℕ) → IsTracked [] (replicate n 0)
unfolding IsTracked
no_jobs-IsTracked zero = tt
no_jobs-IsTracked (suc n) = (λ taken. absurd (taken refl), no_jobs-IsTracked n)

started-IsSound : IsSound started
unfolding IsQuiet was_interrupted
started-IsSound = record { tracked = no_jobs-IsTracked max_bg_cmd; quiet = λ pid. refl }

shell_main-AreOwn :
    (places : ℕ) (events : List (Calls × Bytes)) → Ensures AreOwn (shell_main places events)
unfolding shell_main
shell_main-AreOwn places events =
    after (run-IsSound places events started started-IsSound)
      (λ s sound. yields (ending-AreOwn s sound))

-- A process that a session interrupts is one that it has submitted in the background, whatever lines are typed and
-- whatever the system calls return, if the behaviour of the session is defined.
pub interrupted-submitted :
    (places : ℕ) (events : List (Calls × Bytes)) (effects : List Effect) (pid : ℕ)
    → shell_main places events ≡ ok effects
    → was_interrupted pid effects ≡ true
    → was_submitted pid effects ≡ true
unfolding AreOwn
interrupted-submitted places events effects pid e =
    Ensures_at (shell_main-AreOwn places events) e pid
