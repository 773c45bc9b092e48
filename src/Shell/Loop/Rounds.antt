-- ===== src/Shell/Loop/Rounds.antt =====
-- A round on a typed line, and sessions of such lines.
use sysalgos.Base.{
  ℕ, suc, ◌+◌, ◌-◌, ◌<◌, ◌≡◌, ◌≢◌, refl, ◌∙◌, Bool, true, false, some, List, [], ◌∷◌, ◌++◌,
  append_assoc, append-nil, map, arith, length, length-append, ok,
}
use sysalgos.Libc.Text.{
  Bytes, codes, Lacks, All, All-append, c_string-append, c_string-zeros, strcmp_eq, zeros,
  write_at-append,
}
use sysalgos.Shell.Tokenize.{max_num_tokens}
use sysalgos.Shell.Tokenize.Words.{IsBlank, IsSpaced, spell, words, tokenize-spell}
use sysalgos.Shell.Jobs.{no_jobs, reap, killed}
use sysalgos.Shell.Loop.{
  max_input_size, Calls, State, Effect, foreground, dispatch, command_line, round, run, shell_main,
}

-- A line of at most 1022 bytes reaches the tokenizer with a newline behind it.
command_line_lem :
    (typed : Bytes)
    → Lacks 0 typed
    → length typed + 1 < max_input_size
    → command_line typed ≡ ok (typed ++ codes "\n")
unfolding command_line
command_line_lem typed nul h =
    let k : ℕ = max_input_size - length (typed ++ 0 ∷ []) in
    let room : 0 < k = omega (arith, length-append typed (0 ∷ [])) in
    let text : Lacks 0 (typed ++ codes "\n") =
      All-append (λ c. c ≢ 0) typed (codes "\n") nul (omega arith, tt) in
    rw
      (
        write_at-append 0 [] (typed ++ 0 ∷ []) max_input_size refl
            (omega (arith, length-append typed (0 ∷ []))),
        append_assoc typed (0 ∷ []) (zeros k),
        c_string-append typed (zeros k) nul,
        write_at-append (length typed) typed (codes "\n") (suc k) refl (omega arith),
      )
      (c_string-zeros (typed ++ codes "\n") (suc k - 1) text (omega arith))

-- A typed line that is made of the words of `line`, with its newline behind the last.
abbrev pub IsTyped : Bytes → Bytes → List (Bytes × Bytes) → Type 0
IsTyped typed lead line =
    Lacks 0 typed
    × (length typed + 1 < max_input_size)
    × (typed ++ codes "\n" ≡ lead ++ spell line)
    × All IsBlank lead
    × All IsSpaced line
    × (length line < max_num_tokens)

-- A round does what the words of the typed line say, behind the reaping of finished jobs, if the line has
-- at most 1022 bytes, and fewer than 64 words of fewer than 64 bytes.
pub round-dispatch :
    (places : ℕ) (c : Calls) (typed lead : Bytes) (line : List (Bytes × Bytes)) (s : State)
    → IsTyped typed lead line
    → round places c typed s
      ≡ dispatch places c (words line) (record s { table = reap c.running s.table })
unfolding round
round-dispatch places c typed lead line s (nul, short, spelt, b, w, n) =
    rw (command_line_lem typed nul short, spelt, tokenize-spell lead line b w n)

-- A command that the shell runs in a child and waits for: its first word is neither "cd" nor "exit", and
-- no word of it is "&".
abbrev pub IsProgram : List Bytes → Type 0
IsProgram [] = ⊥
IsProgram (command ∷ arguments) =
    (strcmp_eq command (codes "cd") ≡ false)
    × (strcmp_eq command (codes "exit") ≡ false)
    × All (λ word. strcmp_eq word (codes "&") ≡ false) (command ∷ arguments)

-- A typed command: what `waitpid` reports, the child's process, the typed bytes, and how they are spelled.
pub record Command : Type 0 where
  pub running : ℕ → Bool
  pub pid : ℕ
  pub typed : Bytes
  pub lead : Bytes
  pub line : List (Bytes × Bytes)

abbrev pub IsForeground : Command → Type 0
IsForeground x = IsTyped x.typed x.lead x.line × IsProgram (words x.line)

abbrev pub event : Command → Calls × Bytes
event x = (record { running = x.running; forked = some x.pid }, x.typed)

abbrev pub effect : Command → Effect
effect x = Effect.waits x.pid (words x.line)

-- The shell with no background jobs.
abbrev pub idle : List Effect → State
idle effects = record { table = no_jobs; effects = effects; looping = true }

dispatch-program :
    (places : ℕ) (c : Calls) (tokens : List Bytes) (s : State)
    → IsProgram tokens
    → dispatch places c tokens s ≡ ok (foreground c tokens s)
unfolding dispatch
dispatch-program places c [] s h = absurd h
dispatch-program places c (command ∷ arguments) s (cd, leave, (bg, _)) = rw (cd, leave, bg)

round-program :
    (places : ℕ) (x : Command) (effects : List Effect)
    → IsForeground x
    → round places ((event x).0) x.typed (idle effects) ≡ ok (idle (effects ++ effect x ∷ []))
unfolding foreground reap
round-program places x effects (t, program) =
    round-dispatch places ((event x).0) x.typed x.lead x.line (idle effects) t
    ∙ dispatch-program places ((event x).0) (words x.line) (idle effects) program

run_programs :
    (places : ℕ) (xs : List Command) (more : List (Calls × Bytes)) (effects : List Effect)
    → All IsForeground xs
    → run places (map event xs ++ more) (idle effects)
      ≡ run places more (idle (effects ++ map effect xs))
unfolding run
run_programs places [] more effects _ = rw append-nil
run_programs places (x ∷ xs) more effects (h, hs) =
    rw (round-program places x effects h)
      (run_programs places xs more (effects ++ effect x ∷ []) hs ∙ rw append_assoc)

run_exit :
    (places : ℕ) (c : Calls) (effects : List Effect)
    → run places ((c, codes "exit") ∷ []) (idle effects)
      ≡ ok (record (idle effects) { looping = false })
unfolding run dispatch strcmp_eq reap
run_exit places c effects = rw (
    round-dispatch places c (codes "exit") [] ((codes "exit", codes "\n") ∷ []) (idle effects)
      exit_typed)
  where
    exit_typed : IsTyped (codes "exit") [] ((codes "exit", codes "\n") ∷ [])
    exit_typed = (
      omega arith,
      omega arith,
      refl,
      tt,
      (
        (ground arith, (refl, (refl, (refl, (refl, tt)))), omega arith, ground arith, (refl, tt)),
        tt,
      ),
      omega arith,
    )

-- A session of commands with "exit" behind them runs exactly these commands with their words as arguments,
-- in their order, waits for each, and sends no signal, if each command is typed in at most 1022 bytes
-- without a NUL, of fewer than 64 words of fewer than 64 bytes, its first word is neither "cd" nor "exit"
-- and no word of it is "&", and each fork succeeds.
pub shell_main-programs :
    (places : ℕ) (xs : List Command) (c : Calls)
    → All IsForeground xs
    → shell_main places (map event xs ++ (c, codes "exit") ∷ []) ≡ ok (map effect xs)
unfolding shell_main killed
shell_main-programs places xs c h = rw (
  run_programs places xs ((c, codes "exit") ∷ []) [] h,
  run_exit places c (map effect xs),
  append-nil,
)
