-- ===== src/Calculator/Evaluate.antt =====
-- The evaluation in `handle_client` of problem3.c (lines 55 to 103): one pass over the query with a
-- stack of `double`s. The position in the nested loops is a mode, and a step takes one byte.
pub mod Texts
pub mod Expressions
pub mod Bounds
pub mod Swallowed
use sysalgos.Base.{
  ℕ, ◌+◌, ◌-◌, ◌≡◌, refl, Bool, ◌||◌, List, [], ◌∷◌, ◌==◌, ltb, length, if◌then◌else◌, Exec, ok,
  undefined, ◌>>=◌, ◌>>◌, require,
}
use sysalgos.Libc.Text.{Bytes}
use sysalgos.Libc.Decimal.{is_digit}
use sysalgos.Calculator.Arithmetic.{Arithmetic}

-- `double stack[50]`
abbrev pub stack_size : ℕ
stack_size = 50

abbrev pub is_operator : ℕ → Bool
is_operator c = c == b'+' || (c == b'-' || (c == b'*' || c == b'/'))

-- `input[i] - '0'`
abbrev pub digit : ℕ → ℕ
digit c = c - b'0'

module _ (F : Arithmetic) where
  open F use {Double, of_digit, ten, add, sub, mul, div}

  -- At the head of the `for` loop, in the loop over the digits before the point, or in the loop over
  -- those behind it.
  pub data Mode : Type 0 where
    scanning : Mode
    whole : (num : Double) → Mode
    fraction : (num dec scale : Double) → Mode

  -- `stack[++top] = x`, in a stack of `size` places
  unfoldable pub push : ℕ → Double → List Double → Exec (List Double)
  push size x stack = do require (ltb (length stack) size); ok (x ∷ stack)

  unfoldable pub apply : ℕ → Double → Double → Double
  apply c op1 op2 =
      if c == b'+'
      then add op1 op2
      else if c == b'-'
      then sub op1 op2
      else if c == b'*'
      then mul op1 op2
      else div op1 op2

  -- Lines 82 to 102. `stack[top--]` reads in front of the array where the stack is empty.
  unfoldable pub operate : ℕ → List Double → Exec (List Double)
  operate c (op2 ∷ op1 ∷ stack) = ok (apply c op1 op2 ∷ stack)
  operate c _ = undefined

  -- `num * 10 + (double)(input[i] - '0')`
  abbrev pub next_digit : Double → ℕ → Double
  next_digit num c = add (mul num ten) (of_digit (digit c))

  -- A byte at the head of the `for` loop.
  unfoldable pub head : ℕ → List Double → Exec (Mode × List Double)
  head c stack =
      if is_digit c
      then ok (whole (next_digit (of_digit 0) c), stack)
      else if is_operator c
      then (do stack' ← operate c stack; ok (scanning, stack'))
      else ok (scanning, stack)

  -- The next byte. A whole number also takes the byte behind it: the loop over its digits has moved
  -- past them, and the `for` loop moves on once more. Behind a fraction line 77 steps back.
  unfoldable pub step : ℕ → Mode → ℕ → List Double → Exec (Mode × List Double)
  step size scanning c stack = head c stack
  step size (whole num) c stack =
      if is_digit c
      then ok (whole (next_digit num c), stack)
      else if c == b'.'
      then ok (fraction num (of_digit 0) ten, stack)
      else (do stack' ← push size (add num (of_digit 0)) stack; ok (scanning, stack'))
  step size (fraction num dec scale) c stack =
      if is_digit c
      then ok (fraction num (add dec (div (of_digit (digit c)) scale)) (mul scale ten), stack)
      else (do stack' ← push size (add num dec) stack; head c stack')

  -- The NUL. Behind a whole number the `for` loop moves past it, and reads bytes that were never
  -- written.
  unfoldable pub finish : ℕ → Mode → List Double → Exec (List Double)
  finish size scanning stack = ok stack
  finish size (whole num) stack = undefined
  finish size (fraction num dec scale) stack = push size (add num dec) stack

  -- The query from a position on: the stack at the end.
  unfoldable pub run : ℕ → Mode → Bytes → List Double → Exec (List Double)
  run size mode [] stack = finish size mode stack
  run size mode (c ∷ rest) stack =
      step size mode c stack >>= λ (mode', stack'). run size mode' rest stack'

  unfoldable pub evaluate : Bytes → Exec (List Double)
  evaluate query = run stack_size scanning query []
