-- ===== src/Calculator/Evaluate/Bounds.antt =====
-- The accesses to the stack and to the query: where they stay in bounds, and where they do not.
use native.Mathlib.Nat.{add-zero}
use sysalgos.Base.{
  ℕ, suc, ◌+◌, ◌≤◌, ◌<◌, ◌≡◌, refl, sym, ◌∙◌, ◌==◌, require, weaken, List, [], ◌∷◌, ◌++◌, arith,
  ltb, lt→ltb, length, append-nil, undefined, >>=_cong, Ensures, yields, faults, on_value, on_test,
  after,
}
use sysalgos.Libc.Text.{Bytes}
use sysalgos.Libc.Decimal.{is_digit}
use sysalgos.Calculator.Arithmetic.{Arithmetic}
use sysalgos.Calculator.Evaluate.{
  stack_size, is_operator, Mode, scanning, whole, fraction, push, next_digit, operate, head, step,
  finish, run, evaluate,
}
use sysalgos.Calculator.Evaluate.Texts.{
  Op, plus, op_byte, Expr, IsDigits, IsWritten, digit_bytes, render,
}
use sysalgos.Calculator.Evaluate.Expressions.{value, run_integer, run-render, is_digit_byte}

module _ (F : Arithmetic) where
  open F use {Double, of_digit, ten, add, mul}

  -- The numbers that a mode has begun and not pushed.
  abbrev pending : Mode F → ℕ
  pending scanning = 0
  pending (whole _) = 1
  pending (fraction _ _ _) = 1

  abbrev load : Mode F → List Double → ℕ
  load mode stack = length stack + pending mode

  push_room :
      (size size' : ℕ) (x : Double) (stack : List Double)
      → length stack < size
      → length stack < size'
      → push F size x stack ≡ push F size' x stack
  unfolding push
  push_room size size' x stack h h' =
      rw (lt→ltb (length stack) size h, lt→ltb (length stack) size' h')

  step_room :
      (size size' : ℕ) (mode : Mode F) (c : ℕ) (stack : List Double)
      → load mode stack ≤ size
      → load mode stack ≤ size'
      → step F size mode c stack ≡ step F size' mode c stack
  unfolding step
  step_room size size' scanning c stack h h' = refl
  step_room size size' (whole num) c stack h h' =
      rw (push_room size size' (add num (of_digit 0)) stack (omega arith) (omega arith))
  step_room size size' (fraction num dec scale) c stack h h' =
      rw (push_room size size' (add num dec) stack (omega arith) (omega arith))

  finish_room :
      (size size' : ℕ) (mode : Mode F) (stack : List Double)
      → load mode stack ≤ size
      → load mode stack ≤ size'
      → finish F size mode stack ≡ finish F size' mode stack
  unfolding finish
  finish_room size size' scanning stack h h' = refl
  finish_room size size' (whole num) stack h h' = refl
  finish_room size size' (fraction num dec scale) stack h h' =
      push_room size size' (add num dec) stack (omega arith) (omega arith)

  operate_load :
      (c : ℕ) (stack : List Double)
      → Ensures (λ stack'. length stack' ≤ length stack) (operate F c stack)
  unfolding operate
  operate_load c [] = faults
  operate_load c (y ∷ []) = faults
  operate_load c (y ∷ x ∷ stack) = yields (omega arith)

  push_load :
      (size : ℕ) (x : Double) (stack : List Double)
      → Ensures (λ stack'. length stack' ≡ suc (length stack)) (push F size x stack)
  unfolding push
  push_load size x stack = on_value (require (ltb (length stack) size)) λ _ _. yields refl

  head-load :
      (c : ℕ) (stack : List Double)
      → Ensures (λ st. load st.0 st.1 ≤ length stack + 1) (head F c stack)
  unfolding head
  head-load c stack =
      on_test (is_digit c) (λ _. yields (omega arith))
        λ _.
          on_test (is_operator c)
            (λ _. after (operate_load c stack) λ stack' h. yields (omega arith))
            λ _. yields (omega arith)

  step-load :
      (size : ℕ) (mode : Mode F) (c : ℕ) (stack : List Double)
      → Ensures (λ st. load st.0 st.1 ≤ load mode stack + 1) (step F size mode c stack)
  unfolding step
  step-load size scanning c stack = rw (add-zero (length stack)) (head-load c stack)
  step-load size (whole num) c stack =
      on_test (is_digit c) (λ _. yields (omega arith))
        λ _.
          on_test (c == b'.') (λ _. yields (omega arith))
            λ _. after (push_load size _ stack) λ stack' h. yields (omega arith)
  step-load size (fraction num dec scale) c stack =
      on_test (is_digit c) (λ _. yields (omega arith))
        λ _.
          after (push_load size _ stack) λ stack' h. weaken (head-load c stack') λ st k. omega arith

  run_room :
      (size size' : ℕ) (mode : Mode F) (query : Bytes) (stack : List Double)
      → load mode stack + length query ≤ size
      → load mode stack + length query ≤ size'
      → run F size mode query stack ≡ run F size' mode query stack
  unfolding run
  run_room size size' mode [] stack h h' =
      finish_room size size' mode stack (omega arith) (omega arith)
  run_room size size' mode (c ∷ query) stack h h' =
      rw (step_room size size' mode c stack (omega arith) (omega arith)) (
        >>=_cong (λ st. run F size st.0 query st.1) (λ st. run F size' st.0 query st.1)
          (step-load size' mode c stack)
          λ st k. run_room size size' st.0 query st.1 (omega arith) (omega arith))

  -- A query that fits in `input` never overruns the stack: its evaluation is the same with a stack of
  -- any larger size.
  pub evaluate_room :
      (size : ℕ) (query : Bytes)
      → length query < 50
      → stack_size ≤ size
      → evaluate F query ≡ run F size scanning query []
  unfolding evaluate
  evaluate_room size query h k =
      run_room stack_size size scanning query [] (omega arith) (omega arith)

  run_integer_end :
      (d : ℕ) (ds : List ℕ) (stack : List Double)
      → d < 10
      → IsDigits ds
      → run F stack_size scanning (digit_bytes (d ∷ ds)) stack ≡ undefined
  unfolding run step head finish
  run_integer_end d ds stack hd hs = rw (
    is_digit_byte F d hd,
    sym (append-nil (digit_bytes ds)),
    run_integer F stack_size (next_digit F (of_digit 0) (b'0' + d)) ds [] stack hs,
  )

  -- A query that ends in an integer, alone or behind an expression, makes the loop read past its NUL.
  pub evaluate_integer_end :
      (e : Expr) (d : ℕ) (ds : List ℕ)
      → IsWritten e
      → (d < 10) × IsDigits ds
      → length (render e ++ digit_bytes (d ∷ ds)) < stack_size
      → (evaluate F (digit_bytes (d ∷ ds)) ≡ undefined)
        × (evaluate F (render e ++ digit_bytes (d ∷ ds)) ≡ undefined)
  unfolding evaluate
  evaluate_integer_end e d ds w (hd, hs) h = (
    at_end [],
    run-render F stack_size e (digit_bytes (d ∷ ds)) [] w (omega arith) ∙ at_end (value F e ∷ []),
  )
    where
      at_end :
          (stack : List Double) → run F stack_size scanning (digit_bytes (d ∷ ds)) stack ≡ undefined
      at_end stack = run_integer_end d ds stack hd hs

  run_underflow :
      (op : Op) (rest : Bytes) (x : Double)
      → run F stack_size scanning (op_byte op ∷ rest) (x ∷ []) ≡ undefined
  unfolding run step head operate
  run_underflow plus rest x = refl
  run_underflow op rest x = refl

  -- An operator behind a single operand reads in front of the stack.
  pub evaluate_underflow :
      (e : Expr) (op : Op) (rest : Bytes)
      → IsWritten e
      → length (render e ++ op_byte op ∷ rest) < stack_size
      → evaluate F (render e ++ op_byte op ∷ rest) ≡ undefined
  unfolding evaluate
  evaluate_underflow e op rest w h =
      run-render F stack_size e (op_byte op ∷ rest) [] w (omega arith)
      ∙ run_underflow op rest (value F e)
