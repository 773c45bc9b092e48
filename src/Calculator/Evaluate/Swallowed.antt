-- ===== src/Calculator/Evaluate/Swallowed.antt =====
-- The byte behind an integer, which the loop skips unseen.
use sysalgos.Base.{
  ℕ, ◌+◌, ◌≤◌, ◌<◌, ◌≡◌, refl, ◌∙◌, List, [], ◌∷◌, ◌++◌, arith, length, append_assoc, ap,
  length-append,
}
use sysalgos.Libc.Text.{Bytes, All}
use sysalgos.Calculator.Arithmetic.{Arithmetic}
use sysalgos.Calculator.Evaluate.{stack_size, scanning, run, evaluate}
use sysalgos.Calculator.Evaluate.Texts.{
  Op, op_byte, Expr, integer, IsDigits, IsWritten, digit_bytes, render, length-render-pos,
}
use sysalgos.Calculator.Evaluate.Expressions.{run_literal_integer, value, run-render, push_room}

module _ (F : Arithmetic) where
  open F use {Double, of_digit, ten, add, mul}

  -- Several expressions one after the other: their text, and their values pushed on a stack.
  abbrev pub render_all : List Expr → Bytes
  render_all [] = []
  render_all (e ∷ es) = render e ++ render_all es

  abbrev pub push_all : List Expr → List Double → List Double
  push_all [] stack = stack
  push_all (e ∷ es) stack = push_all es (value F e ∷ stack)

  length-push_all :
      (es : List Expr) (stack : List Double)
      → length (push_all es stack) ≤ length stack + length (render_all es)
  length-push_all [] stack = omega arith
  length-push_all (e ∷ es) stack = omega (
    arith,
    length-push_all es (value F e ∷ stack),
    length-append (render e) (render_all es),
    length-render-pos e,
  )

  run-render_all :
      (es : List Expr) (rest : Bytes) (stack : List Double)
      → All IsWritten es
      → length stack + length (render_all es ++ rest) < stack_size
      → run F stack_size scanning (render_all es ++ rest) stack
        ≡ run F stack_size scanning rest (push_all es stack)
  run-render_all [] rest stack w h = refl
  run-render_all (e ∷ es) rest stack (w, ws) h =
      let text : render_all (e ∷ es) ++ rest ≡ render e ++ (render_all es ++ rest) =
        append_assoc (render e) (render_all es) rest in
      let len = ap length text in
      ap (λ text. run F stack_size scanning text stack) text
      ∙ run-render F stack_size e (render_all es ++ rest) stack w (omega arith)
      ∙ run-render_all es rest (value F e ∷ stack) ws
          (omega (arith, length-append (render e) (render_all es ++ rest), length-render-pos e))

  -- In a query of less than 50 bytes, an operator written directly behind an integer is passed over,
  -- whatever number of expressions stand in front of it, none included: the evaluation goes on behind the
  -- operator, with their values and the integer on the stack and nothing computed.
  pub evaluate_swallowed :
      (es : List Expr) (d : ℕ) (ds : List ℕ) (op : Op) (rest : Bytes)
      → All IsWritten es
      → (d < 10) × IsDigits ds
      → length (render_all es ++ (digit_bytes (d ∷ ds) ++ op_byte op ∷ rest)) < stack_size
      → evaluate F (render_all es ++ (digit_bytes (d ∷ ds) ++ op_byte op ∷ rest))
        ≡ run F stack_size scanning rest (value F (integer d ds) ∷ push_all es [])
  unfolding evaluate
  evaluate_swallowed es d ds op rest w (hd, hs) h =
      run-render_all es (digit_bytes (d ∷ ds) ++ op_byte op ∷ rest) [] w (omega arith)
      ∙ run_literal_integer F stack_size d ds (op_byte op) rest (push_all es []) hd hs
          (ground arith) (ground arith)
      ∙ rw (
          push_room F stack_size (value F (integer d ds)) (push_all es []) (
            omega (
              arith,
              length-push_all es [],
              length-append (render_all es) (digit_bytes (d ∷ ds) ++ op_byte op ∷ rest),
            )))
