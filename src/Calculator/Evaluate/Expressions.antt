-- ===== src/Calculator/Evaluate/Expressions.antt =====
-- What the evaluation makes of the postfix texts of expressions.
use native.Mathlib.Nat.{add-sub_cancel_left}
use sysalgos.Base.{
  ℕ, ◌+◌, ◌<◌, ◌≡◌, refl, subst, ap, ◌∙◌, >>=_assoc, true, false, List, [], ◌∷◌, ◌++◌, append_assoc,
  append-nil, arith, lt→ltb, length, ◌==◌, length-append, ok, ◌>>=◌,
}
use sysalgos.Libc.Text.{Bytes}
use sysalgos.Libc.Decimal.{is_digit}
use sysalgos.Calculator.Arithmetic.{Arithmetic}
use sysalgos.Calculator.Evaluate.{
  stack_size, scanning, whole, fraction, push, next_digit, apply, operate, head, step, finish, run,
  evaluate,
}
use sysalgos.Calculator.Evaluate.Texts.{
  Expr, IsDigits, IsWritten, Op, binary, binary_text, decimal, digit_bytes, integer,
  length-render-pos, minus, op_byte, over, plus, render, times,
}

module _ (F : Arithmetic) where
  open F use {Double, of_digit, ten, add, sub, mul, div}

  -- The digits before the point, from the first on; and those behind it, tenths first.
  abbrev pub integer_value : Double → List ℕ → Double
  integer_value num [] = num
  integer_value num (d ∷ ds) = integer_value (add (mul num ten) (of_digit d)) ds

  abbrev pub fraction_value : Double → Double → List ℕ → Double
  fraction_value dec scale [] = dec
  fraction_value dec scale (d ∷ ds) =
      fraction_value (add dec (div (of_digit d) scale)) (mul scale ten) ds

  abbrev pub compute : Op → Double → Double → Double
  compute plus = add
  compute minus = sub
  compute times = mul
  compute over = div

  unfoldable pub value : Expr → Double
  value (integer d ds) = add (integer_value (of_digit 0) (d ∷ ds)) (of_digit 0)
  value (decimal d ds fs) =
      add (integer_value (of_digit 0) (d ∷ ds)) (fraction_value (of_digit 0) ten fs)
  value (binary op a b) = compute op (value a) (value b)

  pub is_digit_byte : (d : ℕ) → d < 10 → is_digit (b'0' + d) ≡ true
  is_digit_byte d h = ground arith

  next_digit_byte :
      (num : Double) (d : ℕ) → next_digit F num (b'0' + d) ≡ add (mul num ten) (of_digit d)
  next_digit_byte num d = ap (λ e. add (mul num ten) (of_digit e)) (add-sub_cancel_left b'0' d)

  pub run_integer :
      (size : ℕ) (num : Double) (ds : List ℕ) (rest : Bytes) (stack : List Double)
      → IsDigits ds
      → run F size (whole num) (digit_bytes ds ++ rest) stack
        ≡ run F size (whole (integer_value num ds)) rest stack
  unfolding run step
  run_integer size num [] rest stack _ = refl
  run_integer size num (d ∷ ds) rest stack (hd, hs) =
      rw (is_digit_byte d hd, next_digit_byte num d)
        (run_integer size (add (mul num ten) (of_digit d)) ds rest stack hs)

  run_fraction :
      (size : ℕ) (num dec scale : Double) (ds : List ℕ) (rest : Bytes) (stack : List Double)
      → IsDigits ds
      → run F size (fraction num dec scale) (digit_bytes ds ++ b' ' ∷ rest) stack ≡ (
          push F size (add num (fraction_value dec scale ds)) stack >>= λ stack'.
          run F size scanning rest stack')
  unfolding run step head
  run_fraction size num dec scale [] rest stack _ = >>=_assoc (push F size (add num dec) stack) _ _
  run_fraction size num dec scale (d ∷ ds) rest stack (hd, hs) =
      rw (is_digit_byte d hd, add-sub_cancel_left b'0' d)
        (run_fraction size num (add dec (div (of_digit d) scale)) (mul scale ten) ds rest stack hs)

  -- A literal is pushed; an integer takes the byte behind it along.
  pub run_literal_integer :
      (size d : ℕ) (ds : List ℕ) (c : ℕ) (rest : Bytes) (stack : List Double)
      → d < 10
      → IsDigits ds
      → is_digit c ≡ false
      → (c == b'.') ≡ false
      → run F size scanning (digit_bytes (d ∷ ds) ++ c ∷ rest) stack
        ≡ (push F size (value (integer d ds)) stack >>= λ stack'. run F size scanning rest stack')
  unfolding run step head value
  run_literal_integer size d ds c rest stack hd hs nd np =
      rw
        (
          is_digit_byte d hd,
          next_digit_byte (of_digit 0) d,
          run_integer size (integer_value (of_digit 0) (d ∷ [])) ds (c ∷ rest) stack hs,
          nd,
          np,
        )
        (>>=_assoc (push F size (value (integer d ds)) stack) (λ stack'. ok (scanning, stack'))
          (λ st. run F size st.0 rest st.1))

  run_literal_decimal :
      (size d : ℕ) (ds fs : List ℕ) (rest : Bytes) (stack : List Double)
      → d < 10
      → IsDigits ds
      → IsDigits fs
      → run F size scanning (digit_bytes (d ∷ ds) ++ b'.' ∷ (digit_bytes fs ++ b' ' ∷ rest)) stack
        ≡ (push F size (value (decimal d ds fs)) stack >>= λ stack'.
            run F size scanning rest stack')
  unfolding run step head value
  run_literal_decimal size d ds fs rest stack hd hs hf =
      rw
        (
          is_digit_byte d hd,
          next_digit_byte (of_digit 0) d,
          run_integer size _ ds (b'.' ∷ (digit_bytes fs ++ b' ' ∷ rest)) stack hs,
        )
        (run_fraction size _ (of_digit 0) ten fs rest stack hf)

  run_operator :
      (size : ℕ) (op : Op) (x y : Double) (rest : Bytes) (stack : List Double)
      → run F size scanning (op_byte op ∷ rest) (y ∷ x ∷ stack)
        ≡ run F size scanning rest (compute op x y ∷ stack)
  unfolding run step head operate apply
  run_operator size plus x y rest stack = refl
  run_operator size minus x y rest stack = refl
  run_operator size times x y rest stack = refl
  run_operator size over x y rest stack = refl

  pub push_room :
      (size : ℕ) (x : Double) (stack : List Double)
      → length stack < size
      → push F size x stack ≡ ok (x ∷ stack)
  unfolding push
  push_room size x stack h = rw (lt→ltb (length stack) size h)

  -- Where the stack has a place for every byte to come, the text of an expression pushes its value.
  pub run-render :
      (size : ℕ) (e : Expr) (rest : Bytes) (stack : List Double)
      → IsWritten e
      → length stack + length (render e ++ rest) < size
      → run F size scanning (render e ++ rest) stack ≡ run F size scanning rest (value e ∷ stack)
  unfolding render value
  run-render size (integer d ds) rest stack (hd, hs) h = rw (
    append_assoc,
    run_literal_integer size d ds b' ' rest stack hd hs refl refl,
    push_room size (value (integer d ds)) stack (omega arith),
  )
  run-render size (decimal d ds fs) rest stack (hd, hs, hf) h = rw (
    append_assoc,
    append_assoc,
    run_literal_decimal size d ds fs rest stack hd hs hf,
    push_room size (value (decimal d ds fs)) stack (omega arith),
  )
  run-render size (binary op a b) rest stack (ha, hb) h =
      let after = op_byte op ∷ rest in
      let text = binary_text (render a) (render b) (op_byte op) rest in
      let len = ap length text in
      let len_a = length-append (render a) (render b ++ after) in
      rw text (
        run-render size a (render b ++ after) stack ha (omega arith)
        ∙ run-render size b after (value a ∷ stack) hb (omega (arith, length-render-pos a))
        ∙ run_operator size op (value a) (value b) rest stack)

  -- A postfix text of at most 49 bytes leaves exactly the value of its expression on the stack.
  pub evaluate-render :
      (e : Expr)
      → IsWritten e
      → length (render e) < stack_size
      → evaluate F (render e) ≡ ok (value e ∷ [])
  unfolding evaluate run finish
  evaluate-render e w h =
      let whole_text = append-nil (render e) in
      let len = ap length whole_text in
      subst (λ text. run F stack_size scanning text [] ≡ ok (value e ∷ [])) whole_text
        (run-render stack_size e [] [] w (omega arith))
