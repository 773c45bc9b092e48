-- ===== src/Calculator/Tests.antt =====
-- The theorems about the calculator at concrete inputs, with whole numbers in place of `double`, and runs.
use sysalgos.Base.{
  false, map, ℕ, ◌+◌, ◌-◌, ◌*◌, ◌/◌, ◌≡◌, refl, true, some, [], ◌∷◌, ◌++◌, arith, ok, undefined,
  ◌>>=◌, Ensures,
}
use sysalgos.Libc.Text.{Bytes, codes}
use sysalgos.Calculator.Arithmetic.{Arithmetic}
use sysalgos.Calculator.Evaluate.{scanning, push, apply, operate, head, step, finish, run, evaluate}
use sysalgos.Calculator.Evaluate.Texts.{
  plus, times, Expr, integer, decimal, binary, op_byte, digit_bytes, render,
}
use sysalgos.Calculator.Evaluate.Expressions.{value, evaluate-render}
use sysalgos.Calculator.Evaluate.Bounds.{evaluate_room, evaluate_integer_end, evaluate_underflow}
use sysalgos.Calculator.Server.{Thread, connected, answered, filled, round}
use sysalgos.Calculator.Evaluate.Swallowed.{evaluate_swallowed}
use sysalgos.Calculator.Server.Rounds.{Outcome, round-Outcome}
use sysalgos.Calculator.Client.{Client, fresh, message, shown}
use sysalgos.Calculator.Client.Session.{converse, line, logout, entry, converse_session}
use sysalgos.Calculator.Client.Lines.{line_of}
use sysalgos.Calculator.Client.EndToEnd.{expression_answered, long_query_overruns}

-- Whole numbers, printed as one byte.
abbrev whole_numbers : Arithmetic
whole_numbers = record {
  Double = ℕ;
  of_digit = λ d. d;
  ten = 10;
  add = λ x y. x + y;
  sub = λ x y. x - y;
  mul = λ x y. x * y;
  div = λ x y. x / y;
  print = λ x. (b'0' + x) ∷ [];
}

three_queries :
    (evaluate whole_numbers (codes "12 3 + 2 *") ≡ ok (30 ∷ []))
    × (evaluate whole_numbers (codes "7 2 ") ≡ ok (2 ∷ 7 ∷ []))
    × (evaluate whole_numbers (codes "1 2+3 *") ≡ ok (6 ∷ 1 ∷ []))
unfolding evaluate run step head operate apply push finish
three_queries = (refl, refl, refl)

-- 3 4 +
abbrev sum_of_two : Expr
sum_of_two = binary plus (integer 3 []) (integer 4 [])

abbrev product : Expr
product = binary times (integer 2 []) (decimal 4 [] [])

evaluate-render_example :
    evaluate whole_numbers (render product) ≡ ok (value whole_numbers product ∷ [])
unfolding render
evaluate-render_example = evaluate-render whole_numbers product (omega arith) (omega arith)

evaluate_swallowed_example :
    evaluate whole_numbers
      (render product ++ (render sum_of_two ++ (digit_bytes (3 ∷ []) ++ op_byte plus ∷ [])))
    ≡ run whole_numbers 50 scanning []
        (3 ∷ value whole_numbers sum_of_two ∷ value whole_numbers product ∷ [])
unfolding render value
evaluate_swallowed_example =
    evaluate_swallowed whole_numbers (product ∷ sum_of_two ∷ []) 3 [] plus [] (omega arith)
      (omega arith) (omega arith)

evaluate_room_example :
    evaluate whole_numbers (codes "3 4 +") ≡ run whole_numbers 99 scanning (codes "3 4 +") []
evaluate_room_example = evaluate_room whole_numbers 99 (codes "3 4 +") (omega arith) (omega arith)

evaluate_integer_end_example :
    (evaluate whole_numbers (digit_bytes (1 ∷ 2 ∷ [])) ≡ undefined)
    × (evaluate whole_numbers (render sum_of_two ++ digit_bytes (1 ∷ 2 ∷ [])) ≡ undefined)
unfolding render
evaluate_integer_end_example =
    evaluate_integer_end whole_numbers sum_of_two 1 (2 ∷ []) (omega arith) (omega arith)
      (omega arith)

evaluate_underflow_example :
    evaluate whole_numbers (render sum_of_two ++ op_byte times ∷ []) ≡ undefined
unfolding render
evaluate_underflow_example =
    evaluate_underflow whole_numbers sum_of_two times [] (omega arith) (omega arith)

round-Outcome_example :
    Ensures
      (Outcome whole_numbers 4 [] (record connected {
        buffer = filled (some (line_of (codes "0 ") (codes "3 4 +"))) connected.buffer;
      }))
      (round whole_numbers 4 (some (line_of (codes "0 ") (codes "3 4 +"))) true [] connected)
round-Outcome_example =
    round-Outcome whole_numbers 4 (some (line_of (codes "0 ") (codes "3 4 +"))) true [] connected

expression_answered_example :
    (w : Bytes) × ((message (render sum_of_two ++ b'\n' ∷ []) >>= λ msg.
    round whole_numbers 4 (some msg) true [] connected)
      ≡ ok (
        []
            ++ record {
              client_id = 4;
              query = render sum_of_two;
              answer = value whole_numbers sum_of_two;
            }
              ∷ [],
        answered w connected,
      ))
    × (shown w ≡ ok ((b'0' + value whole_numbers sum_of_two) ∷ []))
unfolding render value
expression_answered_example =
    expression_answered whole_numbers 4 sum_of_two [] [] connected (omega arith) (omega arith)
      (omega arith) (omega arith) refl

-- A query of 52 digits.
abbrev long_query : Bytes
long_query = codes "1234567890123456789012345678901234567890123456789012"

long_query_overruns_example :
    (message (long_query ++ b'\n' ∷ []) >>= λ msg.
    round whole_numbers 4 (some msg) true [] connected)
    ≡ undefined
long_query_overruns_example =
    long_query_overruns whole_numbers 4 long_query [] true [] connected (omega arith) (omega arith)
      (omega arith) (omega arith) refl

converse_session_example :
    (t' : Thread) × (k' : Client) × (converse whole_numbers 4
        (map (line whole_numbers) (sum_of_two ∷ product ∷ []) ++ logout whole_numbers ∷ [])
        []
        connected
        fresh
      ≡ ok ([] ++ map (entry whole_numbers 4) (sum_of_two ∷ product ∷ []), t', k'))
    × (t'.serving ≡ false)
    × (k'.lines ≡ [] ++ map (λ e. (b'0' + value whole_numbers e) ∷ []) (sum_of_two ∷ product ∷ []))
    × (k'.running ≡ false)
unfolding render value
converse_session_example =
    converse_session whole_numbers 4 (sum_of_two ∷ product ∷ []) [] connected fresh
      (omega arith, (omega arith, tt)) refl refl
