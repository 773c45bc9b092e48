-- ===== src/Calculator/Client/EndToEnd.antt =====
-- A line typed at the client, through the server and back.
use sysalgos.Base.{
  ℕ, ◌-◌, ◌≤◌, ◌<◌, ◌≡◌, refl, sym, ◌∙◌, Bool, true, false, some, List, [], ◌∷◌, ◌++◌, arith,
  lt→ltb, length, ok, undefined, ◌>>=◌,
}
use sysalgos.Libc.Text.{Bytes, codes, Lacks, strcmp_eq, recv_into-full}
use sysalgos.Calculator.Arithmetic.{Arithmetic}
use sysalgos.Calculator.Evaluate.{stack_size}
use sysalgos.Calculator.Evaluate.Texts.{Expr, IsWritten, render, render-Lacks, render-digit}
use sysalgos.Calculator.Evaluate.Expressions.{value, evaluate-render}
use sysalgos.Calculator.Server.{
  max_line, query_of, Thread, answered, Entry, conclude, answer_query, dispatch, first_byte, filled,
  round,
}
use sysalgos.Calculator.Client.{message, shown}
use sysalgos.Calculator.Client.Lines.{
  length-line_of, line_of, long_not_bye, message_query, not_short, query_line, response_line,
  shown_line, until_nul-zeros,
}

module _ (F : Arithmetic) where
  open F use {Double, print}

  conclude_single :
      (fd : ℕ) (query : Bytes) (res : Double) (log : List (Entry F)) (t : Thread)
      → length (print res) < 50
      → conclude F fd true query (res ∷ []) log t
        ≡ ok (
          log ++ record { client_id = fd; query = query; answer = res } ∷ [],
          answered (line_of (codes "1 ") (print res)) t,
        )
  unfolding conclude
  conclude_single fd query res log t h =
      rw (lt→ltb (length (print res)) 50 h, response_line (print res) (omega arith))

  -- A round on a whole line that carries a query.
  pub round_query :
      (fd : ℕ) (e : Expr) (log : List (Entry F)) (t : Thread)
      → IsWritten e
      → length (render e) < stack_size
      → length (print (value F e)) < 50
      → length t.buffer ≡ max_line
      → round F fd (some (line_of (codes "0 ") (render e))) true log t
        ≡ ok (
          log ++ record { client_id = fd; query = render e; answer = value F e } ∷ [],
          answered (line_of (codes "1 ") (print (value F e))) t,
        )
  unfolding round filled first_byte dispatch answer_query
  round_query fd e log t w h p b = rw (
    recv_into-full (line_of (codes "0 ") (render e)) t.buffer
        (length-line_of (codes "0 ") (render e) refl (omega arith) ∙ sym b),
    query_line (render e) (render-Lacks 0 (omega arith) e) (omega arith),
    evaluate-render F e w h,
    conclude_single fd (render e) (value F e) log
        (record t { buffer = line_of (codes "0 ") (render e) }) p,
  )

  pub not_bye :
      (e : Expr) → IsWritten e → strcmp_eq (render e ++ b'\n' ∷ []) (codes "bye\n") ≡ false
  unfolding strcmp_eq
  not_bye e w = let (d, r, q, h) = render-digit e w in rw q (ground arith)

  -- The postfix text of an expression, of at most 49 bytes, typed at the client and ended with a
  -- newline, makes the server log the text and the expression's value, and makes the client print that
  -- value, if the value prints in at most 49 bytes and the log can be opened.
  pub expression_answered :
      (fd : ℕ) (e : Expr) (more : Bytes) (log : List (Entry F)) (t : Thread)
      → IsWritten e
      → length (render e) < stack_size
      → length (print (value F e)) < 50
      → Lacks 0 (print (value F e))
      → length t.buffer ≡ max_line
      → (w : Bytes) × ((message (render e ++ b'\n' ∷ more) >>= λ msg.
            round F fd (some msg) true log t)
          ≡ ok (
            log ++ record { client_id = fd; query = render e; answer = value F e } ∷ [],
            answered w t,
          ))
        × (shown w ≡ ok (print (value F e)))
  expression_answered fd e more log t w h p l b = (
    line_of (codes "1 ") (print (value F e)),
    rw
        (message_query (render e) more (render-Lacks 0 (omega arith) e)
          (render-Lacks b'\n' (omega arith) e) (omega arith) (not_bye e w))
        (round_query fd e log t w h p b),
    shown_line (print (value F e)) l (omega arith),
  )

  -- A query of 50 bytes or more, which the client sends as it is, overruns the server's `input`.
  pub long_query_overruns :
      (fd : ℕ) (s more : Bytes) (opens : Bool) (log : List (Entry F)) (t : Thread)
      → Lacks 0 s
      → Lacks b'\n' s
      → 50 ≤ length s
      → length s < 419
      → length t.buffer ≡ max_line
      → (message (s ++ b'\n' ∷ more) >>= λ msg. round F fd (some msg) opens log t) ≡ undefined
  unfolding round filled first_byte dispatch answer_query query_of
  long_query_overruns fd s more opens log t l₀ l h h' b = rw (
    message_query s more l₀ l h' (long_not_bye s h),
    recv_into-full (line_of (codes "0 ") s) t.buffer
        (length-line_of (codes "0 ") s refl (omega arith) ∙ sym b),
    until_nul-zeros s (max_line - 2 - length s) l₀,
    not_short (length s) h,
  )
