-- ===== src/Calculator/Server/Rounds.antt =====
-- What a round of the calculator's server does, on every branch.
use sysalgos.Base.{
  ℕ, ◌≡◌, refl, ◌∙◌, ap, Bool, false, Option, List, [], ◌∷◌, ◌++◌, ltb, length, ◌==◌, ==_iff, ok,
  require, Ensures, yields, faults, on_value, on_test,
}
use sysalgos.Libc.Text.{Bytes, codes}
use sysalgos.Calculator.Arithmetic.{Arithmetic}
use sysalgos.Calculator.Evaluate.{evaluate}
use sysalgos.Calculator.Server.{
  query_of, response, bye, Thread, answered, Entry, conclude, answer_query, dispatch, first_byte,
  filled, round,
}

module _ (F : Arithmetic) where
  open F use {Double, print}

  -- How a round ends, by the first byte of the message. Only an answer reaches the log, and an answer always does.
  pub data Outcome (fd : ℕ) (log : List (Entry F)) (t : Thread)
      : List (Entry F) × Thread → Type 0 where
    answer :
        (query : Bytes) (res : Double) (w : Bytes) {r : List (Entry F) × Thread}
        → first_byte t.buffer ≡ ok b'0'
        → query_of t.buffer ≡ ok query
        → evaluate F query ≡ ok (res ∷ [])
        → response (print res) ≡ ok w
        → r ≡ (log ++ record { client_id = fd; query = query; answer = res } ∷ [], answered w t)
        → Outcome fd log t r
    invalid :
        (query : Bytes) (x y : Double) (stack : List Double) (w : Bytes)
        {r : List (Entry F) × Thread}
        → first_byte t.buffer ≡ ok b'0'
        → query_of t.buffer ≡ ok query
        → evaluate F query ≡ ok (x ∷ y ∷ stack)
        → response (codes "Invalid postfix expression!!") ≡ ok w
        → r ≡ (log, answered w t)
        → Outcome fd log t r
    farewell :
        (w : Bytes) {r : List (Entry F) × Thread}
        → first_byte t.buffer ≡ ok b'1'
        → bye ≡ ok w
        → r ≡ (log, record (answered w t) { serving = false })
        → Outcome fd log t r
    wrong :
        (tag : ℕ) {r : List (Entry F) × Thread}
        → first_byte t.buffer ≡ ok tag
        → (tag == b'0') ≡ false
        → (tag == b'1') ≡ false
        → r ≡ (log, record t { serving = false })
        → Outcome fd log t r

  conclude-Outcome :
      (fd : ℕ) (opens : Bool) (query : Bytes) (stack : List Double) (log : List (Entry F))
      (t : Thread)
      → first_byte t.buffer ≡ ok b'0'
      → query_of t.buffer ≡ ok query
      → evaluate F query ≡ ok stack
      → Ensures (Outcome fd log t) (conclude F fd opens query stack log t)
  unfolding conclude
  conclude-Outcome fd opens query [] log t f q e = faults
  conclude-Outcome fd opens query (res ∷ []) log t f q e =
      on_value (require (ltb (length (print res)) 50)) λ _ _.
        on_value (response (print res))
          λ w p. on_value (require opens) λ _ _. yields (answer query res w f q e p refl)
  conclude-Outcome fd opens query (x ∷ y ∷ stack) log t f q e =
      on_value (require (ltb (length (print x)) 50)) λ _ _.
        on_value (response (codes "Invalid postfix expression!!"))
          λ w p. yields (invalid query x y stack w f q e p refl)

  dispatch-Outcome :
      (fd : ℕ) (opens : Bool) (tag : ℕ) (log : List (Entry F)) (t : Thread)
      → first_byte t.buffer ≡ ok tag
      → Ensures (Outcome fd log t) (dispatch F fd opens tag log t)
  unfolding dispatch answer_query
  dispatch-Outcome fd opens tag log t f =
      on_test (tag == b'0')
        (λ zero. on_value (query_of t.buffer) λ query q. on_value (evaluate F query) λ stack e.
          conclude-Outcome fd opens query stack log t (f ∙ ap ok ((==_iff tag b'0').0 zero)) q e)
        λ not_query.
          on_test (tag == b'1')
            (λ one.
              on_value bye λ w p. yields (farewell w (f ∙ ap ok ((==_iff tag b'1').0 one)) p refl))
            λ not_bye. yields (wrong tag f not_query not_bye refl)

  -- Whatever a round yields is one of these outcomes, for the buffer as `recv` leaves it: with the first byte
  -- '0' an answer, logged with its query, if exactly one value is left, or the reply that the expression is
  -- invalid and no record, if more are left; with '1' the farewell; with any other the end of the thread
  -- without a reply.
  pub round-Outcome :
      (fd : ℕ) (received : Option Bytes) (opens : Bool) (log : List (Entry F)) (t : Thread)
      → Ensures
          (Outcome fd log (record t { buffer = filled received t.buffer }))
          (round F fd received opens log t)
  unfolding round
  round-Outcome fd received opens log t =
      on_value (first_byte (filled received t.buffer)) λ tag f.
        dispatch-Outcome fd opens tag log (record t { buffer = filled received t.buffer }) f
