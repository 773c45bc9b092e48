-- ===== src/Calculator/Server/Mutex/Commit.antt =====
-- The rounds that the actions of a thread add up to.
use sysalgos.Base.{
  ℕ, ◌≡◌, refl, sym, ap, ◌∙◌, Bool, true, false, Option, List, [], ◌∷◌, ◌++◌, ltb, length, ◌==◌, ok,
  require,
}
use sysalgos.Libc.Text.{Bytes, codes}
use sysalgos.Calculator.Arithmetic.{Arithmetic}
use sysalgos.Calculator.Evaluate.{evaluate}
use sysalgos.Calculator.Server.{
  query_of, response, bye, Thread, answered, Entry, conclude, answer_query, dispatch, first_byte,
  filled, round,
}
use sysalgos.Calculator.Server.Mutex.Serial.{Loaded, Sent}

pub require-true : (b : Bool) → require b ≡ ok tt → b ≡ true
require-true true e = refl
require-true false e = cc

module _ (F : Arithmetic) (fd : ℕ) (log : List (Entry F)) where
  open F use {Double, print}

  loaded_byte :
      {a t : Thread} (l : Loaded F a t) → first_byte (filled l.received a.buffer) ≡ ok b'0'
  loaded_byte {a} l = ap (λ u. first_byte u.buffer) (sym l.buffered) ∙ l.tag

  round_loaded :
      {a t : Thread} (l : Loaded F a t) (opens : Bool)
      → round F fd l.received opens log a ≡ answer_query F fd opens log t
  unfolding round dispatch
  round_loaded l opens =
      rw (loaded_byte l) (ap (λ u. answer_query F fd opens log u) (sym l.buffered))

  pub round_invalid :
      {a t : Thread} (l : Loaded F a t) (opens : Bool) (query w : Bytes) (x y : Double)
      (stack : List Double)
      → query_of t.buffer ≡ ok query
      → evaluate F query ≡ ok (x ∷ y ∷ stack)
      → ltb (length (print x)) 50 ≡ true
      → response (codes "Invalid postfix expression!!") ≡ ok w
      → round F fd l.received opens log a ≡ ok (log, answered w t)
  unfolding answer_query conclude
  round_invalid l opens query w x y stack q e h r = round_loaded l opens ∙ rw (q, e, h, r)

  pub round-Sent :
      {a t : Thread} (query : Bytes) (res : Double) (u : Sent F a t query res)
      → round F fd u.loaded.received true log a
        ≡ ok (log ++ record { client_id = fd; query = query; answer = res } ∷ [], t)
  unfolding answer_query conclude
  round-Sent query res u =
      round_loaded u.loaded true
      ∙ rw (u.text, u.single, u.short, u.replied)
          (ap (λ v. ok (log ++ record { client_id = fd; query = query; answer = res } ∷ [], v))
            (sym u.after))

  pub round-bye :
      (a : Thread) (received : Option Bytes) (opens : Bool) (tag : ℕ) (w : Bytes)
      → first_byte (filled received a.buffer) ≡ ok tag
      → (tag == b'0') ≡ false
      → (tag == b'1') ≡ true
      → bye ≡ ok w
      → round F fd received opens log a
        ≡ ok (
          log,
          record (answered w (record a { buffer = filled received a.buffer })) { serving = false },
        )
  unfolding round dispatch
  round-bye a received opens tag w f n b e = rw (f, n, b, e)

  pub round_wrong :
      (a : Thread) (received : Option Bytes) (opens : Bool) (tag : ℕ)
      → first_byte (filled received a.buffer) ≡ ok tag
      → (tag == b'0') ≡ false
      → (tag == b'1') ≡ false
      → round F fd received opens log a
        ≡ ok (log, record a { buffer = filled received a.buffer; serving = false })
  unfolding round dispatch
  round_wrong a received opens tag f n b = rw (f, n, b)
