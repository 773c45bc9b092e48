-- ===== src/Calculator/Server/Mutex.antt =====
-- The threads of problem3.c with their steps interleaved: a thread takes the mutex before it evaluates a
-- query (line 31) and gives it back behind the log (line 129). A step is one thread's next action.
pub mod Serial
pub mod Commit
pub mod Moves
pub mod Steps
pub mod Refinement
pub mod Turns
pub mod Progress
pub mod Records
mod Tests
use sysalgos.Base.{
  ℕ, ◌<◌, ◌≡◌, Bool, true, false, Option, none, some, List, [], ◌∷◌, ◌++◌, ltb, length, ◌==◌, put,
  if◌then◌else◌, Exec, ok, undefined, ◌>>=◌, ◌>>◌, require,
}
use sysalgos.Libc.Text.{Bytes, codes}
use sysalgos.Calculator.Arithmetic.{Arithmetic}
use sysalgos.Calculator.Evaluate.{evaluate}
use sysalgos.Calculator.Server.{
  query_of, response, bye, Thread, connected, answered, Entry, first_byte, filled,
}

module _ (F : Arithmetic) where
  open F use {Double, print}

  -- Where a thread stands: at `recv`; at the lock with a query in its buffer; inside, before the
  -- evaluation; inside, with an answer sent that is not yet in the log; inside, at the unlock.
  pub data Pc : Type 0 where
    receiving : Pc
    waiting : Pc
    inside : Pc
    recording : (query : Bytes) (res : Double) → Pc
    leaving : Pc

  pub record Cell : Type 0 where
    pub thread : Thread
    pub pc : Pc

  -- The owner of the mutex, the log, and the answers to queries in the order in which they were sent.
  pub record Shared : Type 0 where
    pub mutex : Option ℕ
    pub log : List (Entry F)
    pub answers : List (ℕ × Bytes)

  -- Lines 26 to 28, and 131 to 143.
  unfoldable pub receive : Option Bytes → Thread → Exec Cell
  receive received t =
      let t' = record t { buffer = filled received t.buffer } in
      do
        tag ← first_byte t'.buffer
        if tag == b'0'
            then ok (record { thread = t'; pc = waiting })
            else if tag == b'1'
            then (do
              w ← bye
              ok (record { thread = record (answered w t') { serving = false }; pc = receiving }))
            else ok (record { thread = record t' { serving = false }; pc = receiving })

  -- Lines 104 to 121, for the stack at the end: an answer is sent.
  unfoldable pub send_answer : ℕ → Bytes → List Double → Shared → Thread → Exec (Shared × Cell)
  send_answer fd query [] s t = undefined
  send_answer fd query (res ∷ []) s t = do
    require (ltb (length (print res)) 50)
    w ← response (print res)
    ok (
      record s { answers = s.answers ++ (fd, w) ∷ [] },
      record { thread = answered w t; pc = recording query res },
    )
  send_answer fd query (res ∷ _ ∷ _) s t = do
    require (ltb (length (print res)) 50)
    w ← response (codes "Invalid postfix expression!!")
    ok (
      record s { answers = s.answers ++ (fd, w) ∷ [] },
      record { thread = answered w t; pc = leaving },
    )

  -- `pthread_mutex_lock`, by the owner of the mutex.
  unfoldable pub acquire : Option ℕ → ℕ → Shared → Thread → Shared × Cell
  acquire none fd s t = (record s { mutex = some fd }, record { thread = t; pc = inside })
  acquire (some owner) fd s t = (s, record { thread = t; pc = waiting })

  -- The next action of the thread with descriptor `fd`, for what `recv` returns and whether `fopen`
  -- succeeds. A thread whose loop has ended, or that waits for the mutex, stays as it is.
  unfoldable pub act : ℕ → Option Bytes → Bool → Shared → Thread → Pc → Exec (Shared × Cell)
  act fd received opens s t receiving =
      let next = (do c ← receive received t; ok (s, c)) in
      if t.serving then next else ok (s, record { thread = t; pc = receiving })
  act fd received opens s t waiting = ok (acquire s.mutex fd s t)
  act fd received opens s t inside = do
    query ← query_of t.buffer
    stack ← evaluate F query
    send_answer fd query stack s t
  act fd received opens s t (recording query res) = do
    require opens
    ok (
      record s { log = s.log ++ record { client_id = fd; query = query; answer = res } ∷ [] },
      record { thread = t; pc = leaving },
    )
  act fd received opens s t leaving =
      ok (record s { mutex = none }, record { thread = t; pc = receiving })

  pub record System : Type 0 where
    pub shared : Shared
    pub cells : ℕ → Cell

  abbrev pub launched : System
  launched = record {
    shared = record { mutex = none; log = []; answers = [] };
    cells = λ _. record { thread = connected; pc = receiving };
  }

  abbrev pub act_of : ℕ → Option Bytes → Bool → System → Exec (Shared × Cell)
  act_of i received opens s = act i received opens s.shared (s.cells i).thread (s.cells i).pc

  -- The states that the actions of the threads reach, in any order.
  pub data Reach : System → Type 0 where
    start : Reach launched
    later :
        {s : System} {sh : Shared} {c : Cell}
        → Reach s
        → (i : ℕ) (received : Option Bytes) (opens : Bool) → act_of i received opens s ≡ ok (sh, c)
        → Reach (record { shared = sh; cells = put s.cells i c })
