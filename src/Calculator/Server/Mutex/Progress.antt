-- ===== src/Calculator/Server/Mutex/Progress.antt =====
-- No deadlock: a thread that waits for the mutex gets in after at most three actions of the owner.
use sysalgos.Base.{
  ℕ, ◌≤◌, ◌<◌, ◌≡◌, lt→ltb, refl, ap, subst, ◌∙◌, ◌≢◌, inl, inr, true, false, none, Option-cases,
  List, [], ◌∷◌, ◌++◌, arith, length, ok,
}
use sysalgos.Libc.Text.{Bytes, codes}
use sysalgos.Calculator.Arithmetic.{Arithmetic}
use sysalgos.Calculator.Evaluate.{evaluate}
use sysalgos.Calculator.Server.{query_of, Thread, answered}
use sysalgos.Calculator.Client.Lines.{line_of, response_line}
use sysalgos.Calculator.Server.Mutex.{
  Pc, receiving, waiting, inside, recording, leaving, Cell, Shared, System, send_answer, act, Reach,
}
use sysalgos.Calculator.Server.Mutex.Serial.{holds}
use sysalgos.Calculator.Server.Mutex.Refinement.{reach_serial}
use sysalgos.Calculator.Server.Mutex.Turns.{
  Served, Served-cons, moved, turn_at, still_waits, moved-mutex, moved-pc, Served-free,
}

module _ (F : Arithmetic) where
  open F use {Double, print}

  -- The query of a thread is defined, and leaves at least one value, which prints in its place.
  pub record IsAnswerable (t : Thread) : Type 0 where
    pub query : Bytes
    pub res : Double
    pub stack : List Double
    pub text : query_of t.buffer ≡ ok query
    pub value : evaluate F query ≡ ok (res ∷ stack)
    pub prints : length (print res) < 50

  module _ (i j : ℕ) (ne : j ≢ i) where
    Served-leaving :
        (s : System F) → (s.cells i).pc ≡ waiting → (s.cells j).pc ≡ leaving → Served F i s 2
    unfolding act
    Served-leaving s w at =
        let sh : Shared F = record s.shared { mutex = none } in
        let c : Cell F = record { thread = (s.cells j).thread; pc = receiving } in
        Served-cons F j s (moved F s j sh c) (turn_at F j s leaving at) (
          Served-free F i (moved F s j sh c) (still_waits F s i j sh c w ne)
            (moved-mutex F s j sh c))

    Served-recording :
        (s : System F) (query : Bytes) (res : Double)
        → (s.cells i).pc ≡ waiting
        → (s.cells j).pc ≡ recording query res
        → Served F i s 3
    unfolding act
    Served-recording s query res w at =
        let sh : Shared F = record s.shared {
          log = s.shared.log ++ record { client_id = j; query = query; answer = res } ∷ [];
        } in
        let c : Cell F = record { thread = (s.cells j).thread; pc = leaving } in
        Served-cons F j s (moved F s j sh c) (turn_at F j s (recording query res) at)
          (Served-leaving (moved F s j sh c) (still_waits F s i j sh c w ne) (moved-pc F s j sh c))

    Served-single :
        (s : System F)
        → (s.cells i).pc ≡ waiting
        → (s.cells j).pc ≡ inside
        → (query : Bytes) (res : Double) → query_of (s.cells j).thread.buffer ≡ ok query
        → evaluate F query ≡ ok (res ∷ [])
        → length (print res) < 50
        → Served F i s 4
    unfolding act send_answer
    Served-single s w at query res q e h =
        let thread = (s.cells j).thread in
        let reply = line_of (codes "1 ") (print res) in
        let sh : Shared F = record s.shared { answers = s.shared.answers ++ (j, reply) ∷ [] } in
        let c : Cell F = record { thread = answered reply thread; pc = recording query res } in
        Served-cons F j s (moved F s j sh c)
          (turn_at F j s inside at
            ∙ rw (q, e, lt→ltb (length (print res)) 50 h, response_line (print res) (omega arith)))
          (Served-recording (moved F s j sh c) query res (still_waits F s i j sh c w ne)
            (moved-pc F s j sh c))

    Served-many :
        (s : System F)
        → (s.cells i).pc ≡ waiting
        → (s.cells j).pc ≡ inside
        → (query : Bytes) (x y : Double) (stack : List Double)
        → query_of (s.cells j).thread.buffer ≡ ok query
        → evaluate F query ≡ ok (x ∷ y ∷ stack)
        → length (print x) < 50
        → Served F i s 3
    unfolding act send_answer
    Served-many s w at query x y stack q e h =
        let thread = (s.cells j).thread in
        let reply = line_of (codes "1 ") (codes "Invalid postfix expression!!") in
        let sh : Shared F = record s.shared { answers = s.shared.answers ++ (j, reply) ∷ [] } in
        let c : Cell F = record { thread = answered reply thread; pc = leaving } in
        Served-cons F j s (moved F s j sh c)
          (turn_at F j s inside at
            ∙ rw (
              q,
              e,
              lt→ltb (length (print x)) 50 h,
              response_line (codes "Invalid postfix expression!!") (omega arith),
            ))
          (Served-leaving (moved F s j sh c) (still_waits F s i j sh c w ne) (moved-pc F s j sh c))

  longer : {i m n : ℕ} {s : System F} → m ≤ n → Served F i s m → Served F i s n
  longer h v = record {
    order = v.order;
    short = omega (arith, v.short);
    last = v.last;
    runs = v.runs;
    gets_in = v.gets_in;
  }

  other_thread :
      (i j : ℕ) (s : System F) → (s.cells i).pc ≡ waiting → holds F (s.cells j).pc ≡ true → j ≢ i
  other_thread i j s w h e =
      let h' : holds F (s.cells i).pc ≡ true = subst (λ k. holds F (s.cells k).pc ≡ true) e h in
      let f : holds F (s.cells i).pc ≡ false = ap (λ pc. holds F pc) w in cc

  Served-inside :
      (i j : ℕ) (ne : j ≢ i) (s : System F)
      → (s.cells i).pc ≡ waiting
      → (s.cells j).pc ≡ inside
      → (query : Bytes) (res : Double) (stack : List Double)
      → query_of (s.cells j).thread.buffer ≡ ok query
      → evaluate F query ≡ ok (res ∷ stack)
      → length (print res) < 50
      → Served F i s 4
  Served-inside i j ne s w at query res [] q e h = Served-single i j ne s w at query res q e h
  Served-inside i j ne s w at query res (y ∷ stack) q e h =
      longer (omega arith) (Served-many i j ne s w at query res y stack q e h)

  Served-owner :
      (i j : ℕ) (s : System F) (pc : Pc F)
      → j ≢ i
      → (s.cells i).pc ≡ waiting
      → ((s.cells j).pc ≡ inside → IsAnswerable (s.cells j).thread)
      → (s.cells j).pc ≡ pc
      → holds F pc ≡ true
      → Served F i s 4
  Served-owner i j s receiving ne w q at h = cc
  Served-owner i j s waiting ne w q at h = cc
  Served-owner i j s inside ne w q at h =
      let a = q at in Served-inside i j ne s w at a.query a.res a.stack a.text a.value a.prints
  Served-owner i j s (recording query res) ne w q at h =
      longer (omega arith) (Served-recording i j ne s query res w at)
  Served-owner i j s leaving ne w q at h = longer (omega arith) (Served-leaving i j ne s w at)

  -- In every reachable state some order of at most four actions gets a thread that waits for the mutex in,
  -- if the query of the thread that is about to evaluate one, should there be one, is defined, leaves a
  -- value, and the value prints in at most 49 bytes.
  pub wait_ends :
      {s : System F}
      → Reach F s
      → (i : ℕ) → (s.cells i).pc ≡ waiting
      → ((j : ℕ) → (s.cells j).pc ≡ inside → IsAnswerable (s.cells j).thread)
      → Served F i s 4
  wait_ends {s} r i w q =
      let (o, ser, sim) = reach_serial F r in
      elim (Option-cases s.shared.mutex) [
        | inl free ↦ longer (omega arith) (Served-free F i s w free)
        | inr (j, e) ↦
            let h : holds F (s.cells j).pc ≡ true = sim.owner j e in
            Served-owner i j s (s.cells j).pc (other_thread i j s w h) w (q j) refl h
      ]
