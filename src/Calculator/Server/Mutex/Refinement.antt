-- ===== src/Calculator/Server/Mutex/Refinement.antt =====
-- Every interleaving of the threads is matched by rounds that follow one another.
use sysalgos.Base.{
  ℕ, ◌≡◌, refl, sym, ap, subst, ◌∙◌, Bool, true, Option, none, ◌++◌, append-nil, ok, ◌>>=◌, require,
  Ensures, Ensures_at, yields, on_value, on_test, after,
}
use sysalgos.Libc.Text.{Bytes}
use sysalgos.Calculator.Arithmetic.{Arithmetic}
use sysalgos.Calculator.Evaluate.{evaluate}
use sysalgos.Calculator.Server.{query_of, Thread}
use sysalgos.Calculator.Server.Mutex.{
  Pc, receiving, waiting, inside, recording, leaving, System, launched, receive, act, Reach, start,
  later,
}
use sysalgos.Calculator.Server.Mutex.Serial.{
  Office, opened, Serial, nothing, Matches, holds, pending, Sim,
}
use sysalgos.Calculator.Server.Mutex.Moves.{quiet, matched, stands}
use sysalgos.Calculator.Server.Mutex.Steps.{
  Followed, receive-Followed, acquire-Followed, send-Followed, record-Followed, release-Followed,
}

module _ (F : Arithmetic) where
  open F use {Double, print}

  module _ (s : System F) (o : Office F) (ser : Serial F o) (sim : Sim F s o) (i : ℕ) where
    followed :
        (t : Thread) (pc : Pc F) (received : Option Bytes) (opens : Bool)
        → s.cells i ≡ record { thread = t; pc = pc }
        → Ensures (Followed F s i) (act F i received opens s.shared t pc)
    unfolding act
    followed t receiving received opens at =
        let same : t ≡ o.threads i = matched F s o sim i t receiving at in
        on_test t.serving
          (λ on.
            subst (λ u. Ensures (Followed F s i) (receive F received u >>= λ c. ok (s.shared, c)))
              (sym same)
              (after
                (receive-Followed F s o ser sim i received opens (stands F s o sim i t receiving at)
                  (ap (λ u. u.serving) (sym same) ∙ on))
                λ c f. yields f))
          λ off. yields (
            o,
            ser,
            quiet F s o sim i o (record { thread = t; pc = receiving })
                (stands F s o sim i t receiving at) refl (λ _ _. refl) same refl refl,
          )
    followed t waiting received opens at =
        yields (acquire-Followed F s o ser sim i t s.shared.mutex at refl)
    followed t inside received opens at = on_value (query_of t.buffer) λ query q.
        on_value (evaluate F query)
          λ stack e. send-Followed F s o ser sim i t opens query stack at q e
    followed t (recording query res) received opens at =
        on_value (require opens) λ _ _. yields (record-Followed F s o ser sim i t query res at)
    followed t leaving received opens at = yields (release-Followed F s o ser sim i t at)

  launched-Sim : Sim F (launched F) (opened F)
  launched-Sim = record {
    threads = λ i. refl;
    log = refl;
    answers = refl;
    owns = λ i h. cc;
    owner = λ i e. cc;
  }

  -- For every reachable state of the interleaved threads there is a state that whole rounds, one after the
  -- other, reach, with the same log, the same threads wherever a thread is not in the middle of a round,
  -- and the same answers in the same order but for one that the mutex's owner has still to record.
  pub reach_serial : {s : System F} → Reach F s → (o : Office F) × Serial F o × Sim F s o
  reach_serial start = (opened F, nothing, launched-Sim)
  reach_serial (later {s} r i received opens e) =
      let (o, ser, sim) = reach_serial r in
      Ensures_at (followed s o ser sim i (s.cells i).thread (s.cells i).pc received opens refl) e

  -- Whenever the mutex is free, rounds that follow one another explain the state: they yield its log and
  -- its answers, both in their order, and every thread that is at `recv`.
  pub free_serial :
      {s : System F}
      → Reach F s
      → s.shared.mutex ≡ none
      → (o : Office F) × Serial F o
        × (s.shared.log ≡ o.log)
        × (s.shared.answers ≡ o.answers)
        × ((i : ℕ) → (s.cells i).pc ≡ receiving → (s.cells i).thread ≡ o.threads i)
  free_serial {s} r free =
      let (o, ser, sim) = reach_serial r in
      (
        o,
        ser,
        sim.log,
        sim.answers ∙ ap (λ m. o.answers ++ pending F m s.cells) free ∙ append-nil o.answers,
        λ i at. subst (λ pc. Matches F (o.threads i) (s.cells i).thread pc) at (sim.threads i),
      )

  -- Two threads are never both between the lock and the unlock.
  pub mutual_exclusion :
      {s : System F}
      → Reach F s
      → (i j : ℕ) → holds F (s.cells i).pc ≡ true
      → holds F (s.cells j).pc ≡ true
      → i ≡ j
  mutual_exclusion {s} r i j h h' =
      let (o, ser, sim) = reach_serial r in let p = sim.owns i h in let q = sim.owns j h' in cc
