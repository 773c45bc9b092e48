-- ===== src/Calculator/Server/Mutex/Moves.antt =====
-- What a move of one thread does to the relation between the interleaved and the serial threads.
use sysalgos.Base.{ℕ, ◌≡◌, sym, ap, subst, ◌∙◌, ◌≢◌, true, false, some, ◌++◌, put}
use sysalgos.Calculator.Arithmetic.{Arithmetic}
use sysalgos.Calculator.Server.{Thread}
use sysalgos.Calculator.Server.Mutex.{Pc, Cell, Shared, System}
use sysalgos.Calculator.Server.Mutex.Serial.{
  Office, Matches, holds, unrecorded, pending, Sim, Sim-put, pending-put, pending-put_self,
}

module _ (F : Arithmetic) where
  module _ (s : System F) (o : Office F) (sim : Sim F s o) (i : ℕ) where
    -- Thread `i` does not hold the mutex, and leaves it alone.
    pub quiet :
        (o' : Office F) (c : Cell F)
        → holds F (s.cells i).pc ≡ false
        → holds F c.pc ≡ false
        → ((j : ℕ) → i ≢ j → o'.threads j ≡ o.threads j)
        → Matches F (o'.threads i) c.thread c.pc
        → o.log ≡ o'.log
        → o.answers ≡ o'.answers
        → Sim F (record { shared = s.shared; cells = put s.cells i c }) o'
    quiet o' c out out' rest here log answers =
        Sim-put F s o o' i c s.shared sim rest here (sim.log ∙ log)
          (sim.answers
            ∙ rw answers (
                ap (λ p. o'.answers ++ p) (sym (pending-put F s.shared.mutex s.cells i c unowned))))
          (λ h. cc) (λ m. absurd (unowned m)) (λ j _ e. e) (λ j _ e. e)
      where
        unowned : s.shared.mutex ≢ some i
        unowned m = let h = sim.owner i m in cc

    -- Thread `i` holds the mutex, before and behind its action.
    pub busy :
        (o' : Office F) (c : Cell F) (sh : Shared F)
        → sh.mutex ≡ some i
        → s.shared.mutex ≡ some i
        → holds F c.pc ≡ true
        → ((j : ℕ) → i ≢ j → o'.threads j ≡ o.threads j)
        → Matches F (o'.threads i) c.thread c.pc
        → sh.log ≡ o'.log
        → sh.answers ≡ o'.answers ++ unrecorded F i c.thread c.pc
        → Sim F (record { shared = sh; cells = put s.cells i c }) o'
    busy o' c sh m m' h rest here log answers =
        Sim-put F s o o' i c sh sim rest here log
          (answers
            ∙ ap (λ p. o'.answers ++ p)
                (sym (ap (λ k. pending F k (put s.cells i c)) m ∙ pending-put_self F s.cells i c)))
          (λ _. m) (λ _. h) (λ j ne e. absurd (ne (cc))) (λ j ne e. absurd (ne (cc)))

    module _ (t : Thread) (pc : Pc F) (at : s.cells i ≡ record { thread = t; pc = pc }) where
      pub matched : Matches F (o.threads i) t pc
      matched = subst (λ c. Matches F (o.threads i) c.thread c.pc) at (sim.threads i)

      pub stands : holds F (s.cells i).pc ≡ holds F pc
      stands = ap (λ c. holds F c.pc) at

      pub held : holds F pc ≡ true → s.shared.mutex ≡ some i
      held h = sim.owns i (stands ∙ h)

      pub drained : holds F pc ≡ true → s.shared.answers ≡ o.answers ++ unrecorded F i t pc
      drained h =
          sim.answers
          ∙ ap (λ m. o.answers ++ pending F m s.cells) (held h)
          ∙ ap (λ c. o.answers ++ unrecorded F i c.thread c.pc) at
