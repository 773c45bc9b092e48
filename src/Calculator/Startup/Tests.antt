-- ===== src/Calculator/Startup/Tests.antt =====
-- The start of the calculator's server at concrete answers of the system.
use sysalgos.Base.{
  ◌+◌, ◌≡◌, refl, true, false, some, [], ◌∷◌, ◌++◌, map, arith, inl, inr, ok, exits,
}
use sysalgos.Sockets.{
  Answers, mutex_made, created, bound, listened, closed, mutex_destroyed, joined,
}
use sysalgos.Sockets.Accepting.{descriptors, served, consecutive}
use sysalgos.Calculator.Startup.{run_server}
use sysalgos.Calculator.Startup.Order.{calls_in_order, any_failure}

abbrev granting : Answers
granting = record {
  socket = some 3;
  binds = true;
  listens = true;
  accepts = λ i. some (4 + i);
  starts = λ _. true;
}

calls_in_order_example :
    run_server granting
    ≡ ok (
        mutex_made
        ∷ created 3
        ∷ bound 3
        ∷ listened 3 10
        ∷ (served (λ i. 4 + i) 10 0
            ++ (map joined (consecutive 10 0)
                ++ (map closed (descriptors (λ i. 4 + i) 10 0)
                    ++ mutex_destroyed ∷ closed 3 ∷ []))))
calls_in_order_example =
    calls_in_order granting 3 (λ i. 4 + i) refl refl refl (λ i. refl) (λ i. refl)

any_failure_example : run_server (record granting { listens = false }) ≡ exits 1
any_failure_example =
    any_failure (record granting { listens = false }) 0 (omega arith) (inr (inr (inl refl)))
