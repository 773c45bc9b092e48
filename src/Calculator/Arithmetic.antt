-- ===== src/Calculator/Arithmetic.antt =====
-- `double`: its operations are the machine's, and are taken as they are. `print` is `sprintf("%f")`.
use sysalgos.Base.{ℕ}
use sysalgos.Libc.Text.{Bytes}

pub record Arithmetic : Type 1 where
  pub Double : Type 0
  pub of_digit : ℕ → Double
  pub ten : Double
  pub add : Double → Double → Double
  pub sub : Double → Double → Double
  pub mul : Double → Double → Double
  pub div : Double → Double → Double
  pub print : Double → Bytes
