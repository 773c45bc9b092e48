-- ===== src/Calculator/Server/Mutex/Records.antt =====
-- The log against the answers that were sent.
use sysalgos.Base.{
  ℕ, ◌≡◌, refl, sym, ap, subst, ◌∙◌, Bool, false, Option, none, List, [], ◌∷◌, ◌++◌, arith, ◌==◌,
  ok, yields, on_value, on_test, Ensures, Ensures_at,
}
use sysalgos.Libc.Text.{Bytes, codes}
use sysalgos.Calculator.Arithmetic.{Arithmetic}
use sysalgos.Calculator.Server.{bye, dispatch, response, Thread, Entry, first_byte, filled, round}
use sysalgos.Calculator.Server.Rounds.{Outcome, answer, invalid, farewell, wrong, round-Outcome}
use sysalgos.Calculator.Server.Mutex.{System, Reach}
use sysalgos.Calculator.Server.Mutex.Serial.{Office, Serial, nothing, asked, other}
use sysalgos.Calculator.Server.Mutex.Refinement.{free_serial}

module _ (F : Arithmetic) where
  open F use {Double, print}

  -- Each record of the log has its answer, to the client that it names and with the value that it names,
  -- in the order of the log; the other answers say that an expression is invalid.
  pub data Recorded : List (Entry F) → List (ℕ × Bytes) → Type 0 where
    none_yet : Recorded [] []
    result :
        {log : List (Entry F)} {answers : List (ℕ × Bytes)}
        → Recorded log answers
        → (e : Entry F) (w : Bytes) → response (print e.answer) ≡ ok w
        → Recorded (log ++ e ∷ []) (answers ++ (e.client_id, w) ∷ [])
    refusal :
        {log : List (Entry F)} {answers : List (ℕ × Bytes)}
        → Recorded log answers
        → (i : ℕ) (w : Bytes) → response (codes "Invalid postfix expression!!") ≡ ok w
        → Recorded log (answers ++ (i, w) ∷ [])

  last_injective : (rs : List Bytes) (v w : Bytes) → rs ++ v ∷ [] ≡ rs ++ w ∷ [] → v ≡ w
  last_injective [] v w e = cc
  last_injective (r ∷ rs) v w e = last_injective rs v w (cc)

  asked-Recorded :
      (o : Office F) (i : ℕ) (received : Option Bytes) (w : Bytes) {log : List (Entry F)}
      {t : Thread}
      → Recorded o.log o.answers
      → first_byte (filled received (o.threads i).buffer) ≡ ok b'0'
      → t.replies ≡ (o.threads i).replies ++ w ∷ []
      → Outcome F i o.log
          (record (o.threads i) { buffer = filled received (o.threads i).buffer })
          (log, t)
      → Recorded log (o.answers ++ (i, w) ∷ [])
  asked-Recorded o i received w {log} {t} rec f h (answer query res v f' q e p eq) =
      let entry : Entry F = record { client_id = i; query = query; answer = res } in
      let same : v ≡ w =
        last_injective (o.threads i).replies v w (sym (ap (λ r. r.1.replies) eq) ∙ h) in
      subst (λ l. Recorded l (o.answers ++ (i, w) ∷ [])) (sym (ap (λ r. r.0) eq))
        (result rec entry w (p ∙ ap ok same))
  asked-Recorded o i received w {log} {t} rec f h (invalid query x y stack v f' q e p eq) =
      let same : v ≡ w =
        last_injective (o.threads i).replies v w (sym (ap (λ r. r.1.replies) eq) ∙ h) in
      subst (λ l. Recorded l (o.answers ++ (i, w) ∷ [])) (sym (ap (λ r. r.0) eq))
        (refusal rec i w (p ∙ ap ok same))
  asked-Recorded o i received w {log} {t} rec f h (farewell v f' p eq) = absurd (ground arith)
  asked-Recorded o i received w {log} {t} rec f h (wrong tag f' n n' eq) = absurd (ground arith)

  other-log :
      (i : ℕ) (received : Option Bytes) (opens : Bool) (tag : ℕ) (log : List (Entry F)) (a : Thread)
      → first_byte (filled received a.buffer) ≡ ok tag
      → (tag == b'0') ≡ false
      → Ensures (λ r. log ≡ r.0) (round F i received opens log a)
  unfolding round dispatch
  other-log i received opens tag log a f n =
      rw (f, n) (on_test (tag == b'1') (λ _. on_value bye λ w _. yields refl) λ _. yields refl)

  Serial-Recorded : {o : Office F} → Serial F o → Recorded o.log o.answers
  Serial-Recorded nothing = none_yet
  Serial-Recorded (asked {o} ser i received opens w on f r h) =
      asked-Recorded o i received w (Serial-Recorded ser) f h
        (Ensures_at (round-Outcome F i received opens o.log (o.threads i)) r)
  Serial-Recorded (other {o} ser i received opens tag on f n r) =
      let same = Ensures_at (other-log i received opens tag o.log (o.threads i) f n) r in
      subst (λ l. Recorded l o.answers) same (Serial-Recorded ser)

  -- Whenever the mutex is free, the log agrees with the answers that were sent, in their order.
  pub free_recorded :
      {s : System F} → Reach F s → s.shared.mutex ≡ none → Recorded s.shared.log s.shared.answers
  free_recorded r free =
      let (o, ser, l, a, _) = free_serial F r free in rw (l, a) (Serial-Recorded ser)
