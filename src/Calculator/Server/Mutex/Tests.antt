-- ===== src/Calculator/Server/Mutex/Tests.antt =====
-- Interleaved threads of the calculator at concrete states, with whole numbers in place of `double`.
use sysalgos.Base.{ℕ, ◌+◌, ◌-◌, ◌*◌, ◌/◌, ◌≡◌, refl, true, none, some, [], ◌∷◌, arith, put_all}
use sysalgos.Libc.Text.{Bytes, codes, write_at, recv_into}
use sysalgos.Calculator.Arithmetic.{Arithmetic}
use sysalgos.Calculator.Evaluate.{push, apply, operate, head, step, finish, run, evaluate}
use sysalgos.Calculator.Server.{connected, query_of, response, first_byte, filled, until_nul}
use sysalgos.Calculator.Server.Mutex.{
  waiting, inside, receiving, Cell, System, launched, receive, acquire, send_answer, act, Reach,
  start, later,
}
use sysalgos.Calculator.Server.Mutex.Serial.{Office, Serial}
use sysalgos.Calculator.Server.Mutex.Refinement.{free_serial, mutual_exclusion}
use sysalgos.Calculator.Server.Mutex.Turns.{Served}
use sysalgos.Calculator.Server.Mutex.Progress.{IsAnswerable, wait_ends}
use sysalgos.Calculator.Server.Mutex.Records.{Recorded, free_recorded}

abbrev whole_numbers : Arithmetic
whole_numbers = record {
  Double = ℕ;
  of_digit = λ d. d;
  ten = 10;
  add = λ x y. x + y;
  sub = λ x y. x - y;
  mul = λ x y. x * y;
  div = λ x y. x / y;
  print = λ x. (b'0' + x) ∷ [];
}

abbrev query : Bytes
query = codes "0 3 4 +"

-- Two queries have arrived, and thread 4 is inside.
abbrev contended : (s : System whole_numbers) × Reach whole_numbers s
unfolding receive first_byte filled recv_into act acquire
contended = (
  _,
  later (later (later start 4 (some query) true refl) 5 (some query) true refl) 4 none true refl,
)

-- Thread 4 has answered, recorded, and left.
abbrev answered_one : (s : System whole_numbers) × Reach whole_numbers s
unfolding act send_answer query_of until_nul evaluate run step head operate apply push finish
    response write_at contended
answered_one =
    (_, later (later (later contended.1 4 none true refl) 4 none true refl) 4 none true refl)

free_serial_example :
    (o : Office whole_numbers) × Serial whole_numbers o
    × (answered_one.0.shared.log ≡ o.log)
    × (answered_one.0.shared.answers ≡ o.answers)
    × ((i : ℕ)
        → (answered_one.0.cells i).pc ≡ receiving
        → (answered_one.0.cells i).thread ≡ o.threads i)
unfolding answered_one
free_serial_example = free_serial whole_numbers answered_one.1 refl

free_recorded_example :
    Recorded whole_numbers answered_one.0.shared.log answered_one.0.shared.answers
unfolding answered_one
free_recorded_example = free_recorded whole_numbers answered_one.1 refl

mutual_exclusion_example : ◌≡◌ {A = ℕ} 4 4
unfolding contended
mutual_exclusion_example = mutual_exclusion whole_numbers contended.1 4 4 refl refl

abbrev loaded : Cell whole_numbers
loaded = record {
  thread = record connected { buffer = filled (some query) connected.buffer };
  pc = waiting;
}

abbrev Answers : ℕ → Cell whole_numbers → Type 0
Answers j c = c.pc ≡ inside → IsAnswerable whole_numbers c.thread

four_answers :
    (j : ℕ)
    → (contended.0.cells j).pc ≡ inside
    → IsAnswerable whole_numbers (contended.0.cells j).thread
unfolding contended query_of until_nul evaluate run step head operate apply push finish
four_answers =
    put_all Answers _ 4 _
      (λ _. record {
        query = codes "3 4 +";
        res = 7;
        stack = [];
        text = refl;
        value = refl;
        prints = omega arith;
      })
      λ j _.
        put_all Answers _ 5 _ (λ e. cc)
          (λ k _. put_all Answers (launched whole_numbers).cells 4 loaded (λ e. cc) (λ _ _ e. cc) k)
          j

wait_ends_example : Served whole_numbers 5 contended.0 4
unfolding contended
wait_ends_example = wait_ends whole_numbers contended.1 5 refl four_answers
