-- ===== src/Reservation/Startup/Tests.antt =====
-- The theorems about the start of the reservation server at concrete inputs.
use sysalgos.Base.{
  ◌+◌, ◌≡◌, refl, true, inl, inr, some, [], ◌∷◌, ◌++◌, map, arith, ltb, ◌==◌, if◌then◌else◌, ok,
}
use sysalgos.Base.Int.{ℤ, pos, negsuc, ◌≤ℤ◌}
use sysalgos.Libc.Text.{Bytes, codes}
use sysalgos.Sockets.{Answers, created, bound, listened, closed, joined}
use sysalgos.Sockets.Accepting.{descriptors, served, consecutive}
use sysalgos.Reservation.Startup.{login, run_server}
use sysalgos.Reservation.Startup.Login.{Before, IsStrcmp, login_admits}
use sysalgos.Reservation.Startup.Order.{run_server_order}

-- One of the functions that the C standard allows for `strcmp`.
three_way : Bytes → Bytes → ℤ
three_way [] [] = pos 0
three_way [] (y ∷ b) = negsuc 0
three_way (x ∷ a) [] = pos 1
three_way (x ∷ a) (y ∷ b) = if ltb x y then negsuc 0 else if x == y then three_way a b else pos 1

three_way-before : (a b : Bytes) → Before a b → three_way a b ≤ℤ negsuc 0
unfolding three_way
three_way-before [] [] h = absurd h
three_way-before [] (y ∷ b) h = omega arith
three_way-before (x ∷ a) [] h = absurd h
three_way-before (x ∷ a) (y ∷ b) h = ground (arith, three_way-before a b)

three_way-after : (a b : Bytes) → Before b a → pos 1 ≤ℤ three_way a b
unfolding three_way
three_way-after [] [] h = absurd h
three_way-after [] (y ∷ b) h = absurd h
three_way-after (x ∷ a) [] h = omega arith
three_way-after (x ∷ a) (y ∷ b) h = ground (arith, three_way-after a b)

three_way-equal : (a : Bytes) → three_way a a ≡ pos 0
unfolding three_way
three_way-equal [] = refl
three_way-equal (x ∷ a) = ground (arith, three_way-equal a)

three_way-IsStrcmp : IsStrcmp three_way
three_way-IsStrcmp = record {
  equal = three_way-equal;
  before = three_way-before;
  after = three_way-after;
}

login_admits_example : login three_way (codes "aaron") (codes "admin") ≡ ok tt
login_admits_example =
    login_admits three_way (codes "aaron") (codes "admin") three_way-IsStrcmp (omega arith)
      (omega arith) (inr (omega arith)) (inl refl)

abbrev granting_system : Answers
granting_system = record {
  socket = some 3;
  binds = true;
  listens = true;
  accepts = λ i. some (4 + i);
  starts = λ _. true;
}

run_server_order_example :
    run_server granting_system
    ≡ ok (
        created 3
        ∷ bound 3
        ∷ listened 3 5
        ∷ (served (λ i. 4 + i) 5 0
            ++ (map joined (consecutive 5 0)
                ++ (map closed (descriptors (λ i. 4 + i) 5 0) ++ closed 3 ∷ []))))
run_server_order_example =
    run_server_order granting_system 3 (λ i. 4 + i) refl refl (λ i. refl) (λ i. refl)

abbrev failing_system : Answers
failing_system = record {
  socket = some 3;
  binds = true;
  listens = true;
  accepts = λ i. some (4 + i);
  starts = λ i. ltb i 2;
}
