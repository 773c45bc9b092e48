-- ===== src/Reservation/Race.antt =====
-- Lines 106 to 109 of server.c with the threads interleaved: `AC` and `SL` are plain globals, and no
-- lock is held from the test to the last subtraction. A step is one thread's next access.
pub mod Oversale
use sysalgos.Base.{put, ℕ, ◌≡◌, if◌then◌else◌, Exec, ok, ◌>>=◌}
use sysalgos.Base.Int.{ℤ, sub_int, leb_ℤ}

-- Where a thread stands in the booking of its two numbers, with the value that `-=` has loaded.
pub data Pc : Type 0 where
  testing_ac : (num_ac num_slr : ℤ) → Pc
  testing_sl : (num_ac num_slr : ℤ) → Pc
  loading_ac : (num_ac num_slr : ℤ) → Pc
  storing_ac : (value num_ac num_slr : ℤ) → Pc
  loading_sl : (num_slr : ℤ) → Pc
  storing_sl : (value num_slr : ℤ) → Pc
  granting : Pc
  refusing : Pc

pub record Tickets : Type 0 where
  pub ac : ℤ
  pub sl : ℤ

-- The next access of a thread. A difference outside `int` is undefined.
unfoldable pub access : Tickets → Pc → Exec (Tickets × Pc)
access m (testing_ac a b) = ok (m, (if leb_ℤ a m.ac then testing_sl a b else refusing))
access m (testing_sl a b) = ok (m, (if leb_ℤ b m.sl then loading_ac a b else refusing))
access m (loading_ac a b) = ok (m, storing_ac m.ac a b)
access m (storing_ac v a b) = do ac ← sub_int v a; ok (record m { ac = ac }, loading_sl b)
access m (loading_sl b) = ok (m, storing_sl m.sl b)
access m (storing_sl v b) = do sl ← sub_int v b; ok (record m { sl = sl }, granting)
access m granting = ok (m, granting)
access m refusing = ok (m, refusing)

pub record Threads : Type 0 where
  pub tickets : Tickets
  pub at : ℕ → Pc

-- Thread `i` moves.
unfoldable pub turn : ℕ → Threads → Exec Threads
turn i s = do
  (tickets, pc) ← access s.tickets (s.at i)
  ok (record { tickets = tickets; at = put s.at i pc })

pub data Reach (s : Threads) : Threads → Type 0 where
  start : Reach s s
  later : {t u : Threads} → Reach s t → (i : ℕ) → turn i t ≡ ok u → Reach s u
