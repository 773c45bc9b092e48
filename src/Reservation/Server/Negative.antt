-- ===== src/Reservation/Server/Negative.antt =====
-- Requests for a negative number of tickets.
use sysalgos.Base.{ℕ, suc, ◌+◌, ◌<◌, ◌≡◌, true, arith, ok}
use sysalgos.Base.Int.{ℤ, pos, negsuc, pos_part, neg_part, ◌-ℤ◌, ◌≤ℤ◌, int_limit}
use sysalgos.Libc.Text.{Bytes}
use sysalgos.Reservation.Server.{Shared, Thread, Calls, logged_name, is_available, book}
use sysalgos.Reservation.Server.Booking.{success, answered, granted, IsWell, book_total}
use sysalgos.Reservation.Server.Invariant.{IsSound}

negative-available :
    (a b : ℕ) (s : Shared) → IsSound s → is_available (negsuc a) (negsuc b) s ≡ true
negative-available a b s v = ground arith

sub_negative :
    (x : ℤ) (a : ℕ)
    → pos 0 ≤ℤ x
    → (pos_part (x -ℤ negsuc a) ≡ pos_part x + suc a) × (neg_part (x -ℤ negsuc a) ≡ 0)
unfolding ◌-ℤ◌
sub_negative x a h = ground arith

-- In a sound state a request for two negative numbers, of a client with a known name, is granted and
-- answered with success, and each class then has that many more tickets on sale, if no call of the system
-- fails and neither count leaves `int`.
pub negative_granted :
    (c : Calls) (a b : ℕ) (s : Shared) (t : Thread) {name : Bytes}
    → IsWell c
    → logged_name t.name ≡ ok name
    → IsSound s
    → pos_part s.ac + suc a < int_limit
    → pos_part s.sl + suc b < int_limit
    → (book c (negsuc a) (negsuc b) s t
        ≡ ok (granted c name (negsuc a) (negsuc b) s, answered success t))
      × (pos_part (granted c name (negsuc a) (negsuc b) s).ac ≡ pos_part s.ac + suc a)
      × (pos_part (granted c name (negsuc a) (negsuc b) s).sl ≡ pos_part s.sl + suc b)
negative_granted c a b s t {name} w n v ha hb =
    let (ac, ac') = sub_negative s.ac a v.ac_left in
    let (sl, sl') = sub_negative s.sl b v.sl_left in
    (
      rw (negative-available a b s v) at
          (book_total c (negsuc a) (negsuc b) s t w n (omega arith) (omega arith)),
      ac,
      sl,
    )
