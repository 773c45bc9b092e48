-- ===== src/Reservation/Tests.antt =====
-- The theorems about the reservation system at concrete inputs, and runs of it.
use sysalgos.Base.{
  ℕ, ◌+◌, ◌<◌, ◌≡◌, refl, true, ◌&&◌, some, [], ◌∷◌, ◌++◌, arith, if◌then◌else◌, ok, undefined,
  ◌>>=◌, Ensures,
}
use sysalgos.Base.Int.{pos, negsuc, pos_part, ◌+ℤ◌, ◌-ℤ◌, leb_ℤ, IsInt, sub_int, add_int}
use sysalgos.Libc.Text.{Bytes, codes, c_string, strncmp_eq, zeros, write_at, recv_into}
use sysalgos.Libc.Decimal.{atoi, print_int}
use sysalgos.Reservation.Request.{ac_num, sl_num, read_field, parse_request}
use sysalgos.Reservation.Request.RoundTrip.{parse_request-overrun}
use sysalgos.Reservation.Server.{
  Thread, Received, bytes, initial, connected, all_well, logged_name, is_available, reply, greet,
  trim_newline, write_record, grant, book, dispatch, round, serve,
}
use sysalgos.Reservation.Server.Booking.{success, failure, answered, granted, IsWell, book_total}
use sysalgos.Reservation.Server.Invariant.{IsSound, serve-IsSound, initial-IsSound}
use sysalgos.Reservation.Server.Negative.{negative_granted}
use sysalgos.Reservation.Client.{
  hello_buffer, fresh, request_buffer, send_message, receive_message, read_count, credit, settle,
  buy,
}
use sysalgos.Reservation.Exchange.{exchange, last_reply}
use sysalgos.Reservation.Exchange.Greeting.{name_greeted}
use sysalgos.Reservation.Exchange.Delivery.{request_delivered}
use sysalgos.Reservation.Exchange.Agreement.{Exchanged, exchange-Exchanged}
use sysalgos.Reservation.Fleet.{Fleet, trade, other, Reach, start, later}
use sysalgos.Reservation.Fleet.Conservation.{ac_total, sl_total, round_frame, tickets_conserved}
use sysalgos.Reservation.Race.{testing_ac}
use sysalgos.Reservation.Race.Oversale.{run, two_requests, BothGranted, both_granted, uninterrupted}

small : (n : ℕ) → n < 1000 → IsInt (pos n)
small n h = omega arith

two : IsInt (pos 2)
two = small 2 (omega arith)

one : IsInt (pos 1)
one = small 1 (omega arith)

first : 0 < 2
first = omega arith

-- Client 0 gives its name and buys two tickets of the first class and one of the second.
abbrev sold : (f : Fleet) × Reach 2 f
unfolding exchange last_reply round dispatch strncmp_eq recv_into greet trim_newline write_at reply
    parse_request read_field atoi book grant write_record logged_name c_string sub_int add_int ◌-ℤ◌
    ◌+ℤ◌ success request_buffer send_message receive_message read_count credit settle buy print_int
sold = (
  _,
  later (later start (other 0 (codes "HI  Ann\n") all_well first refl refl))
      (trade 0 (pos 2) (pos 1) all_well first two one refl),
)

tickets_conserved_example : (ac_total 2 sold.0 ≡ pos ac_num) × (sl_total 2 sold.0 ≡ pos sl_num)
tickets_conserved_example = tickets_conserved sold.1

request_delivered_example :
    (request_buffer (pos 2) (negsuc 0) >>= send_message true >>= λ msg.
    round (bytes msg) all_well initial connected)
    ≡ book all_well (pos 2) (negsuc 0) initial connected
request_delivered_example =
    request_delivered (pos 2) (negsuc 0) all_well initial connected two (omega arith)

-- A thread whose client is called Ann.
abbrev named : Thread
named = record connected { name = some (codes "Ann" ++ zeros 17) }

named_Ann : logged_name named.name ≡ ok (codes "Ann")
unfolding logged_name c_string
named_Ann = refl

well : IsWell all_well
well = record {
  sent = refl;
  opened = refl;
  locked = refl;
  printed = refl;
  unlocked = refl;
  file_closed = refl;
}

serve-IsSound_example :
    Ensures
      (λ st. IsSound st.0)
      (serve
        ((bytes (codes "REQ 2 -1 "), all_well) ∷ (Received.closed, all_well) ∷ [])
        initial
        named)
serve-IsSound_example =
    serve-IsSound ((bytes (codes "REQ 2 -1 "), all_well) ∷ (Received.closed, all_well) ∷ []) initial
      named initial-IsSound

in_range : IsInt (pos 100 -ℤ pos 2) × IsInt (pos 100 -ℤ pos 1)
unfolding ◌-ℤ◌
in_range = omega arith

book_total_example :
    book all_well (pos 2) (pos 1) initial named
    ≡ ok (
        if is_available (pos 2) (pos 1) initial
        then (granted all_well (codes "Ann") (pos 2) (pos 1) initial, answered success named)
        else (initial, answered failure named))
book_total_example =
    book_total all_well (pos 2) (pos 1) initial named well named_Ann (in_range.0) (in_range.1)

negative_granted_example :
    (book all_well (negsuc 4) (negsuc 0) initial named
      ≡ ok (granted all_well (codes "Ann") (negsuc 4) (negsuc 0) initial, answered success named))
    × (pos_part (granted all_well (codes "Ann") (negsuc 4) (negsuc 0) initial).ac ≡ 100 + 5)
    × (pos_part (granted all_well (codes "Ann") (negsuc 4) (negsuc 0) initial).sl ≡ 100 + 1)
negative_granted_example =
    negative_granted all_well 4 0 initial named well named_Ann initial-IsSound (omega arith)
      (omega arith)

round_frame_example :
    Ensures (λ st. st.0 ≡ initial) (round (bytes (codes "HI  Ann\n")) all_well initial connected)
unfolding strncmp_eq recv_into
round_frame_example = round_frame (codes "HI  Ann\n") all_well initial connected refl

exchange-Exchanged_example :
    Ensures
      (Exchanged all_well (pos 2) (pos 1) initial fresh)
      (exchange (pos 2) (pos 1) all_well initial named fresh)
exchange-Exchanged_example = exchange-Exchanged (pos 2) (pos 1) all_well initial named fresh two one

parse_request-overrun_example :
    parse_request (codes "REQ " ++ (codes "123456789012345678901234567890" ++ zeros 222))
    ≡ undefined
parse_request-overrun_example =
    parse_request-overrun (codes "123456789012345678901234567890") (zeros 222) (omega arith)
      (omega arith)

both_granted_example :
    BothGranted
      (two_requests (pos 100) (pos 100) (pos 60) (pos 3) (pos 60) (pos 98))
      (pos 100 -ℤ pos 60 -ℤ pos 60)
      (pos 100 -ℤ pos 3 -ℤ pos 98)
    × BothGranted
        (two_requests (pos 100) (pos 100) (pos 60) (pos 3) (pos 60) (pos 98))
        (pos 100 -ℤ pos 60)
        (pos 100 -ℤ pos 98)
both_granted_example =
    both_granted (pos 100) (pos 100) (pos 60) (pos 3) (pos 60) (pos 98)
      (record {
        counted = omega arith;
        first_le = (omega arith, omega arith);
        second_le = (omega arith, omega arith);
      })
      (record {
        counted = omega arith;
        first_le = (omega arith, omega arith);
        second_le = (omega arith, omega arith);
      })

uninterrupted_example :
    (run (0 ∷ 0 ∷ 0 ∷ 0 ∷ 0 ∷ 0 ∷ []) (record {
      tickets = record { ac = pos 100; sl = pos 100 };
      at = λ _. testing_ac (pos 60) (pos 1);
    })
      >>= λ s. ok s.tickets)
    ≡ (if leb_ℤ (pos 60) (pos 100) && leb_ℤ (pos 1) (pos 100)
        then (do
          ac' ← sub_int (pos 100) (pos 60)
          sl' ← sub_int (pos 100) (pos 1)
          ok (record { ac = ac'; sl = sl' }))
        else ok (record { ac = pos 100; sl = pos 100 }))
uninterrupted_example =
    uninterrupted (pos 100) (pos 100) (pos 60) (pos 1) (λ _. testing_ac (pos 60) (pos 1)) refl

name_greeted_example :
    (w array : Bytes) × ((hello_buffer (codes "Ann\n") >>= send_message true >>= λ msg.
    round (bytes msg) all_well initial connected)
      ≡ ok (initial, record connected { name = some array; replies = w ∷ [] }))
    × (logged_name (some array) ≡ ok (codes "Ann"))
    × ((receive_message (some w) >>= c_string) ≡ ok (codes "Hello Ann"))
name_greeted_example =
    name_greeted (codes "Ann") [] all_well initial (omega arith) (omega arith) (omega arith) refl
