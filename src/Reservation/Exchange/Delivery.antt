-- ===== src/Reservation/Exchange/Delivery.antt =====
-- The server acts on the two numbers that the client was given.
use sysalgos.Base.{
  ℕ, ◌+◌, ◌-◌, ◌≡◌, refl, true, [], ◌∷◌, ◌++◌, append_assoc, arith, length, length-append, ok,
  ◌>>=◌,
}
use sysalgos.Base.Int.{ℤ, IsInt}
use sysalgos.Libc.Text.{Bytes, codes, strncmp_eq, zeros, recv_into-zeros}
use sysalgos.Libc.Decimal.{print_int}
use sysalgos.Libc.Decimal.RoundTrip.{atoi-print_int, length-print_int-le, print_int-Lacks}
use sysalgos.Reservation.Request.{window_size, parse_request}
use sysalgos.Reservation.Request.RoundTrip.{parse_fields}
use sysalgos.Reservation.Server.{Shared, Thread, bytes, Calls, book, dispatch, round}
use sysalgos.Reservation.Client.{request_buffer, send_message}
use sysalgos.Reservation.Client.Messages.{request_text, send_request}

-- The request in the server's window, with zeros behind it.
window_text :
    (a s : Bytes) (n : ℕ)
    → request_text a s ++ zeros n ≡ codes "REQ " ++ (a ++ b' ' ∷ (s ++ b' ' ∷ zeros n))
window_text a s n = simp append_assoc

length-request_text : (a s : Bytes) → length (request_text a s) ≡ 6 + length a + length s
length-request_text a s =
    omega (arith, length-append a (b' ' ∷ (s ++ b' ' ∷ [])), length-append s (b' ' ∷ []))

-- A message that begins with "REQ " is parsed and booked.
pub dispatch_request :
    (c : Calls) (rest : Bytes) (s : Shared) (t : Thread)
    → dispatch c (codes "REQ " ++ rest) s t
      ≡ (parse_request (codes "REQ " ++ rest) >>= λ (num_ac, num_slr). book c num_ac num_slr s t)
unfolding dispatch strncmp_eq
dispatch_request c rest s t = refl

parse_printed :
    (ac sl : ℤ) (r : Bytes)
    → IsInt ac
    → IsInt sl
    → parse_request (codes "REQ " ++ (print_int ac ++ b' ' ∷ (print_int sl ++ b' ' ∷ r)))
      ≡ ok (ac, sl)
parse_printed ac sl r ia is =
    let short_ac = length-print_int-le ac in
    let short_sl = length-print_int-le sl in
    rw (
      parse_fields (print_int ac) (print_int sl) r (print_int-Lacks b' ' (omega arith) ac)
          (print_int-Lacks b' ' (omega arith) sl) (omega arith) (omega arith),
      atoi-print_int ac ia,
      atoi-print_int sl is,
    )

-- The server's round on the text of a request.
pub round_request :
    (ac sl : ℤ) (c : Calls) (s : Shared) (t : Thread)
    → IsInt ac
    → IsInt sl
    → round (bytes (request_text (print_int ac) (print_int sl))) c s t ≡ book c ac sl s t
unfolding round
round_request ac sl c s t ia is =
    let text = request_text (print_int ac) (print_int sl) in
    let short_ac = length-print_int-le ac in
    let short_sl = length-print_int-le sl in
    rw (
      recv_into-zeros text window_size
          (omega (arith, length-request_text (print_int ac) (print_int sl))),
      window_text (print_int ac) (print_int sl) (window_size - length text),
      dispatch_request c,
      parse_printed ac sl (zeros (window_size - length text)) ia is,
    )

-- For any two values of `int` that the user types, the bytes that the client sends make the server book
-- exactly these two numbers.
pub request_delivered :
    (ac sl : ℤ) (c : Calls) (s : Shared) (t : Thread)
    → IsInt ac
    → IsInt sl
    → (request_buffer ac sl >>= send_message true >>= λ msg. round (bytes msg) c s t)
      ≡ book c ac sl s t
request_delivered ac sl c s t ia is = rw (send_request ac sl) (round_request ac sl c s t ia is)
