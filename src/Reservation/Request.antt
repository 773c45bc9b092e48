-- ===== src/Reservation/Request.antt =====
-- constants.h, and how `handle_client` of server.c reads a "REQ " message (lines 86 to 103).
pub mod RoundTrip
use sysalgos.Base.{
  ℕ, ◌+◌, ◌-◌, ◌≡◌, refl, [], ◌∷◌, ◌++◌, take, drop, ltb, ◌==◌, if◌then◌else◌, Exec, ok, undefined,
  ◌>>=◌, ◌>>◌, require,
}
use sysalgos.Base.Int.{ℤ, pos, negsuc}
use sysalgos.Libc.Text.{Bytes, codes, zeros}
use sysalgos.Libc.Decimal.{atoi}

abbrev pub ac_num : ℕ
ac_num = 100

abbrev pub sl_num : ℕ
sl_num = 100

abbrev pub window_size : ℕ
window_size = 256

abbrev pub max_clients : ℕ
max_clients = 5

abbrev pub name_len : ℕ
name_len = 20

-- `for (; i < WINDOW_SIZE && buffer[i] != ' '; i++) ;`, given the buffer from index `i` on
field_end : Bytes → ℕ → ℕ
field_end [] i = i
field_end (c ∷ rest) i = if c == b' ' then i else field_end rest (i + 1)

-- The number in the field from index `i` on, and the index behind it. The text is copied to an array
-- of 20 bytes, `AC_str` or `SLR_str`, and ended with a NUL there.
unfoldable pub read_field : Bytes → ℕ → Exec (ℤ × ℕ)
unfolding field_end
read_field buffer i =
    let end = field_end (drop i buffer) i in
    do require (ltb (end - i) 20); number ← atoi (take (end - i) (drop i buffer)); ok (number, end)

unfoldable pub parse_request : Bytes → Exec (ℤ × ℤ)
parse_request buffer = do
  (num_ac, i) ← read_field buffer 4
  (num_slr, j) ← read_field buffer (i + 1)
  ok (num_ac, num_slr)

two_numbers : parse_request (codes "REQ 12 -3 " ++ zeros 246) ≡ ok (pos 12, negsuc 2)
unfolding parse_request read_field atoi
two_numbers = refl

-- With no second blank the field runs on to the end of the window, past `SLR_str`.
no_second_blank : parse_request (codes "REQ 12 3" ++ zeros 248) ≡ undefined
unfolding parse_request read_field atoi
no_second_blank = refl
