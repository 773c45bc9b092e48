-- ===== src/Reservation/Client.antt =====
-- client.c and clientUtils.h: the client's messages, its menu and the tickets it has bought.
pub mod Messages
use sysalgos.Base.{
  ℕ, zero, suc, ◌+◌, ◌≡◌, refl, Bool, true, Option, none, some, List, [], ◌∷◌, ◌++◌, drop, ltb,
  ◌==◌, length, if◌then◌else◌, Exec, ok, exits, undefined, ◌>>=◌, ◌>>◌, require, succeed,
}
use sysalgos.Base.Int.{ℤ, pos, eqb_ℤ, add_int}
use sysalgos.Libc.Text.{Bytes, codes, c_string, strncmp_eq, zeros, write_at, recv_into, input_line}
use sysalgos.Libc.Decimal.{print_int}
use sysalgos.Reservation.Request.{ac_num, sl_num, window_size}

-- What the client prints.
pub data Line : Type 0 where
  text : Bytes → Line
  bought : (num_ac num_sl : ℤ) → Line
  on_sale : (ac sl : ℕ) → Line
  invalid_choice : Line

-- The locals `numAC` and `numSL` of `main`, the messages sent and the lines printed.
pub record Client : Type 0 where
  pub num_ac : ℤ
  pub num_sl : ℤ
  pub sent : List Bytes
  pub lines : List Line

abbrev pub fresh : Client
fresh = record { num_ac = pos 0; num_sl = pos 0; sent = []; lines = [] }

-- Lines 48 to 55: the greeting, with a name of at most 19 bytes and its NUL.
unfoldable pub hello_buffer : Bytes → Exec Bytes
unfolding input_line
hello_buffer input = do
  buffer ← write_at 0 (codes "HI  ") (zeros window_size)
  write_at 4 (input_line 19 input ++ 0 ∷ []) buffer

-- Lines 80 to 107. `sprintf` writes to arrays of 20 bytes.
unfoldable pub request_buffer : ℤ → ℤ → Exec Bytes
request_buffer num_ac num_sl =
    let ac = print_int num_ac in
    let sl = print_int num_sl in
    do
      require (ltb (length ac) 20)
      require (ltb (length sl) 20)
      tag ← write_at 0 (codes "REQ ") (zeros window_size)
      first ← write_at 4 ac tag
      blank ← write_at (4 + length ac) (codes " ") first
      second ← write_at (4 + length ac + 1) sl blank
      write_at (4 + length ac + 1 + length sl) (codes " ") second

-- Lines 127 to 131.
unfoldable pub bye_buffer : Exec Bytes
bye_buffer = write_at 0 (codes "BYE ") (zeros window_size)

-- `sendMessage`: the bytes of the buffer before its first NUL.
unfoldable pub send_message : Bool → Bytes → Exec Bytes
send_message sends buffer = do msg ← c_string buffer; succeed sends; ok msg

-- `receiveMessage`, into a cleared buffer; `none` is a failure of `recv`.
unfoldable pub receive_message : Option Bytes → Exec Bytes
receive_message none = exits 1
receive_message (some msg) = ok (recv_into msg (zeros window_size))

-- Lines 118 and 119.
unfoldable pub credit : ℤ → ℤ → Client → Exec Client
credit ac sl k = do
  num_ac ← add_int k.num_ac ac
  num_sl ← add_int k.num_sl sl
  ok (record k { num_ac = num_ac; num_sl = num_sl })

-- Lines 114 to 120: an answer to a request.
unfoldable pub settle : ℤ → ℤ → Bytes → Client → Exec Client
settle ac sl buffer k = do
  answer ← c_string (drop 4 buffer)
  let k' = record k { lines = k.lines ++ text answer ∷ [] }
  if strncmp_eq 4 buffer (codes "200 ") then credit ac sl k' else ok k'

-- What a round of the menu meets: the numbers that `scanf` reads (`none` where it reads none), whether
-- `send` succeeds, and what `recv` returns.
pub record Inputs : Type 0 where
  pub choice : Option ℤ
  pub ac : Option ℤ
  pub sl : Option ℤ
  pub sends : Bool
  pub reply : Option Bytes

-- `if (scanf("%d", …) != 1) … exit(1);`
unfoldable pub read_count : Option ℤ → Exec ℤ
read_count none = exits 1
read_count (some n) = ok n

-- Case 1.
unfoldable pub buy : Inputs → Client → Exec Client
buy e k = do
  ac ← read_count e.ac
  sl ← read_count e.sl
  buffer ← request_buffer ac sl
  msg ← send_message e.sends buffer
  answer ← receive_message e.reply
  settle ac sl answer (record k { sent = k.sent ++ msg ∷ [] })

-- Case 3: the process ends, its client with it.
unfoldable pub leave : Inputs → Exec Client
leave e = do
  buffer ← bye_buffer
  msg ← send_message e.sends buffer
  answer ← receive_message e.reply
  shown ← c_string answer
  exits 0

unfoldable pub select : ℤ → Inputs → Client → Exec Client
select n e k =
    if eqb_ℤ n (pos 1)
    then buy e k
    else if eqb_ℤ n (pos 2)
    then ok (record k { lines = k.lines ++ bought k.num_ac k.num_sl ∷ [] })
    else if eqb_ℤ n (pos 3)
    then leave e
    else if eqb_ℤ n (pos 4)
    then ok (record k { lines = k.lines ++ on_sale ac_num sl_num ∷ [] })
    else ok (record k { lines = k.lines ++ invalid_choice ∷ [] })

-- One round of the menu. `choice` is indeterminate where `scanf` reads no number.
unfoldable pub menu : Inputs → Client → Exec Client
menu e k = elim e.choice [ none ↦ undefined | some n ↦ select n e k ]

-- `while (true)`, for the rounds that the inputs give.
unfoldable pub menu_loop : List Inputs → Client → Exec Client
menu_loop [] k = ok k
menu_loop (e ∷ es) k = do k' ← menu e k; menu_loop es k'

-- Lines 18 to 66: resolve the host, connect, send the name, print the answer. A failing `connect` ends
-- the process with status 0.
unfoldable pub greet_server :
    (resolved created connects sends : Bool) (input : Bytes) (reply : Option Bytes) → Exec Client
greet_server resolved created connects sends input reply = do
  succeed created
  require resolved
  if connects then ok tt else exits 0
  buffer ← hello_buffer input
  msg ← send_message sends buffer
  answer ← receive_message reply
  shown ← c_string answer
  ok (record fresh { sent = msg ∷ []; lines = text shown ∷ [] })

request_bytes : (request_buffer (pos 2) (pos 11) >>= send_message true) ≡ ok (codes "REQ 2 11 ")
unfolding request_buffer send_message write_at c_string print_int
request_bytes = refl
