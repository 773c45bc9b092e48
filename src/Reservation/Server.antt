-- ===== src/Reservation/Server.antt =====
-- `handle_client` of server.c: one thread of the server, over the tickets that all threads share.
pub mod Booking
pub mod Invariant
pub mod Negative
use sysalgos.Base.{
  Bool, true, false, ◌&&◌, Option, none, some, List, [], ◌∷◌, ◌++◌, take, drop, ◌==◌, if◌then◌else◌,
  Exec, ok, exits, undefined, ◌>>=◌, ◌>>◌, succeed,
}
use sysalgos.Base.Int.{ℤ, pos, leb_ℤ, sub_int}
use sysalgos.Libc.Text.{Bytes, codes, c_string, strncmp_eq, zeros, write_at, recv_into}
use sysalgos.Reservation.Request.{ac_num, sl_num, window_size, name_len, parse_request}

-- A line of LOG_FILE.
pub record Entry : Type 0 where
  pub stamp : Bytes
  pub name : Bytes
  pub num_ac : ℤ
  pub num_slr : ℤ

-- The globals `AC` and `SL`, and the log.
pub record Shared : Type 0 where
  pub ac : ℤ
  pub sl : ℤ
  pub log : List Entry

-- A thread: `clientName`, which is indeterminate before a hello, the windows sent to its client, and
-- whether its loop goes on.
pub record Thread : Type 0 where
  pub name : Option Bytes
  pub replies : List Bytes
  pub serving : Bool

-- What `read` returns.
pub data Received : Type 0 where
  failed : Received
  closed : Received
  bytes : Bytes → Received

-- Which calls of a round succeed, and the time that `strftime` writes.
pub record Calls : Type 0 where
  pub sent : Bool
  pub opened : Bool
  pub locked : Bool
  pub printed : Bool
  pub unlocked : Bool
  pub file_closed : Bool
  pub stamp : Bytes

abbrev pub initial : Shared
initial = record { ac = pos ac_num; sl = pos sl_num; log = [] }

abbrev pub connected : Thread
connected = record { name = none; replies = []; serving = true }

-- The loop that ends the name at its first newline.
unfoldable pub trim_newline : Bytes → Bytes
trim_newline [] = []
trim_newline (c ∷ s) = if c == b'\n' then 0 ∷ s else c ∷ trim_newline s

-- A window that `send` or `write` takes whole.
unfoldable pub reply : Calls → Bytes → Thread → Exec Thread
reply c window t = do succeed c.sent; ok (record t { replies = t.replies ++ window ∷ [] })

-- "HI  "
unfoldable pub greet : Calls → Bytes → Thread → Exec Thread
unfolding reply
greet c buffer t =
    let client_name = trim_newline (take name_len (drop 4 buffer)) in
    do
      hello ← write_at 0 (codes "Hello ") (zeros window_size)
      hello_msg ← write_at 6 client_name hello
      reply c hello_msg (record t { name = some client_name })

-- The `%s` of the record: an array that was written, and that has a NUL.
unfoldable pub logged_name : Option Bytes → Exec Bytes
logged_name none = undefined
logged_name (some array) = c_string array

-- Lines 126 to 173: open the log, lock it, append the record, unlock and close it.
unfoldable pub write_record : Calls → ℤ → ℤ → Thread → Shared → Exec Shared
unfolding logged_name
write_record c num_ac num_slr t s = do
  succeed c.opened
  succeed c.locked
  client_name ← logged_name t.name
  succeed c.printed
  succeed c.unlocked
  succeed c.file_closed
  ok (record s {
    log =
        s.log
        ++ record { stamp = c.stamp; name = client_name; num_ac = num_ac; num_slr = num_slr } ∷ [];
  })

abbrev pub is_available : ℤ → ℤ → Shared → Bool
is_available num_ac num_slr s = leb_ℤ num_ac s.ac && leb_ℤ num_slr s.sl

-- Lines 108 to 173: take the tickets, answer, write the record.
unfoldable pub grant : Calls → ℤ → ℤ → Shared → Thread → Exec (Shared × Thread)
unfolding reply write_record
grant c num_ac num_slr s t = do
  ac ← sub_int s.ac num_ac
  sl ← sub_int s.sl num_slr
  window ← write_at 0 (codes "200 success") (zeros window_size)
  t' ← reply c window t
  s' ← write_record c num_ac num_slr t' (record s { ac = ac; sl = sl })
  ok (s', t')

-- Lines 177 to 190.
unfoldable pub refuse : Calls → Shared → Thread → Exec (Shared × Thread)
unfolding reply
refuse c s t = do
  window ← write_at 0 (codes "201 failure booking tickets.") (zeros window_size)
  t' ← reply c window t
  ok (s, t')

-- Lines 106 to 191, for the two numbers of a request.
unfoldable pub book : Calls → ℤ → ℤ → Shared → Thread → Exec (Shared × Thread)
book c num_ac num_slr s t =
    if is_available num_ac num_slr s then grant c num_ac num_slr s t else refuse c s t

-- "BYE "
unfoldable pub farewell : Calls → Thread → Exec Thread
unfolding reply
farewell c t = do
  window ← write_at 0 (codes "Good Bye") (zeros window_size)
  t' ← reply c window t
  ok (record t' { serving = false })

-- Lines 49 to 208: a message in the buffer.
unfoldable pub dispatch : Calls → Bytes → Shared → Thread → Exec (Shared × Thread)
dispatch c buffer s t =
    if strncmp_eq 4 buffer (codes "HI  ")
    then (do t' ← greet c buffer t; ok (s, t'))
    else if strncmp_eq 4 buffer (codes "REQ ")
    then (do (num_ac, num_slr) ← parse_request buffer; book c num_ac num_slr s t)
    else if strncmp_eq 4 buffer (codes "BYE ")
    then (do t' ← farewell c t; ok (s, t'))
    else ok (s, t)

-- One round of `while (true)`.
unfoldable pub round : Received → Calls → Shared → Thread → Exec (Shared × Thread)
round failed c s t = exits 1
round closed c s t = ok (s, record t { serving = false })
round (bytes msg) c s t = dispatch c (recv_into msg (zeros window_size)) s t

-- The loop, over what the socket yields: it ends when a round leaves it, or waits for the next read.
unfoldable pub serve : List (Received × Calls) → Shared → Thread → Exec (Shared × Thread)
serve [] s t = ok (s, t)
serve ((r, c) ∷ events) s t =
    let next = round r c s t >>= λ st. serve events (st.0) (st.1) in
    if t.serving then next else ok (s, t)

abbrev pub all_well : Calls
all_well = record {
  sent = true;
  opened = true;
  locked = true;
  printed = true;
  unlocked = true;
  file_closed = true;
  stamp = [];
}
