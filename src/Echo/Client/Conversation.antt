-- ===== src/Echo/Client/Conversation.antt =====
-- What the clients see of the server.
use mathlib.Core.List.{reverse}
use sysalgos.Base.{ℕ, zero, suc, take, ◌-◌, ◌≡◌, refl, List, [], ◌∷◌, map, arith, length, ok}
use sysalgos.Libc.Text.{Bytes, All, c_string-zeros, recv_into-zeros}
use sysalgos.Echo.Server.{max_line, server_main}
use sysalgos.Echo.Server.Reversal.{length-reverse, Lacks-reverse}
use sysalgos.Echo.Server.Clients.{IsMessage, serve-reverse}
use sysalgos.Echo.Client.{receive_message, client_main, receive_each, converse}

receive_message-text : (msg : Bytes) → IsMessage msg → receive_message msg ≡ ok msg
unfolding receive_message
receive_message-text msg (some_byte, nul, short) = rw (
  recv_into-zeros msg max_line (omega arith),
  c_string-zeros msg (max_line - length msg) nul (omega arith),
)

reverse-IsMessage : (msg : Bytes) → IsMessage msg → IsMessage (reverse msg)
reverse-IsMessage msg (some_byte, nul, short) =
    (omega (arith, length-reverse msg), Lacks-reverse 0 msg nul, omega (arith, length-reverse msg))

-- The clients that get an answer are the first.
receive_each-reverse :
    (n : ℕ) (msgs : List Bytes)
    → All IsMessage msgs
    → receive_each msgs (map reverse (take n msgs)) ≡ ok (map reverse (take n msgs))
unfolding receive_each client_main
receive_each-reverse zero msgs _ = refl
receive_each-reverse (suc n) [] _ = refl
receive_each-reverse (suc n) (msg ∷ msgs) (h, hs) =
    rw
      (receive_message-text (reverse msg) (reverse-IsMessage msg h), receive_each-reverse n msgs hs)

-- Of any number of clients that connect, the first five print each its own message reversed, in their order,
-- and no other gets an answer, if no message is empty, and each is shorter than 1024 bytes and has no NUL.
pub converse-reverse :
    (msgs : List Bytes) → All IsMessage msgs → converse msgs ≡ ok (map reverse (take 5 msgs))
unfolding converse server_main
converse-reverse msgs h = rw (serve-reverse msgs h, receive_each-reverse 5 msgs h)
