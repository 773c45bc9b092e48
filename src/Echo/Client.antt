-- ===== src/Echo/Client.antt =====
-- client.c: a message is sent, and the answer is printed; and several clients with the server.
pub mod Conversation
use sysalgos.Base.{Bool, true, some, List, [], ◌∷◌, map, Exec, ok, ◌>>=◌, ◌>>◌, succeed}
use sysalgos.Libc.Text.{Bytes, codes, c_string, zeros, recv_into}
use sysalgos.Echo.Server.{max_line, server_main}

-- MESSAGE_FROM_CLIENT
abbrev pub message_from_client : Bytes
message_from_client = codes "wo lab 5"

-- `receiveMessage`: the text that is printed of an answer, received in a cleared buffer.
unfoldable pub receive_message : Bytes → Exec Bytes
receive_message msg = c_string (recv_into msg (zeros max_line))

-- `createSocket` and `connectToServer`, by whether their calls succeed
abbrev pub create_socket : Bool → Exec (Unit {0})
create_socket = succeed

abbrev pub connect_to_server : Bool → Exec (Unit {0})
connect_to_server = succeed

-- `main`, for the answer: the text sent, and the text printed. The result of `send` is not looked at.
unfoldable pub client_main :
    (created connects : Bool) → (message reply : Bytes) → Exec (Bytes × Bytes)
client_main created connects message reply = do
  create_socket created
  connect_to_server connects
  shown ← receive_message reply
  ok (message, shown)

-- The clients in the order in which they connect, and the answers sent: what those print that get an answer.
unfoldable pub receive_each : (msgs replies : List Bytes) → Exec (List Bytes)
receive_each msgs [] = ok []
receive_each [] (reply ∷ replies) = ok []
receive_each (msg ∷ msgs) (reply ∷ replies) = do
  (sent, text) ← client_main true true msg reply
  texts ← receive_each msgs replies
  ok (text ∷ texts)

-- Clients that connect one after the other, each with its message, against the server.
unfoldable pub converse : List Bytes → Exec (List Bytes)
converse msgs = do
  s ← server_main true true true (map (λ msg. (true, some msg)) msgs)
  receive_each msgs s.sent
