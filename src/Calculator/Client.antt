-- ===== src/Calculator/Client.antt =====
-- client.c: what a line of input makes the client send, and what it prints of the answer.
pub mod Lines
pub mod EndToEnd
pub mod Session
use sysalgos.Base.{
  Bool, true, false, Option, none, some, List, [], ◌∷◌, ◌++◌, drop, ◌==◌, if◌then◌else◌, Exec, ok,
  ◌>>=◌, ◌>>◌, succeed,
}
use sysalgos.Libc.Text.{Bytes, codes, c_string, strcmp_eq, zeros, write_at, recv_into, input_line}
use sysalgos.Calculator.Server.{max_line, until_nul}

-- `strchr(input, '\n')` and the NUL written there
unfoldable pub until_newline : Bytes → Bytes
until_newline [] = []
until_newline (c ∷ s) = if c == b'\n' then [] else c ∷ until_newline s

-- Lines 39 to 48: the text that `fgets` leaves in `input`, which has 420 bytes.
unfoldable pub typed : Bytes → Bytes
typed stdin = until_nul (input_line 419 stdin)

-- Lines 41 to 43 and 63 to 70: the message for a query.
unfoldable pub query_message : Bytes → Exec Bytes
query_message text = do
  tag ← write_at 0 (codes "0 ") (zeros max_line)
  write_at 2 (until_newline text) tag

-- Lines 52 to 54: the message that ends the session.
unfoldable pub logout_message : Exec Bytes
logout_message = write_at 0 (codes "1 ") (zeros max_line)

-- The message for a line; the client ends after "bye".
unfoldable pub message : Bytes → Exec Bytes
message stdin =
    if strcmp_eq (typed stdin) (codes "bye\n") then logout_message else query_message (typed stdin)

-- Lines 72 to 74: the text printed of an answer.
unfoldable pub shown : Bytes → Exec Bytes
shown msg = c_string (drop 2 (recv_into msg (zeros max_line)))

-- The client: the buffers sent, the texts printed of the answers, and whether its loop goes on.
pub record Client : Type 0 where
  pub sent : List Bytes
  pub lines : List Bytes
  pub running : Bool

abbrev pub fresh : Client
fresh = record { sent = []; lines = []; running = true }

-- Where `recv` brings nothing, the cleared buffer stays as it was.
abbrev pub arrived : Option Bytes → Bytes
arrived none = []
arrived (some msg) = msg

-- A round of `while (1)`, lines 39 to 74, for the input and what `recv` returns. "bye" ends the process,
-- whatever the server answers.
unfoldable pub client_round : Bytes → Option Bytes → Client → Exec Client
client_round stdin reply k = do
  msg ← message stdin
  let k' = record k { sent = k.sent ++ msg ∷ [] }
  if strcmp_eq (typed stdin) (codes "bye\n")
      then ok (record k' { running = false })
      else (do text ← shown (arrived reply); ok (record k' { lines = k'.lines ++ text ∷ [] }))

-- The loop, for the rounds that the inputs give.
unfoldable pub client_loop : List (Bytes × Option Bytes) → Client → Exec Client
client_loop [] k = ok k
client_loop ((stdin, reply) ∷ events) k =
    let next = client_round stdin reply k >>= λ k'. client_loop events k' in
    if k.running then next else ok k

-- `create_socket`, by whether `socket` succeeds, and `connect_to_server`
abbrev pub create_socket : Bool → Exec (Unit {0})
create_socket = succeed

abbrev pub connect_to_server : Bool → Exec (Unit {0})
connect_to_server = succeed

-- `main`
unfoldable pub client_main : (created connects : Bool) → List (Bytes × Option Bytes) → Exec Client
client_main created connects events = do
  create_socket created
  connect_to_server connects
  client_loop events fresh
