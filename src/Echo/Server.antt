-- ===== src/Echo/Server.antt =====
-- server.c: the clients one after the other, with the two buffers that they share.
pub mod Reversal
pub mod Clients
use sysalgos.Base.{
  ℕ, zero, suc, ◌+◌, ◌-◌, Bool, true, Option, none, some, List, [], ◌∷◌, ◌++◌, length, take, Exec,
  ok, undefined, ◌>>=◌, ◌>>◌, succeed,
}
use sysalgos.Libc.Text.{Bytes, c_string, zeros, write_at, recv_into}

abbrev pub max_line : ℕ
max_line = 1024

abbrev pub max_clients : ℕ
max_clients = 5

-- `buffer[i]` as a value
unfoldable pub read_at : ℕ → Bytes → Exec ℕ
read_at i [] = undefined
read_at zero (c ∷ s) = ok c
read_at (suc i) (c ∷ s) = read_at i s

-- Lines 76 to 80, with `n` rounds left from round `j` on.
unfoldable pub reverse_loop : (n j message_len : ℕ) → Bytes → Bytes → Exec Bytes
reverse_loop zero j message_len buffer reversed = ok reversed
reverse_loop (suc n) j message_len buffer reversed = do
  c ← read_at (message_len - j - 1) buffer
  reversed' ← write_at j (c ∷ []) reversed
  reverse_loop n (j + 1) message_len buffer reversed'

-- The two buffers, what was sent, and what was printed of it.
pub record State : Type 0 where
  pub buffer : Bytes
  pub reversed_buffer : Bytes
  pub sent : List Bytes
  pub printed : List Bytes

abbrev pub started : State
started = record {
  buffer = zeros max_line;
  reversed_buffer = zeros max_line;
  sent = [];
  printed = [];
}

-- Lines 73 to 88, once `recv` has returned. Its result is not tested: where it has brought nothing, `[]`, the
-- buffer is as it was.
unfoldable pub answer : Bytes → State → Exec State
answer msg s =
    let buffer = recv_into msg s.buffer in
    do
      text ← c_string buffer
      reversed ← reverse_loop (length text) 0 (length text) buffer s.reversed_buffer
      shown ← c_string reversed
      ok (record {
        buffer = zeros max_line;
        reversed_buffer = zeros max_line;
        sent = s.sent ++ take (length text) reversed ∷ [];
        printed = s.printed ++ shown ∷ [];
      })

-- Lines 60 to 93, with `n` rounds of the loop left, for what the clients do from now on: whether `accept`
-- succeeds, and the message that arrives, `none` where the client closes its connection or `recv` fails.
-- Without a client the server waits in `accept`, and for an empty message in `recv`: the state is then the
-- one in which it waits.
unfoldable pub serve : ℕ → List (Bool × Option Bytes) → State → Exec State
serve zero clients s = ok s
serve (suc n) [] s = ok s
serve (suc n) ((accepted, none) ∷ clients) s = do
  succeed accepted
  s' ← answer [] s
  serve n clients s'
serve (suc n) ((accepted, some []) ∷ clients) s = do succeed accepted; ok s
serve (suc n) ((accepted, some (c ∷ msg)) ∷ clients) s = do
  succeed accepted
  s' ← answer (c ∷ msg) s
  serve n clients s'

-- `main`: a failure to make, to bind or to listen on the socket ends the process.
unfoldable pub server_main :
    (created binds listens : Bool) → List (Bool × Option Bytes) → Exec State
server_main created binds listens clients = do
  succeed created
  succeed binds
  succeed listens
  serve max_clients clients started
