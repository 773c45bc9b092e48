-- ===== src/Reservation/Exchange.antt =====
-- A request from the client's menu through the server's thread and back.
pub mod Delivery
pub mod Greeting
pub mod Agreement
use sysalgos.Base.{Bool, true, Option, none, some, List, [], ◌∷◌, Exec, ok, ◌>>=◌}
use sysalgos.Base.Int.{ℤ, pos}
use sysalgos.Reservation.Server.{Shared, Thread, bytes, Calls, round}
use sysalgos.Reservation.Client.{Client, Inputs, request_buffer, send_message, buy}

-- The window that the thread has sent last.
unfoldable pub last_reply {ℓ} : {A : Type ℓ} → List A → Option A
last_reply [] = none
last_reply (w ∷ []) = some w
last_reply (w ∷ v ∷ ws) = last_reply (v ∷ ws)

-- The menu's case 1 for two numbers, with the server's window as the reply.
abbrev pub purchase : ℤ → ℤ → Thread → Inputs
purchase ac sl t = record {
  choice = some (pos 1);
  ac = some ac;
  sl = some sl;
  sends = true;
  reply = last_reply t.replies;
}

-- The client sends its request; the server's thread runs a round on it; the client reads the answer.
-- Both connections are taken to deliver a message whole.
unfoldable pub exchange : ℤ → ℤ → Calls → Shared → Thread → Client → Exec (Shared × Thread × Client)
exchange ac sl c s t k = do
  buffer ← request_buffer ac sl
  msg ← send_message true buffer
  (s', t') ← round (bytes msg) c s t
  k' ← buy (purchase ac sl t') k
  ok (s', t', k')
