-- ===== src/Calculator/Startup.antt =====
-- `main` of problem3.c and serverUtils.h: the mutex, the socket, one thread for each client, and the end.
pub mod Order
mod Tests
use sysalgos.Base.{ℕ, Bool, Option, List, [], ◌∷◌, ◌++◌, Exec, ok, ◌>>=◌, ◌>>◌, succeed}
use sysalgos.Sockets.{
  Answers, Call, mutex_made, created, bound, listened, closed, mutex_destroyed, descriptor,
  accept_clients, join_threads, close_client_sockets,
}

abbrev pub max_client : ℕ
max_client = 10

unfoldable pub create_server_socket : Option ℕ → Exec (ℕ × Call)
create_server_socket socket = do fd ← descriptor socket; ok (fd, created fd)

unfoldable pub bind_server_socket : Bool → ℕ → Exec Call
bind_server_socket binds fd = do succeed binds; ok (bound fd)

unfoldable pub listen_for : Bool → ℕ → Exec Call
listen_for listens fd = do succeed listens; ok (listened fd max_client)

-- Lines 161 to 206, and the mutex of lines 155 and 203.
unfoldable pub run_server : Answers → Exec (List Call)
run_server a = do
  (fd, make) ← create_server_socket a.socket
  bind ← bind_server_socket a.binds fd
  listen ← listen_for a.listens fd
  (fds, calls) ← accept_clients a max_client 0
  ok (
      mutex_made
      ∷ make
      ∷ bind
      ∷ listen
      ∷ (calls
          ++ (join_threads max_client 0
              ++ (close_client_sockets fds ++ mutex_destroyed ∷ closed fd ∷ []))))
