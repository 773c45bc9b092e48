-- ===== src/Reservation/Startup.antt =====
-- `main` of server.c and serverUtils.h: the login, the sockets, one thread for each client, and the end.
pub mod Login
pub mod Order
mod Tests
use sysalgos.Base.{
  ℕ, zero, suc, ◌+◌, ◌≡◌, refl, Bool, true, false, ◌||◌, Option, none, some, List, [], ◌∷◌, ◌++◌,
  map, if◌then◌else◌, Exec, ok, exits, ◌>>=◌, ◌>>◌, succeed, require, ltb, length,
}
use sysalgos.Base.Int.{ℤ, pos, eqb_ℤ}
use sysalgos.Libc.Text.{Bytes, codes}
use sysalgos.Sockets.{
  Answers, Call, created, bound, listened, closed, descriptor, accept_clients, join_threads,
  close_client_sockets,
}
use sysalgos.Reservation.Request.{max_clients, name_len}

-- Lines 219 to 228, for the two words that are typed: `scanf` writes each with its NUL to an array of 20
-- bytes. `strcmp` is the library's: its result is known only by its sign.
unfoldable pub login : (strcmp : Bytes → Bytes → ℤ) (username password : Bytes) → Exec (Unit {0})
login strcmp username password =
    let is_refused =
      eqb_ℤ (strcmp username (codes "admin")) (pos 1)
      || eqb_ℤ (strcmp password (codes "admin")) (pos 1) in
    do
      require (ltb (length username) name_len)
      require (ltb (length password) name_len)
      if is_refused then exits 1 else ok tt

-- Lines 229 to 282. The result of `listen` is not looked at.
unfoldable pub run_server : Answers → Exec (List Call)
run_server a = do
  fd ← descriptor a.socket
  succeed a.binds
  (fds, calls) ← accept_clients a max_clients 0
  ok (
      created fd
      ∷ bound fd
      ∷ listened fd max_clients
      ∷ (calls ++ (join_threads max_clients 0 ++ (close_client_sockets fds ++ closed fd ∷ []))))

-- `main`
unfoldable pub server_main :
    (strcmp : Bytes → Bytes → ℤ) (username password : Bytes) → Answers → Exec (List Call)
server_main strcmp username password a = do login strcmp username password; run_server a
