-- ===== src/Reservation/Startup/Order.antt =====
-- The order of the calls of `main` when the system grants them all.
use sysalgos.Base.{
  ℕ, ◌<◌, ◌⊎◌, inl, inr, ◌≡◌, true, false, none, some, [], ◌∷◌, ◌++◌, map, arith, ok, exits,
}
use sysalgos.Sockets.{Answers, created, bound, listened, closed, joined, descriptor}
use sysalgos.Sockets.Accepting.{
  descriptors, served, consecutive, join_all, accept_all, close_descriptors, accept_fails,
}
use sysalgos.Reservation.Request.{max_clients}
use sysalgos.Reservation.Startup.{run_server}

-- Where no call fails, five clients are accepted one by one, each with a thread of its own before the
-- next is accepted; then all five threads are joined, in their order; then all client sockets and at last the server's
-- socket are closed.
pub run_server_order :
    (a : Answers) (server : ℕ) (fd : ℕ → ℕ)
    → a.socket ≡ some server
    → a.binds ≡ true
    → ((i : ℕ) → a.accepts i ≡ some (fd i))
    → ((i : ℕ) → a.starts i ≡ true)
    → run_server a
      ≡ ok (
          created server
          ∷ bound server
          ∷ listened server 5
          ∷ (served fd 5 0
              ++ (map joined (consecutive 5 0)
                  ++ (map closed (descriptors fd 5 0) ++ closed server ∷ []))))
unfolding run_server descriptor
run_server_order a server fd s b p q =
    rw (accept_all a fd 5 0 p q, close_descriptors fd 5 0, join_all 5 0, s, b)

-- A failure to make or bind the socket, to accept one of the clients or to start its thread ends the
-- process with status 1.
pub run_server_fails :
    (a : Answers) (j : ℕ)
    → j < max_clients
    → (a.socket ≡ none) ⊎ (a.binds ≡ false) ⊎ (a.accepts j ≡ none) ⊎ (a.starts j ≡ false)
    → run_server a ≡ exits 1
unfolding run_server descriptor
run_server_fails a j lt (inl f) = rw f
run_server_fails a j lt (inr (inl f)) = ground arith
run_server_fails a j lt (inr (inr f)) =
    ground (arith, accept_fails a max_clients 0 j (omega arith) lt f)
