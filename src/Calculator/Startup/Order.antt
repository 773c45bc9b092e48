-- ===== src/Calculator/Startup/Order.antt =====
-- The calls of `main` when the system grants them all, and its end when one is refused.
use sysalgos.Base.{
  ℕ, ◌<◌, ◌⊎◌, inl, inr, ◌≡◌, true, false, none, some, [], ◌∷◌, ◌++◌, map, arith, ok, exits,
}
use sysalgos.Sockets.{
  Answers, mutex_made, created, bound, listened, closed, mutex_destroyed, joined, descriptor,
}
use sysalgos.Sockets.Accepting.{
  descriptors, served, consecutive, join_all, accept_all, close_descriptors, accept_fails,
}
use sysalgos.Calculator.Startup.{
  max_client, create_server_socket, bind_server_socket, listen_for, run_server,
}

-- Where no call fails, the mutex is made before the socket; ten clients are accepted one by one, each with
-- a thread of its own before the next is accepted; all ten threads are joined, in their order, before the client sockets are
-- closed; and the mutex is destroyed only behind that, right before the server's socket is closed.
pub calls_in_order :
    (a : Answers) (server : ℕ) (fd : ℕ → ℕ)
    → a.socket ≡ some server
    → a.binds ≡ true
    → a.listens ≡ true
    → ((i : ℕ) → a.accepts i ≡ some (fd i))
    → ((i : ℕ) → a.starts i ≡ true)
    → run_server a
      ≡ ok (
          mutex_made
          ∷ created server
          ∷ bound server
          ∷ listened server 10
          ∷ (served fd 10 0
              ++ (map joined (consecutive 10 0)
                  ++ (map closed (descriptors fd 10 0) ++ mutex_destroyed ∷ closed server ∷ []))))
unfolding run_server create_server_socket bind_server_socket listen_for descriptor
calls_in_order a server fd s b l p q =
    rw (accept_all a fd 10 0 p q, close_descriptors fd 10 0, join_all 10 0, s, b, l)

-- A failure to make or bind the socket, to listen on it, to accept one of the ten clients or to start its
-- thread ends the process with status 1.
pub any_failure :
    (a : Answers) (j : ℕ)
    → j < max_client
    → (a.socket ≡ none)
      ⊎ (a.binds ≡ false)
      ⊎ (a.listens ≡ false)
      ⊎ (a.accepts j ≡ none)
      ⊎ (a.starts j ≡ false)
    → run_server a ≡ exits 1
unfolding run_server create_server_socket bind_server_socket listen_for descriptor
any_failure a j lt (inl f) = rw f
any_failure a j lt (inr (inl f)) = ground arith
any_failure a j lt (inr (inr (inl f))) = ground arith
any_failure a j lt (inr (inr (inr f))) =
    ground (arith, accept_fails a max_client 0 j (omega arith) lt f)
