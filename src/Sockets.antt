-- ===== src/Sockets.antt =====
-- What the two threaded servers share: the system calls of their `main`, the loop that accepts clients
-- and starts threads, and the loops at the end. The lines are those of server.c and serverUtils.h.
pub mod Accepting
use sysalgos.Base.{
  ℕ, zero, suc, ◌+◌, Bool, Option, none, some, List, [], ◌∷◌, Exec, ok, exits, ◌>>=◌, ◌>>◌, succeed,
}

-- The calls that `main` makes, with the descriptors or the threads they are about.
pub data Call : Type 0 where
  mutex_made : Call
  created : (fd : ℕ) → Call
  bound : (fd : ℕ) → Call
  listened : (fd backlog : ℕ) → Call
  accepted : (fd : ℕ) → Call
  thread_started : (i fd : ℕ) → Call
  joined : (i : ℕ) → Call
  closed : (fd : ℕ) → Call
  mutex_destroyed : Call

-- What the system answers: the new descriptors, `none` for a failure, and whether calls succeed.
pub record Answers : Type 0 where
  pub socket : Option ℕ
  pub binds : Bool
  pub listens : Bool
  pub accepts : ℕ → Option ℕ
  pub starts : ℕ → Bool

-- A descriptor, or the end of the process.
unfoldable pub descriptor : Option ℕ → Exec ℕ
descriptor none = exits 1
descriptor (some fd) = ok fd

-- The loop of lines 253 to 270 with `n` rounds left, from round `i` on: the descriptors of the clients
-- and the calls made.
unfoldable pub accept_clients : Answers → (n i : ℕ) → Exec (List ℕ × List Call)
accept_clients a zero i = ok ([], [])
accept_clients a (suc n) i = do
  fd ← descriptor (a.accepts i)
  succeed (a.starts i)
  (fds, calls) ← accept_clients a n (i + 1)
  ok (fd ∷ fds, accepted fd ∷ thread_started i fd ∷ calls)

-- `join_threads`, from thread `i` on
unfoldable pub join_threads : (n i : ℕ) → List Call
join_threads zero i = []
join_threads (suc n) i = joined i ∷ join_threads n (i + 1)

-- `close_client_sockets`
unfoldable pub close_client_sockets : List ℕ → List Call
close_client_sockets [] = []
close_client_sockets (fd ∷ fds) = closed fd ∷ close_client_sockets fds
