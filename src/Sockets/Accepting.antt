-- ===== src/Sockets/Accepting.antt =====
-- The loop that accepts clients, when the system grants all calls and when it refuses one.
use sysalgos.Base.{
  ℕ, zero, suc, ◌+◌, ◌≤◌, ◌<◌, ◌⊎◌, ℕ_discrete, ◌≡◌, refl, true, false, none, some, List, [], ◌∷◌,
  map, arith, ok, exits,
}
use sysalgos.Sockets.{
  Answers, Call, accepted, thread_started, joined, closed, descriptor, accept_clients, join_threads,
  close_client_sockets,
}

-- The descriptors of `n` clients from client `i` on.
abbrev pub descriptors : (ℕ → ℕ) → (n i : ℕ) → List ℕ
descriptors fd zero i = []
descriptors fd (suc n) i = fd i ∷ descriptors fd n (i + 1)

abbrev pub served : (ℕ → ℕ) → (n i : ℕ) → List Call
served fd zero i = []
served fd (suc n) i = accepted (fd i) ∷ thread_started i (fd i) ∷ served fd n (i + 1)

pub accept_all :
    (a : Answers) (fd : ℕ → ℕ) (n i : ℕ)
    → ((j : ℕ) → a.accepts j ≡ some (fd j))
    → ((j : ℕ) → a.starts j ≡ true)
    → accept_clients a n i ≡ ok (descriptors fd n i, served fd n i)
unfolding accept_clients descriptor
accept_all a fd zero i p q = refl
accept_all a fd (suc n) i p q = rw (p i, q i, accept_all a fd n (i + 1) p q)

-- The numbers of `n` threads from thread `i` on.
abbrev pub consecutive : (n i : ℕ) → List ℕ
consecutive zero i = []
consecutive (suc n) i = i ∷ consecutive n (i + 1)

pub join_all : (n i : ℕ) → join_threads n i ≡ map joined (consecutive n i)
unfolding join_threads
join_all zero i = refl
join_all (suc n) i = rw (join_all n (i + 1))

pub close_descriptors :
    (fd : ℕ → ℕ) (n i : ℕ)
    → close_client_sockets (descriptors fd n i) ≡ map closed (descriptors fd n i)
unfolding close_client_sockets
close_descriptors fd zero i = refl
close_descriptors fd (suc n) i = rw (close_descriptors fd n (i + 1))

pub accept_fails :
    (a : Answers) (n i j : ℕ)
    → i ≤ j
    → j < i + n
    → (a.accepts j ≡ none) ⊎ (a.starts j ≡ false)
    → accept_clients a n i ≡ exits 1
unfolding accept_clients descriptor
accept_fails a zero i j le lt f = absurd (omega arith)
accept_fails a (suc n) i j le lt f = elim (ℕ_discrete i j) [
  | yes e ↦ rw e (ground arith)
  | no ne ↦ let rest = accept_fails a n (i + 1) j (omega arith) (omega arith) f in ground arith
]
