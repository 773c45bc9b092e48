-- ===== src/Reservation/Fleet.antt =====
-- Several clients at once, each with a thread of the server. A step is a whole round of one thread:
-- Race is about rounds that overlap.
pub mod Sum
pub mod Conservation
use sysalgos.Base.{put, ℕ, ◌<◌, ◌≡◌, Bool, false, ◌==◌, if◌then◌else◌, Exec, ok}
use sysalgos.Base.Int.{ℤ, IsInt}
use sysalgos.Libc.Text.{Bytes, codes, strncmp_eq, zeros, recv_into}
use sysalgos.Reservation.Request.{window_size}
use sysalgos.Reservation.Server.{Shared, Thread, bytes, Calls, initial, connected, round}
use sysalgos.Reservation.Client.{Client, fresh}
use sysalgos.Reservation.Exchange.{exchange}

-- `clientSockets[i]`, `clientThreads[i]` and the process at the other end, for each `i`.
pub record Fleet : Type 0 where
  pub shared : Shared
  pub threads : ℕ → Thread
  pub clients : ℕ → Client

abbrev pub launched : Fleet
launched = record { shared = initial; threads = λ _. connected; clients = λ _. fresh }

pub data Step (n : ℕ) (f : Fleet) : Fleet → Type 0 where
  trade :
      (i : ℕ) (ac sl : ℤ) (c : Calls) {s : Shared} {t : Thread} {k : Client}
      → i < n
      → IsInt ac
      → IsInt sl
      → exchange ac sl c f.shared (f.threads i) (f.clients i) ≡ ok (s, t, k)
      → Step n f (record { shared = s; threads = put f.threads i t; clients = put f.clients i k })
  -- a greeting, a farewell, or bytes that are no message
  other :
      (i : ℕ) (msg : Bytes) (c : Calls) {s : Shared} {t : Thread}
      → i < n
      → strncmp_eq 4 (recv_into msg (zeros window_size)) (codes "REQ ") ≡ false
      → round (bytes msg) c f.shared (f.threads i) ≡ ok (s, t)
      → Step n f (record f { shared = s; threads = put f.threads i t })

pub data Reach (n : ℕ) : Fleet → Type 0 where
  start : Reach n launched
  later : {f g : Fleet} → Reach n f → Step n f g → Reach n g
