-- ===== src/Echo/Tests.antt =====
-- Concrete runs of the echo programs, and the theorems at them.
use sysalgos.Base.{ℕ, zero, suc, ◌≡◌, refl, List, [], ◌∷◌, arith, replicate, ok, undefined}
use sysalgos.Libc.Text.{Bytes, All, Lacks, codes}
use sysalgos.Echo.Server.{started, answer}
use sysalgos.Echo.Server.Reversal.{answer-overrun}
use sysalgos.Echo.Server.Clients.{IsMessage}
use sysalgos.Echo.Client.{message_from_client, converse}
use sysalgos.Echo.Client.Conversation.{converse-reverse}

-- One client more than the server takes.
abbrev six_messages : List Bytes
six_messages =
    message_from_client ∷ codes "ab" ∷ codes "c" ∷ codes "de" ∷ codes "fg" ∷ codes "hi" ∷ []

six_messages-IsMessage : All IsMessage six_messages
six_messages-IsMessage = (
  (omega arith, omega arith, omega arith),
  (
    (omega arith, omega arith, omega arith),
    (
      (omega arith, omega arith, omega arith),
      (
        (omega arith, omega arith, omega arith),
        ((omega arith, omega arith, omega arith), ((omega arith, omega arith, omega arith), tt)),
      ),
    ),
  ),
)

converse-reverse_example :
    converse six_messages
    ≡ ok (codes "5 bal ow" ∷ codes "ba" ∷ codes "c" ∷ codes "ed" ∷ codes "gf" ∷ [])
converse-reverse_example = converse-reverse six_messages six_messages-IsMessage

Lacks-replicate : (n : ℕ) → Lacks 0 (replicate n b'x')
Lacks-replicate zero = tt
Lacks-replicate (suc n) = (ground arith, Lacks-replicate n)

answer-overrun_example : answer (replicate 1024 b'x') started ≡ undefined
answer-overrun_example = answer-overrun (replicate 1024 b'x') started (Lacks-replicate 1024) refl
