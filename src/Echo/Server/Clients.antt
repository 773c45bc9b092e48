-- ===== src/Echo/Server/Clients.antt =====
-- The server's answers to its clients.
use mathlib.Core.List.{reverse}
use sysalgos.Base.{
  ℕ, zero, suc, ◌≡◌, refl, ◌∙◌, Bool, true, false, Option, none, some, List, [], ◌∷◌, ◌++◌, map,
  append-nil, append_assoc, ◌<◌, length, take, arith, ok, exits,
}
use sysalgos.Libc.Text.{Bytes, Lacks, All, zeros}
use sysalgos.Echo.Server.{max_line, max_clients, State, started, serve}
use sysalgos.Echo.Server.Reversal.{answer-reverse}

-- A text that is not empty and fits in the buffer with its NUL.
abbrev pub IsMessage : Bytes → Type 0
IsMessage msg = (0 < length msg) × Lacks 0 msg × (length msg < max_line)

-- A server with cleared buffers that has sent and printed the same texts.
abbrev pub cleared : List Bytes → State
cleared sent = record {
  buffer = zeros max_line;
  reversed_buffer = zeros max_line;
  sent = sent;
  printed = sent;
}

abbrev pub accepted : Bytes → Bool × Option Bytes
accepted msg = (true, some msg)

serve_from :
    (n : ℕ) (msgs : List Bytes) (sent : List Bytes)
    → All IsMessage msgs
    → serve n (map accepted msgs) (cleared sent) ≡ ok (cleared (sent ++ map reverse (take n msgs)))
unfolding serve
serve_from zero msgs sent _ = rw append-nil
serve_from (suc n) [] sent _ = rw append-nil
serve_from (suc n) ([] ∷ msgs) sent ((some_byte, _, _), rest) = absurd (omega arith)
serve_from (suc n) ((c ∷ msg) ∷ msgs) sent ((_, nul, short), rest) =
    rw (answer-reverse (c ∷ msg) sent sent nul short)
      (serve_from n msgs (sent ++ reverse (c ∷ msg) ∷ []) rest ∙ rw append_assoc)

-- The first five clients are sent each its own message reversed, in their order, and no others are; nothing
-- of an earlier client is left in the buffers, if all are accepted and each message is not empty, shorter
-- than 1024 bytes and without a NUL.
pub serve-reverse :
    (msgs : List Bytes)
    → All IsMessage msgs
    → serve max_clients (map accepted msgs) started ≡ ok (cleared (map reverse (take 5 msgs)))
serve-reverse msgs h = serve_from max_clients msgs [] h

-- A failing accept ends the process with status 1, after whatever such clients it comes, if the loop still has a round for it.
pub serve-refused :
    (n : ℕ) (msgs : List Bytes) (received : Option Bytes) (more : List (Bool × Option Bytes))
    (sent : List Bytes)
    → All IsMessage msgs
    → length msgs < n
    → serve n (map accepted msgs ++ (false, received) ∷ more) (cleared sent) ≡ exits 1
unfolding serve
serve-refused zero msgs received more sent h lt = absurd (omega arith)
serve-refused (suc n) [] none more sent h lt = refl
serve-refused (suc n) [] (some []) more sent h lt = refl
serve-refused (suc n) [] (some (c ∷ msg)) more sent h lt = refl
serve-refused (suc n) ([] ∷ msgs) received more sent ((some_byte, _, _), rest) lt =
    absurd (omega arith)
serve-refused (suc n) ((c ∷ msg) ∷ msgs) received more sent ((_, nul, short), rest) lt =
    rw (answer-reverse (c ∷ msg) sent sent nul short)
      (serve-refused n msgs received more (sent ++ reverse (c ∷ msg) ∷ []) rest (omega arith))
