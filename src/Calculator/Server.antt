-- ===== src/Calculator/Server.antt =====
-- `handle_client` of problem3.c: the rounds of a thread. From line 31 to line 129 it holds the mutex, so
-- that the rounds on queries, the log with them, do not overlap.
pub mod Rounds
pub mod Mutex
use sysalgos.Base.{
  ℕ, ◌≡◌, refl, Bool, true, false, List, [], ◌∷◌, ◌++◌, drop, ltb, ◌==◌, length, if◌then◌else◌,
  Option, none, some, Exec, ok, undefined, ◌>>=◌, ◌>>◌, require,
}
use sysalgos.Libc.Text.{Bytes, codes, zeros, write_at, recv_into}
use sysalgos.Calculator.Arithmetic.{Arithmetic}
use sysalgos.Calculator.Evaluate.{evaluate}

abbrev pub max_line : ℕ
max_line = 1024

-- Lines 39 to 45: the bytes up to the first NUL or the end of the buffer.
unfoldable pub until_nul : Bytes → Bytes
until_nul [] = []
until_nul (c ∷ s) = if c == 0 then [] else c ∷ until_nul s

-- Lines 39 to 50: `input` and `query` have 50 bytes, one of them for the NUL.
unfoldable pub query_of : Bytes → Exec Bytes
query_of buffer =
    let query = until_nul (drop 2 buffer) in do require (ltb (length query) 50); ok query

-- "1 " and a text, in a cleared buffer
unfoldable pub response : Bytes → Exec Bytes
response text = do tag ← write_at 0 (codes "1 ") (zeros max_line); write_at 2 text tag

unfoldable pub bye : Exec Bytes
bye = write_at 0 (codes "Bye!") (zeros max_line)

-- A thread: its buffer, which is not cleared between rounds, the buffers sent, and whether it goes on.
pub record Thread : Type 0 where
  pub buffer : Bytes
  pub replies : List Bytes
  pub serving : Bool

abbrev pub connected : Thread
connected = record { buffer = zeros max_line; replies = []; serving = true }

-- `memset(buffer, …)`, the reply, `send(…, buffer, MAXLINE, 0)`, whose result is not looked at
abbrev pub answered : Bytes → Thread → Thread
answered w t = record t { buffer = w; replies = t.replies ++ w ∷ [] }

unfoldable pub first_byte : Bytes → Exec ℕ
first_byte [] = undefined
first_byte (c ∷ _) = ok c

-- Where `recv` brings nothing, `none`, the buffer stays as it was.
unfoldable pub filled : Option Bytes → Bytes → Bytes
filled none buffer = buffer
filled (some msg) buffer = recv_into msg buffer

module _ (F : Arithmetic) where
  open F use {Double, print}

  -- A line of server_records.txt.
  pub record Entry : Type 0 where
    pub client_id : ℕ
    pub query : Bytes
    pub answer : Double

  -- Lines 104 to 126, for the stack at the end: `res` is its top, and must print in 50 bytes with the NUL.
  -- `fopen` is not checked, and `fprintf` to a null pointer is undefined.
  unfoldable pub conclude :
      ℕ → Bool → Bytes → List Double → List Entry → Thread → Exec (List Entry × Thread)
  conclude fd opens query [] log t = undefined
  conclude fd opens query (res ∷ []) log t = do
    require (ltb (length (print res)) 50)
    w ← response (print res)
    require opens
    ok (log ++ record { client_id = fd; query = query; answer = res } ∷ [], answered w t)
  conclude fd opens query (res ∷ _ ∷ _) log t = do
    require (ltb (length (print res)) 50)
    w ← response (codes "Invalid postfix expression!!")
    ok (log, answered w t)

  -- Lines 30 to 129: a query in the buffer.
  unfoldable pub answer_query : ℕ → Bool → List Entry → Thread → Exec (List Entry × Thread)
  answer_query fd opens log t = do
    query ← query_of t.buffer
    stack ← evaluate F query
    conclude fd opens query stack log t

  -- Lines 28 to 143, for the first byte of the buffer.
  unfoldable pub dispatch : ℕ → Bool → ℕ → List Entry → Thread → Exec (List Entry × Thread)
  dispatch fd opens tag log t =
      if tag == b'0'
      then answer_query fd opens log t
      else if tag == b'1'
      then (do w ← bye; ok (log, record (answered w t) { serving = false }))
      else ok (log, record t { serving = false })

  -- A round of `while (1)`.
  unfoldable pub round : ℕ → Option Bytes → Bool → List Entry → Thread → Exec (List Entry × Thread)
  round fd received opens log t =
      let buffer = filled received t.buffer in
      do tag ← first_byte buffer; dispatch fd opens tag log (record t { buffer = buffer })

  -- The loop, over what the socket yields.
  unfoldable pub serve :
      ℕ → List (Option Bytes × Bool) → List Entry → Thread → Exec (List Entry × Thread)
  serve fd [] log t = ok (log, t)
  serve fd ((received, opens) ∷ events) log t =
      let next = round fd received opens log t >>= λ (log', t'). serve fd events log' t' in
      if t.serving then next else ok (log, t)
