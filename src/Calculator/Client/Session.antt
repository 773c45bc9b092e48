-- ===== src/Calculator/Client/Session.antt =====
-- A session: the client's loop against a thread of the server, round by round.
use sysalgos.Base.{
  ℕ, ◌<◌, ◌≡◌, refl, sym, ◌∙◌, Bool, true, false, Option, some, List, [], ◌∷◌, ◌++◌, append-nil,
  append_assoc, map, arith, length, get_elem?, Exec, ok, ◌>>=◌,
}
use sysalgos.Libc.Text.{
  Bytes, codes, Lacks, All, zeros, strcmp_eq, write_at-append, recv_into-full, input_line,
}
use sysalgos.Calculator.Arithmetic.{Arithmetic}
use sysalgos.Calculator.Evaluate.{stack_size}
use sysalgos.Calculator.Evaluate.Texts.{Expr, IsWritten, render, render-Lacks}
use sysalgos.Calculator.Evaluate.Expressions.{value}
use sysalgos.Calculator.Server.{
  max_line, until_nul, bye, Thread, answered, Entry, dispatch, first_byte, filled, round, serve,
}
use sysalgos.Calculator.Client.{typed, message, logout_message, Client, client_round}
use sysalgos.Calculator.Client.Lines.{
  line_of, length-line_of, shown_line, message_query, typed_line,
}
use sysalgos.Calculator.Client.EndToEnd.{round_query, not_bye}

module _ (F : Arithmetic) where
  open F use {Double, print}

  -- Each line is sent, served by one round of the thread, and the client gets what that round has sent.
  unfoldable pub converse :
      ℕ
      → List (Bytes × Bool)
      → List (Entry F)
      → Thread
      → Client
      → Exec (List (Entry F) × Thread × Client)
  converse fd [] log t k = ok (log, t, k)
  converse fd ((stdin, opens) ∷ lines) log t k = do
    msg ← message stdin
    (log', t') ← serve F fd ((some msg, opens) ∷ []) log t
    k' ← client_round stdin (get_elem? t'.replies (length t.replies)) k
    converse fd lines log' t' k'

  -- An expression that is written, fits the server's arrays, and whose value prints in them.
  abbrev pub IsQuery : Expr → Type 0
  IsQuery e =
      IsWritten e
      × (length (render e) < stack_size)
      × (length (print (value F e)) < 50)
      × Lacks 0 (print (value F e))

  abbrev pub line : Expr → Bytes × Bool
  line e = (render e ++ b'\n' ∷ [], true)

  abbrev pub logout : Bytes × Bool
  logout = (codes "bye\n", true)

  abbrev pub entry : ℕ → Expr → Entry F
  entry fd e = record { client_id = fd; query = render e; answer = value F e }

  abbrev pub request : Expr → Bytes
  request e = line_of (codes "0 ") (render e)

  abbrev pub result : Expr → Bytes
  result e = line_of (codes "1 ") (print (value F e))

  last_reply : (rs : List Bytes) (w : Bytes) → get_elem? (rs ++ w ∷ []) (length rs) ≡ some w
  last_reply [] w = refl
  last_reply (r ∷ rs) w = last_reply rs w

  abbrev received : Expr → Client → Client
  received e k = record k {
    sent = k.sent ++ request e ∷ [];
    lines = k.lines ++ print (value F e) ∷ [];
  }

  serve_once :
      (fd : ℕ) (event : Option Bytes × Bool) (log log' : List (Entry F)) (t t' : Thread)
      → t.serving ≡ true
      → round F fd (event.0) (event.1) log t ≡ ok (log', t')
      → serve F fd (event ∷ []) log t ≡ ok (log', t')
  unfolding serve
  serve_once fd event log log' t t' on e = simp (on, e)

  converse_query :
      (fd : ℕ) (e : Expr) (lines : List (Bytes × Bool)) (log : List (Entry F)) (t : Thread)
      (k : Client)
      → IsQuery e
      → length t.buffer ≡ max_line
      → t.serving ≡ true
      → converse fd (line e ∷ lines) log t k
        ≡ converse fd lines (log ++ entry fd e ∷ []) (answered (result e) t) (received e k)
  unfolding converse client_round
  converse_query fd e lines log t k (w, h, p, l) b on = rw (
    message_query (render e) [] (render-Lacks 0 (omega arith) e)
        (render-Lacks b'\n' (omega arith) e) (omega arith) (not_bye F e w),
    serve_once fd (some (request e), true) log (log ++ entry fd e ∷ []) t (answered (result e) t) on
        (round_query F fd e log t w h p b),
    last_reply t.replies (result e),
    typed_line (render e) [] (render-Lacks 0 (omega arith) e) (render-Lacks b'\n' (omega arith) e)
        (omega arith),
    not_bye F e w,
    shown_line (print (value F e)) l (omega arith),
  )

  abbrev pub goodbye : Bytes
  goodbye = codes "Bye!" ++ zeros 1020

  round_logout :
      (fd : ℕ) (log : List (Entry F)) (t : Thread)
      → length t.buffer ≡ max_line
      → round F fd (some (line_of (codes "1 ") [])) true log t
        ≡ ok (log, record (answered goodbye t) { serving = false })
  unfolding round filled first_byte dispatch bye
  round_logout fd log t b = rw (
    recv_into-full (line_of (codes "1 ") []) t.buffer
        (length-line_of (codes "1 ") [] refl (omega arith) ∙ sym b),
    write_at-append 0 [] (codes "Bye!") max_line refl (omega arith),
  )

  logout_line : message (codes "bye\n") ≡ ok (line_of (codes "1 ") [])
  unfolding message typed input_line until_nul strcmp_eq logout_message
  logout_line = write_at-append 0 [] (codes "1 ") max_line refl (omega arith)

  converse-logout :
      (fd : ℕ) (log : List (Entry F)) (t : Thread) (k : Client)
      → length t.buffer ≡ max_line
      → t.serving ≡ true
      → converse fd (logout ∷ []) log t k
        ≡ ok (
          log,
          record (answered goodbye t) { serving = false },
          record k { sent = k.sent ++ line_of (codes "1 ") [] ∷ []; running = false },
        )
  unfolding converse client_round typed input_line until_nul strcmp_eq
  converse-logout fd log t k b on = rw (
    logout_line,
    serve_once fd (some (line_of (codes "1 ") []), true) log log t
        (record (answered goodbye t) { serving = false }) on (round_logout fd log t b),
  )

  converse_queries :
      (fd : ℕ) (es : List Expr) (lines : List (Bytes × Bool)) (log : List (Entry F)) (t : Thread)
      (k : Client)
      → All IsQuery es
      → length t.buffer ≡ max_line
      → t.serving ≡ true
      → (t' : Thread) × (length t'.buffer ≡ max_line)
        × (t'.serving ≡ true)
        × (converse fd (map line es ++ lines) log t k
            ≡ converse fd lines (log ++ map (entry fd) es) t' (record k {
              sent = k.sent ++ map request es;
              lines = k.lines ++ map (λ e. print (value F e)) es;
            }))
  converse_queries fd [] lines log t k _ b on = (t, b, on, rw (append-nil, append-nil, append-nil))
  converse_queries fd (e ∷ es) lines log t k (q, qs) b on =
      let len : length (result e) ≡ max_line =
        length-line_of (codes "1 ") (print (value F e)) refl (omega (arith, q.2)) in
      let (t', b', on', eq) =
        converse_queries fd es lines (log ++ entry fd e ∷ []) (answered (result e) t) (received e k)
          qs len on in
      (
        t',
        b',
        on',
        converse_query fd e (map line es ++ lines) log t k q b on
            ∙ eq
            ∙ rw (
              append_assoc log (entry fd e ∷ []) (map (entry fd) es),
              append_assoc k.sent (request e ∷ []) (map request es),
              append_assoc k.lines (print (value F e) ∷ []) (map (λ e. print (value F e)) es),
            ),
      )

  -- A session of expressions with "bye" behind them: the server logs the texts and values in their order
  -- and ends its thread, and the client prints the values in their order and ends, if the texts have at
  -- most 49 bytes, the values print in at most 49 bytes without a NUL, and the log can be opened.
  pub converse_session :
      (fd : ℕ) (es : List Expr) (log : List (Entry F)) (t : Thread) (k : Client)
      → All IsQuery es
      → length t.buffer ≡ max_line
      → t.serving ≡ true
      → (t' : Thread) × (k' : Client) × (converse fd (map line es ++ logout ∷ []) log t k
          ≡ ok (log ++ map (entry fd) es, t', k'))
        × (t'.serving ≡ false)
        × (k'.lines ≡ k.lines ++ map (λ e. print (value F e)) es)
        × (k'.running ≡ false)
  converse_session fd es log t k q b on =
      let (t', b', on', e) = converse_queries fd es (logout ∷ []) log t k q b on in
      let k' : Client = record k {
        sent = k.sent ++ map request es;
        lines = k.lines ++ map (λ e. print (value F e)) es;
      } in
      (
        record (answered goodbye t') { serving = false },
        record k' { sent = k'.sent ++ line_of (codes "1 ") [] ∷ []; running = false },
        e ∙ converse-logout fd (log ++ map (entry fd) es) t' k' b' on',
        refl,
        refl,
        refl,
      )
