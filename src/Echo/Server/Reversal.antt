-- ===== src/Echo/Server/Reversal.antt =====
-- What the loop writes, and the answer to one message.
use mathlib.Core.List.{reverse, reverse-cons, reverse-reverse}
use native.Mathlib.Nat.{sub-zero}
use sysalgos.Base.{
  ℕ, suc, ◌+◌, ◌-◌, ◌≤◌, ◌<◌, ◌≡◌, refl, sym, ◌∙◌, ap, subst, ◌≢◌, List, [], ◌∷◌, ◌++◌,
  append_assoc, append-nil, arith, length, length-append, ok, undefined,
}
use sysalgos.Libc.Text.{
  Bytes, Lacks, All-append, c_string, c_string-zeros, zeros, write_at-append, recv_into-zeros,
  recv_into-full, take-append_length,
}
use sysalgos.Echo.Server.{max_line, read_at, reverse_loop, State, answer}

read_at-append : (xs : Bytes) (c : ℕ) (ys : Bytes) → read_at (length xs) (xs ++ c ∷ ys) ≡ ok c
unfolding read_at
read_at-append [] c ys = refl
read_at-append (x ∷ xs) c ys = read_at-append xs c ys

pub length-reverse : (s : Bytes) → length (reverse s) ≡ length s
length-reverse [] = refl
length-reverse (c ∷ s) =
    ap length (reverse-cons c s)
    ∙ omega (arith, length-append (reverse s) (c ∷ []), length-reverse s)

reverse_buffer : (c : ℕ) (rest tail : Bytes) → reverse (c ∷ rest) ++ tail ≡ reverse rest ++ c ∷ tail
reverse_buffer c rest tail =
    ap (λ t. t ++ tail) (reverse-cons c rest) ∙ append_assoc (reverse rest) (c ∷ []) tail

-- The loop copies `rest`, which stands reversed in the buffer, behind what it has written.
reverse_rest :
    (rest tail front : Bytes) (j message_len n : ℕ)
    → j ≡ length front
    → message_len ≡ j + length rest
    → length rest ≤ n
    → reverse_loop (length rest) j message_len (reverse rest ++ tail) (front ++ zeros n)
      ≡ ok ((front ++ rest) ++ zeros (n - length rest))
unfolding reverse_loop
reverse_rest [] tail front j m n f e h = rw (append-nil, sub-zero n)
reverse_rest (c ∷ rest) tail front j m n f e h =
    let index : m - j - 1 ≡ length (reverse rest) = omega (arith, length-reverse rest) in
    let left : n - 1 - length rest ≡ n - suc (length rest) = omega arith in
    rw
      (
        reverse_buffer c rest tail,
        index,
        read_at-append (reverse rest) c tail,
        write_at-append j front (c ∷ []) n f (omega arith),
      )
      (reverse_rest rest (c ∷ tail) (front ++ c ∷ []) (j + 1) m (n - 1)
          (omega (arith, length-append front (c ∷ []))) (omega arith) (omega arith)
        ∙ rw (append_assoc front (c ∷ []) rest, left))

-- All of a message's text comes back reversed, and zeros follow it.
pub reverse_loop_lem :
    (s tail : Bytes) (n : ℕ)
    → length s ≤ n
    → reverse_loop (length s) 0 (length s) (s ++ tail) (zeros n)
      ≡ ok (reverse s ++ zeros (n - length s))
reverse_loop_lem s tail n h =
    ap (λ t. reverse_loop (length s) 0 (length s) (t ++ tail) (zeros n)) (sym (reverse-reverse s))
    ∙ ap (λ k. reverse_loop k 0 (length s) (reverse (reverse s) ++ tail) (zeros n))
        (sym (length-reverse s))
    ∙ reverse_rest (reverse s) tail [] 0 (length s) n refl (omega (arith, length-reverse s))
        (omega (arith, length-reverse s))
    ∙ rw (length-reverse s)

pub Lacks-reverse : (b : ℕ) (s : Bytes) → Lacks b s → Lacks b (reverse s)
Lacks-reverse b [] _ = tt
Lacks-reverse b (c ∷ s) (hc, hs) =
    subst (Lacks b) (sym (reverse-cons c s))
      (All-append (λ c. c ≢ b) (reverse s) (c ∷ []) (Lacks-reverse b s hs) (hc, tt))

-- With both buffers cleared, a message of less than 1024 bytes without a NUL is sent back and printed
-- reversed, and both buffers are cleared again.
pub answer-reverse :
    (msg : Bytes) (sent printed : List Bytes)
    → Lacks 0 msg
    → length msg < max_line
    → answer msg (record {
      buffer = zeros max_line;
      reversed_buffer = zeros max_line;
      sent = sent;
      printed = printed;
    })
      ≡ ok (record {
        buffer = zeros max_line;
        reversed_buffer = zeros max_line;
        sent = sent ++ reverse msg ∷ [];
        printed = printed ++ reverse msg ∷ [];
      })
unfolding answer
answer-reverse msg sent printed nul h = rw (
  recv_into-zeros msg max_line (omega arith),
  c_string-zeros msg (max_line - length msg) nul (omega arith),
  reverse_loop_lem msg (zeros (max_line - length msg)) max_line (omega arith),
  c_string-zeros (reverse msg) (max_line - length msg) (Lacks-reverse 0 msg nul) (omega arith),
  sym (length-reverse msg),
  take-append_length (reverse msg),
)

c_string-overrun : (s : Bytes) → Lacks 0 s → c_string s ≡ undefined
unfolding c_string
c_string-overrun [] _ = refl
c_string-overrun (c ∷ s) (hc, hs) = ground (arith, c_string-overrun s hs)

-- A message that fills the buffer with no NUL is undefined behaviour: strlen runs out of the buffer.
pub answer-overrun :
    (msg : Bytes) (s : State)
    → Lacks 0 msg
    → length msg ≡ length s.buffer
    → answer msg s ≡ undefined
unfolding answer
answer-overrun msg s nul h = rw (recv_into-full msg s.buffer h, c_string-overrun msg nul)
