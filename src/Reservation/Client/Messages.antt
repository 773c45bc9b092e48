-- ===== src/Reservation/Client/Messages.antt =====
-- The bytes that the client sends.
use sysalgos.Base.{
  ℕ, ◌+◌, ◌-◌, ◌≤◌, ◌≡◌, refl, sym, ap, ◌∙◌, >>=_assoc, ◌≢◌, true, [], ◌∷◌, ◌++◌, append_assoc,
  arith, lt→ltb, length, length-append, Exec, ok, ◌>>=◌,
}
use sysalgos.Base.Int.{ℤ}
use sysalgos.Libc.Text.{
  Bytes, codes, Lacks, All-append, zeros, write_at, write_at-append, c_string-zeros,
}
use sysalgos.Libc.Decimal.{print_int}
use sysalgos.Libc.Decimal.RoundTrip.{length-print_int-le, print_int-Lacks}
use sysalgos.Reservation.Request.{window_size}
use sysalgos.Reservation.Client.{request_buffer, send_message}

-- "REQ ", a field, a blank, a field, a blank.
abbrev pub request_text : Bytes → Bytes → Bytes
request_text a s = codes "REQ " ++ (a ++ b' ' ∷ (s ++ b' ' ∷ []))

-- The writes of a request, in a cleared buffer of any sufficient size.
request_writes :
    (a s : Bytes) (n : ℕ)
    → 6 + length a + length s ≤ n
    → (do
      tag ← write_at 0 (codes "REQ ") (zeros n)
      first ← write_at 4 a tag
      blank ← write_at (4 + length a) (codes " ") first
      second ← write_at (4 + length a + 1) s blank
      write_at (4 + length a + 1 + length s) (codes " ") second)
      ≡ ok (request_text a s ++ zeros (n - 4 - length a - 1 - length s - 1))
request_writes a s n h =
    let tag : Bytes = codes "REQ " in
    let blank : Bytes = b' ' ∷ [] in
    rw
      (
        write_at-append 0 [] tag n refl (omega arith),
        write_at-append 4 tag a (n - 4) refl (omega arith),
        write_at-append (4 + length a) (tag ++ a) blank (n - 4 - length a)
            (omega (arith, length-append tag a)) (omega arith),
        write_at-append (4 + length a + 1) ((tag ++ a) ++ blank) s (n - 4 - length a - 1)
            (omega (arith, length-append (tag ++ a) blank, length-append tag a)) (omega arith),
        write_at-append (4 + length a + 1 + length s) (((tag ++ a) ++ blank) ++ s) blank
            (n - 4 - length a - 1 - length s)
            (omega (
              arith,
              length-append ((tag ++ a) ++ blank) s,
              length-append (tag ++ a) blank,
              length-append tag a,
            ))
            (omega arith),
      )
      (simp append_assoc)

request_text-Lacks : (a s : Bytes) → Lacks 0 a → Lacks 0 s → Lacks 0 (request_text a s)
request_text-Lacks a s ha hs =
    let rest = All-append (λ c. c ≢ 0) s (b' ' ∷ []) hs (omega arith) in
    let fields = All-append (λ c. c ≢ 0) a (b' ' ∷ (s ++ b' ' ∷ [])) ha (omega arith, rest) in
    (omega arith, (omega arith, (omega arith, (omega arith, fields))))

-- A request is sent as the text of its two numbers.
pub send_request :
    (ac sl : ℤ)
    → (request_buffer ac sl >>= send_message true) ≡ ok (request_text (print_int ac) (print_int sl))
unfolding request_buffer send_message
send_request ac sl =
    let a = print_int ac in
    let s = print_int sl in
    let short_a = length-print_int-le ac in
    let short_s = length-print_int-le sl in
    rw (
      lt→ltb (length a) 20 (omega arith),
      lt→ltb (length s) 20 (omega arith),
      request_writes a s window_size (omega arith),
      c_string-zeros (request_text a s) (window_size - 4 - length a - 1 - length s - 1)
          (request_text-Lacks a s (print_int-Lacks 0 (omega arith) ac)
            (print_int-Lacks 0 (omega arith) sl))
          (omega arith),
    )

-- What follows the sending of a request goes on with that text.
pub request_sent {ℓ} :
    {B : Type ℓ} (ac sl : ℤ) (f : Bytes → Exec B)
    → (request_buffer ac sl >>= λ buffer. send_message true buffer >>= f)
      ≡ f (request_text (print_int ac) (print_int sl))
request_sent ac sl f =
    sym (>>=_assoc (request_buffer ac sl) (send_message true) f)
    ∙ ap (λ m. m >>= f) (send_request ac sl)
