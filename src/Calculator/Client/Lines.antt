-- ===== src/Calculator/Client/Lines.antt =====
-- The lines between client and server: a text with a tag in front and zeros behind.
use sysalgos.Base.{
  ℕ, zero, suc, ◌+◌, ◌-◌, ◌≤◌, ◌<◌, ◌≡◌, refl, sym, ◌∙◌, ◌≢◌, false, [], ◌∷◌, ◌++◌, arith, ltb,
  lt→ltb, length, length-append, length-replicate, ok, ◌>>=◌,
}
use sysalgos.Libc.Text.{
  input_line-newline, Bytes, codes, Lacks, All-append, c_string-zeros, strcmp_eq, zeros, write_at,
  write_at-append, recv_into-full,
}
use sysalgos.Calculator.Server.{max_line, until_nul, query_of, response}
use sysalgos.Calculator.Client.{until_newline, typed, query_message, message, shown}

until_nul_all : (s : Bytes) → Lacks 0 s → until_nul s ≡ s
unfolding until_nul
until_nul_all [] _ = refl
until_nul_all (c ∷ s) (hc, l) = ground (arith, until_nul_all s l)

pub until_nul-zeros : (s : Bytes) (n : ℕ) → Lacks 0 s → until_nul (s ++ zeros n) ≡ s
unfolding until_nul
until_nul-zeros [] zero _ = refl
until_nul-zeros [] (suc n) _ = refl
until_nul-zeros (c ∷ s) n (hc, l) = ground (arith, until_nul-zeros s n l)

until_newline-append : (s more : Bytes) → Lacks b'\n' s → until_newline (s ++ b'\n' ∷ more) ≡ s
unfolding until_newline
until_newline-append [] more _ = refl
until_newline-append (c ∷ s) more (hc, l) = ground (arith, until_newline-append s more l)

-- A tag and a text in a cleared buffer.
tagged :
    (tag text : Bytes)
    → length tag ≡ 2
    → 2 + length text ≤ max_line
    → (do b ← write_at 0 tag (zeros max_line); write_at 2 text b)
      ≡ ok ((tag ++ text) ++ zeros (max_line - length tag - length text))
tagged tag text e h = rw (
  write_at-append 0 [] tag max_line refl (omega arith),
  write_at-append 2 tag text (max_line - length tag) (omega arith) (omega arith),
)

-- The text that `fgets` leaves of such a line.
pub typed_line :
    (s more : Bytes)
    → Lacks 0 s
    → Lacks b'\n' s
    → length s < 419
    → typed (s ++ b'\n' ∷ more) ≡ s ++ b'\n' ∷ []
unfolding typed
typed_line s more l₀ l h =
    rw (input_line-newline 419 s more l h)
      (until_nul_all (s ++ b'\n' ∷ []) (All-append (λ c. c ≢ 0) s (b'\n' ∷ []) l₀ (omega arith)))

-- A line that does not read "bye" is sent as a query, without its newline.
pub message_query :
    (s more : Bytes)
    → Lacks 0 s
    → Lacks b'\n' s
    → length s < 419
    → strcmp_eq (s ++ b'\n' ∷ []) (codes "bye\n") ≡ false
    → message (s ++ b'\n' ∷ more) ≡ ok ((codes "0 " ++ s) ++ zeros (max_line - 2 - length s))
unfolding message query_message
message_query s more l₀ l h b =
    rw (typed_line s more l₀ l h, b, until_newline-append s [] l)
      (tagged (codes "0 ") s refl (omega arith))

-- A text behind a tag, in a whole line.
abbrev pub line_of : Bytes → Bytes → Bytes
line_of tag text = (tag ++ text) ++ zeros (max_line - 2 - length text)

pub length-line_of :
    (tag text : Bytes)
    → length tag ≡ 2
    → 2 + length text ≤ max_line
    → length (line_of tag text) ≡ max_line
length-line_of tag text e h = omega (
  arith,
  length-append (tag ++ text) (zeros (max_line - 2 - length text)),
  length-append tag text,
  length-replicate {A = ℕ} (max_line - 2 - length text) 0,
)

-- What the client prints of an answer.
pub shown_line :
    (text : Bytes)
    → Lacks 0 text
    → 3 + length text ≤ max_line
    → shown (line_of (codes "1 ") text) ≡ ok text
unfolding shown
shown_line text l h =
    rw
      (recv_into-full (line_of (codes "1 ") text) (zeros max_line) (
        length-line_of (codes "1 ") text refl (omega arith)
        ∙ sym (length-replicate {A = ℕ} max_line 0)))
      (c_string-zeros text (max_line - 2 - length text) l (omega arith))

pub response_line :
    (text : Bytes) → 2 + length text ≤ max_line → response text ≡ ok (line_of (codes "1 ") text)
unfolding response
response_line text h = tagged (codes "1 ") text refl h

pub query_line :
    (text : Bytes)
    → Lacks 0 text
    → length text < 50
    → query_of (line_of (codes "0 ") text) ≡ ok text
unfolding query_of
query_line text l h =
    rw (until_nul-zeros text (max_line - 2 - length text) l, lt→ltb (length text) 50 h)

pub long_not_bye : (s : Bytes) → 50 ≤ length s → strcmp_eq (s ++ b'\n' ∷ []) (codes "bye\n") ≡ false
unfolding strcmp_eq
long_not_bye (a ∷ b ∷ c ∷ d ∷ e ∷ s) h = ground arith
long_not_bye s h = absurd (omega arith)

pub not_short : (n : ℕ) → 50 ≤ n → ltb n 50 ≡ false
not_short n h = ground arith
