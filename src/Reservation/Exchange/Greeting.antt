-- ===== src/Reservation/Exchange/Greeting.antt =====
-- The greeting: a name typed at the client, in the server's thread, and back.
use sysalgos.Base.{
  ℕ, zero, suc, ◌+◌, ◌-◌, ◌≤◌, ◌<◌, ◌≡◌, refl, ap, ◌≢◌, true, some, [], ◌∷◌, ◌++◌, append_assoc,
  arith, length, length-append, length-replicate, take, drop, ok, ◌>>=◌,
}
use sysalgos.Libc.Text.{
  Bytes, codes, Lacks, All-append, c_string, c_string-append, c_string-zeros, strncmp_eq, zeros,
  write_at-append, recv_into-zeros, recv_into-full, input_line-newline,
}
use sysalgos.Reservation.Request.{window_size, name_len}
use sysalgos.Reservation.Server.{
  Calls, Shared, bytes, connected, trim_newline, reply, greet, logged_name, dispatch, round,
}
use sysalgos.Reservation.Client.{hello_buffer, send_message, receive_message}

take-zeros : (n m : ℕ) → n ≤ m → take n (zeros m) ≡ zeros n
take-zeros zero m h = refl
take-zeros (suc n) zero h = absurd (omega arith)
take-zeros (suc n) (suc m) h = ap (λ t. 0 ∷ t) (take-zeros n m (omega arith))

-- The array of a name: its text and zeros behind it.
abbrev pub name_array : Bytes → Bytes
name_array s = s ++ zeros (name_len - length s)

-- What `handle_client` copies of a greeting and trims.
trim_greeting :
    (s : Bytes) (n k m : ℕ)
    → Lacks b'\n' s
    → n ≡ length s + suc k
    → k ≤ m
    → trim_newline (take n (s ++ b'\n' ∷ zeros m)) ≡ s ++ zeros (suc k)
unfolding trim_newline
trim_greeting s zero k m l e h = absurd (omega arith)
trim_greeting [] (suc n) k m l e h =
    let same : n ≡ k = omega arith in rw same (ap (λ t. 0 ∷ t) (take-zeros k m h))
trim_greeting (c ∷ s) (suc n) k m (hc, l) e h =
    ground (arith, trim_greeting s n k m l (omega arith) h)

sent_greeting :
    (s more : Bytes)
    → Lacks 0 s
    → Lacks b'\n' s
    → length s < 19
    → (hello_buffer (s ++ b'\n' ∷ more) >>= send_message true)
      ≡ ok (codes "HI  " ++ (s ++ b'\n' ∷ []))
unfolding hello_buffer send_message
sent_greeting s more l₀ l h =
    let line = s ++ b'\n' ∷ [] in
    let size = length-append s (b'\n' ∷ []) in
    let size_all = length-append line (0 ∷ []) in
    let k = 252 - length (line ++ 0 ∷ []) in
    let text : Lacks 0 (codes "HI  " ++ line) = (
      omega arith,
      (
        omega arith,
        (omega arith, (omega arith, All-append (λ c. c ≢ 0) s (b'\n' ∷ []) l₀ (omega arith, tt))),
      ),
    ) in
    rw (
      input_line-newline 19 s more l h,
      write_at-append 0 [] (codes "HI  ") window_size refl (omega arith),
      write_at-append 4 (codes "HI  ") (line ++ 0 ∷ []) 252 refl (omega arith),
      append_assoc line (0 ∷ []) (zeros k),
      c_string-append (codes "HI  " ++ line) (zeros k) text,
    )

-- The answer to a greeting.
abbrev pub hello_window : Bytes → Bytes
hello_window s = (codes "Hello " ++ name_array s) ++ zeros (250 - length (name_array s))

length-name_array : (s : Bytes) → length s < 20 → length (name_array s) ≡ 20
length-name_array s h = omega (
  arith,
  length-append s (zeros (name_len - length s)),
  length-replicate {A = ℕ} (name_len - length s) 0,
)

copied_name :
    (s : Bytes) (n : ℕ)
    → Lacks b'\n' s
    → length s < 19
    → 20 ≤ n
    → trim_newline (take name_len (drop 4 ((codes "HI  " ++ (s ++ b'\n' ∷ [])) ++ zeros n)))
      ≡ name_array s
copied_name s n l h k =
    let left : name_len - length s ≡ suc (19 - length s) = omega arith in
    rw (append_assoc s (b'\n' ∷ []) (zeros n), left)
      (trim_greeting s name_len (19 - length s) n l (omega arith) (omega arith))

greeted :
    (s : Bytes) (c : Calls) (st : Shared)
    → Lacks b'\n' s
    → length s < 19
    → c.sent ≡ true
    → round (bytes (codes "HI  " ++ (s ++ b'\n' ∷ []))) c st connected
      ≡ ok (st, record connected { name = some (name_array s); replies = hello_window s ∷ [] })
unfolding round dispatch strncmp_eq greet reply
greeted s c st l h e =
    let line = s ++ b'\n' ∷ [] in
    let size = length-append s (b'\n' ∷ []) in
    let array = length-name_array s (omega arith) in
    rw (
      recv_into-zeros (codes "HI  " ++ line) window_size (omega arith),
      copied_name s (window_size - length (codes "HI  " ++ line)) l h (omega arith),
      write_at-append 0 [] (codes "Hello ") window_size refl (omega arith),
      write_at-append 6 (codes "Hello ") (name_array s) 250 refl (omega arith),
      e,
    )

shown_greeting :
    (s : Bytes)
    → Lacks 0 s
    → length s < 19
    → (receive_message (some (hello_window s)) >>= c_string) ≡ ok (codes "Hello " ++ s)
unfolding receive_message
shown_greeting s l h =
    let left : name_len - length s ≡ suc (19 - length s) = omega arith in
    let array = length-name_array s (omega arith) in
    let whole : length (hello_window s) ≡ length (zeros window_size) = omega (
      arith,
      length-append (codes "Hello " ++ name_array s) (zeros (250 - length (name_array s))),
      length-append (codes "Hello ") (name_array s),
      length-replicate {A = ℕ} (250 - length (name_array s)) 0,
      length-replicate {A = ℕ} window_size 0,
    ) in
    let text : Lacks 0 (codes "Hello " ++ s) =
      (omega arith, (omega arith, (omega arith, (omega arith, (omega arith, (omega arith, l)))))) in
    rw
      (
        recv_into-full (hello_window s) (zeros window_size) whole,
        left,
        append_assoc s (zeros (suc (19 - length s))),
      )
      (c_string-append (codes "Hello " ++ s)
        (zeros (19 - length s) ++ zeros (250 - length (s ++ zeros (suc (19 - length s))))) text)

logged_greeting : (s : Bytes) → Lacks 0 s → length s < 19 → logged_name (some (name_array s)) ≡ ok s
unfolding logged_name
logged_greeting s l h = c_string-zeros s (name_len - length s) l (omega arith)

-- A name of at most 18 bytes without a NUL, typed at the client and ended with a newline, changes nothing
-- that the threads share; the thread then logs it as the client's name, and the client prints "Hello "
-- and the name, if the server's send succeeds.
pub name_greeted :
    (s more : Bytes) (c : Calls) (st : Shared)
    → Lacks 0 s
    → Lacks b'\n' s
    → length s < 19
    → c.sent ≡ true
    → (w array : Bytes) × ((hello_buffer (s ++ b'\n' ∷ more) >>= send_message true >>= λ msg.
          round (bytes msg) c st connected)
        ≡ ok (st, record connected { name = some array; replies = w ∷ [] }))
      × (logged_name (some array) ≡ ok s)
      × ((receive_message (some w) >>= c_string) ≡ ok (codes "Hello " ++ s))
name_greeted s more c st l₀ l h e = (
  hello_window s,
  name_array s,
  rw (sent_greeting s more l₀ l h) (greeted s c st l h e),
  logged_greeting s l₀ h,
  shown_greeting s l₀ h,
)
