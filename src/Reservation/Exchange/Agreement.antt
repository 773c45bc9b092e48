-- ===== src/Reservation/Exchange/Agreement.antt =====
-- What an exchange does to both sides: what the server takes off, the client adds.
use sysalgos.Base.{
  ℕ, ◌≡◌, refl, sym, ◌∙◌, true, false, some, List, [], ◌∷◌, ◌++◌, length, length-replicate, ok,
  ◌>>=◌, Ensures, yields, on_value, after,
}
use sysalgos.Base.Int.{ℤ, ◌+ℤ◌, IsInt, add_int, add_int-eq-ok}
use sysalgos.Libc.Text.{Bytes, codes, c_string, strncmp_eq, zeros, recv_into-full}
use sysalgos.Libc.Decimal.{print_int}
use sysalgos.Reservation.Request.{window_size}
use sysalgos.Reservation.Server.{Shared, Thread, bytes, Calls, is_available, book, round}
use sysalgos.Reservation.Server.Booking.{
  success, failure, answered, granted, Booked, taken, kept, book-Booked,
}
use sysalgos.Reservation.Client.{Client, text, receive_message, read_count, credit, settle, buy}
use sysalgos.Reservation.Client.Messages.{request_text, request_sent}
use sysalgos.Reservation.Exchange.{last_reply, purchase, exchange}
use sysalgos.Reservation.Exchange.Delivery.{round_request}

-- The two outcomes of an exchange.
pub data Exchanged (c : Calls) (ac sl : ℤ) (s : Shared) (k : Client)
    : Shared × Thread × Client → Type 0 where
  bought :
      (name : Bytes) {r : Shared × Thread × Client}
      → is_available ac sl s ≡ true
      → r.0 ≡ granted c name ac sl s
      → (r.2).num_ac ≡ k.num_ac +ℤ ac
      → (r.2).num_sl ≡ k.num_sl +ℤ sl
      → Exchanged c ac sl s k r
  turned_down :
      {r : Shared × Thread × Client}
      → is_available ac sl s ≡ false
      → r.0 ≡ s
      → (r.2).num_ac ≡ k.num_ac
      → (r.2).num_sl ≡ k.num_sl
      → Exchanged c ac sl s k r

last_reply-append {ℓ} : {A : Type ℓ} (ws : List A) (w : A) → last_reply (ws ++ w ∷ []) ≡ some w
unfolding last_reply
last_reply-append [] w = refl
last_reply-append (v ∷ []) w = refl
last_reply-append (v ∷ u ∷ ws) w = last_reply-append (u ∷ ws) w

length-success : length success ≡ window_size
unfolding success
length-success = refl

length-failure : length failure ≡ window_size
unfolding failure
length-failure = refl

settle-success :
    (ac sl : ℤ) (k : Client)
    → settle ac sl success k
      ≡ credit ac sl (record k { lines = k.lines ++ text (codes "success") ∷ [] })
unfolding settle success strncmp_eq c_string
settle-success ac sl k = refl

settle-failure :
    (ac sl : ℤ) (k : Client)
    → settle ac sl failure k
      ≡ ok (record k { lines = k.lines ++ text (codes "failure booking tickets.") ∷ [] })
unfolding settle failure strncmp_eq c_string
settle-failure ac sl k = refl

-- The client that has sent a request and waits for the answer.
abbrev asked : ℤ → ℤ → Client → Client
asked ac sl k = record k { sent = k.sent ++ request_text (print_int ac) (print_int sl) ∷ [] }

buy-answered :
    (ac sl : ℤ) (w : Bytes) (t : Thread) (k : Client)
    → length w ≡ window_size
    → buy (purchase ac sl (answered w t)) k ≡ settle ac sl w (asked ac sl k)
unfolding buy read_count receive_message
buy-answered ac sl w t k e =
    request_sent ac sl (λ msg. receive_message (last_reply (t.replies ++ w ∷ [])) >>= λ answer.
    settle ac sl answer (record k { sent = k.sent ++ msg ∷ [] }))
    ∙ rw (
      last_reply-append t.replies w,
      recv_into-full w (zeros window_size) (e ∙ sym (length-replicate {A = ℕ} window_size 0)),
    )

exchange_lem :
    (ac sl : ℤ) (c : Calls) (s : Shared) (t : Thread) (k : Client)
    → IsInt ac
    → IsInt sl
    → exchange ac sl c s t k
      ≡ (book c ac sl s t >>= λ (s', t'). buy (purchase ac sl t') k >>= λ k'. ok (s', t', k'))
unfolding exchange
exchange_lem ac sl c s t k ia is =
    request_sent ac sl (λ msg.
      round (bytes msg) c s t >>= λ (s', t'). buy (purchase ac sl t') k >>= λ k'. ok (s', t', k'))
    ∙ rw (round_request ac sl c s t ia is)

credit_lem :
    (ac sl : ℤ) (k : Client)
    → Ensures (λ k'. (k'.num_ac ≡ k.num_ac +ℤ ac) × (k'.num_sl ≡ k.num_sl +ℤ sl)) (credit ac sl k)
unfolding credit
credit_lem ac sl k = on_value (add_int k.num_ac ac) λ num_ac p.
    on_value (add_int k.num_sl sl)
      λ num_sl q. yields (add_int-eq-ok k.num_ac ac p, add_int-eq-ok k.num_sl sl q)

-- Whatever an exchange of two `int`s yields is one of the two outcomes.
pub exchange-Exchanged :
    (ac sl : ℤ) (c : Calls) (s : Shared) (t : Thread) (k : Client)
    → IsInt ac
    → IsInt sl
    → Ensures (Exchanged c ac sl s k) (exchange ac sl c s t k)
exchange-Exchanged ac sl c s t k ia is =
    rw (exchange_lem ac sl c s t k ia is) (after (book-Booked c ac sl s t) settled)
  where
    settled :
        (st : Shared × Thread)
        → Booked c ac sl s t st
        → Ensures
            (Exchanged c ac sl s k)
            (buy (purchase ac sl st.1) k >>= λ k'. ok (st.0, st.1, k'))
    settled st (taken name free _ e) =
        rw (e, buy-answered ac sl success t k length-success, settle-success)
          (after (credit_lem ac sl _) λ k' (p, q). yields (bought name free refl p q))
    settled st (kept full e) =
        rw (e, buy-answered ac sl failure t k length-failure, settle-failure)
          (yields (turned_down full refl refl refl))
