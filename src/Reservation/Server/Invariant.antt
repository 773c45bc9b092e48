-- ===== src/Reservation/Server/Invariant.antt =====
-- What every round of the server keeps: no class is oversold, and the log accounts for every ticket.
use sysalgos.Base.{
  ◌≡◌, true, List, [], ◌∷◌, ◌++◌, arith, Ensures, yields, ends, on_value, on_test, weaken, after,
  ◌∙◌,
}
use sysalgos.Base.Int.{ℤ, pos, ◌+ℤ◌, ◌≤ℤ◌, int_laws, sub-add_move}
use sysalgos.Libc.Text.{Bytes, codes, strncmp_eq, zeros, recv_into}
use sysalgos.Reservation.Request.{ac_num, sl_num, window_size, parse_request}
use sysalgos.Reservation.Server.{
  Entry, Shared, Thread, Received, failed, closed, bytes, Calls, initial, is_available, greet,
  farewell, dispatch, round, serve,
}
use sysalgos.Reservation.Server.Booking.{granted, Booked, taken, kept, book-Booked}

-- The sums of the log.
abbrev pub booked_ac : List Entry → ℤ
booked_ac [] = pos 0
booked_ac (e ∷ log) = e.num_ac +ℤ booked_ac log

abbrev pub booked_sl : List Entry → ℤ
booked_sl [] = pos 0
booked_sl (e ∷ log) = e.num_slr +ℤ booked_sl log

pub record IsSound (s : Shared) : Type 0 where
  pub ac_left : pos 0 ≤ℤ s.ac
  pub sl_left : pos 0 ≤ℤ s.sl
  pub ac_accounted : s.ac +ℤ booked_ac s.log ≡ pos ac_num
  pub sl_accounted : s.sl +ℤ booked_sl s.log ≡ pos sl_num

booked_ac-append :
    (log : List Entry) (e : Entry) → booked_ac (log ++ e ∷ []) ≡ booked_ac log +ℤ e.num_ac
booked_ac-append [] e = omega int_laws
booked_ac-append (d ∷ log) e = rw (booked_ac-append log e) (omega int_laws)

booked_sl-append :
    (log : List Entry) (e : Entry) → booked_sl (log ++ e ∷ []) ≡ booked_sl log +ℤ e.num_slr
booked_sl-append [] e = omega int_laws
booked_sl-append (d ∷ log) e = rw (booked_sl-append log e) (omega int_laws)

-- Two available numbers leave no count below zero.
available-le :
    (num_ac num_slr : ℤ) (s : Shared)
    → is_available num_ac num_slr s ≡ true
    → (num_ac ≤ℤ s.ac) × (num_slr ≤ℤ s.sl)
available-le num_ac num_slr s h = ground arith

granted-IsSound :
    (c : Calls) (name : Bytes) (num_ac num_slr : ℤ) (s : Shared)
    → is_available num_ac num_slr s ≡ true
    → IsSound s
    → IsSound (granted c name num_ac num_slr s)
granted-IsSound c name num_ac num_slr s h v =
    let (a, l) = available-le num_ac num_slr s h in
    let e : Entry = record { stamp = c.stamp; name = name; num_ac = num_ac; num_slr = num_slr } in
    record {
      ac_left = omega int_laws;
      sl_left = omega int_laws;
      ac_accounted =
          rw (booked_ac-append s.log e)
            (sub-add_move s.ac num_ac (booked_ac s.log) ∙ v.ac_accounted);
      sl_accounted =
          rw (booked_sl-append s.log e)
            (sub-add_move s.sl num_slr (booked_sl s.log) ∙ v.sl_accounted);
    }

Booked-IsSound :
    {c : Calls} {num_ac num_slr : ℤ} {s : Shared} {t : Thread} {st : Shared × Thread}
    → Booked c num_ac num_slr s t st
    → IsSound s
    → IsSound st.0
Booked-IsSound {c} {num_ac} {num_slr} {s} (taken name free _ e) v =
    rw e (granted-IsSound c name num_ac num_slr s free v)
Booked-IsSound (kept _ e) v = rw e v

pub dispatch-IsSound :
    (c : Calls) (buffer : Bytes) (s : Shared) (t : Thread)
    → IsSound s
    → Ensures (λ st. IsSound st.0) (dispatch c buffer s t)
unfolding dispatch
dispatch-IsSound c buffer s t v =
    on_test (strncmp_eq 4 buffer (codes "HI  ")) (λ _. on_value (greet c buffer t) λ _ _. yields v)
      λ _.
        on_test (strncmp_eq 4 buffer (codes "REQ "))
          (λ _. on_value (parse_request buffer) λ (num_ac, num_slr) _.
            weaken (book-Booked c num_ac num_slr s t) λ st b. Booked-IsSound b v)
          λ _.
            on_test (strncmp_eq 4 buffer (codes "BYE "))
              (λ _. on_value (farewell c t) λ _ _. yields v) λ _. yields v

-- A round of any thread, whatever its client sends.
pub round-IsSound :
    (r : Received) (c : Calls) (s : Shared) (t : Thread)
    → IsSound s
    → Ensures (λ st. IsSound st.0) (round r c s t)
unfolding round
round-IsSound failed c s t v = ends
round-IsSound closed c s t v = yields v
round-IsSound (bytes msg) c s t v = dispatch-IsSound c (recv_into msg (zeros window_size)) s t v

pub initial-IsSound : IsSound initial
initial-IsSound = omega int_laws

-- The loop of a thread.
pub serve-IsSound :
    (events : List (Received × Calls)) (s : Shared) (t : Thread)
    → IsSound s
    → Ensures (λ st. IsSound st.0) (serve events s t)
unfolding serve
serve-IsSound [] s t v = yields v
serve-IsSound ((r, c) ∷ events) s t v =
    on_test t.serving
      (λ _. after (round-IsSound r c s t v) λ st v'. serve-IsSound events st.0 st.1 v')
      (λ _. yields v)
