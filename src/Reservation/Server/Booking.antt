-- ===== src/Reservation/Server/Booking.antt =====
-- What a booking does to the tickets, the log and the thread.
use sysalgos.Base.{
  ◌-◌, ◌≤◌, ◌≡◌, refl, true, false, [], ◌∷◌, ◌++◌, arith, ok, succeed, Ensures, yields, on_value,
  after, if◌then◌else◌, Bool-cases, inl, inr, length, ap, subst,
}
use sysalgos.Base.Int.{ℤ, ◌-ℤ◌, sub_int, sub_int-eq-ok, IsInt, to_int-ok}
use sysalgos.Libc.Text.{Bytes, codes, zeros, write_at, write_at-append}
use sysalgos.Reservation.Request.{window_size}
use sysalgos.Reservation.Server.{
  Shared, Thread, Calls, reply, logged_name, write_record, is_available, grant, refuse, book,
}

-- A text at the front of a window.
abbrev pub padded : Bytes → Bytes
padded s = s ++ zeros (window_size - length s)

abbrev pub answered : Bytes → Thread → Thread
answered window t = record t { replies = t.replies ++ window ∷ [] }

unfoldable pub success : Bytes
success = padded (codes "200 success")

unfoldable pub failure : Bytes
failure = padded (codes "201 failure booking tickets.")

pub write_padded :
    (s : Bytes) → length s ≤ window_size → write_at 0 s (zeros window_size) ≡ ok (padded s)
write_padded s h = write_at-append 0 [] s window_size refl h

pub write_success : write_at 0 (codes "200 success") (zeros window_size) ≡ ok success
unfolding success
write_success = write_padded (codes "200 success") (omega arith)

pub write_failure :
    write_at 0 (codes "201 failure booking tickets.") (zeros window_size) ≡ ok failure
unfolding failure
write_failure = write_padded (codes "201 failure booking tickets.") (omega arith)

-- The shared state after a granted booking, whose record carries `name`.
abbrev pub granted : Calls → Bytes → ℤ → ℤ → Shared → Shared
granted c name num_ac num_slr s = record {
  ac = s.ac -ℤ num_ac;
  sl = s.sl -ℤ num_slr;
  log = s.log ++ record { stamp = c.stamp; name = name; num_ac = num_ac; num_slr = num_slr } ∷ [];
}

-- The two outcomes of a booking.
pub data Booked (c : Calls) (num_ac num_slr : ℤ) (s : Shared) (t : Thread)
    : Shared × Thread → Type 0 where
  taken :
      (name : Bytes) {st : Shared × Thread}
      → is_available num_ac num_slr s ≡ true
      → logged_name t.name ≡ ok name
      → st ≡ (granted c name num_ac num_slr s, answered success t)
      → Booked c num_ac num_slr s t st
  kept :
      {st : Shared × Thread}
      → is_available num_ac num_slr s ≡ false
      → st ≡ (s, answered failure t)
      → Booked c num_ac num_slr s t st

reply_lem : (c : Calls) (w : Bytes) (t : Thread) → Ensures (λ t'. t' ≡ answered w t) (reply c w t)
unfolding reply
reply_lem c w t = on_value (succeed c.sent) λ _ _. yields refl

write_record_lem :
    (c : Calls) (num_ac num_slr : ℤ) (t : Thread) (s : Shared)
    → Ensures
        (λ s'.
          (name : Bytes) × (logged_name t.name ≡ ok name)
          × (s' ≡ record s {
            log =
                s.log
                ++ record { stamp = c.stamp; name = name; num_ac = num_ac; num_slr = num_slr } ∷ [];
          }))
        (write_record c num_ac num_slr t s)
unfolding write_record
write_record_lem c num_ac num_slr t s = on_value (succeed c.opened) λ _ _.
    on_value (succeed c.locked) λ _ _. on_value (logged_name t.name) λ name n.
      on_value (succeed c.printed) λ _ _.
        on_value (succeed c.unlocked)
          λ _ _. on_value (succeed c.file_closed) λ _ _. yields (name, n, refl)

-- Whatever a booking yields is one of the two outcomes.
pub book-Booked :
    (c : Calls) (num_ac num_slr : ℤ) (s : Shared) (t : Thread)
    → Ensures (Booked c num_ac num_slr s t) (book c num_ac num_slr s t)
unfolding book
book-Booked c num_ac num_slr s t = elim (Bool-cases (is_available num_ac num_slr s)) [
  | inl free ↦ rw free (grant-Booked free)
  | inr full ↦ rw full (refuse-Booked full)
]
  where
    refuse-Booked :
        is_available num_ac num_slr s ≡ false → Ensures (Booked c num_ac num_slr s t) (refuse c s t)
    refuse-Booked full =
        unfold refuse in
        rw write_failure
          (after (reply_lem c failure t) λ t' e. yields (kept full (ap (λ x. (s, x)) e)))

    grant-Booked :
        is_available num_ac num_slr s ≡ true
        → Ensures (Booked c num_ac num_slr s t) (grant c num_ac num_slr s t)
    grant-Booked free =
        unfold grant in
        on_value (sub_int s.ac num_ac) λ ac p. on_value (sub_int s.sl num_slr) λ sl q.
          rw write_success (
            after (reply_lem c success t) λ t' e.
              after (write_record_lem c num_ac num_slr t' (record s { ac = ac; sl = sl }))
                λ s' (name, n, e'). yields (
                  taken name free (subst (λ u. logged_name u.name ≡ ok name) e n)
                    (cc (e', e, sub_int-eq-ok s.ac num_ac p, sub_int-eq-ok s.sl num_slr q))))

-- No call of the round fails.
pub record IsWell (c : Calls) : Type 0 where
  pub sent : c.sent ≡ true
  pub opened : c.opened ≡ true
  pub locked : c.locked ≡ true
  pub printed : c.printed ≡ true
  pub unlocked : c.unlocked ≡ true
  pub file_closed : c.file_closed ≡ true

-- Where no call fails, the thread knows its client's name and the differences are values of `int`, a
-- booking yields a value: it takes the tickets if both numbers are available, and else nothing.
pub book_total :
    (c : Calls) (num_ac num_slr : ℤ) (s : Shared) (t : Thread) {name : Bytes}
    → IsWell c
    → logged_name t.name ≡ ok name
    → IsInt (s.ac -ℤ num_ac)
    → IsInt (s.sl -ℤ num_slr)
    → book c num_ac num_slr s t
      ≡ ok (
          if is_available num_ac num_slr s
          then (granted c name num_ac num_slr s, answered success t)
          else (s, answered failure t))
unfolding book grant refuse reply write_record sub_int
book_total c num_ac num_slr s t w n ia is = elim (Bool-cases (is_available num_ac num_slr s)) [
  | inl free ↦ rw (
    free,
    to_int-ok (s.ac -ℤ num_ac) ia,
    to_int-ok (s.sl -ℤ num_slr) is,
    write_success,
    w.sent,
    w.opened,
    w.locked,
    n,
    w.printed,
    w.unlocked,
    w.file_closed,
  )
  | inr full ↦ rw (full, write_failure, w.sent)
]
