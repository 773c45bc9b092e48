-- ===== src/Reservation/Request/RoundTrip.antt =====
-- What `parse_request` reads from two fields that end in blanks, and from a field that is too long.
use native.Mathlib.Nat.{add-sub_cancel_left, add_assoc}
use sysalgos.Base.{
  ℕ, ◌+◌, ◌≤◌, ◌<◌, ◌≡◌, refl, [], ◌∷◌, ◌++◌, arith, lt→ltb, length, drop, ok, undefined, ◌>>=◌,
  >>=_assoc,
}
use sysalgos.Libc.Text.{Bytes, codes, Lacks, take-append_length, drop-append_length, drop-drop}
use sysalgos.Libc.Decimal.{atoi}
use sysalgos.Reservation.Request.{field_end, read_field, parse_request}

field_end-append : (a r : Bytes) (i : ℕ) → Lacks b' ' a → field_end (a ++ b' ' ∷ r) i ≡ i + length a
unfolding field_end
field_end-append [] r i _ = ground arith
field_end-append (c ∷ a) r i (hc, ha) = ground (arith, field_end-append a r (i + 1) ha)

le-field_end : (s : Bytes) (i : ℕ) → i ≤ field_end s i
unfolding field_end
le-field_end [] i = omega arith
le-field_end (c ∷ s) i = ground (arith, le-field_end s (i + 1))

field_end-append-ge : (a r : Bytes) (i : ℕ) → Lacks b' ' a → i + length a ≤ field_end (a ++ r) i
unfolding field_end
field_end-append-ge [] r i _ = omega (arith, le-field_end r i)
field_end-append-ge (c ∷ a) r i (hc, ha) = ground (arith, field_end-append-ge a r (i + 1) ha)

-- Behind a field and its blank.
drop_field : (a r : Bytes) → drop (4 + length a + 1) (codes "REQ " ++ (a ++ b' ' ∷ r)) ≡ r
drop_field a r = rw (
  add_assoc,
  drop-drop (length a + 1) 4 (codes "REQ " ++ (a ++ b' ' ∷ r)),
  drop-drop 1 (length a) (a ++ b' ' ∷ r),
  drop-append_length a (b' ' ∷ r),
)

read_field_lem :
    (buffer a r : Bytes) (i : ℕ)
    → drop i buffer ≡ a ++ b' ' ∷ r
    → Lacks b' ' a
    → length a < 20
    → read_field buffer i ≡ (do n ← atoi a; ok (n, i + length a))
unfolding read_field
read_field_lem buffer a r i e l h = rw (
  e,
  field_end-append a r i l,
  add-sub_cancel_left i (length a),
  lt→ltb (length a) 20 h,
  take-append_length a (b' ' ∷ r),
)

-- Two fields of less than 20 bytes are read as the numbers that they hold.
pub parse_fields :
    (a s r : Bytes)
    → Lacks b' ' a
    → Lacks b' ' s
    → length a < 20
    → length s < 20
    → parse_request (codes "REQ " ++ (a ++ b' ' ∷ (s ++ b' ' ∷ r)))
      ≡ (do num_ac ← atoi a; num_slr ← atoi s; ok (num_ac, num_slr))
unfolding parse_request
parse_fields a s r la ls ha hs =
    let buffer = codes "REQ " ++ (a ++ b' ' ∷ (s ++ b' ' ∷ r)) in
    let first = read_field_lem buffer a (s ++ b' ' ∷ r) 4 refl la ha in
    let second =
      read_field_lem buffer s r (4 + length a + 1) (drop_field a (s ++ b' ' ∷ r)) ls hs in
    simp (first, >>=_assoc) (simp (second, >>=_assoc))

-- A first field of 20 bytes or more overruns `AC_str`.
pub parse_request-overrun :
    (a r : Bytes)
    → Lacks b' ' a
    → 20 ≤ length a
    → parse_request (codes "REQ " ++ (a ++ r)) ≡ undefined
unfolding parse_request read_field
parse_request-overrun a r la h = ground (arith, field_end-append-ge a r 4 la)
