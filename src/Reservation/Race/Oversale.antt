-- ===== src/Reservation/Race/Oversale.antt =====
-- Two requests at once: more tickets are sold than there are, or the tickets of one stay on sale.
use sysalgos.Base.{
  ℕ, ◌≡◌, ◌≤◌, ◌+◌, refl, true, ◌&&◌, List, [], ◌∷◌, arith, ◌==◌, if◌then◌else◌, Exec, ok, ◌>>=◌,
  Ensures, Ensures_at, yields, on_value, put,
}
use sysalgos.Base.Int.{
  ℤ, pos, pos_part, neg_part, ◌-ℤ◌, ◌≤ℤ◌, leb_ℤ, IsInt, sub_int, to_int-ok, -ℤ_parts,
}
use sysalgos.Reservation.Race.{
  Pc, testing_ac, testing_sl, loading_ac, storing_ac, loading_sl, storing_sl, granting, access,
  Threads, turn, Reach, start, later,
}

-- A schedule: the threads that move, in order.
unfoldable pub run : List ℕ → Threads → Exec Threads
run [] s = ok s
run (i ∷ is) s = turn i s >>= run is

run-Reach : (is : List ℕ) {s t : Threads} → Reach s t → Ensures (Reach s) (run is t)
unfolding run
run-Reach [] r = yields r
run-Reach (i ∷ is) {t = t} r = on_value (turn i t) λ t' e. run-Reach is (later r i e)

-- Thread 0 wants `a` tickets of the first class and `a'` of the second, thread 1 wants `b` and `b'`.
abbrev pub two_requests : (ac sl a a' b b' : ℤ) → Threads
two_requests ac sl a a' b b' = record {
  tickets = record { ac = ac; sl = sl };
  at = λ i. if i == 0 then testing_ac a a' else testing_ac b b';
}

le-leb : (a b : ℤ) → a ≤ℤ b → leb_ℤ a b ≡ true
le-leb a b h = ground arith

sub_within : (x a : ℤ) → IsInt (x -ℤ a) → sub_int x a ≡ ok (x -ℤ a)
unfolding sub_int
sub_within x a h = to_int-ok (x -ℤ a) h

-- Tickets on sale, and two requests for numbers of them that are not negative and not more than there are.
pub record AreAvailable (on_sale a b : ℤ) : Type 0 where
  pub counted : IsInt on_sale
  pub first_le : (pos 0 ≤ℤ a) × (a ≤ℤ on_sale)
  pub second_le : (pos 0 ≤ℤ b) × (b ≤ℤ on_sale)

sub_parts_le :
    (x a : ℤ)
    → (pos_part (x -ℤ a) ≤ pos_part x + neg_part a) × (neg_part (x -ℤ a) ≤ neg_part x + pos_part a)
unfolding ◌-ℤ◌
sub_parts_le x a = ground arith

no_neg_part : (z : ℤ) → pos 0 ≤ℤ z → neg_part z ≡ 0
no_neg_part z h = ground arith

first_within : {x a b : ℤ} → AreAvailable x a b → IsInt (x -ℤ a)
first_within {x} {a} h =
    let in_int = h.counted in
    let (a_nonneg, a_le) = h.first_le in
    let a_neg = no_neg_part a a_nonneg in
    let x_neg = no_neg_part x (omega arith) in
    let parts = sub_parts_le x a in (omega arith, omega arith)

second_within : {x a b : ℤ} → AreAvailable x a b → IsInt (x -ℤ b)
second_within h =
    first_within (record { counted = h.counted; first_le = h.second_le; second_le = h.first_le })

both_within : {x a b : ℤ} → AreAvailable x a b → IsInt (x -ℤ a -ℤ b)
both_within {x} {a} {b} h =
    let in_int = h.counted in
    let (a_nonneg, a_le) = h.first_le in
    let (b_nonneg, b_le) = h.second_le in
    let a_neg = no_neg_part a a_nonneg in
    let b_neg = no_neg_part b b_nonneg in
    let left_neg = no_neg_part (x -ℤ a) (omega (arith, -ℤ_parts x a)) in
    let parts = sub_parts_le (x -ℤ a) b in
    let parts' = sub_parts_le x a in (omega arith, omega arith)

-- Both pass their tests, then each subtracts in turn.
abbrev both_tested : List ℕ
both_tested = 0 ∷ 0 ∷ 1 ∷ 1 ∷ 0 ∷ 0 ∷ 0 ∷ 0 ∷ 1 ∷ 1 ∷ 1 ∷ 1 ∷ []

-- Both load the same value of `AC`, and of `SL`.
abbrev both_loaded : List ℕ
both_loaded = 0 ∷ 0 ∷ 1 ∷ 1 ∷ 0 ∷ 1 ∷ 0 ∷ 1 ∷ 0 ∷ 1 ∷ 0 ∷ 1 ∷ []

-- The places of the threads after moves of theirs, each to a new place.
abbrev places : List (ℕ × Pc) → (ℕ → Pc) → ℕ → Pc
places [] at = at
places ((i, pc) ∷ moves) at = places moves (put at i pc)

-- A reachable state in which both requests are granted and these tickets remain.
abbrev pub BothGranted : Threads → (ac sl : ℤ) → Type 0
BothGranted s ac sl =
    (t : Threads) × Reach s t
    × (t.at 0 ≡ granting)
    × (t.at 1 ≡ granting)
    × (t.tickets ≡ record { ac = ac; sl = sl })

by_run :
    (is : List ℕ) (s t : Threads) (ac sl : ℤ)
    → run is s ≡ ok t
    → t.at 0 ≡ granting
    → t.at 1 ≡ granting
    → t.tickets ≡ record { ac = ac; sl = sl }
    → BothGranted s ac sl
by_run is s t ac sl e p q r = (t, Ensures_at (run-Reach is start) e, p, q, r)

both_tested_lem :
    (ac sl a a' b b' : ℤ)
    → AreAvailable ac a b
    → AreAvailable sl a' b'
    → BothGranted (two_requests ac sl a a' b b') (ac -ℤ a -ℤ b) (sl -ℤ a' -ℤ b')
unfolding run turn access
both_tested_lem ac sl a a' b b' h h' =
    by_run both_tested (two_requests ac sl a a' b b')
      (record {
        tickets = record { ac = ac -ℤ a -ℤ b; sl = sl -ℤ a' -ℤ b' };
        at =
            places
              ((0, testing_sl a a')
                ∷ (0, loading_ac a a')
                ∷ (1, testing_sl b b')
                ∷ (1, loading_ac b b')
                ∷ (0, storing_ac ac a a')
                ∷ (0, loading_sl a')
                ∷ (0, storing_sl sl a')
                ∷ (0, granting)
                ∷ (1, storing_ac (ac -ℤ a) b b')
                ∷ (1, loading_sl b')
                ∷ (1, storing_sl (sl -ℤ a') b')
                ∷ (1, granting)
                ∷ [])
              (two_requests ac sl a a' b b').at;
      })
      (ac -ℤ a -ℤ b) (sl -ℤ a' -ℤ b')
      (rw
        (
          le-leb a ac h.first_le.1,
          le-leb b ac h.second_le.1,
          le-leb a' sl h'.first_le.1,
          le-leb b' sl h'.second_le.1,
          sub_within ac a (first_within h),
          sub_within sl a' (first_within h'),
          sub_within (ac -ℤ a) b (both_within h),
          sub_within (sl -ℤ a') b' (both_within h'),
        )
        refl)
      refl refl refl

both_loaded_lem :
    (ac sl a a' b b' : ℤ)
    → AreAvailable ac a b
    → AreAvailable sl a' b'
    → BothGranted (two_requests ac sl a a' b b') (ac -ℤ b) (sl -ℤ b')
unfolding run turn access
both_loaded_lem ac sl a a' b b' h h' =
    by_run both_loaded (two_requests ac sl a a' b b')
      (record {
        tickets = record { ac = ac -ℤ b; sl = sl -ℤ b' };
        at =
            places
              ((0, testing_sl a a')
                ∷ (0, loading_ac a a')
                ∷ (1, testing_sl b b')
                ∷ (1, loading_ac b b')
                ∷ (0, storing_ac ac a a')
                ∷ (1, storing_ac ac b b')
                ∷ (0, loading_sl a')
                ∷ (1, loading_sl b')
                ∷ (0, storing_sl sl a')
                ∷ (1, storing_sl sl b')
                ∷ (0, granting)
                ∷ (1, granting)
                ∷ [])
              (two_requests ac sl a a' b b').at;
      })
      (ac -ℤ b) (sl -ℤ b')
      (rw
        (
          le-leb a ac h.first_le.1,
          le-leb b ac h.second_le.1,
          le-leb a' sl h'.first_le.1,
          le-leb b' sl h'.second_le.1,
          sub_within ac a (first_within h),
          sub_within ac b (second_within h),
          sub_within sl a' (first_within h'),
          sub_within sl b' (second_within h'),
        )
        refl)
      refl refl refl

-- Two requests for numbers of both classes that are not negative and, each on its own, not more than there
-- are: a state is reachable in which both are granted and both subtracted, also where that is more than
-- there is, and another in which both are granted and only the second is subtracted, in both classes.
pub both_granted :
    (ac sl a a' b b' : ℤ)
    → AreAvailable ac a b
    → AreAvailable sl a' b'
    → BothGranted (two_requests ac sl a a' b b') (ac -ℤ a -ℤ b) (sl -ℤ a' -ℤ b')
      × BothGranted (two_requests ac sl a a' b b') (ac -ℤ b) (sl -ℤ b')
both_granted ac sl a a' b b' h h' =
    (both_tested_lem ac sl a a' b b' h h', both_loaded_lem ac sl a a' b b' h h')

-- Where one thread makes its six accesses without interruption, they do what the booking does as a whole:
-- if both numbers are available, both differences are taken, and are undefined outside `int`; otherwise
-- nothing changes.
pub uninterrupted :
    (ac sl a b : ℤ) (others : ℕ → Pc)
    → others 0 ≡ testing_ac a b
    → (run
          (0 ∷ 0 ∷ 0 ∷ 0 ∷ 0 ∷ 0 ∷ [])
          (record { tickets = record { ac = ac; sl = sl }; at = others })
        >>= λ s. ok s.tickets)
      ≡ (if leb_ℤ a ac && leb_ℤ b sl
          then (do ac' ← sub_int ac a; sl' ← sub_int sl b; ok (record { ac = ac'; sl = sl' }))
          else ok (record { ac = ac; sl = sl }))
unfolding run turn access
uninterrupted ac sl a b others h = rw h (ground arith)
