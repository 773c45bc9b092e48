-- ===== src/Shell/Tokenize/Shift.antt =====
-- What `shiftLeft` does in memory that has room for its last write.
use native.Mathlib.Nat.{suc-add}
use sysalgos.Base.{
  ℕ, ◌+◌, ◌≡◌, refl, sym, ◌∙◌, ap, Option, none, List, [], ◌∷◌, ◌++◌, append_assoc, arith, lt→ltb,
  length, length-append, set, ok,
}
use sysalgos.Libc.Text.{Bytes}
use sysalgos.Shell.Tokenize.{load, store, shift_loop, shift_left}

abbrev pub Pointers : Type 0
Pointers = List (Option Bytes)

load-append :
    (front : Pointers) (x y : Option Bytes) (rest : Pointers)
    → load (front ++ x ∷ y ∷ rest) (length front + 1) ≡ ok y
unfolding load
load-append [] x y rest = refl
load-append (z ∷ front) x y rest = rw suc-add (load-append front x y rest)

set-append :
    (front : Pointers) (x y : Option Bytes) (rest : Pointers)
    → set (front ++ x ∷ rest) (length front) y ≡ front ++ y ∷ rest
set-append [] x y rest = refl
set-append (z ∷ front) x y rest = ap (λ t. z ∷ t) (set-append front x y rest)

store-append :
    (front : Pointers) (x y : Option Bytes) (rest : Pointers) (k : ℕ)
    → k ≡ length front
    → store (front ++ x ∷ rest) k y ≡ ok (front ++ y ∷ rest)
unfolding store
store-append front x y rest k e = rw (
  e,
  lt→ltb (length front) (length (front ++ x ∷ rest))
      (omega (arith, length-append front (x ∷ rest))),
  set-append front x y rest,
)

abbrev pub last_of : Option Bytes → Pointers → Option Bytes
last_of x [] = x
last_of x (y ∷ mid) = last_of y mid

shift_loop-append :
    (mid front : Pointers) (x : Option Bytes) (rest : Pointers)
    → shift_loop (length mid) (length front) (front ++ x ∷ (mid ++ rest))
      ≡ ok (front ++ (mid ++ last_of x mid ∷ rest))
unfolding shift_loop
shift_loop-append [] front x rest = refl
shift_loop-append (y ∷ mid) front x rest =
    let next : front ++ y ∷ y ∷ (mid ++ rest) ≡ (front ++ y ∷ []) ++ y ∷ (mid ++ rest) =
      sym (append_assoc front (y ∷ []) (y ∷ (mid ++ rest))) in
    let index : length front + 1 ≡ length (front ++ y ∷ []) =
      omega (arith, length-append front (y ∷ [])) in
    rw
      (
        load-append front x y (mid ++ rest),
        store-append front x y (y ∷ (mid ++ rest)) (length front) refl,
        next,
        index,
      )
      (shift_loop-append mid (front ++ y ∷ []) y rest ∙ rw (append_assoc front (y ∷ [])))

-- In 65 places or more the loop and the last write drop the first pointer.
pub shift_left_lem :
    (mid : Pointers) (x r : Option Bytes) (rest : Pointers)
    → length mid ≡ 63
    → shift_left (x ∷ (mid ++ r ∷ rest)) ≡ ok (mid ++ last_of x mid ∷ none ∷ rest)
unfolding shift_left
shift_left_lem mid x r rest h =
    let loop : shift_loop 63 0 (x ∷ (mid ++ r ∷ rest)) ≡ ok (mid ++ last_of x mid ∷ r ∷ rest) =
      ap (λ n. shift_loop n 0 (x ∷ (mid ++ r ∷ rest))) (sym h)
      ∙ shift_loop-append mid [] x (r ∷ rest) in
    let end : 64 ≡ length (mid ++ last_of x mid ∷ []) =
      omega (arith, length-append mid (last_of x mid ∷ [])) in
    rw (loop, sym (append_assoc mid (last_of x mid ∷ []) (r ∷ rest)))
      (store-append (mid ++ last_of x mid ∷ []) r none rest 64 end
        ∙ rw (append_assoc mid (last_of x mid ∷ [])))
