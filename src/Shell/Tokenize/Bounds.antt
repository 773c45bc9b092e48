-- ===== src/Shell/Tokenize/Bounds.antt =====
-- `shiftLeft` leaves the array of tokens.
use sysalgos.Base.{
  ℕ, zero, suc, ◌+◌, ◌<◌, ◌≡◌, refl, ◌∙◌, Option, List, [], ◌∷◌, arith, lt→ltb, length, set,
  length-set, ok, undefined,
}
use sysalgos.Libc.Text.{Bytes}
use sysalgos.Shell.Tokenize.{max_num_tokens, load, store, shift_loop, shift_left}

load_inside :
    (array : List (Option Bytes)) (i : ℕ)
    → i < length array
    → (v : Option Bytes) × (load array i ≡ ok v)
unfolding load
load_inside [] i h = absurd (omega arith)
load_inside (v ∷ array) zero h = (v, refl)
load_inside (v ∷ array) (suc i) h = load_inside array i (omega arith)

-- The loop stays inside an array with a place behind its last round, and keeps the array's length.
pub shift_loop_lem :
    (n i : ℕ) (array : List (Option Bytes))
    → i + n < length array
    → (array' : List (Option Bytes)) × (shift_loop n i array ≡ ok array')
      × (length array' ≡ length array)
unfolding shift_loop store
shift_loop_lem zero i array h = (array, refl, refl)
shift_loop_lem (suc n) i array h =
    let (v, e) = load_inside array (i + 1) (omega arith) in
    let (array', e', l) =
      shift_loop_lem n (i + 1) (set array i v) (omega (arith, length-set array i v)) in
    (array', rw (e, lt→ltb i (length array) (omega arith)) e', l ∙ length-set array i v)

-- On the array of 64 places that `tokenize` makes, whatever stands in it, the last write of `shiftLeft`
-- is out of bounds, though its loop is not.
pub shift_left-overrun :
    (array : List (Option Bytes)) → length array ≡ max_num_tokens → shift_left array ≡ undefined
unfolding shift_left store
shift_left-overrun array h =
    let (array', e, l) = shift_loop_lem 63 0 array (omega arith) in rw (e, l, h)
