-- ===== src/Shell/Tokenize.antt =====
-- `tokenize` and `shiftLeft` of my_shell.c.
pub mod Words
pub mod Bounds
pub mod Shift
use sysalgos.Base.{
  ℕ, zero, suc, ◌+◌, ◌-◌, set, ◌≡◌, refl, Bool, true, false, ◌||◌, Option, none, some, List, [],
  ◌∷◌, ◌++◌, ◌==◌, ltb, length, if◌then◌else◌, Exec, ok, undefined, ◌>>=◌, ◌>>◌, require, drop,
  take, map, replicate,
}
use sysalgos.Libc.Text.{Bytes, codes}

abbrev pub max_token_size : ℕ
max_token_size = 64

abbrev pub max_num_tokens : ℕ
max_num_tokens = 64

-- Line 27.
abbrev pub is_blank : ℕ → Bool
is_blank c = c == b' ' || (c == b'\n' || c == b'\t')

-- Lines 30 to 35: a copy of a token that is not empty goes to the next of 64 places.
unfoldable pub add_token : Bytes → List Bytes → Exec (List Bytes)
add_token [] tokens = ok tokens
add_token (c ∷ token) tokens = do
  require (ltb (length tokens) max_num_tokens)
  ok (tokens ++ (c ∷ token) ∷ [])

-- The loop of lines 22 to 41, with the bytes of `token` so far and the tokens so far. A byte and the NUL
-- of a token need one of its 64 places; what stands in `token` at the end of the line is dropped.
unfoldable pub scan : Bytes → Bytes → List Bytes → Exec (List Bytes)
scan [] token tokens = do require (ltb (length tokens) max_num_tokens); ok tokens
scan (c ∷ line) token tokens =
    let after_blank = add_token token tokens >>= λ tokens'. scan line [] tokens' in
    let after_byte = scan line (token ++ c ∷ []) tokens in
    do require (ltb (length token) max_token_size); if is_blank c then after_blank else after_byte

unfoldable pub tokenize : Bytes → Exec (List Bytes)
tokenize line = scan line [] []

-- The array `tokens`, of `places` pointers: the tokens and the NULL behind the last. `malloc` is asked for
-- 64 places. Those behind the NULL are never written; they are NULL here, as in cleared memory.
abbrev pub cells : ℕ → List Bytes → List (Option Bytes)
cells places tokens = map some tokens ++ replicate (places - length tokens) none

-- `tokens[i]` as a value
unfoldable pub load : List (Option Bytes) → ℕ → Exec (Option Bytes)
load [] i = undefined
load (v ∷ array) zero = ok v
load (v ∷ array) (suc i) = load array i

-- `tokens[i] = v`
unfoldable pub store : List (Option Bytes) → ℕ → Option Bytes → Exec (List (Option Bytes))
store array i v = do require (ltb i (length array)); ok (set array i v)

-- The loop of `shiftLeft`, with `n` rounds left from round `i` on.
unfoldable pub shift_loop : (n i : ℕ) → List (Option Bytes) → Exec (List (Option Bytes))
shift_loop zero i array = ok array
shift_loop (suc n) i array = do
  v ← load array (i + 1)
  array' ← store array i v
  shift_loop n (i + 1) array'

unfoldable pub shift_left : List (Option Bytes) → Exec (List (Option Bytes))
shift_left array = do
  array' ← shift_loop (max_num_tokens - 1) 0 array
  store array' max_num_tokens none
