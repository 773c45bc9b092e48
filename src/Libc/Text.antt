-- ===== src/Libc/Text.antt =====
-- Byte buffers and NUL-terminated texts: `memset`, `memcpy`, `strlen`, `strncmp`, `strcmp`, and `recv`
-- into a buffer. A buffer is the list of its bytes, so its length is its size.
use Prim.Native.Char.{code}
use Prim.Native.String.{String}
use native.Mathlib.Nat.{zero-add, suc-add, sub-zero, zero-sub, suc-sub-suc}
use sysalgos.Base.{
  ℕ, zero, suc, ◌+◌, ◌-◌, ◌≤◌, ◌<◌, ◌≡◌, refl, sym, ap, ◌≢◌, Bool, true, false, ◌&&◌, ◌||◌, List,
  [], ◌∷◌, ◌++◌, append-nil, append_assoc, arith, ◌==◌, leb, le→leb, if◌then◌else◌, length, take,
  drop, replicate, length-append, length-replicate, Exec, ok, undefined, ◌>>=◌,
}

abbrev pub Bytes : Type 0
Bytes = List ℕ

-- The bytes of an ASCII literal, without the NUL that ends it.
abbrev pub codes : String → Bytes
codes String.[] = []
codes (String.◌∷◌ c s) = code c ∷ codes s

abbrev pub All {ℓ κ} : {A : Type ℓ} → (A → Type κ) → List A → Type κ
All P [] = Unit
All P (x ∷ xs) = P x × All P xs

abbrev pub Lacks : ℕ → Bytes → Type 0
Lacks b = All (λ c. c ≢ b)

-- A text in memory goes up to its first NUL; with no NUL a reader runs out of the array.
unfoldable pub c_string : Bytes → Exec Bytes
c_string [] = undefined
c_string (c ∷ s) = if c == 0 then ok [] else (do t ← c_string s; ok (c ∷ t))

-- `strncmp(a, b, n) == 0` for a literal `b` of at least `n` bytes
unfoldable pub strncmp_eq : ℕ → Bytes → Bytes → Bool
strncmp_eq zero a b = true
strncmp_eq (suc n) (x ∷ a) (y ∷ b) = x == y && (x == 0 || strncmp_eq n a b)
strncmp_eq (suc n) _ _ = false

-- `strcmp(a, b) == 0`, for texts without their NUL
unfoldable pub strcmp_eq : Bytes → Bytes → Bool
strcmp_eq [] [] = true
strcmp_eq (x ∷ a) (y ∷ b) = x == y && strcmp_eq a b
strcmp_eq _ _ = false

-- `memset(buffer, 0, n)` of a whole buffer
abbrev pub zeros : ℕ → Bytes
zeros n = replicate n 0

-- `memcpy(&buffer[k], src, …)` and `buffer[k] = …`
unfoldable pub write_at : ℕ → Bytes → Bytes → Exec Bytes
write_at k src buffer =
    if leb (k + length src) (length buffer)
    then ok (take k buffer ++ (src ++ drop (k + length src) buffer))
    else undefined

-- `recv(fd, buffer, sizeof buffer, 0)` and `read`: the bytes that arrive, as many as fit
unfoldable pub recv_into : Bytes → Bytes → Bytes
recv_into msg buffer = let got = take (length buffer) msg in got ++ drop (length got) buffer

-- `fgets`: at most `n` bytes of the input, up to a newline.
unfoldable pub input_line : ℕ → Bytes → Bytes
input_line zero s = []
input_line (suc n) [] = []
input_line (suc n) (c ∷ s) = c ∷ (if c == b'\n' then [] else input_line n s)

module _ {ℓ κ} {A : Type ℓ} (P : A → Type κ) where
  pub All-append : (xs ys : List A) → All P xs → All P ys → All P (xs ++ ys)
  All-append [] ys _ hy = hy
  All-append (x ∷ xs) ys (px, hx) hy = (px, All-append xs ys hx hy)

pub c_string-append : (s r : Bytes) → Lacks 0 s → c_string (s ++ 0 ∷ r) ≡ ok s
unfolding c_string
c_string-append [] r _ = refl
c_string-append (c ∷ s) r (hc, hs) = ground (arith, c_string-append s r hs)

pub c_string-zeros : (s : Bytes) (n : ℕ) → Lacks 0 s → 0 < n → c_string (s ++ zeros n) ≡ ok s
c_string-zeros s zero h lt = absurd (omega arith)
c_string-zeros s (suc n) h lt = c_string-append s (zeros n) h

module _ {ℓ} {A : Type ℓ} where
  pub take-append_length : (xs ys : List A) → take (length xs) (xs ++ ys) ≡ xs
  take-append_length [] ys = refl
  take-append_length (x ∷ xs) ys = ap (λ t. x ∷ t) (take-append_length xs ys)

  pub drop-append_length : (xs ys : List A) → drop (length xs) (xs ++ ys) ≡ ys
  drop-append_length [] ys = refl
  drop-append_length (x ∷ xs) ys = drop-append_length xs ys

  drop-nil : (k : ℕ) → ◌≡◌ {A = List A} (drop k []) []
  drop-nil zero = refl
  drop-nil (suc k) = refl

  pub drop-drop : (k n : ℕ) (xs : List A) → drop (n + k) xs ≡ drop k (drop n xs)
  drop-drop k zero xs = rw zero-add
  drop-drop k (suc n) [] = rw suc-add (sym (drop-nil k))
  drop-drop k (suc n) (x ∷ xs) = rw suc-add (drop-drop k n xs)

  pub drop-replicate : (k n : ℕ) (a : A) → drop k (replicate n a) ≡ replicate (n - k) a
  drop-replicate zero n a = rw (sub-zero n)
  drop-replicate (suc k) zero a = rw zero-sub
  drop-replicate (suc k) (suc n) a = rw (suc-sub-suc n k) (drop-replicate k n a)

  pub take_all : (n : ℕ) (xs : List A) → length xs ≤ n → take n xs ≡ xs
  take_all zero [] h = refl
  take_all zero (x ∷ xs) h = absurd (omega arith)
  take_all (suc n) [] h = refl
  take_all (suc n) (x ∷ xs) h = ap (λ t. x ∷ t) (take_all n xs (omega arith))

module _ {ℓ} {A : Type ℓ} where
  drop_all : (n : ℕ) (xs : List A) → length xs ≤ n → drop n xs ≡ []
  drop_all zero [] h = refl
  drop_all zero (x ∷ xs) h = absurd (omega arith)
  drop_all (suc n) [] h = refl
  drop_all (suc n) (x ∷ xs) h = drop_all n xs (omega arith)

-- A copy behind a written part, into the zeros that follow it.
pub write_at-append :
    (k : ℕ) (front src : Bytes) (n : ℕ)
    → k ≡ length front
    → length src ≤ n
    → write_at k src (front ++ zeros n) ≡ ok ((front ++ src) ++ zeros (n - length src))
unfolding write_at
write_at-append k front src n e fits = rw (
  e,
  le→leb (length front + length src) (length (front ++ zeros n))
      (omega (arith, length-append front (zeros n), length-replicate {A = ℕ} n 0)),
  take-append_length front (zeros n),
  drop-drop (length src) (length front) (front ++ zeros n),
  drop-append_length front (zeros n),
  drop-replicate {A = ℕ} (length src) n 0,
  append_assoc,
)

-- What arrives in a zeroed buffer.
pub recv_into-zeros :
    (msg : Bytes) (n : ℕ) → length msg ≤ n → recv_into msg (zeros n) ≡ msg ++ zeros (n - length msg)
unfolding recv_into
recv_into-zeros msg n h =
    rw (length-replicate {A = ℕ} n 0, take_all n msg h, drop-replicate {A = ℕ} (length msg) n 0)

-- A message that fills the buffer replaces it.
pub recv_into-full : (msg buffer : Bytes) → length msg ≡ length buffer → recv_into msg buffer ≡ msg
unfolding recv_into
recv_into-full msg buffer h = rw (
  take_all (length buffer) msg (omega arith),
  h,
  drop_all (length buffer) buffer (omega arith),
  append-nil,
)

-- A line of input with its newline.
pub input_line-newline :
    (n : ℕ) (s more : Bytes)
    → Lacks b'\n' s
    → length s < n
    → input_line n (s ++ b'\n' ∷ more) ≡ s ++ b'\n' ∷ []
unfolding input_line
input_line-newline zero s more l h = absurd (omega arith)
input_line-newline (suc n) [] more l h = refl
input_line-newline (suc n) (c ∷ s) more (hc, l) h = ground (arith, input_line-newline n s more l)
