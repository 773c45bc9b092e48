-- ===== src/Libc/Decimal/RoundTrip.antt =====
-- What `atoi` reads back from `sprintf("%d")`, and how long the text is.
use native.Mathlib.Nat.{pow-suc}
use mathlib.Core.List.{concat-ne-nil}
use sysalgos.Base.{
  ℕ, zero, suc, ◌+◌, ◌-◌, ◌*◌, ◌/◌, ◌%◌, ◌^◌, ◌≤◌, ◌<◌, ◌≡◌, refl, ◌≢◌, [], ◌∷◌, ◌++◌, arith, ltb,
  length, length-append, ok, Bool-cases, inl, inr,
}
use sysalgos.Base.Int.{ℤ, pos, negsuc, IsInt, to_int-ok}
use sysalgos.Libc.Text.{Bytes, All, Lacks, All-append}
use sysalgos.Libc.Decimal.{skip_spaces, number, signed, atoi, digits, print_int}

abbrev IsDigit : ℕ → Type 0
IsDigit c = (b'0' ≤ c) × (c ≤ b'9')

digits-IsDigit : (f n : ℕ) → All IsDigit (digits f n)
unfolding digits
digits-IsDigit zero n = tt
digits-IsDigit (suc f) n = elim (Bool-cases (ltb n 10)) [
  | inl small ↦ rw small (ground arith)
  | inr large ↦
      rw large (All-append IsDigit (digits f (n / 10)) _ (digits-IsDigit f (n / 10)) (omega arith))
]

length-digits-le : (f n : ℕ) → length (digits f n) ≤ f
unfolding digits
length-digits-le zero n = omega arith
length-digits-le (suc f) n =
    ground
      (arith, length-digits-le f (n / 10), length-append (digits f (n / 10)) ((b'0' + n % 10) ∷ []))

number-append : (s t : Bytes) (n : ℕ) → All IsDigit s → number (s ++ t) n ≡ number t (number s n)
unfolding number
number-append [] t n _ = refl
number-append (c ∷ s) t n (hc, hs) = ground (arith, number-append s t (n * 10 + (c - b'0')) hs)

number-last : (m d : ℕ) → d < 10 → number ((b'0' + d) ∷ []) m ≡ m * 10 + d
unfolding number
number-last m d h = ground arith

tenth-lt : (f n : ℕ) → n < 10 ^ suc f → n / 10 < 10 ^ f
tenth-lt f n h = let bound = rw (pow-suc 10 f) at h in omega arith

number-digits : (f n : ℕ) → n < 10 ^ f → number (digits f n) 0 ≡ n
unfolding digits number
number-digits zero n h = omega arith
number-digits (suc f) n h = elim (Bool-cases (ltb n 10)) [
  | inl small ↦ rw small (ground (arith, number-last 0 n))
  | inr large ↦
      rw
        (
          large,
          number-append (digits f (n / 10)) ((b'0' + n % 10) ∷ []) 0 (digits-IsDigit f (n / 10)),
          number-digits f (n / 10) (tenth-lt f n h),
        )
        (omega (arith, number-last (n / 10) (n % 10)))
]

digits-ne-nil : (f n : ℕ) → digits (suc f) n ≢ []
unfolding digits
digits-ne-nil f n = ground (arith, concat-ne-nil (b'0' + n % 10) (digits f (n / 10)))

-- The first byte of a number is a digit or a minus sign.
signed_digits : (s : Bytes) → All IsDigit s → s ≢ [] → signed (skip_spaces s) ≡ pos (number s 0)
unfolding signed skip_spaces
signed_digits [] _ h = absurd (h refl)
signed_digits (c ∷ s) (hc, _) _ = ground arith

signed-print_int : (z : ℤ) → IsInt z → signed (skip_spaces (print_int z)) ≡ z
unfolding print_int
signed-print_int (pos n) h = rw (
  signed_digits (digits 10 n) (digits-IsDigit 10 n) (digits-ne-nil 9 n),
  number-digits 10 n (omega arith),
)
signed-print_int (negsuc n) h =
    unfold signed skip_spaces in rw (number-digits 10 (suc n) (omega arith)) (ground arith)

-- `atoi` reads back every `int` that `%d` prints.
pub atoi-print_int : (z : ℤ) → IsInt z → atoi (print_int z) ≡ ok z
unfolding atoi
atoi-print_int z h = rw (signed-print_int z h) (to_int-ok z h)

pub length-print_int-le : (z : ℤ) → length (print_int z) ≤ 11
unfolding print_int
length-print_int-le (pos n) = omega (arith, length-digits-le 10 n)
length-print_int-le (negsuc n) = omega (arith, length-digits-le 10 (suc n))

Lacks-of_digits : (b : ℕ) → b < b'0' → (s : Bytes) → All IsDigit s → Lacks b s
Lacks-of_digits b h [] _ = tt
Lacks-of_digits b h (c ∷ s) (hc, hs) = (omega arith, Lacks-of_digits b h s hs)

-- A printed number holds no byte below a minus sign, such as a NUL or a space.
pub print_int-Lacks : (b : ℕ) → b < b'-' → (z : ℤ) → Lacks b (print_int z)
unfolding print_int
print_int-Lacks b h (pos n) = Lacks-of_digits b (omega arith) _ (digits-IsDigit 10 n)
print_int-Lacks b h (negsuc n) =
    (omega arith, Lacks-of_digits b (omega arith) _ (digits-IsDigit 10 (suc n)))
