-- ===== src/Libc/Decimal.antt =====
-- `atoi` and `sprintf(…, "%d", …)`: decimal texts of an `int`.
pub mod RoundTrip
use sysalgos.Base.{
  ℕ, zero, suc, ◌+◌, ◌-◌, ◌*◌, ◌/◌, ◌%◌, ◌≡◌, refl, Bool, ◌&&◌, ◌||◌, [], ◌∷◌, ◌++◌, ◌==◌, ltb, leb,
  if◌then◌else◌, Exec, ok, undefined, ◌>>=◌,
}
use sysalgos.Base.Int.{ℤ, pos, negsuc, sub_ℕ, to_int}
use sysalgos.Libc.Text.{Bytes, codes}

-- `isspace` of the "C" locale: a space, or one of \t \n \v \f \r
abbrev pub is_space : ℕ → Bool
is_space c = c == 32 || (leb 9 c && leb c 13)

-- `isdigit`
abbrev pub is_digit : ℕ → Bool
is_digit c = leb b'0' c && leb c b'9'

skip_spaces : Bytes → Bytes
skip_spaces [] = []
skip_spaces (c ∷ s) = if is_space c then skip_spaces s else c ∷ s

-- The number that the digits at the front spell, behind the digits `n` already read.
number : Bytes → ℕ → ℕ
number [] n = n
number (c ∷ s) n = if is_digit c then number s (n * 10 + (c - b'0')) else n

signed : Bytes → ℤ
unfolding number
signed [] = pos 0
signed (c ∷ s) =
    if c == b'-'
    then sub_ℕ 0 (number s 0)
    else if c == b'+'
    then pos (number s 0)
    else pos (number (c ∷ s) 0)

-- `atoi` has no defined result where the number is no `int`.
unfoldable pub atoi : Bytes → Exec ℤ
unfolding skip_spaces signed
atoi s = to_int (signed (skip_spaces s))

-- The last `f` decimal digits of `n`, without leading zeros.
digits : ℕ → ℕ → Bytes
digits zero n = []
digits (suc f) n =
    let front = digits f (n / 10) in
    if ltb n 10 then (b'0' + n) ∷ [] else front ++ (b'0' + n % 10) ∷ []

-- An `int` has at most ten digits.
unfoldable pub print_int : ℤ → Bytes
unfolding digits
print_int (pos n) = digits 10 n
print_int (negsuc n) = b'-' ∷ digits 10 (suc n)

print_zero : print_int (pos 0) ≡ codes "0"
unfolding print_int
print_zero = refl

print_negative : print_int (negsuc 1209) ≡ codes "-1210"
unfolding print_int
print_negative = refl

read_spaced : atoi (codes "\t -042x7") ≡ ok (negsuc 41)
unfolding atoi
read_spaced = refl

read_nothing : atoi (codes "many") ≡ ok (pos 0)
unfolding atoi
read_nothing = refl

read_too_large : atoi (codes "2147483648") ≡ undefined
unfolding atoi
read_too_large = refl
