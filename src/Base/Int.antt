-- ===== src/Base/Int.antt =====
-- Signed integers over the native numbers, and C's 32-bit `int`.
use Prim.Native.Nat.{ℕ, suc, ◌+◌, ◌-◌, ◌^◌, ◌≤◌, ◌<◌}
use mathlib.Core.Path.{◌≡◌}
use mathlib.Core.Bool.{Bool, ◌&&◌}
use native.Mathlib.Omega.{arith}
use sysalgos.Base.Tests.{ltb, leb, if◌then◌else◌}
use sysalgos.Base.Outcome.{Exec, ok, undefined}

-- `negsuc n` is -(n + 1).
pub data ℤ : Type 0 where
  pos : ℕ → ℤ
  negsuc : ℕ → ℤ

abbrev pub pos_part : ℤ → ℕ
pos_part (pos n) = n
pos_part (negsuc n) = 0

abbrev pub neg_part : ℤ → ℕ
neg_part (pos n) = 0
neg_part (negsuc n) = suc n

-- a - b, as an integer.
abbrev pub sub_ℕ : ℕ → ℕ → ℤ
sub_ℕ a b = if leb b a then pos (a - b) else negsuc (b - a - 1)

infixl 65 ◌+ℤ◌ ◌-ℤ◌
infix 50 ◌≤ℤ◌
unfoldable pub ◌+ℤ◌ : ℤ → ℤ → ℤ
a +ℤ b = sub_ℕ (pos_part a + pos_part b) (neg_part a + neg_part b)

unfoldable pub ◌-ℤ◌ : ℤ → ℤ → ℤ
a -ℤ b = sub_ℕ (pos_part a + neg_part b) (neg_part a + pos_part b)

abbrev pub ◌≤ℤ◌ : ℤ → ℤ → Type 0
a ≤ℤ b = pos_part a + neg_part b ≤ pos_part b + neg_part a

-- The tests `a <= b` and `a == b` of C.
abbrev pub leb_ℤ : ℤ → ℤ → Bool
leb_ℤ a b = leb (pos_part a + neg_part b) (pos_part b + neg_part a)

abbrev pub eqb_ℤ : ℤ → ℤ → Bool
eqb_ℤ a b = leb_ℤ a b && leb_ℤ b a

-- One lemma for each operation lets `omega` work with the operations shut.
pub +ℤ_parts :
    (a b : ℤ)
    → pos_part (a +ℤ b) + neg_part a + neg_part b ≡ neg_part (a +ℤ b) + pos_part a + pos_part b
unfolding ◌+ℤ◌
+ℤ_parts a b = ground arith

pub -ℤ_parts :
    (a b : ℤ)
    → pos_part (a -ℤ b) + neg_part a + pos_part b ≡ neg_part (a -ℤ b) + pos_part a + neg_part b
unfolding ◌-ℤ◌
-ℤ_parts a b = ground arith

pub eq_of_parts : (a b : ℤ) → pos_part a + neg_part b ≡ pos_part b + neg_part a → a ≡ b
eq_of_parts a b h = ground arith

pub ruleset int_laws = (arith, +ℤ_parts, -ℤ_parts, eq_of_parts)

-- What is moved from one side of a sum to the other leaves the sum.
pub sub-add_move : (x n b : ℤ) → (x -ℤ n) +ℤ (b +ℤ n) ≡ x +ℤ b
sub-add_move x n b = omega int_laws

-- The values of `int`.
abbrev pub int_limit : ℕ
int_limit = 2 ^ 31

abbrev pub IsInt : ℤ → Type 0
IsInt z = (pos_part z < int_limit) × (neg_part z ≤ int_limit)

-- A result outside `int` is undefined behaviour.
abbrev pub to_int : ℤ → Exec ℤ
to_int z = if ltb (pos_part z) int_limit && leb (neg_part z) int_limit then ok z else undefined

pub to_int-ok : (z : ℤ) → IsInt z → to_int z ≡ ok z
to_int-ok z h = ground arith

unfoldable pub add_int : ℤ → ℤ → Exec ℤ
add_int a b = to_int (a +ℤ b)

unfoldable pub sub_int : ℤ → ℤ → Exec ℤ
sub_int a b = to_int (a -ℤ b)

pub add_int-eq-ok : (a b : ℤ) {c : ℤ} → add_int a b ≡ ok c → c ≡ a +ℤ b
unfolding add_int
add_int-eq-ok a b h = ground arith

pub sub_int-eq-ok : (a b : ℤ) {c : ℤ} → sub_int a b ≡ ok c → c ≡ a -ℤ b
unfolding sub_int
sub_int-eq-ok a b h = ground arith
