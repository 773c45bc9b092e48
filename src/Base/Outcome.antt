-- ===== src/Base/Outcome.antt =====
-- What a piece of C code does: it yields a value, it calls `exit` with a status, or its behaviour is
-- undefined (an access out of bounds, a read of an indeterminate object, a signed overflow).
use Prim.Native.Nat.{ℕ}
use mathlib.Core.Path.{◌≡◌, refl, subst}
use mathlib.Core.Bool.{Bool, true, false}
use sysalgos.Base.Tests.{if◌then◌else◌}

pub data Exec {ℓ} (A : Type ℓ) : Type ℓ where
  ok : A → Exec A
  exits : ℕ → Exec A
  undefined : Exec A

infixl 5 ◌>>=◌ ◌>>◌
abbrev pub ◌>>=◌ {ℓ κ} : {A : Type ℓ} {B : Type κ} → Exec A → (A → Exec B) → Exec B
ok a >>= f = f a
exits n >>= f = exits n
undefined >>= f = undefined

abbrev pub ◌>>◌ {ℓ} : {B : Type ℓ} → Exec (Unit {0}) → Exec B → Exec B
m >> k = m >>= λ _. k

-- An access that is defined only where the test holds.
abbrev pub require : Bool → Exec (Unit {0})
require true = ok tt
require false = undefined

-- `if (failed) { perror(…); exit(1); }`, given whether the call succeeded.
abbrev pub succeed : Bool → Exec (Unit {0})
succeed true = ok tt
succeed false = exits 1

pub >>=_assoc {ℓ κ μ} :
    {A : Type ℓ} {B : Type κ} {C : Type μ} (m : Exec A) (f : A → Exec B) (g : B → Exec C)
    → (m >>= f >>= g) ≡ (m >>= λ a. f a >>= g)
>>=_assoc (ok a) f g = refl
>>=_assoc (exits n) f g = refl
>>=_assoc undefined f g = refl

-- Whatever value the code yields meets `P`. A family, so that `P` is read off a goal.
pub data Ensures {ℓ κ} {A : Type ℓ} (P : A → Type κ) : Exec A → Type (ℓ ⊔ κ) where
  yields : {a : A} → P a → Ensures P (ok a)
  ends : {n : ℕ} → Ensures P (exits n)
  faults : Ensures P undefined

-- The code yields a value, and the value meets `P`.
pub data Yields {ℓ κ} {A : Type ℓ} (P : A → Type κ) : Exec A → Type (ℓ ⊔ κ) where
  returns : {a : A} → P a → Yields P (ok a)

module _ {ℓ κ} {A : Type ℓ} {P : A → Type κ} where
  pub Yields-value : {m : Exec A} → Yields P m → (a : A) × (m ≡ ok a) × P a
  Yields-value (returns p) = (_, refl, p)

module _ {ℓ κ} {A : Type ℓ} {P : A → Type κ} where
  pub Ensures-ok : {a : A} → Ensures P (ok a) → P a
  Ensures-ok (yields p) = p

  pub Ensures_at : {m : Exec A} {a : A} → Ensures P m → m ≡ ok a → P a
  Ensures_at e h = Ensures-ok (subst (Ensures P) h e)

-- A step whose value is known only by the equation that it comes from.
pub on_value {ℓ κ μ} :
    {A : Type ℓ} {B : Type κ} {P : B → Type μ} (m : Exec A) {f : A → Exec B}
    → ((a : A) → m ≡ ok a → Ensures P (f a))
    → Ensures P (m >>= f)
on_value (ok a) k = k a refl
on_value (exits n) k = ends
on_value undefined k = faults

-- A step with a postcondition of its own.
pub after {ℓ κ μ ν} :
    {A : Type ℓ} {B : Type κ} {Q : A → Type ν} {P : B → Type μ} {m : Exec A} {f : A → Exec B}
    → Ensures Q m
    → ((a : A) → Q a → Ensures P (f a))
    → Ensures P (m >>= f)
after (yields q) k = k _ q
after ends k = ends
after faults k = faults

pub on_test {ℓ κ} :
    {A : Type ℓ} {P : A → Type κ} (b : Bool) {x y : Exec A}
    → (b ≡ true → Ensures P x)
    → (b ≡ false → Ensures P y)
    → Ensures P (if b then x else y)
on_test true p q = p refl
on_test false p q = q refl

pub weaken {ℓ κ μ} :
    {A : Type ℓ} {P : A → Type κ} {Q : A → Type μ} {m : Exec A}
    → Ensures P m
    → ((a : A) → P a → Q a)
    → Ensures Q m
weaken (yields p) k = yields (k _ p)
weaken ends k = ends
weaken faults k = faults

-- Two continuations that agree on what a step yields.
pub >>=_cong {ℓ κ μ} :
    {A : Type ℓ} {B : Type κ} {Q : A → Type μ} {m : Exec A} (f g : A → Exec B)
    → Ensures Q m
    → ((a : A) → Q a → f a ≡ g a)
    → (m >>= f) ≡ (m >>= g)
>>=_cong f g (yields q) h = h _ q
>>=_cong f g ends h = refl
>>=_cong f g faults h = refl

pub Yields-after {ℓ κ μ ν} :
    {A : Type ℓ} {B : Type κ} {Q : A → Type ν} {P : B → Type μ} {m : Exec A} {f : A → Exec B}
    → Yields Q m
    → ((a : A) → Q a → Yields P (f a))
    → Yields P (m >>= f)
Yields-after (returns q) k = k _ q

pub Yields-weaken {ℓ κ μ} :
    {A : Type ℓ} {P : A → Type κ} {Q : A → Type μ} {m : Exec A}
    → Yields P m
    → ((a : A) → P a → Q a)
    → Yields Q m
Yields-weaken (returns p) k = returns (k _ p)
