-- ===== src/Calculator/Evaluate/Texts.antt =====
-- Expressions and their postfix texts.
use sysalgos.Base.{
  ℕ, ◌+◌, ◌<◌, ◌≡◌, refl, ◌≢◌, ap, List, [], ◌∷◌, ◌++◌, append_assoc, arith, length, length-append,
}
use sysalgos.Libc.Text.{Bytes, All, Lacks, All-append}

pub data Op : Type 0 where
  plus minus times over : Op

-- A number is written with one or more digits; a decimal has a point and any digits behind it.
pub data Expr : Type 0 where
  integer : (d : ℕ) (ds : List ℕ) → Expr
  decimal : (d : ℕ) (ds fs : List ℕ) → Expr
  binary : Op → Expr → Expr → Expr

abbrev pub IsDigits : List ℕ → Type 0
IsDigits = All (λ d. d < 10)

abbrev pub IsWritten : Expr → Type 0
IsWritten (integer d ds) = (d < 10) × IsDigits ds
IsWritten (decimal d ds fs) = (d < 10) × IsDigits ds × IsDigits fs
IsWritten (binary op a b) = IsWritten a × IsWritten b

abbrev pub op_byte : Op → ℕ
op_byte plus = b'+'
op_byte minus = b'-'
op_byte times = b'*'
op_byte over = b'/'

abbrev pub digit_bytes : List ℕ → Bytes
digit_bytes [] = []
digit_bytes (d ∷ ds) = (b'0' + d) ∷ digit_bytes ds

-- Each number is followed by a blank, each operator stands behind its operands.
unfoldable pub render : Expr → Bytes
render (integer d ds) = digit_bytes (d ∷ ds) ++ b' ' ∷ []
render (decimal d ds fs) = digit_bytes (d ∷ ds) ++ b'.' ∷ (digit_bytes fs ++ b' ' ∷ [])
render (binary op a b) = render a ++ (render b ++ op_byte op ∷ [])

pub length-render-pos : (e : Expr) → 0 < length (render e)
unfolding render
length-render-pos (integer d ds) = omega arith
length-render-pos (decimal d ds fs) = omega arith
length-render-pos (binary op a b) =
    omega (arith, length-render-pos a, length-append {0} (render a) (render b ++ op_byte op ∷ []))

pub binary_text :
    (a b : Bytes) (o : ℕ) (rest : Bytes) → (a ++ (b ++ o ∷ [])) ++ rest ≡ a ++ (b ++ o ∷ rest)
binary_text a b o rest = simp append_assoc

digit_bytes-Lacks : (b : ℕ) → b < b'0' → (ds : List ℕ) → Lacks b (digit_bytes ds)
digit_bytes-Lacks b h [] = tt
digit_bytes-Lacks b h (d ∷ ds) = (omega arith, digit_bytes-Lacks b h ds)

-- A written expression holds no NUL and no newline.
pub render-Lacks : (b : ℕ) → b < b' ' → (e : Expr) → Lacks b (render e)
unfolding render
render-Lacks b h (integer d ds) =
    All-append (λ c. c ≢ b) (digit_bytes (d ∷ ds)) (b' ' ∷ [])
      (digit_bytes-Lacks b (omega arith) (d ∷ ds)) (omega arith)
render-Lacks b h (decimal d ds fs) =
    All-append (λ c. c ≢ b) (digit_bytes (d ∷ ds)) _ (digit_bytes-Lacks b (omega arith) (d ∷ ds))
      (
        omega arith,
        All-append (λ c. c ≢ b) (digit_bytes fs) (b' ' ∷ []) (digit_bytes-Lacks b (omega arith) fs)
            (omega arith),
      )
render-Lacks b h (binary op x y) =
    All-append (λ c. c ≢ b) (render x) _ (render-Lacks b h x)
      (All-append (λ c. c ≢ b) (render y) (op_byte op ∷ []) (render-Lacks b h y) (ground arith))

-- It begins with a digit.
pub render-digit :
    (e : Expr) → IsWritten e → (d : ℕ) × (r : Bytes) × (render e ≡ (b'0' + d) ∷ r) × (d < 10)
unfolding render
render-digit (integer d ds) (hd, _) = (d, digit_bytes ds ++ b' ' ∷ [], refl, hd)
render-digit (decimal d ds fs) (hd, _, _) =
    (d, digit_bytes ds ++ b'.' ∷ (digit_bytes fs ++ b' ' ∷ []), refl, hd)
render-digit (binary op x y) (hx, _) =
    let (d, r, e, h) = render-digit x hx in
    (d, r ++ (render y ++ op_byte op ∷ []), ap (λ t. t ++ (render y ++ op_byte op ∷ [])) e, h)
