-- ===== src/Mlfq/Sums.antt =====
-- Sums over the first members of a family, and how often a list holds a number.
use sysalgos.Base.{
  ℕ, zero, suc, ◌+◌, ◌≤◌, ◌<◌, ◌≡◌, refl, ◌≢◌, List, [], ◌∷◌, ◌++◌, arith, ◌==◌, put, if◌then◌else◌,
  dec_lt,
}
use sysalgos.Mlfq.Scheduler.{tail}

module _ {ℓ} {A : Type ℓ} (w : A → ℕ) where
  unfoldable pub total : ℕ → (ℕ → A) → ℕ
  total zero f = 0
  total (suc n) f = total n f + w (f n)

  total-put_beyond : (n : ℕ) (f : ℕ → A) (i : ℕ) (a : A) → n ≤ i → total n (put f i a) ≡ total n f
  unfolding total
  total-put_beyond zero f i a h = refl
  total-put_beyond (suc n) f i a h = ground (arith, total-put_beyond n f i a)

  -- Another member at `i`: its weight takes the place of the old one's.
  pub total-put :
      (n : ℕ) (f : ℕ → A) (i : ℕ) (a : A) → i < n → total n (put f i a) + w (f i) ≡ total n f + w a
  unfolding total
  total-put zero f i a h = absurd (omega arith)
  total-put (suc n) f i a h = elim (dec_lt i n) [
    | yes below ↦
        let same : put f i a n ≡ f n = ground arith in
        rw same (omega (arith, total-put n f i a below))
    | no last ↦
        let e : i ≡ n = omega arith in
        let new : put f i a n ≡ a = ground arith in
        rw (new, total-put_beyond n f i a (omega arith), e) (omega arith)
  ]

  pub total-put_same :
      (n : ℕ) (f : ℕ → A) (i : ℕ) (a : A) → w a ≡ w (f i) → total n (put f i a) ≡ total n f
  total-put_same n f i a e = elim (dec_lt i n) [
    | yes below ↦ omega (arith, total-put n f i a below)
    | no beyond ↦ total-put_beyond n f i a (omega arith)
  ]

  pub total-le_member : (n : ℕ) (f : ℕ → A) (i : ℕ) → i < n → w (f i) ≤ total n f
  unfolding total
  total-le_member zero f i h = absurd (omega arith)
  total-le_member (suc n) f i h = elim (dec_lt i n) [
    | yes below ↦ omega (arith, total-le_member n f i below)
    | no last ↦ let e : i ≡ n = omega arith in rw e (omega arith)
  ]

  pub total_cong :
      (n : ℕ) (f g : ℕ → A) → ((i : ℕ) → i < n → w (f i) ≡ w (g i)) → total n f ≡ total n g
  unfolding total
  total_cong zero f g h = refl
  total_cong (suc n) f g h =
      omega (arith, total_cong n f g (λ i lt. h i (omega arith)), h n (omega arith))

unfoldable pub count : ℕ → List ℕ → ℕ
count j [] = 0
count j (i ∷ is) = (if i == j then 1 else 0) + count j is

pub count-append : (j : ℕ) (is js : List ℕ) → count j (is ++ js) ≡ count j is + count j js
unfolding count
count-append j [] js = omega arith
count-append j (i ∷ is) js = omega (arith, count-append j is js)

pub count_other : {j k : ℕ} → j ≢ k → count k (j ∷ []) ≡ 0
unfolding count
count_other ne = ground arith

pub count_here : (j : ℕ) (js : List ℕ) → 0 < count j (j ∷ js)
unfolding count
count_here j js = ground arith

pub count-tail : (k : ℕ) (js : List ℕ) → count k (tail js) ≤ count k js
unfolding count
count-tail k [] = omega arith
count-tail k (j ∷ js) = omega arith

pub count_nil : (k : ℕ) → count k [] ≡ 0
unfolding count
count_nil k = refl
