-- ===== src/Reservation/Fleet/Sum.antt =====
-- Sums of integers over the first `n` members of a family.
use sysalgos.Base.{put, ℕ, zero, suc, ◌≤◌, ◌<◌, ◌≡◌, refl, ◌∙◌, ap, arith, dec_lt}
use sysalgos.Base.Int.{ℤ, pos, ◌+ℤ◌, int_laws}

+ℤ_right_comm : (x y z : ℤ) → x +ℤ y +ℤ z ≡ x +ℤ z +ℤ y
+ℤ_right_comm x y z = omega int_laws

regroup : (x y z u v : ℤ) → x +ℤ z ≡ u +ℤ v → x +ℤ y +ℤ z ≡ u +ℤ y +ℤ v
regroup x y z u v h = +ℤ_right_comm x y z ∙ ap (λ t. t +ℤ y) h ∙ +ℤ_right_comm u v y

module _ {ℓ} {A : Type ℓ} (w : A → ℤ) where
  pub total : ℕ → (ℕ → A) → ℤ
  total zero f = pos 0
  total (suc n) f = total n f +ℤ w (f n)

  total-put_beyond : (n : ℕ) (f : ℕ → A) (i : ℕ) (a : A) → n ≤ i → total n (put f i a) ≡ total n f
  unfolding total
  total-put_beyond zero f i a h = refl
  total-put_beyond (suc n) f i a h = ground (arith, total-put_beyond n f i a)

  pub total-put :
      (n : ℕ) (f : ℕ → A) (i : ℕ) (a : A)
      → i < n
      → total n (put f i a) +ℤ w (f i) ≡ total n f +ℤ w a
  unfolding total
  total-put zero f i a h = absurd (omega arith)
  total-put (suc n) f i a h = elim (dec_lt i n) [
    | yes below ↦
        let same : put f i a n ≡ f n = ground arith in
        rw same (
          regroup (total n (put f i a)) (w (f n)) (w (f i)) (total n f) (w a)
            (total-put n f i a below))
    | no last ↦
        let e : i ≡ n = omega arith in
        let new : put f i a n ≡ a = ground arith in
        rw (new, total-put_beyond n f i a (omega arith), e)
          (+ℤ_right_comm (total n f) (w a) (w (f n)))
  ]

  pub total-eq-zero : (n : ℕ) (a : A) → w a ≡ pos 0 → total n (λ _. a) ≡ pos 0
  unfolding total
  total-eq-zero zero a h = refl
  total-eq-zero (suc n) a h = rw (total-eq-zero n a h, h) (omega int_laws)
