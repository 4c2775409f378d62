-- ===== src/Scalar/Sum.antt =====
-- Sums over a range, and a sum taken tile by tile.
use xkblas.Base.{ℕ, zero, suc, ◌+◌, ◌*◌, ◌<◌, ◌≡◌, refl, sym, ap, ◌∙◌, arith}
use xkblas.Scalar.{Scalar, ◌⊕◌, add-zero}

module _ {ℓ} {R : Type ℓ} ⦃s : Scalar R⦄ where
  unfoldable pub sum : ℕ → (ℕ → R) → R
  sum zero f = s.zero
  sum (suc n) f = sum n f ⊕ f n

  pub sum_congr : (n : ℕ) (f g : ℕ → R) → ((l : ℕ) → l < n → f l ≡ g l) → sum n f ≡ sum n g
  unfolding sum
  sum_congr zero f g h = refl
  sum_congr (suc n) f g h = rw (sum_congr n f g (λ l p. h l (omega arith)), h n (omega arith)) refl

  pub sum_split : (m n : ℕ) (f : ℕ → R) → sum (m + n) f ≡ sum m f ⊕ sum n (λ l. f (m + l))
  unfolding sum
  sum_split m zero f = let e : m + 0 ≡ m = omega arith in rw e (sym (add-zero (sum m f)))
  sum_split m (suc n) f =
      let e : m + suc n ≡ suc (m + n) = omega arith in
      rw (e, sum) (rw (sum_split m n f) (s.add_assoc _ _ _))

  -- `n` full tiles of `b` terms are `n * b` terms.
  pub sum_full : (n b : ℕ) (f : ℕ → R) → sum n (λ k. sum b (λ l. f (k * b + l))) ≡ sum (n * b) f
  unfolding sum
  sum_full zero b f = let e : 0 * b ≡ 0 = omega arith in rw e refl
  sum_full (suc n) b f =
      let e : suc n * b ≡ n * b + b = omega arith in
      rw (e, sum_full n b f) (sym (sum_split (n * b) b f))

  pub sum_front : (n : ℕ) (f : ℕ → R) → sum (suc n) f ≡ f 0 ⊕ sum n (λ l. f (suc l))
  unfolding sum
  sum_front zero f = s.zero-add (f 0) ∙ sym (add-zero (f 0))
  sum_front (suc n) f = ap (λ t. t ⊕ f (suc n)) (sum_front n f) ∙ s.add_assoc _ _ _
