-- ===== src/Scalar.antt =====
-- The scalars of the BLAS (Complex64_t of the z precision): exact arithmetic with a conjugation and
-- the comparisons with 0.0 and 1.0 that the routines make. Rounding is not modelled.
pub mod Sum
pub mod Naturals
use mathlib.Core.Path.{◌≡◌, sym}
use xkblas.Base.{Bool, true}

pub record Scalar {ℓ} (R : Type ℓ) : Type ℓ where
  pub zero : R
  pub one : R
  pub add : R → R → R
  pub mul : R → R → R
  pub conj : R → R
  pub is_zero : R → Bool
  pub is_one : R → Bool
  pub add_assoc : (a b c : R) → add (add a b) c ≡ add a (add b c)
  pub add_comm : (a b : R) → add a b ≡ add b a
  pub zero-add : (a : R) → add zero a ≡ a
  pub one-mul : (a : R) → mul one a ≡ a
  pub zero-mul : (a : R) → mul zero a ≡ zero
  pub mul-zero : (a : R) → mul a zero ≡ zero
  pub mul-add : (a b c : R) → mul a (add b c) ≡ add (mul a b) (mul a c)
  pub is_zero_sound : (a : R) → is_zero a ≡ true → a ≡ zero
  pub is_one_sound : (a : R) → is_one a ≡ true → a ≡ one

module _ {ℓ} {R : Type ℓ} ⦃s : Scalar R⦄ where
  infixl 65 ◌⊕◌
  infixl 70 ◌⊗◌
  abbrev pub ◌⊕◌ : R → R → R
  a ⊕ b = s.add a b

  abbrev pub ◌⊗◌ : R → R → R
  a ⊗ b = s.mul a b

  abbrev pub conj : R → R
  conj a = s.conj a

  pub add-zero : (a : R) → a ⊕ s.zero ≡ a
  add-zero a = rw (s.add_comm a) (s.zero-add a)

  -- two accumulations are one
  pub accumulate : (a u v c : R) → a ⊗ v ⊕ (a ⊗ u ⊕ c) ≡ a ⊗ (u ⊕ v) ⊕ c
  accumulate a u v c =
      rw (s.mul-add, s.add_comm (a ⊗ u) (a ⊗ v)) (sym (s.add_assoc (a ⊗ v) (a ⊗ u) c))
