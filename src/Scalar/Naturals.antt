-- ===== src/Scalar/Naturals.antt =====
-- The natural numbers as scalars, with the identity for a conjugation.
use xkblas.Base.{ℕ, ◌+◌, ◌*◌, ◌≡◌, arith, ◌==◌, true}
use xkblas.Scalar.{Scalar}

add_assoc : (a b c : ℕ) → a + b + c ≡ a + (b + c)
add_assoc a b c = omega arith

add_comm : (a b : ℕ) → a + b ≡ b + a
add_comm a b = omega arith

zero-add : (a : ℕ) → 0 + a ≡ a
zero-add a = omega arith

one-mul : (a : ℕ) → 1 * a ≡ a
one-mul a = omega arith

zero-mul : (a : ℕ) → 0 * a ≡ 0
zero-mul a = omega arith

mul-zero : (a : ℕ) → a * 0 ≡ 0
mul-zero a = omega arith

mul-add : (a b c : ℕ) → a * (b + c) ≡ a * b + a * c
mul-add a b c = omega arith

eq_sound : (a b : ℕ) → a == b ≡ true → a ≡ b
eq_sound a b h = ground arith

unfoldable pub naturals : Scalar ℕ
unfolding add_assoc add_comm zero-add one-mul zero-mul mul-zero mul-add eq_sound
naturals = record {
  zero = 0;
  one = 1;
  add = ◌+◌;
  mul = ◌*◌;
  conj = λ a. a;
  is_zero = λ a. a == 0;
  is_one = λ a. a == 1;
  add_assoc = add_assoc;
  add_comm = add_comm;
  zero-add = zero-add;
  one-mul = one-mul;
  zero-mul = zero-mul;
  mul-zero = mul-zero;
  mul-add = mul-add;
  is_zero_sound = λ a h. eq_sound a 0 h;
  is_one_sound = λ a h. eq_sound a 1 h;
}
