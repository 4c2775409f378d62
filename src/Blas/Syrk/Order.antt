-- ===== src/Blas/Syrk/Order.antt =====
-- In which order the loops of zsyrk reach the tile of an element.
use xkblas.Base.{
  ℕ, ◌+◌, ◌/◌, ◌<◌, ◌≤◌, ◌≡◌, ◌≢◌, ◌⊎◌, inl, inr, arith, true, false, ℤ, eq_int, if◌then◌else◌,
  dec_lt, mul_mono, ℕ_discrete,
}
use xkblas.Blas.Kernel.{IsUplo, in_triangle}
use xkblas.Blas.Task.{lower}

-- the tile of an element, as the round of the outer loop and the round of the inner loop
abbrev pub first : ℤ → (nb i j : ℕ) → ℕ
first uplo nb i j = if eq_int uplo lower then j / nb else i / nb

abbrev pub second : ℤ → (nb i j : ℕ) → ℕ
second uplo nb i j = if eq_int uplo lower then i / nb else j / nb

pub div_mono : (i j b : ℕ) → 0 < b → i ≤ j → i / b ≤ j / b
div_mono i j b hb h = elim (dec_lt (j / b) (i / b)) [
  | yes p ↦ absurd (omega (arith, mul_mono (j / b + 1) (i / b) b (omega arith)))
  | no p ↦ omega arith
]

pub in_triangle-first :
    (uplo : ℤ) (nb i j : ℕ)
    → 0 < nb
    → IsUplo uplo
    → in_triangle uplo i j ≡ true
    → first uplo nb i j ≤ second uplo nb i j
in_triangle-first uplo nb i j hb (inl e) h =
    rw e (div_mono i j nb hb (let h' = (rw e at h) in ground arith))
in_triangle-first uplo nb i j hb (inr e) h =
    rw e (div_mono j i nb hb (let h' = (rw e at h) in ground arith))

pub in_triangle-second :
    (uplo : ℤ) (nb i j : ℕ)
    → 0 < nb
    → IsUplo uplo
    → in_triangle uplo i j ≡ false
    → second uplo nb i j ≤ first uplo nb i j
in_triangle-second uplo nb i j hb (inl e) h =
    rw e (div_mono j i nb hb (let h' = (rw e at h) in ground arith))
in_triangle-second uplo nb i j hb (inr e) h =
    rw e (div_mono i j nb hb (let h' = (rw e at h) in ground arith))

pub not_beyond : (y x a b : ℕ) → y < x → b ≤ a → (y ≢ a) ⊎ (x ≢ b)
not_beyond y x a b h l = elim (ℕ_discrete y a) [ yes e ↦ inr (λ f. omega arith) | no ne ↦ inl ne ]

pub not_diagonal : (y a b : ℕ) → a ≢ b → (y ≢ a) ⊎ (y ≢ b)
not_diagonal y a b ne = elim (ℕ_discrete y a) [ yes e ↦ inr (λ f. omega arith) | no ne ↦ inl ne ]
