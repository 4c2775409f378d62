-- ===== src/Blas/Syrk/Tests.antt =====
-- A call with a ragged last tile: the upper triangle of 3 by 3, with tiles of 2, over the natural
-- numbers.
use xkblas.Base.{ℕ, ◌≡◌, refl, arith, inl, none, List}
use xkblas.Blas.Context.Two.{ApartTwo}
use xkblas.Blas.Context.{Context, done}
use xkblas.Blas.Descr.{new_descr, isinit}
use xkblas.Blas.Kernel.Cover.{Computes}
use xkblas.Blas.Kernel.SyrkLoop.{ReadsC}
use xkblas.Blas.Kernel.Reference.{reference_kernels}
use xkblas.Blas.Syrk.Check.{syrk_call}
use xkblas.Blas.Syrk.Correct.{operand_a, operand_c, syrk_spec, zsyrk-Computes}
use xkblas.Blas.Syrk.{SyrkCall, check_syrk, zsyrk_async}
use xkblas.Blas.Task.{Task, trans, upper}
use xkblas.Scalar.Naturals.{naturals}
use xkblas.Scalar.{Scalar}

instance abbrev scalars : Scalar ℕ
scalars = naturals

abbrev empty : Context
empty = λ p. new_descr

abbrev ragged : SyrkCall ℕ
ragged = syrk_call upper trans 3 2 5 1 2 7 3 4

ragged-legal : check_syrk ragged ≡ none
unfolding check_syrk
ragged-legal = refl

ragged-ApartTwo : ApartTwo 2 (operand_a trans 3 2 1 2) (operand_c 3 3 4) empty
unfolding isinit
ragged-ApartTwo = record { a_c = omega arith; known_a = inl refl; known_c = inl refl }

ragged-ReadsC : ReadsC {R = ℕ} 7
unfolding naturals
ragged-ReadsC = record { beta_read = refl; one_read = refl }

zsyrk-Computes_example :
    (final : Context) × (ts : List (Task ℕ)) × (zsyrk_async 2 ragged empty ≡ done final ts)
    × Computes reference_kernels ts 3 3 3 4 (syrk_spec upper trans 2 5 1 2 7 3 4)
zsyrk-Computes_example =
    zsyrk-Computes reference_kernels 2 empty upper trans 3 2 5 1 2 7 3 4 (omega arith) (omega arith)
      (omega arith) ragged-ApartTwo ragged-legal ragged-ReadsC (inl (omega arith))
