-- ===== src/Blas/Gemmt/Tests.antt =====
-- A call with a ragged last tile: the lower triangle of 3 by 3, with tiles of 2, over the natural
-- numbers.
use xkblas.Base.{ℕ, ◌≡◌, refl, arith, inl, inr, none, List}
use xkblas.Blas.Context.Three.{Apart}
use xkblas.Blas.Context.{Context, done}
use xkblas.Blas.Descr.{new_descr, isinit}
use xkblas.Blas.Gemm.Correct.{operand_a, operand_b, operand_c}
use xkblas.Blas.Gemmt.Check.{gemmt_call}
use xkblas.Blas.Gemmt.Correct.{gemmt_spec, zgemmt-Computes}
use xkblas.Blas.Gemmt.{GemmtCall, check_gemmt, zgemmt_async}
use xkblas.Blas.Kernel.Cover.{Computes}
use xkblas.Blas.Kernel.Reference.{reference_kernels}
use xkblas.Blas.Task.{Task, no_trans, conj_trans, lower}
use xkblas.Scalar.Naturals.{naturals}
use xkblas.Scalar.{Scalar}

instance abbrev scalars : Scalar ℕ
scalars = naturals

abbrev empty : Context
empty = λ p. new_descr

abbrev ragged : GemmtCall ℕ
ragged = gemmt_call lower no_trans conj_trans 3 2 5 1 3 2 3 7 3 4

ragged-legal : check_gemmt ragged ≡ none
unfolding check_gemmt
ragged-legal = refl

ragged-Apart :
    Apart 2 (operand_a no_trans 3 2 1 3) (operand_b conj_trans 3 2 2 3) (operand_c 3 3 3 4) empty
unfolding isinit
ragged-Apart = record {
  a_b = omega arith;
  a_c = omega arith;
  b_c = omega arith;
  known_a = inl refl;
  known_b = inl refl;
  known_c = inl refl;
}

zgemmt-Computes_example :
    (final : Context) × (ts : List (Task ℕ)) × (zgemmt_async 2 ragged empty ≡ done final ts)
    × Computes reference_kernels ts 3 3 3 4
        (gemmt_spec 2 lower no_trans conj_trans 2 5 1 3 2 3 7 3 4)
zgemmt-Computes_example =
    zgemmt-Computes reference_kernels 2 empty lower no_trans conj_trans 3 2 5 1 3 2 3 7 3 4
      (omega arith) (omega arith) (omega arith) ragged-Apart (inr (inr refl)) ragged-legal
      (inl (omega arith))
