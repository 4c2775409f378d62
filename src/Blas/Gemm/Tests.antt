-- ===== src/Blas/Gemm/Tests.antt =====
-- A call with a ragged last tile: 3 by 2 by 3 with tiles of 2, over the natural numbers.
use xkblas.Base.{ℕ, ◌≡◌, ◌↔◌, refl, arith, inl, inr, none, List, negsuc}
use xkblas.Blas.Context.Three.{Apart}
use xkblas.Blas.Context.{Context, done}
use xkblas.Blas.Descr.{new_descr, isinit}
use xkblas.Blas.Gemm.Check.{call, AreInts, IsLegal, check-IsLegal, negative_ld_passes}
use xkblas.Blas.Gemm.Correct.{operand_a, operand_b, operand_c, gemm_spec, zgemm-Computes}
use xkblas.Blas.Gemm.{GemmCall, check_arguments, zgemm_async}
use xkblas.Blas.Kernel.Cover.{Computes}
use xkblas.Blas.Kernel.Reference.{reference_kernels}
use xkblas.Blas.Task.{Task, no_trans, trans}
use xkblas.Scalar.Naturals.{naturals}
use xkblas.Scalar.{Scalar}

instance abbrev scalars : Scalar ℕ
scalars = naturals

abbrev empty : Context
empty = λ p. new_descr

abbrev ragged : GemmCall ℕ
ragged = call no_trans trans 3 2 3 5 1 3 2 2 7 3 4

ragged-legal : check_arguments ragged ≡ none
unfolding check_arguments
ragged-legal = refl

ragged-Apart :
    Apart 2 (operand_a no_trans 3 3 1 3) (operand_b trans 2 3 2 2) (operand_c 3 2 3 4) empty
unfolding isinit
ragged-Apart = record {
  a_b = omega arith;
  a_c = omega arith;
  b_c = omega arith;
  known_a = inl refl;
  known_b = inl refl;
  known_c = inl refl;
}

ragged-AreInts : AreInts 3 2 3 3 2 4
ragged-AreInts = omega arith

ragged-IsLegal : IsLegal no_trans trans 3 2 3 3 2 4
ragged-IsLegal = record {
  legal_a = inl refl;
  legal_b = inr (inl refl);
  enough_a = omega arith;
  enough_b = omega arith;
  enough_c = omega arith;
}

check-IsLegal_example : (check_arguments ragged ≡ none) ↔ IsLegal no_trans trans 3 2 3 3 2 4
check-IsLegal_example = check-IsLegal no_trans trans 3 2 3 3 2 4 5 7 1 2 3 ragged-AreInts

negative_ld_passes_example :
    check_arguments (record ragged { lda = negsuc 2; ldb = negsuc 1; ldc = negsuc 3 }) ≡ none
negative_ld_passes_example =
    negative_ld_passes no_trans trans 3 2 3 3 2 4 5 7 1 2 3 ragged-AreInts 2 1 3 (omega arith)
      (omega arith) (omega arith) ragged-IsLegal

abbrev hollow : GemmCall ℕ
hollow = call no_trans no_trans 3 2 0 5 1 3 2 2 7 3 4

zgemm-Computes_example :
    (final : Context) × (ts : List (Task ℕ)) × (zgemm_async 2 ragged empty ≡ done final ts)
    × Computes reference_kernels ts 3 3 2 4 (gemm_spec no_trans trans 3 5 1 3 2 2 7 3 4)
zgemm-Computes_example =
    zgemm-Computes reference_kernels 2 empty no_trans trans 3 2 3 5 1 3 2 2 7 3 4 ragged-AreInts
      (omega arith) (omega arith) ragged-Apart ragged-legal (inl (omega arith))
