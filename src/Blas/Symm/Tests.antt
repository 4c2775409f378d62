-- ===== src/Blas/Symm/Tests.antt =====
-- A call with ragged last tiles: 5 by 3 with tiles of 2, A on the right and stored in the lower
-- triangle, over the natural numbers.
use xkblas.Base.{ℕ, ◌≡◌, refl, arith, inl, none, List}
use xkblas.Blas.Context.Three.{Apart}
use xkblas.Blas.Context.{Context, done}
use xkblas.Blas.Descr.{new_descr, isinit}
use xkblas.Blas.Kernel.Cover.{Computes}
use xkblas.Blas.Kernel.Reference.{reference_kernels}
use xkblas.Blas.Symm.Check.{symm_call}
use xkblas.Blas.Symm.Correct.{operand_a, operand_b, symm_spec, zsymm-Computes}
use xkblas.Blas.Symm.{SymmCall, check_symm, zsymm_async}
use xkblas.Blas.Task.{Task, lower, right}
use xkblas.Scalar.Naturals.{naturals}
use xkblas.Scalar.{Scalar}

instance abbrev scalars : Scalar ℕ
scalars = naturals

abbrev empty : Context
empty = λ p. new_descr

abbrev ragged : SymmCall ℕ
ragged = symm_call right lower 5 3 5 1 3 2 5 7 3 6

ragged-legal : check_symm ragged ≡ none
unfolding check_symm
ragged-legal = refl

ragged-Apart : Apart 2 (operand_a right 5 3 1 3) (operand_b 5 3 2 5) (operand_b 5 3 3 6) empty
unfolding isinit
ragged-Apart = record {
  a_b = omega arith;
  a_c = omega arith;
  b_c = omega arith;
  known_a = inl refl;
  known_b = inl refl;
  known_c = inl refl;
}

zsymm-Computes_example :
    (final : Context) × (ts : List (Task ℕ)) × (zsymm_async 2 ragged empty ≡ done final ts)
    × Computes reference_kernels ts 3 5 3 6 (symm_spec right lower 5 3 5 1 3 2 5 7 3 6)
zsymm-Computes_example =
    zsymm-Computes reference_kernels 2 empty right lower 5 3 5 1 3 2 5 7 3 6 (omega arith)
      (omega arith) (omega arith) ragged-Apart ragged-legal
