-- ===== src/Blas/Symm/Sides.antt =====
-- All rounds of zsymm together: the whole product, for either side.
use xkblas.Base.{ℕ, ◌+◌, ◌*◌, ◌<◌, ◌≤◌, ◌≢◌, refl, ap, arith, ℤ, ◌==◌, if◌then◌else◌, mul_mono}
use xkblas.Blas.Descr.{MatrixDescr, init_matrix_handle}
use xkblas.Blas.Kernel.Acts.{Acts-congr}
use xkblas.Blas.Kernel.Cover.{Computes}
use xkblas.Blas.Kernel.GemmLoop.{Grid}
use xkblas.Blas.Kernel.Rounds.{rows_hit, cols_hit, rows_padding, cols_padding}
use xkblas.Blas.Kernel.Tiles.{matrix}
use xkblas.Blas.Kernel.{Kernels, sym_of, IsUplo, product}
use xkblas.Blas.Symm.Loops.{left_task-adds, right_task-adds}
use xkblas.Blas.Symm.{symm_tasks}
use xkblas.Blas.Task.{left, right}
use xkblas.Blas.Tiling.Sums.{sum_tiles}
use xkblas.Blas.Tiling.{IsTiled, home_tile-lt}
use xkblas.Scalar.{Scalar, ◌⊕◌, ◌⊗◌}

module _ {ℓ} {R : Type ℓ} ⦃s : Scalar R⦄ (kern : Kernels R) (g : Grid R) (uplo : ℤ)
    (triangle : IsUplo uplo) {m n : ℕ} (tm : IsTiled m g.nb) (tn : IsTiled n g.nb)
    (na : g.pa ≢ g.pc) (nc : g.pb ≢ g.pc) (rows_c : m ≤ g.ldc) (la : m ≤ g.lda)
    (h₀ h₁ h₂ : MatrixDescr) where
  -- an address that holds no element of C
  beyond_end : (i j : ℕ) → i < m → j < n → n * g.ldc ≢ i + j * g.ldc
  beyond_end i j hi hj e = absurd (omega (arith, mul_mono (j + 1) n g.ldc (omega arith)))

  pub left-Computes :
      m ≤ g.ldb
      → Computes kern
          (symm_tasks left uplo g.alpha g.beta g.lda g.ldb g.ldc
            (init_matrix_handle h₀ g.pa m m g.lda g.nb g.nb)
            (init_matrix_handle h₁ g.pb m n g.ldb g.nb g.nb)
            (init_matrix_handle h₂ g.pc m n g.ldc g.nb g.nb))
          g.pc
          m
          n
          g.ldc
          (λ mem i j.
            g.alpha
              ⊗ product m (sym_of uplo (matrix (mem g.pa) g.lda)) (matrix (mem g.pb) g.ldb) i j
            ⊕ g.beta ⊗ matrix (mem g.pc) g.ldc i j)
  unfolding symm_tasks init_matrix_handle product
  left-Computes lb = record {
    entries = λ mem i j hi hj.
        (Acts-congr kern na nc
            (λ c.
              ap (λ v. g.alpha ⊗ v ⊕ g.beta ⊗ c)
                (sum_tiles
                  (λ l. sym_of uplo (matrix (mem g.pa) g.lda) i l ⊗ matrix (mem g.pb) g.ldb l j) tm
                  (omega arith)))
            (cols_hit kern na nc tm tn rows_c
              (λ z x y hz hx hy.
                left_task-adds kern g (mem g.pa) (mem g.pb) uplo triangle tm tn na nc rows_c h₀ h₁
                  h₂ (if z == 0 then g.beta else s.one) x y hx hy la lb z hz)
              i j hi hj (omega (arith, home_tile-lt tm i hi)))).value
          mem refl refl;
    padding = λ mem p apart.
        (cols_padding kern na nc tm tn rows_c
            (λ z x y hz hx hy.
              left_task-adds kern g (mem g.pa) (mem g.pb) uplo triangle tm tn na nc rows_c h₀ h₁ h₂
                (if z == 0 then g.beta else s.one) x y hx hy la lb z hz)
            p apart).value
          mem refl refl;
    others = λ mem q ne.
        (cols_padding kern na nc tm tn rows_c
            (λ z x y hz hx hy.
              left_task-adds kern g (mem g.pa) (mem g.pb) uplo triangle tm tn na nc rows_c h₀ h₁ h₂
                (if z == 0 then g.beta else s.one) x y hx hy la lb z hz)
            (n * g.ldc) beyond_end).frame
          mem q ne;
  }

  -- B at `pa`, A at `pb`
  pub right-Computes :
      n ≤ g.ldb
      → Computes kern
          (symm_tasks right uplo g.alpha g.beta g.ldb g.lda g.ldc
            (init_matrix_handle h₀ g.pb n n g.ldb g.nb g.nb)
            (init_matrix_handle h₁ g.pa m n g.lda g.nb g.nb)
            (init_matrix_handle h₂ g.pc m n g.ldc g.nb g.nb))
          g.pc
          m
          n
          g.ldc
          (λ mem i j.
            g.alpha
              ⊗ product n (matrix (mem g.pa) g.lda) (sym_of uplo (matrix (mem g.pb) g.ldb)) i j
            ⊕ g.beta ⊗ matrix (mem g.pc) g.ldc i j)
  unfolding symm_tasks init_matrix_handle product
  right-Computes lb = record {
    entries = λ mem i j hi hj.
        (Acts-congr kern na nc
            (λ c.
              ap (λ v. g.alpha ⊗ v ⊕ g.beta ⊗ c)
                (sum_tiles
                  (λ l. matrix (mem g.pa) g.lda i l ⊗ sym_of uplo (matrix (mem g.pb) g.ldb) l j) tn
                  (omega arith)))
            (rows_hit kern na nc tm tn rows_c
              (λ z x y hz hx hy.
                right_task-adds kern g (mem g.pa) (mem g.pb) uplo triangle tm tn na nc rows_c h₀ h₁
                  h₂ (if z == 0 then g.beta else s.one) x y hx hy la lb z hz)
              i j hi hj (omega (arith, home_tile-lt tn j hj)))).value
          mem refl refl;
    padding = λ mem p apart.
        (rows_padding kern na nc tm tn rows_c
            (λ z x y hz hx hy.
              right_task-adds kern g (mem g.pa) (mem g.pb) uplo triangle tm tn na nc rows_c h₀ h₁ h₂
                (if z == 0 then g.beta else s.one) x y hx hy la lb z hz)
            p apart).value
          mem refl refl;
    others = λ mem q ne.
        (rows_padding kern na nc tm tn rows_c
            (λ z x y hz hx hy.
              right_task-adds kern g (mem g.pa) (mem g.pb) uplo triangle tm tn na nc rows_c h₀ h₁ h₂
                (if z == 0 then g.beta else s.one) x y hx hy la lb z hz)
            (n * g.ldc) beyond_end).frame
          mem q ne;
  }
