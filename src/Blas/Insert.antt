-- ===== src/Blas/Insert.antt =====
-- `INSERT_TASK_zgemm`, `INSERT_TASK_zgemmt`, `INSERT_TASK_zsyrk` and `INSERT_TASK_zsymm` of
-- blas/ztask_*.c: each resolves its tiles through the descriptors and commits one task. The tile of C is accessed in the mode RW by gemmt
-- and symm; by gemm and syrk in the mode W if `beta` is 0.
use xkblas.Base.{ℕ, ℤ, List, [], ◌∷◌}
use xkblas.Blas.Descr.{MatrixDescr, get_handle}
use xkblas.Scalar.{Scalar}
use xkblas.Blas.Task.{Task, access_mode, gemm, gemmt, syrk, symm}

module _ {ℓ} {R : Type ℓ} ⦃s : Scalar R⦄ where
  unfoldable pub insert_task_zgemm :
      ℤ
      → ℤ
      → ℕ
      → ℕ
      → ℕ
      → R
      → MatrixDescr
      → ℕ
      → ℕ
      → ℕ
      → MatrixDescr
      → ℕ
      → ℕ
      → ℕ
      → R
      → MatrixDescr
      → ℕ
      → ℕ
      → ℕ
      → List (Task R)
  insert_task_zgemm trans_a trans_b m n k alpha ah am an lda bh bm bn ldb beta ch cm cn ldc =
      gemm (record {
        trans_a = trans_a;
        trans_b = trans_b;
        m = m;
        n = n;
        k = k;
        alpha = alpha;
        a = get_handle ah am an;
        lda = lda;
        b = get_handle bh bm bn;
        ldb = ldb;
        beta = beta;
        c = get_handle ch cm cn;
        ldc = ldc;
        mode = access_mode beta;
      })
      ∷ []

  unfoldable pub insert_task_zgemmt :
      ℤ
      → ℤ
      → ℤ
      → ℕ
      → ℕ
      → R
      → MatrixDescr
      → ℕ
      → ℕ
      → ℕ
      → MatrixDescr
      → ℕ
      → ℕ
      → ℕ
      → R
      → MatrixDescr
      → ℕ
      → ℕ
      → ℕ
      → List (Task R)
  insert_task_zgemmt uplo trans_a trans_b n k alpha ah am an lda bh bm bn ldb beta ch cm cn ldc =
      gemmt (record {
        uplo = uplo;
        trans_a = trans_a;
        trans_b = trans_b;
        n = n;
        k = k;
        alpha = alpha;
        a = get_handle ah am an;
        lda = lda;
        b = get_handle bh bm bn;
        ldb = ldb;
        beta = beta;
        c = get_handle ch cm cn;
        ldc = ldc;
      })
      ∷ []

  unfoldable pub insert_task_zsyrk :
      ℤ → ℤ → ℕ → ℕ → R → MatrixDescr → ℕ → ℕ → ℕ → R → MatrixDescr → ℕ → ℕ → ℕ → List (Task R)
  insert_task_zsyrk uplo trans_a n k alpha ah am an lda beta ch cm cn ldc =
      syrk (record {
        uplo = uplo;
        trans_a = trans_a;
        n = n;
        k = k;
        alpha = alpha;
        a = get_handle ah am an;
        lda = lda;
        beta = beta;
        c = get_handle ch cm cn;
        ldc = ldc;
        mode = access_mode beta;
      })
      ∷ []

  unfoldable pub insert_task_zsymm :
      ℤ
      → ℤ
      → ℕ
      → ℕ
      → R
      → MatrixDescr
      → ℕ
      → ℕ
      → ℕ
      → MatrixDescr
      → ℕ
      → ℕ
      → ℕ
      → R
      → MatrixDescr
      → ℕ
      → ℕ
      → ℕ
      → List (Task R)
  insert_task_zsymm side uplo m n alpha ah am an lda bh bm bn ldb beta ch cm cn ldc =
      symm (record {
        side = side;
        uplo = uplo;
        m = m;
        n = n;
        alpha = alpha;
        a = get_handle ah am an;
        lda = lda;
        b = get_handle bh bm bn;
        ldb = ldb;
        beta = beta;
        c = get_handle ch cm cn;
        ldc = ldc;
      })
      ∷ []
