-- ===== src/Blas/Symm.antt =====
-- `xkblas_zsymm_async` of blas/zsymm.c.
pub mod Loops
pub mod Sides
pub mod Check
pub mod Correct
mod Tests
use xkblas.Base.{
  ℕ, Bool, not, ◌&&◌, ◌||◌, Option, none, some, List, [], ◌==◌, ltb, if◌then◌else◌, max, emit, ℤ,
  pos, is_neg, eq_int, to_size,
}
use xkblas.Blas.Context.{Context, find_init, Outcome, illegal, done}
use xkblas.Blas.Descr.{MatrixDescr}
use xkblas.Blas.Insert.{insert_task_zgemm, insert_task_zsymm}
use xkblas.Blas.Task.{Task, no_trans, trans, upper, lower, left, right}
use xkblas.Blas.Tiling.{tile_extent}
use xkblas.Scalar.{Scalar}

-- the arguments of a call; matrices are named by their pointers
pub record SymmCall {ℓ} (R : Type ℓ) : Type ℓ where
  pub side : ℤ
  pub uplo : ℤ
  pub m : ℤ
  pub n : ℤ
  pub alpha : R
  pub a : ℕ
  pub lda : ℤ
  pub b : ℕ
  pub ldb : ℤ
  pub beta : R
  pub c : ℕ
  pub ldc : ℤ

module _ {ℓ} {R : Type ℓ} where
  -- the order of A, converted to `size_t`
  abbrev pub order_a : SymmCall R → ℕ
  order_a g = to_size (if eq_int g.side left then g.m else g.n)

  -- The first illegal argument. A leading dimension is compared as a `size_t`.
  pub check_symm : SymmCall R → Option ℕ
  check_symm g =
      if not (eq_int g.side left) && not (eq_int g.side right)
      then some 1
      else if not (eq_int g.uplo lower) && not (eq_int g.uplo upper)
      then some 2
      else if is_neg g.m
      then some 3
      else if is_neg g.n
      then some 4
      else if ltb (to_size g.lda) (max 1 (order_a g))
      then some 7
      else if ltb (to_size g.ldb) (max 1 (to_size g.m))
      then some 9
      else if ltb (to_size g.ldc) (max 1 (to_size g.m))
      then some 12
      else none

module _ {ℓ} {R : Type ℓ} ⦃s : Scalar R⦄ where
  pub quick_symm : SymmCall R → Bool
  quick_symm g = eq_int g.m (pos 0) || eq_int g.n (pos 0) || (s.is_zero g.alpha && s.is_one g.beta)

  -- the task of step `k` for tile (m, n) of C, with A on the left
  unfoldable pub left_task :
      (side uplo : ℤ) (alpha zbeta : R) (lda ldb ldc : ℕ) (ah bh ch : MatrixDescr)
      (k m n tempmm tempnn tempkm : ℕ)
      → List (Task R)
  unfolding insert_task_zgemm insert_task_zsymm
  left_task side uplo alpha zbeta lda ldb ldc ah bh ch k m n tempmm tempnn tempkm =
      if eq_int uplo lower
      then (if ltb k m
          then insert_task_zgemm no_trans no_trans tempmm tempnn tempkm alpha ah m k lda bh k n ldb
              zbeta ch m n ldc
          else if k == m
          then insert_task_zsymm side uplo tempmm tempnn alpha ah k k lda bh k n ldb zbeta ch m n
              ldc
          else insert_task_zgemm trans no_trans tempmm tempnn tempkm alpha ah k m lda bh k n ldb
              zbeta ch m n ldc)
      else (if ltb k m
          then insert_task_zgemm trans no_trans tempmm tempnn tempkm alpha ah k m lda bh k n ldb
              zbeta ch m n ldc
          else if k == m
          then insert_task_zsymm side uplo tempmm tempnn alpha ah k k lda bh k n ldb zbeta ch m n
              ldc
          else insert_task_zgemm no_trans no_trans tempmm tempnn tempkm alpha ah m k lda bh k n ldb
              zbeta ch m n ldc)

  -- and with A on the right
  unfoldable pub right_task :
      (uplo : ℤ) (alpha zbeta : R) (lda ldb ldc : ℕ) (ah bh ch : MatrixDescr)
      (k m n tempmm tempnn tempkn : ℕ)
      → List (Task R)
  unfolding insert_task_zgemm insert_task_zsymm
  right_task uplo alpha zbeta lda ldb ldc ah bh ch k m n tempmm tempnn tempkn =
      if eq_int uplo lower
      then (if ltb k n
          then insert_task_zgemm no_trans trans tempmm tempnn tempkn alpha bh m k ldb ah n k lda
              zbeta ch m n ldc
          else if k == n
          then insert_task_zsymm right uplo tempmm tempnn alpha ah k k lda bh m k ldb zbeta ch m n
              ldc
          else insert_task_zgemm no_trans no_trans tempmm tempnn tempkn alpha bh m k ldb ah k n lda
              zbeta ch m n ldc)
      else (if ltb k n
          then insert_task_zgemm no_trans no_trans tempmm tempnn tempkn alpha bh m k ldb ah k n lda
              zbeta ch m n ldc
          else if k == n
          then insert_task_zsymm right uplo tempmm tempnn alpha ah k k lda bh m k ldb zbeta ch m n
              ldc
          else insert_task_zgemm no_trans trans tempmm tempnn tempkn alpha bh m k ldb ah n k lda
              zbeta ch m n ldc)

  pub symm_tasks :
      (side uplo : ℤ) (alpha beta : R) (lda ldb ldc : ℕ) (ah bh ch : MatrixDescr) → List (Task R)
  symm_tasks side uplo alpha beta lda ldb ldc ah bh ch =
      if eq_int side left
      then emit 0 ch.mt (λ k.
        let tempkm = tile_extent k ch.mt ch.m ch.mb in
        let zbeta = if k == 0 then beta else s.one in
        emit 0 ch.nt (λ n.
          let tempnn = tile_extent n ch.nt ch.n ch.nb in
          emit 0 ch.mt (λ m.
            let tempmm = tile_extent m ch.mt ch.m ch.mb in
            left_task side uplo alpha zbeta lda ldb ldc ah bh ch k m n tempmm tempnn tempkm)))
      else emit 0 ch.nt (λ k.
        let tempkn = tile_extent k ch.nt ch.n ch.nb in
        let zbeta = if k == 0 then beta else s.one in
        emit 0 ch.mt (λ m.
          let tempmm = tile_extent m ch.mt ch.m ch.mb in
          emit 0 ch.nt (λ n.
            let tempnn = tile_extent n ch.nt ch.n ch.nb in
            right_task uplo alpha zbeta lda ldb ldc ah bh ch k m n tempmm tempnn tempkn)))

  -- `nb` is what `xkblas_auto_tilesize` answers.
  pub zsymm_async : ℕ → SymmCall R → Context → Outcome R
  zsymm_async nb g ctx = elim (check_symm g) [
    | some i ↦ illegal i
    | none ↦
        if quick_symm g
        then done ctx []
        else let ctx₁ = find_init ctx g.a (order_a g) (order_a g) (to_size g.lda) nb in
          let ctx₂ = find_init ctx₁ g.b (to_size g.m) (to_size g.n) (to_size g.ldb) nb in
          let ctx₃ = find_init ctx₂ g.c (to_size g.m) (to_size g.n) (to_size g.ldc) nb in
          done ctx₃ (
            symm_tasks g.side g.uplo g.alpha g.beta (to_size g.lda) (to_size g.ldb) (to_size g.ldc)
              (ctx₃ g.a) (ctx₃ g.b) (ctx₃ g.c))
  ]
