-- ===== src/Blas/Syrk.antt =====
-- `xkblas_zsyrk_async` of blas/zsyrk.c.
pub mod Loops
pub mod Order
pub mod Triangle
pub mod Check
pub mod Correct
mod Tests
use xkblas.Base.{
  ℕ, suc, ◌-◌, Bool, not, ◌&&◌, ◌||◌, Option, none, some, List, [], ◌++◌, ◌==◌, ltb, if◌then◌else◌,
  max, emit, ℤ, pos, is_neg, eq_int, to_size,
}
use xkblas.Blas.Context.{Context, find_init, Outcome, illegal, done}
use xkblas.Blas.Descr.{MatrixDescr}
use xkblas.Blas.Insert.{insert_task_zgemm, insert_task_zsyrk}
use xkblas.Blas.Task.{Task, no_trans, trans, upper, lower}
use xkblas.Blas.Tiling.{tile_extent}
use xkblas.Scalar.{Scalar}

-- the arguments of a call; matrices are named by their pointers
pub record SyrkCall {ℓ} (R : Type ℓ) : Type ℓ where
  pub uplo : ℤ
  pub trans_a : ℤ
  pub n : ℤ
  pub k : ℤ
  pub alpha : R
  pub a : ℕ
  pub lda : ℤ
  pub beta : R
  pub c : ℕ
  pub ldc : ℤ

module _ {ℓ} {R : Type ℓ} where
  -- the dimensions of the stored A, converted to `size_t`
  abbrev pub stored_rows : SyrkCall R → ℕ
  stored_rows g = to_size (if eq_int g.trans_a no_trans then g.n else g.k)

  abbrev pub stored_cols : SyrkCall R → ℕ
  stored_cols g = to_size (if eq_int g.trans_a no_trans then g.k else g.n)

  -- The first illegal argument. A leading dimension is compared as a `size_t`.
  pub check_syrk : SyrkCall R → Option ℕ
  check_syrk g =
      if not (eq_int g.uplo upper) && not (eq_int g.uplo lower)
      then some 1
      else if not (eq_int g.trans_a no_trans) && not (eq_int g.trans_a trans)
      then some 2
      else if is_neg g.n
      then some 3
      else if is_neg g.k
      then some 4
      else if ltb (to_size g.lda) (max 1 (stored_rows g))
      then some 7
      else if ltb (to_size g.ldc) (max 1 (to_size g.n))
      then some 10
      else none

module _ {ℓ} {R : Type ℓ} ⦃s : Scalar R⦄ where
  pub quick_syrk : SyrkCall R → Bool
  quick_syrk g =
      eq_int g.n (pos 0) || ((s.is_zero g.alpha || eq_int g.k (pos 0)) && s.is_one g.beta)

  -- round `n` of the outer loop
  unfoldable pub column_tasks :
      (uplo trans_a : ℤ) (alpha beta : R) (lda ldc : ℕ) (ah ch : MatrixDescr) (n tempnn : ℕ)
      → List (Task R)
  unfolding insert_task_zgemm insert_task_zsyrk
  column_tasks uplo trans_a alpha beta lda ldc ah ch n tempnn =
      if eq_int trans_a no_trans
      then emit 0 ah.nt (λ k.
        let tempkn = tile_extent k ah.nt ah.n ah.nb in
        let zbeta = if k == 0 then beta else s.one in
        insert_task_zsyrk uplo trans_a tempnn tempkn alpha ah n k lda zbeta ch n n ldc)
        ++ (if eq_int uplo lower
            then emit (suc n) (ch.mt - suc n) (λ m.
              let tempmm = tile_extent m ch.mt ch.m ch.mb in
              emit 0 ah.nt (λ k.
                let tempkn = tile_extent k ah.nt ah.n ah.nb in
                let zbeta = if k == 0 then beta else s.one in
                insert_task_zgemm trans_a trans tempmm tempnn tempkn alpha ah m k lda ah n k lda
                  zbeta ch m n ldc))
            else emit (suc n) (ch.mt - suc n) (λ m.
              let tempmm = tile_extent m ch.mt ch.m ch.mb in
              emit 0 ah.nt (λ k.
                let tempkn = tile_extent k ah.nt ah.n ah.nb in
                let zbeta = if k == 0 then beta else s.one in
                insert_task_zgemm trans_a trans tempnn tempmm tempkn alpha ah n k lda ah m k lda
                  zbeta ch n m ldc)))
      else emit 0 ah.mt (λ k.
        let tempkm = tile_extent k ah.mt ah.m ah.mb in
        let zbeta = if k == 0 then beta else s.one in
        insert_task_zsyrk uplo trans_a tempnn tempkm alpha ah k n lda zbeta ch n n ldc)
        ++ (if eq_int uplo lower
            then emit (suc n) (ch.mt - suc n) (λ m.
              let tempmm = tile_extent m ch.mt ch.m ch.mb in
              emit 0 ah.mt (λ k.
                let tempkm = tile_extent k ah.mt ah.m ah.mb in
                let zbeta = if k == 0 then beta else s.one in
                insert_task_zgemm trans_a no_trans tempmm tempnn tempkm alpha ah k m lda ah k n lda
                  zbeta ch m n ldc))
            else emit (suc n) (ch.mt - suc n) (λ m.
              let tempmm = tile_extent m ch.mt ch.m ch.mb in
              emit 0 ah.mt (λ k.
                let tempkm = tile_extent k ah.mt ah.m ah.mb in
                let zbeta = if k == 0 then beta else s.one in
                insert_task_zgemm trans_a no_trans tempnn tempmm tempkm alpha ah k n lda ah k m lda
                  zbeta ch n m ldc)))

  pub syrk_tasks :
      (uplo trans_a : ℤ) (alpha beta : R) (lda ldc : ℕ) (ah ch : MatrixDescr) → List (Task R)
  syrk_tasks uplo trans_a alpha beta lda ldc ah ch =
      emit 0 ch.nt
        (λ n. column_tasks uplo trans_a alpha beta lda ldc ah ch n (tile_extent n ch.nt ch.n ch.nb))

  -- `nb` is what `xkblas_auto_tilesize` answers.
  pub zsyrk_async : ℕ → SyrkCall R → Context → Outcome R
  zsyrk_async nb g ctx = elim (check_syrk g) [
    | some i ↦ illegal i
    | none ↦
        if quick_syrk g
        then done ctx []
        else let ctx₁ = find_init ctx g.a (stored_rows g) (stored_cols g) (to_size g.lda) nb in
          let ctx₂ = find_init ctx₁ g.c (to_size g.n) (to_size g.n) (to_size g.ldc) nb in
          done ctx₂ (
            syrk_tasks g.uplo g.trans_a g.alpha g.beta (to_size g.lda) (to_size g.ldc) (ctx₂ g.a)
              (ctx₂ g.c))
  ]
