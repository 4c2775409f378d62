-- ===== src/Blas/Gemm.antt =====
-- `xkblas_zgemm_async` of blas/zgemm.c.
mod Tests
pub mod Loops
pub mod Check
pub mod Grid
pub mod Correct
use xkblas.Base.{
  ℕ, Bool, ◌&&◌, ◌||◌, Option, none, some, List, [], ◌==◌, ltb, if◌then◌else◌, max, emit, ℤ, pos,
  is_neg, eq_int, lt_int, to_size,
}
use xkblas.Blas.Context.{Context, find_init, Outcome, illegal, done}
use xkblas.Blas.Descr.{MatrixDescr}
use xkblas.Blas.Insert.{insert_task_zgemm}
use xkblas.Blas.Task.{Task, no_trans, conj_trans}
use xkblas.Blas.Tiling.{tile_extent}
use xkblas.Scalar.{Scalar}

-- the arguments of a call; matrices are named by their pointers
pub record GemmCall {ℓ} (R : Type ℓ) : Type ℓ where
  pub trans_a : ℤ
  pub trans_b : ℤ
  pub m : ℤ
  pub n : ℤ
  pub k : ℤ
  pub alpha : R
  pub a : ℕ
  pub lda : ℤ
  pub b : ℕ
  pub ldb : ℤ
  pub beta : R
  pub c : ℕ
  pub ldc : ℤ

module _ {ℓ} {R : Type ℓ} where
  -- the dimensions of the stored matrices, converted to `size_t`
  abbrev pub a_rows : GemmCall R → ℕ
  a_rows g = to_size (if eq_int g.trans_a no_trans then g.m else g.k)

  abbrev pub a_cols : GemmCall R → ℕ
  a_cols g = to_size (if eq_int g.trans_a no_trans then g.k else g.m)

  abbrev pub b_rows : GemmCall R → ℕ
  b_rows g = to_size (if eq_int g.trans_b no_trans then g.k else g.n)

  abbrev pub b_cols : GemmCall R → ℕ
  b_cols g = to_size (if eq_int g.trans_b no_trans then g.n else g.k)

  -- The first illegal argument. A leading dimension is compared as a `size_t`.
  pub check_arguments : GemmCall R → Option ℕ
  check_arguments g =
      if lt_int g.trans_a no_trans || lt_int conj_trans g.trans_a
      then some 1
      else if lt_int g.trans_b no_trans || lt_int conj_trans g.trans_b
      then some 2
      else if is_neg g.m
      then some 3
      else if is_neg g.n
      then some 4
      else if is_neg g.k
      then some 5
      else if ltb (to_size g.lda) (max 1 (a_rows g))
      then some 8
      else if ltb (to_size g.ldb) (max 1 (b_rows g))
      then some 10
      else if ltb (to_size g.ldc) (max 1 (to_size g.m))
      then some 13
      else none

module _ {ℓ} {R : Type ℓ} ⦃s : Scalar R⦄ where
  pub quick_return : GemmCall R → Bool
  quick_return g =
      eq_int g.m (pos 0)
      || eq_int g.n (pos 0)
      || ((s.is_zero g.alpha || eq_int g.k (pos 0)) && s.is_one g.beta)

  -- The loop over `k` for tile (m, n) of C. `an`, `am` are the dimensions of the stored A.
  unfoldable pub inner_tasks :
      (trans_a trans_b : ℤ) (am an : ℕ) (alpha beta : R) (lda ldb ldc : ℕ) (ah bh ch : MatrixDescr)
      (m n tempmm tempnn : ℕ)
      → List (Task R)
  unfolding insert_task_zgemm
  inner_tasks trans_a trans_b am an alpha beta lda ldb ldc ah bh ch m n tempmm tempnn =
      if eq_int trans_a no_trans
      then (if eq_int trans_b no_trans
          then emit 0 ah.nt (λ k.
            let tempkn = tile_extent k ah.nt an ah.nb in
            let zbeta = if k == 0 then beta else s.one in
            insert_task_zgemm trans_a trans_b tempmm tempnn tempkn alpha ah m k lda bh k n ldb zbeta
              ch m n ldc)
          else emit 0 ah.nt (λ k.
            let tempkn = tile_extent k ah.nt an ah.nb in
            let zbeta = if k == 0 then beta else s.one in
            insert_task_zgemm trans_a trans_b tempmm tempnn tempkn alpha ah m k lda bh n k ldb zbeta
              ch m n ldc))
      else (if eq_int trans_b no_trans
          then emit 0 ah.mt (λ k.
            let tempkm = tile_extent k ah.mt am ah.mb in
            let zbeta = if k == 0 then beta else s.one in
            insert_task_zgemm trans_a trans_b tempmm tempnn tempkm alpha ah k m lda bh k n ldb zbeta
              ch m n ldc)
          else emit 0 ah.mt (λ k.
            let tempkm = tile_extent k ah.mt am ah.mb in
            let zbeta = if k == 0 then beta else s.one in
            insert_task_zgemm trans_a trans_b tempmm tempnn tempkm alpha ah k m lda bh n k ldb zbeta
              ch m n ldc))

  -- the loops over the tiles of C
  pub tasks :
      (trans_a trans_b : ℤ) (rows cols am an : ℕ) (alpha beta : R) (lda ldb ldc : ℕ)
      (ah bh ch : MatrixDescr)
      → List (Task R)
  tasks trans_a trans_b rows cols am an alpha beta lda ldb ldc ah bh ch = emit 0 ch.mt (λ m.
      let tempmm = tile_extent m ch.mt rows ch.mb in
      emit 0 ch.nt (λ n.
        let tempnn = tile_extent n ch.nt cols ch.nb in
        inner_tasks trans_a trans_b am an alpha beta lda ldb ldc ah bh ch m n tempmm tempnn))

  -- `nb` is what `xkblas_auto_tilesize` answers.
  pub zgemm_async : ℕ → GemmCall R → Context → Outcome R
  zgemm_async nb g ctx = elim (check_arguments g) [
    | some i ↦ illegal i
    | none ↦
        if quick_return g
        then done ctx []
        else let ctx₁ = find_init ctx g.a (a_rows g) (a_cols g) (to_size g.lda) nb in
          let ctx₂ = find_init ctx₁ g.b (b_rows g) (b_cols g) (to_size g.ldb) nb in
          let ctx₃ = find_init ctx₂ g.c (to_size g.m) (to_size g.n) (to_size g.ldc) nb in
          done ctx₃ (
            tasks g.trans_a g.trans_b (to_size g.m) (to_size g.n) (a_rows g) (a_cols g) g.alpha
              g.beta (to_size g.lda) (to_size g.ldb) (to_size g.ldc) (ctx₃ g.a) (ctx₃ g.b)
              (ctx₃ g.c))
  ]
