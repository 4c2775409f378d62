-- ===== src/Blas/Gemmt.antt =====
-- `xkblas_zgemmt_async` of blas/zgemmt.c.
pub mod Loops
pub mod Triangle
pub mod Check
pub mod Correct
mod Tests
use xkblas.Base.{
  ℕ, suc, ◌-◌, Bool, not, ◌&&◌, ◌||◌, Option, none, some, List, [], ◌==◌, ltb, if◌then◌else◌, max,
  emit, ℤ, pos, is_neg, eq_int, lt_int, to_size,
}
use xkblas.Blas.Context.{Context, find_init, Outcome, illegal, done, undefined}
use xkblas.Blas.Descr.{MatrixDescr}
use xkblas.Blas.Insert.{insert_task_zgemm, insert_task_zgemmt}
use xkblas.Blas.Task.{Task, no_trans, conj_trans, upper, lower}
use xkblas.Blas.Tiling.{tile_extent}
use xkblas.Scalar.{Scalar}

-- the arguments of a call; matrices are named by their pointers
pub record GemmtCall {ℓ} (R : Type ℓ) : Type ℓ where
  pub uplo : ℤ
  pub trans_a : ℤ
  pub trans_b : ℤ
  pub n : ℤ
  pub k : ℤ
  pub alpha : R
  pub a : ℕ
  pub lda : ℤ
  pub b : ℕ
  pub ldb : ℤ
  pub beta : R
  pub c : ℕ
  pub ldc : ℤ

module _ {ℓ} {R : Type ℓ} where
  -- the dimensions of the stored matrices, converted to `size_t`
  abbrev pub rows_a : GemmtCall R → ℕ
  rows_a g = to_size (if eq_int g.trans_a no_trans then g.n else g.k)

  abbrev pub cols_a : GemmtCall R → ℕ
  cols_a g = to_size (if eq_int g.trans_a no_trans then g.k else g.n)

  abbrev pub rows_b : GemmtCall R → ℕ
  rows_b g = to_size (if eq_int g.trans_b no_trans then g.k else g.n)

  abbrev pub cols_b : GemmtCall R → ℕ
  cols_b g = to_size (if eq_int g.trans_b no_trans then g.n else g.k)

  -- The first illegal argument. `uplo` is not looked at, and a leading dimension is compared as a
  -- `size_t`.
  pub check_gemmt : GemmtCall R → Option ℕ
  check_gemmt g =
      if lt_int g.trans_a no_trans || lt_int conj_trans g.trans_a
      then some 1
      else if lt_int g.trans_b no_trans || lt_int conj_trans g.trans_b
      then some 2
      else if is_neg g.n
      then some 4
      else if is_neg g.k
      then some 5
      else if ltb (to_size g.lda) (max 1 (rows_a g))
      then some 8
      else if ltb (to_size g.ldb) (max 1 (rows_b g))
      then some 10
      else if ltb (to_size g.ldc) (max 1 (to_size g.n))
      then some 13
      else none

-- `min_n` and `max_n` of row `m`, for an `uplo` that sets them
abbrev pub min_n : ℤ → ℕ → ℕ
min_n uplo m = if eq_int uplo (pos 0) then 0 else if eq_int uplo lower then 0 else m

abbrev pub max_n : ℤ → ℕ → ℕ → ℕ
max_n uplo m cnt = if eq_int uplo (pos 0) then cnt else if eq_int uplo lower then suc m else cnt

-- Any other `uplo` leaves `min_n` and `max_n` without a value, and the loop reads them in the first
-- tile row.
abbrev pub sets_range : ℤ → Bool
sets_range uplo = eq_int uplo (pos 0) || eq_int uplo lower || eq_int uplo upper

module _ {ℓ} {R : Type ℓ} ⦃s : Scalar R⦄ where
  pub quick_gemmt : GemmtCall R → Bool
  quick_gemmt g =
      eq_int g.n (pos 0) || ((s.is_zero g.alpha || eq_int g.k (pos 0)) && s.is_one g.beta)

  -- the loop over `k` for tile (m, n) of C; `an`, `am` are the dimensions of the stored A
  unfoldable pub tile_tasks :
      (uplo trans_a trans_b : ℤ) (am an : ℕ) (alpha beta : R) (lda ldb ldc : ℕ)
      (ah bh ch : MatrixDescr) (m n tempmm tempnn : ℕ)
      → List (Task R)
  unfolding insert_task_zgemm insert_task_zgemmt
  tile_tasks uplo trans_a trans_b am an alpha beta lda ldb ldc ah bh ch m n tempmm tempnn =
      if eq_int trans_a no_trans
      then (if eq_int trans_b no_trans
          then emit 0 ah.nt (λ k.
            let tempkn = tile_extent k ah.nt an ah.nb in
            let zbeta = if k == 0 then beta else s.one in
            if (m == n) && not (eq_int uplo (pos 0))
            then insert_task_zgemmt uplo trans_a trans_b tempnn tempkn alpha ah m k lda bh k n ldb
                zbeta ch m n ldc
            else insert_task_zgemm trans_a trans_b tempmm tempnn tempkn alpha ah m k lda bh k n ldb
                zbeta ch m n ldc)
          else emit 0 ah.nt (λ k.
            let tempkn = tile_extent k ah.nt an ah.nb in
            let zbeta = if k == 0 then beta else s.one in
            if (m == n) && not (eq_int uplo (pos 0))
            then insert_task_zgemmt uplo trans_a trans_b tempnn tempkn alpha ah m k lda bh n k ldb
                zbeta ch m n ldc
            else insert_task_zgemm trans_a trans_b tempmm tempnn tempkn alpha ah m k lda bh n k ldb
                zbeta ch m n ldc))
      else (if eq_int trans_b no_trans
          then emit 0 ah.mt (λ k.
            let tempkm = tile_extent k ah.mt am ah.mb in
            let zbeta = if k == 0 then beta else s.one in
            if (m == n) && not (eq_int uplo (pos 0))
            then insert_task_zgemmt uplo trans_a trans_b tempnn tempkm alpha ah k m lda bh k n ldb
                zbeta ch m n ldc
            else insert_task_zgemm trans_a trans_b tempmm tempnn tempkm alpha ah k m lda bh k n ldb
                zbeta ch m n ldc)
          else emit 0 ah.mt (λ k.
            let tempkm = tile_extent k ah.mt am ah.mb in
            let zbeta = if k == 0 then beta else s.one in
            if (m == n) && not (eq_int uplo (pos 0))
            then insert_task_zgemmt uplo trans_a trans_b tempnn tempkm alpha ah k m lda bh n k ldb
                zbeta ch m n ldc
            else insert_task_zgemm trans_a trans_b tempmm tempnn tempkm alpha ah k m lda bh n k ldb
                zbeta ch m n ldc))

  pub gemmt_tasks :
      (uplo trans_a trans_b : ℤ) (cn am an : ℕ) (alpha beta : R) (lda ldb ldc : ℕ)
      (ah bh ch : MatrixDescr)
      → List (Task R)
  gemmt_tasks uplo trans_a trans_b cn am an alpha beta lda ldb ldc ah bh ch = emit 0 ch.mt (λ m.
      let tempmm = tile_extent m ch.mt cn ch.mb in
      emit (min_n uplo m) (max_n uplo m ch.nt - min_n uplo m) (λ n.
        let tempnn = tile_extent n ch.nt cn ch.nb in
        tile_tasks uplo trans_a trans_b am an alpha beta lda ldb ldc ah bh ch m n tempmm tempnn))

  -- `nb` is what `xkblas_auto_tilesize` answers.
  pub zgemmt_async : ℕ → GemmtCall R → Context → Outcome R
  zgemmt_async nb g ctx = elim (check_gemmt g) [
    | some i ↦ illegal i
    | none ↦
        if quick_gemmt g
        then done ctx []
        else let ctx₁ = find_init ctx g.a (rows_a g) (cols_a g) (to_size g.lda) nb in
          let ctx₂ = find_init ctx₁ g.b (rows_b g) (cols_b g) (to_size g.ldb) nb in
          let ctx₃ = find_init ctx₂ g.c (to_size g.n) (to_size g.n) (to_size g.ldc) nb in
          if not (sets_range g.uplo)
          then (if (ctx₃ g.c).mt == 0 then done ctx₃ [] else undefined)
          else done ctx₃ (
              gemmt_tasks g.uplo g.trans_a g.trans_b (to_size g.n) (rows_a g) (cols_a g) g.alpha
                g.beta (to_size g.lda) (to_size g.ldb) (to_size g.ldc) (ctx₃ g.a) (ctx₃ g.b)
                (ctx₃ g.c))
  ]
