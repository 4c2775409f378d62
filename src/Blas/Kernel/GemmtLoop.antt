-- ===== src/Blas/Kernel/GemmtLoop.antt =====
-- The loop over the inner dimension for one diagonal tile of C: gemmt tasks that add up to the
-- tile of the whole product.
use xkblas.Base.{
  ℕ, ◌+◌, ◌*◌, ◌<◌, ◌≤◌, ◌≡◌, ◌≢◌, refl, ap, ap₂, ◌∙◌, arith, ℤ, List, [], ◌∷◌, ◌==◌, if◌then◌else◌,
  emit,
}
use xkblas.Blas.Descr.{tile_handle}
use xkblas.Blas.Kernel.Acts.{Acts, Acts-congr}
use xkblas.Blas.Kernel.GemmLoop.{Grid, Fits}
use xkblas.Blas.Kernel.TileTask.{Part, Holds, IsUpdate, loop_hit, loop_miss, loop_padding}
use xkblas.Blas.Kernel.Tiles.{matrix, op_tile, op-op_tile}
use xkblas.Blas.Kernel.{Buffer, Mem, Kernels, exec, op, elt, gemm_of, whole, rows_of, product}
use xkblas.Blas.Task.{GemmtArg, Task, gemmt}
use xkblas.Blas.Tiling.Sums.{sum_tiles}
use xkblas.Blas.Tiling.{num_of_tiles, tile_extent, tile_inside, home_tile-lt}
use xkblas.Scalar.Sum.{sum_congr}
use xkblas.Scalar.{Scalar, ◌⊕◌, ◌⊗◌}

module _ {ℓ} {R : Type ℓ} ⦃s : Scalar R⦄ (g : Grid R) (uplo ta tb : ℤ) (k en y : ℕ) where
  abbrev pub tile_gemmt : ℕ → GemmtArg R
  tile_gemmt z = record {
    uplo = uplo;
    trans_a = ta;
    trans_b = tb;
    n = en;
    k = tile_extent z (num_of_tiles k g.nb) k g.nb;
    alpha = g.alpha;
    a = op_tile ta (tile_handle g.pa g.nb g.nb g.lda) y z;
    lda = g.lda;
    b = op_tile tb (tile_handle g.pb g.nb g.nb g.ldb) z y;
    ldb = g.ldb;
    beta = if z == 0 then g.beta else s.one;
    c = tile_handle g.pc g.nb g.nb g.ldc y y;
    ldc = g.ldc;
  }

  abbrev pub gemmt_loop : List (Task R)
  gemmt_loop = emit 0 (num_of_tiles k g.nb) (λ z. gemmt (tile_gemmt z) ∷ [])

module _ {ℓ} {R : Type ℓ} ⦃s : Scalar R⦄ (kern : Kernels R) (abuf bbuf : Buffer R) {g : Grid R}
    (uplo : ℤ) {ta tb : ℤ} {k en y : ℕ} (f : Fits g ta tb k en en y) where
  abbrev pub gemmt_part : Part
  gemmt_part = record {
    handle = tile_handle g.pc g.nb g.nb g.ldc y y;
    ld = g.ldc;
    row = y * g.nb;
    col = y * g.nb;
    height = en;
    width = en;
    at = refl;
    fits = f.rows_c;
  }

  abbrev tile_a : ℕ → Mem R → ℕ → ℕ → R
  tile_a z mem = op ta (elt mem (op_tile ta (tile_handle g.pa g.nb g.nb g.lda) y z) g.lda)

  abbrev tile_b : ℕ → Mem R → ℕ → ℕ → R
  tile_b z mem = op tb (elt mem (op_tile tb (tile_handle g.pb g.nb g.nb g.ldb) z y) g.ldb)

  shorter_a : (t : ℤ) (c c' n : ℕ) → c' ≤ c → rows_of t en c ≤ n → rows_of t en c' ≤ n
  shorter_a t c c' n p h = ground arith

  shorter_b : (t : ℤ) (c c' n : ℕ) → c' ≤ c → rows_of t c en ≤ n → rows_of t c' en ≤ n
  shorter_b t c c' n p h = ground arith

  abbrev value : ℕ → Mem R → ℕ → ℕ → R
  value z mem = product (tile_extent z (num_of_tiles k g.nb) k g.nb) (tile_a z mem) (tile_b z mem)

  is_update :
      (z : ℕ)
      → z < num_of_tiles k g.nb
      → IsUpdate kern gemmt_part whole g.alpha
          (value z)
          (if z == 0 then g.beta else s.one)
          (gemmt (tile_gemmt g uplo ta tb k en y z))
  unfolding exec
  is_update z hz =
      let short : tile_extent z (num_of_tiles k g.nb) k g.nb ≤ k =
        omega (arith, tile_inside f.inner z hz) in
      record {
        out = λ mem. kern.zgemm (gemm_of (tile_gemmt g uplo ta tb k en y z)) mem;
        exec_out = λ mem. refl;
        updates = λ mem.
            kern.zgemm_lem (gemm_of (tile_gemmt g uplo ta tb k en y z)) mem f.trans_a f.trans_b
              (shorter_a ta k _ g.lda short f.rows_a) (shorter_b tb k _ g.ldb short f.rows_b)
              (omega (arith, f.rows_c));
      }

  pub gemmt_hit :
      (i j : ℕ)
      → i < en
      → j < en
      → 0 < k
      → Acts kern g.pa g.pb g.pc abuf bbuf
          (y * g.nb + i + (y * g.nb + j) * g.ldc)
          (gemmt_loop g uplo ta tb k en y)
          (λ c.
            g.alpha
              ⊗ product k
                  (op ta (matrix abuf g.lda))
                  (op tb (matrix bbuf g.ldb))
                  (y * g.nb + i)
                  (y * g.nb + j)
            ⊕ g.beta ⊗ c)
  unfolding product
  gemmt_hit i j hi hj hk =
      let term = λ (l : ℕ).
        op ta (matrix abuf g.lda) (y * g.nb + i) l ⊗ op tb (matrix bbuf g.ldb) l (y * g.nb + j) in
      Acts-congr kern f.reads_a f.reads_b
        (λ c. ap (λ v. g.alpha ⊗ v ⊕ g.beta ⊗ c) (sum_tiles term f.inner hk))
        (loop_hit kern f.reads_a f.reads_b g.alpha g.beta (num_of_tiles k g.nb) is_update i j _ hi
          hj refl (omega (arith, home_tile-lt f.inner 0 hk))
          (λ z mem ea eb.
            sum_congr _ _ _
              (λ l h. ap₂ (λ u v. u ⊗ v) (entry_a z mem i l ea) (entry_b z mem l j eb))))
    where
      entry_a :
          (z : ℕ) (mem : Mem R) (i l : ℕ)
          → mem g.pa ≡ abuf
          → tile_a z mem i l ≡ op ta (matrix abuf g.lda) (y * g.nb + i) (z * g.nb + l)
      entry_a z mem i l ea =
          op-op_tile ta mem g.pa g.nb g.lda y z i l f.trans_a
          ∙ ap (λ v. op ta (matrix v g.lda) (y * g.nb + i) (z * g.nb + l)) ea

      entry_b :
          (z : ℕ) (mem : Mem R) (l j : ℕ)
          → mem g.pb ≡ bbuf
          → tile_b z mem l j ≡ op tb (matrix bbuf g.ldb) (z * g.nb + l) (y * g.nb + j)
      entry_b z mem l j eb =
          op-op_tile tb mem g.pb g.nb g.ldb z y l j f.trans_b
          ∙ ap (λ v. op tb (matrix v g.ldb) (z * g.nb + l) (y * g.nb + j)) eb

  pub gemmt_miss :
      (i j : ℕ)
      → i < g.ldc
      → ¬ Holds gemmt_part whole i j
      → Acts kern g.pa g.pb g.pc abuf bbuf (i + j * g.ldc) (gemmt_loop g uplo ta tb k en y) (λ c. c)
  gemmt_miss i j hi away =
      loop_miss kern f.reads_a f.reads_b g.alpha g.beta (num_of_tiles k g.nb) is_update i j hi away

  pub gemmt_padding :
      (p rows cols : ℕ)
      → y * g.nb + en ≤ rows
      → y * g.nb + en ≤ cols
      → ((i j : ℕ) → i < rows → j < cols → p ≢ i + j * g.ldc)
      → Acts kern g.pa g.pb g.pc abuf bbuf p (gemmt_loop g uplo ta tb k en y) (λ c. c)
  gemmt_padding p rows cols fr fc apart =
      loop_padding kern f.reads_a f.reads_b g.alpha g.beta (num_of_tiles k g.nb) is_update p rows
        cols fr fc apart
