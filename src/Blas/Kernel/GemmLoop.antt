-- ===== src/Blas/Kernel/GemmLoop.antt =====
-- The loop over the inner dimension for one tile of C: the whole product, added once.
use xkblas.Base.{
  ℕ, ◌+◌, ◌*◌, ◌<◌, ◌≤◌, ◌≡◌, ◌≢◌, ap, arith, ℤ, List, [], ◌∷◌, ◌==◌, if◌then◌else◌, emit,
}
use xkblas.Blas.Kernel.Acts.{Acts, Acts-congr, emit_skip, emit-sum}
use xkblas.Blas.Kernel.GemmTask.{tile_gemm, gemm_hit, gemm_miss, gemm_padding}
use xkblas.Blas.Kernel.Tiles.{matrix}
use xkblas.Blas.Kernel.{Buffer, Kernels, op, IsTrans, rows_of, product}
use xkblas.Blas.Task.{Task, gemm}
use xkblas.Blas.Tiling.Sums.{sum_tiles}
use xkblas.Blas.Tiling.{num_of_tiles, tile_extent, IsTiled, tile_inside, home_tile-lt}
use xkblas.Scalar.{Scalar, ◌⊕◌, ◌⊗◌}

-- What all tile loops of a call share.
pub record Grid {ℓ} (R : Type ℓ) : Type ℓ where
  pub alpha : R
  pub beta : R
  pub pa : ℕ
  pub lda : ℕ
  pub pb : ℕ
  pub ldb : ℕ
  pub pc : ℕ
  pub ldc : ℕ
  pub nb : ℕ

module _ {ℓ} {R : Type ℓ} ⦃s : Scalar R⦄ where
  abbrev pub k_loop : Grid R → (ta tb : ℤ) (k em en x y : ℕ) → List (Task R)
  k_loop g ta tb k em en x y = emit 0 (num_of_tiles k g.nb) λ z.
      gemm (
        tile_gemm ta tb em en (tile_extent z (num_of_tiles k g.nb) k g.nb) g.alpha g.pa g.lda g.pb
          g.ldb (if z == 0 then g.beta else s.one) g.pc g.ldc g.nb x y z)
      ∷ []

-- Operand shapes: the inner dimension is tiled, and the stored operands fit their leading dimensions.
pub record Fits {ℓ} {R : Type ℓ} (g : Grid R) (ta tb : ℤ) (k em en x : ℕ) : Type 0 where
  pub trans_a : IsTrans ta
  pub trans_b : IsTrans tb
  pub inner : IsTiled k g.nb
  pub rows_a : rows_of ta em k ≤ g.lda
  pub rows_b : rows_of tb k en ≤ g.ldb
  pub rows_c : x * g.nb + em ≤ g.ldc
  pub reads_a : g.pa ≢ g.pc
  pub reads_b : g.pb ≢ g.pc

rows_of_mono : (t : ℤ) (r c r' c' n : ℕ) → r' ≤ r → c' ≤ c → rows_of t r c ≤ n → rows_of t r' c' ≤ n
rows_of_mono t r c r' c' n p q h = ground arith

module _ {ℓ} {R : Type ℓ} ⦃s : Scalar R⦄ (kern : Kernels R) (abuf bbuf : Buffer R) {g : Grid R}
    {ta tb : ℤ} {k em en x : ℕ} (f : Fits g ta tb k em en x) (y : ℕ) where
  extent_le : (z : ℕ) → z < num_of_tiles k g.nb → tile_extent z (num_of_tiles k g.nb) k g.nb ≤ k
  extent_le z h = omega (arith, tile_inside f.inner z h)

  pub k_loop_hit :
      (i j : ℕ)
      → i < em
      → j < en
      → 0 < k
      → Acts kern g.pa g.pb g.pc abuf bbuf
          (x * g.nb + i + (y * g.nb + j) * g.ldc)
          (k_loop g ta tb k em en x y)
          (λ c.
            g.alpha
              ⊗ product k
                  (op ta (matrix abuf g.lda))
                  (op tb (matrix bbuf g.ldb))
                  (x * g.nb + i)
                  (y * g.nb + j)
            ⊕ g.beta ⊗ c)
  unfolding product
  k_loop_hit i j hi hj hk =
      let row = x * g.nb + i in
      let col = y * g.nb + j in
      let term = λ (l : ℕ). op ta (matrix abuf g.lda) row l ⊗ op tb (matrix bbuf g.ldb) l col in
      Acts-congr kern f.reads_a f.reads_b
        (λ c. ap (λ v. g.alpha ⊗ v ⊕ g.beta ⊗ c) (sum_tiles term f.inner hk))
        (emit-sum kern f.reads_a f.reads_b g.alpha g.beta (num_of_tiles k g.nb) _ _
          (omega (arith, home_tile-lt f.inner 0 hk))
          (λ z h.
            gemm_hit kern ta tb em en _ g.alpha g.pa g.lda g.pb g.ldb _ g.pc g.ldc g.nb x y z
              f.trans_a f.trans_b
              (rows_of_mono ta em k em _ g.lda (omega arith) (extent_le z h) f.rows_a)
              (rows_of_mono tb k en _ en g.ldb (extent_le z h) (omega arith) f.rows_b) f.rows_c abuf
              bbuf i j hi hj))

  module _ (at : ℕ)
      (step : (z : ℕ)
        → z < num_of_tiles k g.nb
        → Acts kern g.pa g.pb g.pc abuf bbuf at
            (gemm (
                tile_gemm ta tb em en
                  (tile_extent z (num_of_tiles k g.nb) k g.nb)
                  g.alpha
                  g.pa
                  g.lda
                  g.pb
                  g.ldb
                  (if z == 0 then g.beta else s.one)
                  g.pc
                  g.ldc
                  g.nb
                  x
                  y
                  z)
              ∷ [])
            (λ c. c)) where
    k_loop_skip : Acts kern g.pa g.pb g.pc abuf bbuf at (k_loop g ta tb k em en x y) (λ c. c)
    k_loop_skip = emit_skip kern f.reads_a f.reads_b 0 _ _ (λ z p q. step z (omega arith))

  pub k_loop_miss :
      (i j : ℕ)
      → i < g.ldc
      → ((i' j' : ℕ) → i' < em → j' < en → x * g.nb + i' ≡ i → y * g.nb + j' ≡ j → ⊥)
      → Acts kern g.pa g.pb g.pc abuf bbuf (i + j * g.ldc) (k_loop g ta tb k em en x y) (λ c. c)
  k_loop_miss i j hi apart = k_loop_skip _ λ z h.
      gemm_miss kern ta tb em en _ g.alpha g.pa g.lda g.pb g.ldb _ g.pc g.ldc g.nb x y z f.trans_a
        f.trans_b (rows_of_mono ta em k em _ g.lda (omega arith) (extent_le z h) f.rows_a)
        (rows_of_mono tb k en _ en g.ldb (extent_le z h) (omega arith) f.rows_b) f.rows_c abuf bbuf
        i j hi apart

  pub k_loop_padding :
      (p rows cols : ℕ)
      → x * g.nb + em ≤ rows
      → y * g.nb + en ≤ cols
      → ((i j : ℕ) → i < rows → j < cols → p ≢ i + j * g.ldc)
      → Acts kern g.pa g.pb g.pc abuf bbuf p (k_loop g ta tb k em en x y) (λ c. c)
  k_loop_padding p rows cols fr fc apart = k_loop_skip _ λ z h.
      gemm_padding kern ta tb em en _ g.alpha g.pa g.lda g.pb g.ldb _ g.pc g.ldc g.nb x y z
        f.trans_a f.trans_b (rows_of_mono ta em k em _ g.lda (omega arith) (extent_le z h) f.rows_a)
        (rows_of_mono tb k en _ en g.ldb (extent_le z h) (omega arith) f.rows_b) f.rows_c abuf bbuf
        p rows cols fr fc apart
