-- ===== src/Blas/Kernel/SyrkLoop.antt =====
-- The loop over the inner dimension for one diagonal tile of C: syrk tasks that add up to the
-- triangle of the tile of the whole product.
use xkblas.Base.{
  ℕ, ◌+◌, ◌*◌, ◌<◌, ◌≤◌, ◌≡◌, ◌≢◌, ◌⊎◌, inl, inr, refl, ap, ap₂, ◌∙◌, arith, true, false,
  Bool-cases, ℤ, List, [], ◌∷◌, ◌==◌, if◌then◌else◌, emit,
}
use xkblas.Blas.Descr.{tile_handle}
use xkblas.Blas.Kernel.Acts.{Acts, Acts-congr}
use xkblas.Blas.Kernel.GemmLoop.{Grid}
use xkblas.Blas.Kernel.TileTask.{Part, Holds, IsUpdate, loop_hit, loop_miss, loop_padding}
use xkblas.Blas.Kernel.Tiles.{matrix, op_tile, op-op_tile}
use xkblas.Blas.Kernel.{
  Buffer, Mem, Kernels, exec, fetched, op, elt, IsTrans, IsUplo, rows_of, product, in_triangle,
}
use xkblas.Blas.Task.{access_mode, mode_rw, SyrkArg, Task, syrk, no_trans, trans}
use xkblas.Blas.Tiling.Sums.{sum_tiles}
use xkblas.Blas.Tiling.{num_of_tiles, tile_extent, IsTiled, tile_inside, home_tile-lt}
use xkblas.Scalar.Sum.{sum_congr}
use xkblas.Scalar.{Scalar, ◌⊕◌, ◌⊗◌}

-- op(X) op(X)^T
abbrev pub self_product {ℓ} : {R : Type ℓ} ⦃s : Scalar R⦄ → ℕ → (ℕ → ℕ → R) → ℕ → ℕ → R
self_product k x = product k x (λ l j. x j l)

module _ {ℓ} {R : Type ℓ} ⦃s : Scalar R⦄ (g : Grid R) (uplo ta : ℤ) (k en y : ℕ) where
  abbrev pub tile_syrk : ℕ → SyrkArg R
  tile_syrk z = record {
    uplo = uplo;
    trans_a = ta;
    n = en;
    k = tile_extent z (num_of_tiles k g.nb) k g.nb;
    alpha = g.alpha;
    a = op_tile ta (tile_handle g.pa g.nb g.nb g.lda) y z;
    lda = g.lda;
    beta = if z == 0 then g.beta else s.one;
    c = tile_handle g.pc g.nb g.nb g.ldc y y;
    ldc = g.ldc;
    mode = access_mode (if z == 0 then g.beta else s.one);
  }

  abbrev pub diag_loop : List (Task R)
  diag_loop = emit 0 (num_of_tiles k g.nb) (λ z. syrk (tile_syrk z) ∷ [])

-- The tile of C is read by every task: neither `beta` nor the 1 of the later rounds is 0.
pub record ReadsC {ℓ} {R : Type ℓ} ⦃s : Scalar R⦄ (beta : R) : Type 0 where
  pub beta_read : s.is_zero beta ≡ false
  pub one_read : s.is_zero s.one ≡ false

pub record FitsDiag {ℓ} {R : Type ℓ} ⦃s : Scalar R⦄ (g : Grid R) (uplo ta : ℤ) (k en y : ℕ)
    : Type 0 where
  pub triangle : IsUplo uplo
  pub trans_a : (ta ≡ no_trans) ⊎ (ta ≡ trans)
  pub inner : IsTiled k g.nb
  pub rows_a : rows_of ta en k ≤ g.lda
  pub rows_c : y * g.nb + en ≤ g.ldc
  pub reads_a : g.pa ≢ g.pc
  pub reads_c : ReadsC g.beta

module _ {ℓ} {R : Type ℓ} ⦃s : Scalar R⦄ (kern : Kernels R) (abuf : Buffer R) {g : Grid R}
    {uplo ta : ℤ} {k en y : ℕ} (f : FitsDiag g uplo ta k en y) where
  abbrev pub diag_part : Part
  diag_part = record {
    handle = tile_handle g.pc g.nb g.nb g.ldc y y;
    ld = g.ldc;
    row = y * g.nb;
    col = y * g.nb;
    height = en;
    width = en;
    at = refl;
    fits = f.rows_c;
  }

  abbrev tile_a : ℕ → Mem R → ℕ → ℕ → R
  tile_a z mem = op ta (elt mem (op_tile ta (tile_handle g.pa g.nb g.nb g.lda) y z) g.lda)

  shorter : (t : ℤ) (c c' n : ℕ) → c' ≤ c → rows_of t en c ≤ n → rows_of t en c' ≤ n
  shorter t c c' n p h = ground arith

  abbrev value : ℕ → Mem R → ℕ → ℕ → R
  value z mem = self_product (tile_extent z (num_of_tiles k g.nb) k g.nb) (tile_a z mem)

  mode-eq : (z : ℕ) → access_mode (if z == 0 then g.beta else s.one) ≡ mode_rw
  mode-eq z = elim (Bool-cases (z == 0)) [
    | inl e ↦ rw (e, f.reads_c.beta_read) refl
    | inr e ↦ rw (e, f.reads_c.one_read) refl
  ]

  is_update :
      (z : ℕ)
      → z < num_of_tiles k g.nb
      → IsUpdate kern diag_part
          (in_triangle uplo)
          g.alpha
          (value z)
          (if z == 0 then g.beta else s.one)
          (syrk (tile_syrk g uplo ta k en y z))
  unfolding exec fetched
  is_update z hz = record {
    out = λ mem. kern.zsyrk (tile_syrk g uplo ta k en y z) mem;
    exec_out = λ mem. rw (mode-eq z) refl;
    updates = λ mem.
        kern.zsyrk_lem (tile_syrk g uplo ta k en y z) mem f.triangle f.trans_a
          (shorter ta k _ g.lda (omega (arith, tile_inside f.inner z hz)) f.rows_a)
          (omega (arith, f.rows_c));
  }

  IsTrans-ta : IsTrans ta
  IsTrans-ta = weaken f.trans_a
    where
      weaken : (ta ≡ no_trans) ⊎ (ta ≡ trans) → IsTrans ta
      weaken (inl e) = inl e
      weaken (inr e) = inr (inl e)

  pub diag_hit :
      (i j : ℕ)
      → i < en
      → j < en
      → in_triangle uplo i j ≡ true
      → 0 < k
      → Acts kern g.pa g.pa g.pc abuf abuf
          (y * g.nb + i + (y * g.nb + j) * g.ldc)
          (diag_loop g uplo ta k en y)
          (λ c.
            g.alpha ⊗ self_product k (op ta (matrix abuf g.lda)) (y * g.nb + i) (y * g.nb + j)
            ⊕ g.beta ⊗ c)
  unfolding product
  diag_hit i j hi hj sh hk =
      let term = λ (l : ℕ).
        op ta (matrix abuf g.lda) (y * g.nb + i) l ⊗ op ta (matrix abuf g.lda) (y * g.nb + j) l in
      Acts-congr kern f.reads_a f.reads_a
        (λ c. ap (λ v. g.alpha ⊗ v ⊕ g.beta ⊗ c) (sum_tiles term f.inner hk))
        (loop_hit kern f.reads_a f.reads_a g.alpha g.beta (num_of_tiles k g.nb) is_update i j _ hi
          hj sh (omega (arith, home_tile-lt f.inner 0 hk))
          (λ z mem ea _.
            sum_congr _ _ _ (λ l h. ap₂ (λ u v. u ⊗ v) (entry z mem i l ea) (entry z mem j l ea))))
    where
      entry :
          (z : ℕ) (mem : Mem R) (i l : ℕ)
          → mem g.pa ≡ abuf
          → tile_a z mem i l ≡ op ta (matrix abuf g.lda) (y * g.nb + i) (z * g.nb + l)
      entry z mem i l ea =
          op-op_tile ta mem g.pa g.nb g.lda y z i l IsTrans-ta
          ∙ ap (λ v. op ta (matrix v g.lda) (y * g.nb + i) (z * g.nb + l)) ea

  pub diag_miss :
      (i j : ℕ)
      → i < g.ldc
      → ¬ Holds diag_part (in_triangle uplo) i j
      → Acts kern g.pa g.pa g.pc abuf abuf (i + j * g.ldc) (diag_loop g uplo ta k en y) (λ c. c)
  diag_miss i j hi away =
      loop_miss kern f.reads_a f.reads_a g.alpha g.beta (num_of_tiles k g.nb) is_update i j hi away

  pub diag_padding :
      (p rows cols : ℕ)
      → y * g.nb + en ≤ rows
      → y * g.nb + en ≤ cols
      → ((i j : ℕ) → i < rows → j < cols → p ≢ i + j * g.ldc)
      → Acts kern g.pa g.pa g.pc abuf abuf p (diag_loop g uplo ta k en y) (λ c. c)
  diag_padding p rows cols fr fc apart =
      loop_padding kern f.reads_a f.reads_a g.alpha g.beta (num_of_tiles k g.nb) is_update p rows
        cols fr fc apart
