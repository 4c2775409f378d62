-- ===== src/Blas/Kernel/GemmTask.antt =====
-- A gemm task on tiles, as an accumulation into one element of C.
use xkblas.Base.{ℕ, ◌+◌, ◌*◌, ◌<◌, ◌≤◌, ◌≡◌, ◌≢◌, refl, ap, ap₂, ◌∙◌, arith, ℤ, [], ◌∷◌}
use xkblas.Blas.Descr.{tile_handle}
use xkblas.Blas.Kernel.Acts.{Acts}
use xkblas.Blas.Kernel.Tiles.{
  matrix, op_tile, op-op_tile, tile_hit, tile_miss, tile_padding, Acts-single,
}
use xkblas.Blas.Kernel.{Buffer, Mem, Kernels, exec, op, IsTrans, rows_of, elt, product}
use xkblas.Blas.Task.{GemmArg, access_mode, gemm}
use xkblas.Scalar.Sum.{sum, sum_congr}
use xkblas.Scalar.{Scalar, ◌⊕◌, ◌⊗◌}

-- The task for tile (x, y) of C and step z of the inner dimension.
abbrev pub tile_gemm {ℓ} :
    {R : Type ℓ} ⦃s : Scalar R⦄ (ta tb : ℤ) (em en ek : ℕ) (alpha : R) (pa lda pb ldb : ℕ)
    (beta : R) (pc ldc b x y z : ℕ)
    → GemmArg R
tile_gemm ta tb em en ek alpha pa lda pb ldb beta pc ldc b x y z = record {
  trans_a = ta;
  trans_b = tb;
  m = em;
  n = en;
  k = ek;
  alpha = alpha;
  a = op_tile ta (tile_handle pa b b lda) x z;
  lda = lda;
  b = op_tile tb (tile_handle pb b b ldb) z y;
  ldb = ldb;
  beta = beta;
  c = tile_handle pc b b ldc x y;
  ldc = ldc;
  mode = access_mode beta;
}

module _ {ℓ} {R : Type ℓ} ⦃s : Scalar R⦄ (kern : Kernels R) (ta tb : ℤ) (em en ek : ℕ) (alpha : R)
    (pa lda pb ldb : ℕ) (beta : R) (pc ldc b x y z : ℕ) (ha : IsTrans ta) (hb : IsTrans tb)
    (la : rows_of ta em ek ≤ lda) (lb : rows_of tb ek en ≤ ldb) (fits : x * b + em ≤ ldc)
    (abuf bbuf : Buffer R) where
  pub gemm_hit :
      (i j : ℕ)
      → i < em
      → j < en
      → Acts kern pa pb pc abuf bbuf
          (x * b + i + (y * b + j) * ldc)
          (gemm (tile_gemm ta tb em en ek alpha pa lda pb ldb beta pc ldc b x y z) ∷ [])
          (λ c.
            alpha
              ⊗ sum ek (λ l.
                op ta (matrix abuf lda) (x * b + i) (z * b + l)
                ⊗ op tb (matrix bbuf ldb) (z * b + l) (y * b + j))
            ⊕ beta ⊗ c)
  unfolding exec product
  gemm_hit i j hi hj =
      let t = tile_gemm ta tb em en ek alpha pa lda pb ldb beta pc ldc b x y z in
      Acts-single kern (gemm t) (λ mem. kern.zgemm t mem) _ (λ mem. refl)
        (λ mem ea eb.
          tile_hit (kern.zgemm_lem t mem ha hb la lb (omega arith)) (x * b) (y * b) refl i j hi hj
            refl
          ∙ ap (λ v. alpha ⊗ v ⊕ beta ⊗ mem pc (x * b + i + (y * b + j) * ldc))
              (sum_congr ek _ _ (λ l h. term mem l i j ea eb)))
    where
      term :
          (mem : Mem R) (l i j : ℕ)
          → mem pa ≡ abuf
          → mem pb ≡ bbuf
          → op ta (elt mem (op_tile ta (tile_handle pa b b lda) x z) lda) i l
              ⊗ op tb (elt mem (op_tile tb (tile_handle pb b b ldb) z y) ldb) l j
            ≡ op ta (matrix abuf lda) (x * b + i) (z * b + l)
              ⊗ op tb (matrix bbuf ldb) (z * b + l) (y * b + j)
      term mem l i j ea eb =
          ap₂ (λ u v. u ⊗ v)
            (op-op_tile ta mem pa b lda x z i l ha
              ∙ ap (λ v. op ta (matrix v lda) (x * b + i) (z * b + l)) ea)
            (op-op_tile tb mem pb b ldb z y l j hb
              ∙ ap (λ v. op tb (matrix v ldb) (z * b + l) (y * b + j)) eb)

  pub gemm_miss :
      (i j : ℕ)
      → i < ldc
      → ((i' j' : ℕ) → i' < em → j' < en → x * b + i' ≡ i → y * b + j' ≡ j → ⊥)
      → Acts kern pa pb pc abuf bbuf
          (i + j * ldc)
          (gemm (tile_gemm ta tb em en ek alpha pa lda pb ldb beta pc ldc b x y z) ∷ [])
          (λ c. c)
  unfolding exec
  gemm_miss i j hi apart =
      let t = tile_gemm ta tb em en ek alpha pa lda pb ldb beta pc ldc b x y z in
      Acts-single kern (gemm t) (λ mem. kern.zgemm t mem) _ (λ mem. refl)
        (λ mem ea eb.
          tile_miss (kern.zgemm_lem t mem ha hb la lb (omega arith)) (x * b) (y * b) refl i j hi
            fits (λ i' j' p q sh. apart i' j' p q))

  pub gemm_padding :
      (k rows cols : ℕ)
      → x * b + em ≤ rows
      → y * b + en ≤ cols
      → ((i j : ℕ) → i < rows → j < cols → k ≢ i + j * ldc)
      → Acts kern pa pb pc abuf bbuf k
          (gemm (tile_gemm ta tb em en ek alpha pa lda pb ldb beta pc ldc b x y z) ∷ [])
          (λ c. c)
  unfolding exec
  gemm_padding k rows cols fr fc apart =
      let t = tile_gemm ta tb em en ek alpha pa lda pb ldb beta pc ldc b x y z in
      Acts-single kern (gemm t) (λ mem. kern.zgemm t mem) _ (λ mem. refl)
        (λ mem ea eb.
          tile_padding (kern.zgemm_lem t mem ha hb la lb (omega arith)) (x * b) (y * b) refl k rows
            cols fr fc apart)
