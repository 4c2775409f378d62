-- ===== src/Blas/Gemm/Grid.antt =====
-- The tasks of a gemm call compute the product.
use xkblas.Base.{
  ℕ, ◌+◌, ◌-◌, ◌*◌, ◌/◌, ◌<◌, ◌≤◌, ◌≡◌, ◌≢◌, ◌⊎◌, inl, inr, refl, sym, ap, arith, ℤ, List, [], emit,
  emit_nil, emit_congr, ◌∙◌, mul_mono,
}
use xkblas.Blas.Descr.{MatrixDescr, init_matrix_handle}
use xkblas.Blas.Gemm.Loops.{a_descr, b_descr, c_descr, inner_tasks-eq}
use xkblas.Blas.Gemm.{tasks}
use xkblas.Blas.Kernel.Acts.{Acts}
use xkblas.Blas.Kernel.Cover.{Computes, cover_once, cover_skip}
use xkblas.Blas.Kernel.GemmLoop.{Grid, k_loop, Fits, k_loop_hit, k_loop_miss, k_loop_padding}
use xkblas.Blas.Kernel.Tiles.{matrix}
use xkblas.Blas.Kernel.{Buffer, Mem, Kernels, op, IsTrans, rows_of, product}
use xkblas.Blas.Task.{Task}
use xkblas.Blas.Tiling.{
  num_of_tiles, no_tiles, tile_extent, IsTiled, tile_inside, tile_other, home_tile, home_tile-lt,
}
use xkblas.Scalar.{Scalar, ◌⊕◌, ◌⊗◌}

-- The shape of a product: sizes that are tiled, operands that fit, and C apart from A and B.
pub record Shape {ℓ} {R : Type ℓ} (g : Grid R) (ta tb : ℤ) (m n k : ℕ) : Type 0 where
  pub trans_a : IsTrans ta
  pub trans_b : IsTrans tb
  pub tiled_m : IsTiled m g.nb
  pub tiled_n : IsTiled n g.nb
  pub tiled_k : IsTiled k g.nb
  pub rows_a : rows_of ta m k ≤ g.lda
  pub rows_b : rows_of tb k n ≤ g.ldb
  pub rows_c : m ≤ g.ldc
  pub reads_a : g.pa ≢ g.pc
  pub reads_b : g.pb ≢ g.pc

module _ {ℓ} {R : Type ℓ} ⦃s : Scalar R⦄ (kern : Kernels R) {g : Grid R} {ta tb : ℤ} {m n k : ℕ}
    (v : Shape g ta tb m n k) (abuf bbuf : Buffer R) where
  abbrev pub ext_m : ℕ → ℕ
  ext_m x = tile_extent x (num_of_tiles m g.nb) m g.nb

  abbrev pub ext_n : ℕ → ℕ
  ext_n y = tile_extent y (num_of_tiles n g.nb) n g.nb

  rows_of_tile :
      (t : ℤ) (r c r' c' l : ℕ) → r' ≤ r → c' ≤ c → rows_of t r c ≤ l → rows_of t r' c' ≤ l
  rows_of_tile t r c r' c' l p q h = ground arith

  pub tile_Fits :
      (x y : ℕ)
      → x < num_of_tiles m g.nb
      → y < num_of_tiles n g.nb
      → Fits g ta tb k (ext_m x) (ext_n y) x
  tile_Fits x y hx hy =
      let ix = tile_inside v.tiled_m x hx in
      let iy = tile_inside v.tiled_n y hy in
      record {
        trans_a = v.trans_a;
        trans_b = v.trans_b;
        inner = v.tiled_k;
        rows_a = rows_of_tile ta m k _ k g.lda (omega arith) (omega arith) v.rows_a;
        rows_b = rows_of_tile tb k n k _ g.ldb (omega arith) (omega arith) v.rows_b;
        rows_c = omega (arith, v.rows_c);
        reads_a = v.reads_a;
        reads_b = v.reads_b;
      }

  -- In the element's own tile the loop over `k` adds the product.
  pub home_hit :
      (i j : ℕ)
      → i < m
      → j < n
      → 0 < k
      → Acts kern g.pa g.pb g.pc abuf bbuf
          (i + j * g.ldc)
          (k_loop g ta tb k (ext_m (i / g.nb)) (ext_n (j / g.nb)) (i / g.nb) (j / g.nb))
          (λ c.
            g.alpha ⊗ product k (op ta (matrix abuf g.lda)) (op tb (matrix bbuf g.ldb)) i j
            ⊕ g.beta ⊗ c)
  home_hit i j hi hj hk =
      let (ri, ei) = home_tile v.tiled_m i hi in
      let (rj, ej) = home_tile v.tiled_n j hj in
      let x = i / g.nb in
      let y = j / g.nb in
      let h =
        k_loop_hit kern abuf bbuf
          (tile_Fits x y (home_tile-lt v.tiled_m i hi) (home_tile-lt v.tiled_n j hj)) y
          (i - x * g.nb) (j - y * g.nb) ei ej hk in
      let p : x * g.nb + (i - x * g.nb) ≡ i = omega arith in
      let q : y * g.nb + (j - y * g.nb) ≡ j = omega arith in rw (p, q) at h

  pub away_skip :
      (x y i j : ℕ)
      → x < num_of_tiles m g.nb
      → y < num_of_tiles n g.nb
      → i < m
      → j < n
      → (x ≢ i / g.nb) ⊎ (y ≢ j / g.nb)
      → Acts kern g.pa g.pb g.pc abuf bbuf
          (i + j * g.ldc)
          (k_loop g ta tb k (ext_m x) (ext_n y) x y)
          (λ c. c)
  away_skip x y i j hx hy hi hj (inl ne) =
      k_loop_miss kern abuf bbuf (tile_Fits x y hx hy) y i j (omega (arith, v.rows_c))
        (λ i' j' p q e f. tile_other v.tiled_m x hx i' i hi (λ w. ne (sym w)) p e)
  away_skip x y i j hx hy hi hj (inr ne) =
      k_loop_miss kern abuf bbuf (tile_Fits x y hx hy) y i j (omega (arith, v.rows_c))
        (λ i' j' p q e f. tile_other v.tiled_n y hy j' j hj (λ w. ne (sym w)) q f)

module _ {ℓ} {R : Type ℓ} ⦃s : Scalar R⦄ (kern : Kernels R) {g : Grid R} {ta tb : ℤ} {m n k : ℕ}
    (v : Shape g ta tb m n k) (h₀ h₁ h₂ : MatrixDescr) where
  abbrev pub call_tasks : List (Task R)
  call_tasks =
      tasks ta tb m n (rows_of ta m k) (rows_of ta k m) g.alpha g.beta g.lda g.ldb g.ldc
        (a_descr g ta tb h₀ h₁ h₂ m n k) (b_descr g ta tb h₀ h₁ h₂ m n k)
        (c_descr g ta tb h₀ h₁ h₂ m n k)

  abbrev k_loops : List (Task R)
  k_loops = emit 0 (num_of_tiles m g.nb) λ x. emit 0 (num_of_tiles n g.nb) λ y.
      k_loop g ta tb k (tile_extent x (num_of_tiles m g.nb) m g.nb)
        (tile_extent y (num_of_tiles n g.nb) n g.nb) x y

  tasks-eq : call_tasks ≡ k_loops
  unfolding tasks init_matrix_handle
  tasks-eq = emit_congr 0 (num_of_tiles m g.nb) _ _ λ x _ hx.
      emit_congr 0 (num_of_tiles n g.nb) _ _
        λ y _ hy. inner_tasks-eq g ta tb h₀ h₁ h₂ m n k x y _ _ (omega arith) (omega arith)

  -- An empty inner dimension has no tile.
  pub tasks-nil : k ≡ 0 → call_tasks ≡ []
  unfolding emit
  tasks-nil e =
      let none : num_of_tiles k g.nb ≡ 0 =
        rw e (no_tiles g.nb v.tiled_m.positive v.tiled_m.small_tile) in
      tasks-eq ∙ rw none (loops_nil (num_of_tiles m g.nb) (num_of_tiles n g.nb))
    where
      loops_nil : (p q : ℕ) → emit {A = Task R} 0 p (λ x. emit 0 q (λ y. [])) ≡ []
      loops_nil p q = ap (λ l. emit 0 p (λ x. l)) (emit_nil 0 q) ∙ emit_nil 0 p

  pub tasks-Computes :
      0 < k
      → Computes kern call_tasks g.pc m n g.ldc λ mem i j.
        g.alpha ⊗ product k (op ta (matrix (mem g.pa) g.lda)) (op tb (matrix (mem g.pb) g.ldb)) i j
        ⊕ g.beta ⊗ matrix (mem g.pc) g.ldc i j
  tasks-Computes hk = rw tasks-eq (record {
    entries = λ mem i j hi hj. (at mem i j hi hj).value mem refl refl;
    padding = λ mem p apart. (pad mem p apart).value mem refl refl;
    others = λ mem q ne. (pad mem (n * g.ldc) beyond).frame mem q ne;
  })
    where
      beyond : (i j : ℕ) → i < m → j < n → n * g.ldc ≢ i + j * g.ldc
      beyond i j hi hj e = absurd (omega (arith, v.rows_c, mul_mono (j + 1) n g.ldc (omega arith)))

      at :
          (mem : Mem R) (i j : ℕ)
          → i < m
          → j < n
          → Acts kern g.pa g.pb g.pc (mem g.pa) (mem g.pb) (i + j * g.ldc) k_loops (λ c.
            g.alpha
              ⊗ product k (op ta (matrix (mem g.pa) g.lda)) (op tb (matrix (mem g.pb) g.ldb)) i j
            ⊕ g.beta ⊗ c)
      at mem i j hi hj =
          cover_once kern v.reads_a v.reads_b _ _ (i / g.nb) (j / g.nb) _ _
            (home_tile-lt v.tiled_m i hi) (home_tile-lt v.tiled_n j hj)
            (home_hit kern v (mem g.pa) (mem g.pb) i j hi hj hk)
            (λ x y hx hy ne. away_skip kern v (mem g.pa) (mem g.pb) x y i j hx hy hi hj ne)

      pad :
          (mem : Mem R) (p : ℕ)
          → ((i j : ℕ) → i < m → j < n → p ≢ i + j * g.ldc)
          → Acts kern g.pa g.pb g.pc (mem g.pa) (mem g.pb) p k_loops (λ c. c)
      pad mem p apart = cover_skip kern v.reads_a v.reads_b _ _ _ λ x y hx hy.
          k_loop_padding kern (mem g.pa) (mem g.pb)
            (tile_Fits kern v (mem g.pa) (mem g.pb) x y hx hy) y p m n (tile_inside v.tiled_m x hx)
            (tile_inside v.tiled_n y hy) apart
