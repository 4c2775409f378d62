-- ===== src/Blas/Syrk/Triangle.antt =====
-- What the loops of zsyrk do to one element of C, inside and outside the triangle.
use xkblas.Base.{
  ℕ, ◌+◌, ◌-◌, ◌*◌, ◌/◌, ◌<◌, ◌≤◌, ◌≡◌, ◌≢◌, ◌⊎◌, inl, inr, refl, sym, ap, ◌∙◌, arith, true, false,
  ℤ, List, eq_int, Bool-cases, dec_lt,
}
use xkblas.Blas.Gemm.Grid.{Shape, tile_Fits, home_hit, away_skip}
use xkblas.Blas.Kernel.Acts.{Acts, Acts-congr}
use xkblas.Blas.Kernel.GemmLoop.{Grid, k_loop, k_loop_padding}
use xkblas.Blas.Kernel.SyrkLoop.{
  FitsDiag, ReadsC, self_product, diag_part, diag_hit, diag_miss, diag_padding,
}
use xkblas.Blas.Kernel.TileTask.{Holds}
use xkblas.Blas.Kernel.Tiles.{matrix, in_triangle_shift}
use xkblas.Blas.Kernel.Triangle.{triangle_tasks, triangle_skip, triangle_diag, triangle_beyond}
use xkblas.Blas.Kernel.{Buffer, Kernels, op, IsUplo, in_triangle, rows_of, product}
use xkblas.Blas.Syrk.Order.{
  first, second, in_triangle-first, in_triangle-second, not_beyond, not_diagonal,
}
use xkblas.Blas.Syrk.Loops.{flip, self_grid, extent, diag, beyond}
use xkblas.Blas.Task.{Task, no_trans, trans, lower}
use xkblas.Blas.Tiling.{
  num_of_tiles, tile_extent, IsTiled, tile_inside, home_tile, home_tile-lt, tile_other,
}
use xkblas.Scalar.Sum.{sum_congr}
use xkblas.Scalar.{Scalar, ◌⊕◌, ◌⊗◌}

pub record SyrkShape (uplo ta : ℤ) (n k pa lda pc ldc nb : ℕ) : Type 0 where
  pub triangle : IsUplo uplo
  pub trans_a : (ta ≡ no_trans) ⊎ (ta ≡ trans)
  pub tiled_n : IsTiled n nb
  pub tiled_k : IsTiled k nb
  pub rows_a : rows_of ta n k ≤ lda
  pub rows_c : n ≤ ldc
  pub reads_a : pa ≢ pc

module _ {ℓ} {R : Type ℓ} ⦃s : Scalar R⦄ (kern : Kernels R) (alpha beta : R) {uplo ta : ℤ}
    {n k pa lda pc ldc nb : ℕ} (v : SyrkShape uplo ta n k pa lda pc ldc nb) (reads : ReadsC beta)
    (abuf : Buffer R) where
  abbrev grid : Grid R
  grid = self_grid alpha beta pa lda pc ldc nb

  shape : Shape grid ta (flip ta) n n k
  shape = build v.trans_a v.rows_a
    where
      build : (ta ≡ no_trans) ⊎ (ta ≡ trans) → rows_of ta n k ≤ lda → Shape grid ta (flip ta) n n k
      build (inl e) r = record {
        trans_a = inl e;
        trans_b = rw e (inr (inl refl));
        tiled_m = v.tiled_n;
        tiled_n = v.tiled_n;
        tiled_k = v.tiled_k;
        rows_a = r;
        rows_b = rw e (let r' = (rw e at r) in r');
        rows_c = v.rows_c;
        reads_a = v.reads_a;
        reads_b = v.reads_a;
      }
      build (inr e) r = record {
        trans_a = inr (inl e);
        trans_b = rw e (inl refl);
        tiled_m = v.tiled_n;
        tiled_n = v.tiled_n;
        tiled_k = v.tiled_k;
        rows_a = r;
        rows_b = rw e (let r' = (rw e at r) in r');
        rows_c = v.rows_c;
        reads_a = v.reads_a;
        reads_b = v.reads_a;
      }

  op-flip : (x : ℕ → ℕ → R) (l j : ℕ) → op (flip ta) x l j ≡ op ta x j l
  op-flip x l j = by_flag v.trans_a
    where
      by_flag : (ta ≡ no_trans) ⊎ (ta ≡ trans) → op (flip ta) x l j ≡ op ta x j l
      by_flag (inl e) = rw e refl
      by_flag (inr e) = rw e refl

  fits :
      (y : ℕ)
      → y < num_of_tiles n nb
      → FitsDiag grid uplo ta k (tile_extent y (num_of_tiles n nb) n nb) y
  fits y hy = record {
    triangle = v.triangle;
    trans_a = v.trans_a;
    inner = v.tiled_k;
    rows_a = shorter ta (omega (arith, tile_inside v.tiled_n y hy)) v.rows_a;
    rows_c = omega (arith, tile_inside v.tiled_n y hy, v.rows_c);
    reads_a = v.reads_a;
    reads_c = reads;
  }
    where
      shorter : (t : ℤ) {e : ℕ} → e ≤ n → rows_of t n k ≤ lda → rows_of t e k ≤ lda
      shorter t h r = ground arith

  abbrev pub triangle_list : List (Task R)
  triangle_list =
      triangle_tasks (num_of_tiles n nb) (diag alpha beta pa lda pc ldc nb uplo ta n k)
        (beyond alpha beta pa lda pc ldc nb uplo ta n k)

  module _ (i j : ℕ) (hi : i < n) (hj : j < n) where
    abbrev entry : R → R
    entry c = alpha ⊗ self_product k (op ta (matrix abuf lda)) i j ⊕ beta ⊗ c

    beyond_hit :
        0 < k
        → Acts kern pa pa pc abuf abuf
            (i + j * ldc)
            (beyond alpha beta pa lda pc ldc nb uplo ta n k
              (first uplo nb i j)
              (second uplo nb i j))
            entry
    unfolding product
    beyond_hit hk =
        let h =
          Acts-congr kern v.reads_a v.reads_a
            (λ c.
              ap (λ t. alpha ⊗ t ⊕ beta ⊗ c)
                (sum_congr k _ _ (λ l _.
                  ap (λ t. op ta (matrix abuf lda) i l ⊗ t) (op-flip (matrix abuf lda) l j))))
            (home_hit kern shape abuf abuf i j hi hj hk) in
        elim (Bool-cases (eq_int uplo lower)) [ inl e ↦ rw e h | inr e ↦ rw e h ]

    beyond_miss :
        (y x : ℕ)
        → y < num_of_tiles n nb
        → x < num_of_tiles n nb
        → (y ≢ first uplo nb i j) ⊎ (x ≢ second uplo nb i j)
        → Acts kern pa pa pc abuf abuf
            (i + j * ldc)
            (beyond alpha beta pa lda pc ldc nb uplo ta n k y x)
            (λ c. c)
    beyond_miss y x hy hx ne = elim (Bool-cases (eq_int uplo lower)) [
      | inl e ↦
          let ne' = (rw e at ne) in
          rw e (away_skip kern shape abuf abuf x y i j hx hy hi hj (other ne'))
      | inr e ↦
          let ne' = (rw e at ne) in rw e (away_skip kern shape abuf abuf y x i j hy hx hi hj ne')
    ]
      where
        other : {a b : Type 0} → a ⊎ b → b ⊎ a
        other (inl h) = inr h
        other (inr h) = inl h

    diag_away :
        (y : ℕ)
        → y < num_of_tiles n nb
        → (y ≢ i / nb) ⊎ (y ≢ j / nb) ⊎ (in_triangle uplo i j ≡ false)
        → Acts kern pa pa pc abuf abuf
            (i + j * ldc)
            (diag alpha beta pa lda pc ldc nb uplo ta n k y)
            (λ c. c)
    diag_away y hy why = diag_miss kern abuf (fits y hy) i j (omega (arith, v.rows_c)) (outside why)
      where
        outside :
            (y ≢ i / nb) ⊎ (y ≢ j / nb) ⊎ (in_triangle uplo i j ≡ false)
            → ¬ Holds (diag_part kern abuf (fits y hy)) (in_triangle uplo) i j
        outside (inl ne) (i', j', hi', hj', sh, ei, ej) =
            tile_other v.tiled_n y hy i' i hi (λ w. ne (sym w)) hi' ei
        outside (inr (inl ne)) (i', j', hi', hj', sh, ei, ej) =
            tile_other v.tiled_n y hy j' j hj (λ w. ne (sym w)) hj' ej
        outside (inr (inr out)) (i', j', hi', hj', sh, ei, ej) =
            let t = in_triangle_shift uplo (y * nb) i' j' in let t' = (rw (ei, ej) at t) in cc

    diag_home :
        i / nb ≡ j / nb
        → in_triangle uplo i j ≡ true
        → 0 < k
        → Acts kern pa pa pc abuf abuf
            (i + j * ldc)
            (diag alpha beta pa lda pc ldc nb uplo ta n k (j / nb))
            entry
    diag_home e sh hk =
        let y = j / nb in
        let (ri, ei) = home_tile v.tiled_n i hi in
        let (rj, ej) = home_tile v.tiled_n j hj in
        let p : y * nb + (i - y * nb) ≡ i = rw (sym e) (omega (arith, ri)) in
        let q : y * nb + (j - y * nb) ≡ j = omega arith in
        let t = in_triangle_shift uplo (y * nb) (i - y * nb) (j - y * nb) in
        let t' = (rw (p, q) at t) in
        let small = (rw e at ei) in
        let h =
          diag_hit kern abuf (fits y (home_tile-lt v.tiled_n j hj)) (i - y * nb) (j - y * nb) small
            ej (sym t' ∙ sh) hk in
        rw (p, q) at h

    -- an element of the triangle
    pub triangle_hit :
        in_triangle uplo i j ≡ true
        → 0 < k
        → Acts kern pa pa pc abuf abuf (i + j * ldc) triangle_list entry
    triangle_hit sh hk = elim (dec_lt (first uplo nb i j) (second uplo nb i j)) [
      | yes p ↦
          triangle_beyond kern v.reads_a v.reads_a _ _ _ (first uplo nb i j) (second uplo nb i j) _
            p second-lt (beyond_hit hk) (λ y hy. diag_away y hy (apart y p))
            (λ y x h l ne. beyond_miss y x (omega arith) l ne)
      | no p ↦
          let e = same p in
          triangle_diag kern v.reads_a v.reads_a _ _ _ (j / nb) _ (home_tile-lt v.tiled_n j hj)
            (diag_home e sh hk) (λ y hy ne. diag_away y hy (inr (inl ne)))
            (λ y x h l. beyond_miss y x (omega arith) l (strict y x h p))
    ]
      where
        second-lt : second uplo nb i j < num_of_tiles n nb
        second-lt = elim (Bool-cases (eq_int uplo lower)) [
          | inl e ↦ rw e (home_tile-lt v.tiled_n i hi)
          | inr e ↦ rw e (home_tile-lt v.tiled_n j hj)
        ]

        same : ¬ (first uplo nb i j < second uplo nb i j) → i / nb ≡ j / nb
        same p =
            let l = in_triangle-first uplo nb i j v.tiled_n.positive v.triangle sh in ground arith

        apart :
            (y : ℕ)
            → first uplo nb i j < second uplo nb i j
            → (y ≢ i / nb) ⊎ (y ≢ j / nb) ⊎ (in_triangle uplo i j ≡ false)
        apart y p = weaken (not_diagonal y (i / nb) (j / nb) (ground arith))
          where
            weaken : {a b c : Type 0} → a ⊎ b → a ⊎ b ⊎ c
            weaken (inl h) = inl h
            weaken (inr h) = inr (inl h)

        strict :
            (y x : ℕ)
            → y < x
            → ¬ (first uplo nb i j < second uplo nb i j)
            → (y ≢ first uplo nb i j) ⊎ (x ≢ second uplo nb i j)
        strict y x h p = not_beyond y x _ _ h (omega arith)

    -- an element outside it
    pub triangle_miss :
        in_triangle uplo i j ≡ false
        → Acts kern pa pa pc abuf abuf (i + j * ldc) triangle_list (λ c. c)
    triangle_miss out =
        triangle_skip kern v.reads_a v.reads_a _ _ _ (λ y hy. diag_away y hy (inr (inr out)))
          (λ y x h l. beyond_miss y x (omega arith) l (strict y x h))
      where
        strict : (y x : ℕ) → y < x → (y ≢ first uplo nb i j) ⊎ (x ≢ second uplo nb i j)
        strict y x h =
            let l = in_triangle-second uplo nb i j v.tiled_n.positive v.triangle out in
            not_beyond y x _ _ h l

  pub triangle_padding :
      (p : ℕ)
      → ((i j : ℕ) → i < n → j < n → p ≢ i + j * ldc)
      → Acts kern pa pa pc abuf abuf p triangle_list (λ c. c)
  triangle_padding p apart =
      triangle_skip kern v.reads_a v.reads_a _ _ _
        (λ y hy.
          diag_padding kern abuf (fits y hy) p n n (tile_inside v.tiled_n y hy)
            (tile_inside v.tiled_n y hy) apart)
        (λ y x h l. pad y x (omega arith) l)
    where
      loop :
          (x y : ℕ)
          → x < num_of_tiles n nb
          → y < num_of_tiles n nb
          → Acts kern pa pa pc abuf abuf p
              (k_loop grid ta
                (flip ta)
                k
                (extent alpha beta pa lda pc ldc nb uplo ta n k x)
                (extent alpha beta pa lda pc ldc nb uplo ta n k y)
                x
                y)
              (λ c. c)
      loop x y hx hy =
          k_loop_padding kern abuf abuf (tile_Fits kern shape abuf abuf x y hx hy) y p n n
            (tile_inside v.tiled_n x hx) (tile_inside v.tiled_n y hy) apart

      pad :
          (y x : ℕ)
          → y < num_of_tiles n nb
          → x < num_of_tiles n nb
          → Acts kern pa pa pc abuf abuf p
              (beyond alpha beta pa lda pc ldc nb uplo ta n k y x)
              (λ c. c)
      pad y x hy hx = elim (Bool-cases (eq_int uplo lower)) [
        | inl e ↦ rw e (loop x y hx hy)
        | inr e ↦ rw e (loop y x hy hx)
      ]
