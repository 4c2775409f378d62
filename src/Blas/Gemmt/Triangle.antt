-- ===== src/Blas/Gemmt/Triangle.antt =====
-- What the loops of zgemmt do to one element of C, inside and outside the part that they compute.
use xkblas.Base.{
  ℕ, ◌+◌, ◌-◌, ◌*◌, ◌/◌, ◌<◌, ◌≤◌, ◌≡◌, ◌≢◌, ◌⊎◌, inl, inr, sym, ◌∙◌, arith, Bool, true, false, ℤ,
  pos, List, if◌then◌else◌, emit, eq_int, Bool-cases, ℕ_discrete,
}
use xkblas.Blas.Gemm.Grid.{Shape, tile_Fits, home_hit, away_skip}
use xkblas.Blas.Gemmt.Loops.{is_diagonal, is_diagonal-eq, cell}
use xkblas.Blas.Gemmt.{min_n, max_n}
use xkblas.Blas.Kernel.Acts.{Acts, emit_skip, emit_once}
use xkblas.Blas.Kernel.GemmLoop.{Grid, Fits, k_loop_padding}
use xkblas.Blas.Kernel.GemmtLoop.{gemmt_loop, gemmt_part, gemmt_hit, gemmt_miss, gemmt_padding}
use xkblas.Blas.Kernel.TileTask.{Holds}
use xkblas.Blas.Kernel.Tiles.{matrix}
use xkblas.Blas.Kernel.{Buffer, Kernels, op, IsUplo, in_triangle, product, whole}
use xkblas.Blas.Task.{Task}
use xkblas.Blas.Tiling.{num_of_tiles, tile_extent, tile_inside, home_tile, home_tile-lt, tile_other}
use xkblas.Scalar.{Scalar, ◌⊕◌, ◌⊗◌}

-- 0 stands for the whole matrix
abbrev pub IsRegion : ℤ → Type 0
IsRegion uplo = (uplo ≡ pos 0) ⊎ IsUplo uplo

abbrev pub selected : ℤ → ℕ → ℕ → Bool
selected uplo i j = if eq_int uplo (pos 0) then true else in_triangle uplo i j

-- the elements of the tiles that the loops visit
abbrev pub written : ℤ → ℕ → ℕ → ℕ → Bool
written uplo nb i j = selected uplo (i / nb) (j / nb)

-- These are the tiles in the triangle of the tiles.
selected-range :
    (uplo : ℤ) (x y nt : ℕ)
    → IsRegion uplo
    → y < nt
    → selected uplo x y ≡ true
    → (min_n uplo x ≤ y) × (y < max_n uplo x nt)
selected-range uplo x y nt (inl e) hy h = rw e (omega arith, omega arith)
selected-range uplo x y nt (inr (inl e)) hy h = let h' = (rw e at h) in rw e (ground arith, hy)
selected-range uplo x y nt (inr (inr e)) hy h =
    let h' = (rw e at h) in rw e (omega arith, ground arith)

not_visited :
    (uplo : ℤ) (x y nt : ℕ)
    → IsRegion uplo
    → selected uplo x y ≡ false
    → min_n uplo x ≤ y
    → y < max_n uplo x nt
    → ⊥
not_visited uplo x y nt (inl e) h lo hi = let h' = (rw e at h) in ground arith
not_visited uplo x y nt (inr (inl e)) h lo hi =
    let h' = (rw e at h) in let lo' = (rw e at lo) in ground arith
not_visited uplo x y nt (inr (inr e)) h lo hi =
    let h' = (rw e at h) in let hi' = (rw e at hi) in ground arith

pub range_inside :
    (uplo : ℤ) (x nt y : ℕ) → x < nt → y < min_n uplo x + (max_n uplo x nt - min_n uplo x) → y < nt
range_inside uplo x nt y hx h = ground arith

module _ {ℓ} {R : Type ℓ} ⦃s : Scalar R⦄ (kern : Kernels R) {g : Grid R} {uplo ta tb : ℤ} {n k : ℕ}
    (v : Shape g ta tb n n k) (region : IsRegion uplo) (abuf bbuf : Buffer R) where
  abbrev pub cells : List (Task R)
  cells = emit 0 (num_of_tiles n g.nb) λ x.
      emit (min_n uplo x) (max_n uplo x (num_of_tiles n g.nb) - min_n uplo x)
        λ y. cell g uplo ta tb n k x y

  fits :
      (y : ℕ)
      → y < num_of_tiles n g.nb
      → Fits g ta tb k
          (tile_extent y (num_of_tiles n g.nb) n g.nb)
          (tile_extent y (num_of_tiles n g.nb) n g.nb)
          y
  fits y hy = tile_Fits kern v abuf bbuf y y hy hy

  module _ (i j : ℕ) (hi : i < n) (hj : j < n) where
    abbrev entry : R → R
    entry c =
        g.alpha ⊗ product k (op ta (matrix abuf g.lda)) (op tb (matrix bbuf g.ldb)) i j ⊕ g.beta ⊗ c

    cell_away :
        (x y : ℕ)
        → x < num_of_tiles n g.nb
        → y < num_of_tiles n g.nb
        → (x ≢ i / g.nb) ⊎ (y ≢ j / g.nb)
        → Acts kern g.pa g.pb g.pc abuf bbuf (i + j * g.ldc) (cell g uplo ta tb n k x y) (λ c. c)
    cell_away x y hx hy ne = elim (Bool-cases (is_diagonal uplo x y)) [
      | inl d ↦ rw d (
          gemmt_miss kern abuf bbuf uplo (fits y hy) i j (omega (arith, v.rows_c))
            (outside (is_diagonal-eq uplo x y d) ne))
      | inr d ↦ rw d (away_skip kern v abuf bbuf x y i j hx hy hi hj ne)
    ]
      where
        outside :
            x ≡ y
            → (x ≢ i / g.nb) ⊎ (y ≢ j / g.nb)
            → ¬ Holds (gemmt_part kern abuf bbuf uplo (fits y hy)) whole i j
        outside e (inl ne) (i', j', hi', hj', sh, ei, ej) =
            tile_other v.tiled_m y hy i' i hi (λ w. ne (e ∙ sym w)) hi' ei
        outside e (inr ne) (i', j', hi', hj', sh, ei, ej) =
            tile_other v.tiled_n y hy j' j hj (λ w. ne (sym w)) hj' ej

    cell_hit :
        written uplo g.nb i j ≡ true
        → 0 < k
        → Acts kern g.pa g.pb g.pc abuf bbuf
            (i + j * g.ldc)
            (cell g uplo ta tb n k (i / g.nb) (j / g.nb))
            entry
    cell_hit sel hk = elim (Bool-cases (is_diagonal uplo (i / g.nb) (j / g.nb))) [
      | inl d ↦ rw d (on_diagonal d (is_diagonal-eq uplo _ _ d))
      | inr d ↦ rw d (home_hit kern v abuf bbuf i j hi hj hk)
    ]
      where
        on_diagonal :
            (d : is_diagonal uplo (i / g.nb) (j / g.nb) ≡ true)
            → i / g.nb ≡ j / g.nb
            → Acts kern g.pa g.pb g.pc abuf bbuf
                (i + j * g.ldc)
                (gemmt_loop g uplo ta tb k
                  (tile_extent (j / g.nb) (num_of_tiles n g.nb) n g.nb)
                  (j / g.nb))
                entry
        on_diagonal d e =
            let y = j / g.nb in
            let (ri, ei) = home_tile v.tiled_m i hi in
            let (rj, ej) = home_tile v.tiled_n j hj in
            let p : y * g.nb + (i - y * g.nb) ≡ i = rw (sym e) (omega (arith, ri)) in
            let q : y * g.nb + (j - y * g.nb) ≡ j = omega arith in
            let small = (rw e at ei) in
            let h =
              gemmt_hit kern abuf bbuf uplo (fits y (home_tile-lt v.tiled_n j hj)) (i - y * g.nb)
                (j - y * g.nb) small ej hk in
            rw (p, q) at h

    -- an element that is computed
    pub cells_hit :
        written uplo g.nb i j ≡ true
        → 0 < k
        → Acts kern g.pa g.pb g.pc abuf bbuf (i + j * g.ldc) cells entry
    cells_hit sel hk =
        let hx = home_tile-lt v.tiled_m i hi in
        let (lo, up) =
          selected-range uplo (i / g.nb) (j / g.nb) (num_of_tiles n g.nb) region
            (home_tile-lt v.tiled_n j hj) sel in
        emit_once kern v.reads_a v.reads_b 0 _ (i / g.nb) _ _ (omega arith) (omega arith)
          (emit_once kern v.reads_a v.reads_b (min_n uplo (i / g.nb)) _ (j / g.nb) _ _ lo
            (ground arith) (cell_hit sel hk)
            (λ y l h ne.
              cell_away (i / g.nb) y hx (range_inside uplo (i / g.nb) _ y hx h) (inr ne)))
          (λ x l h ne. emit_skip kern v.reads_a v.reads_b (min_n uplo x) _ _ (λ y l' h'.
            cell_away x y (omega arith) (range_inside uplo x _ y (omega arith) h') (inl ne)))

    -- an element that is not
    pub cells_miss :
        written uplo g.nb i j ≡ false
        → Acts kern g.pa g.pb g.pc abuf bbuf (i + j * g.ldc) cells (λ c. c)
    cells_miss out = emit_skip kern v.reads_a v.reads_b 0 _ _ λ x l h.
        emit_skip kern v.reads_a v.reads_b (min_n uplo x) _ _
          λ y l' h'. visited x y (omega arith) l' h'
      where
        visited :
            (x y : ℕ)
            → x < num_of_tiles n g.nb
            → min_n uplo x ≤ y
            → y < min_n uplo x + (max_n uplo x (num_of_tiles n g.nb) - min_n uplo x)
            → Acts kern g.pa g.pb g.pc abuf bbuf
                (i + j * g.ldc)
                (cell g uplo ta tb n k x y)
                (λ c. c)
        visited x y hx lo h = elim (ℕ_discrete x (i / g.nb)) [
          | no ne ↦ cell_away x y hx (range_inside uplo x _ y hx h) (inl ne)
          | yes ex ↦ elim (ℕ_discrete y (j / g.nb)) [
            | no ne ↦ cell_away x y hx (range_inside uplo x _ y hx h) (inr ne)
            | yes ey ↦
                let lo' = (rw (ex, ey) at lo) in
                let h' = (rw (ex, ey) at h) in
                absurd (
                  not_visited uplo (i / g.nb) (j / g.nb) (num_of_tiles n g.nb) region out lo'
                    (ground arith))
          ]
        ]

  pub cells_padding :
      (p : ℕ)
      → ((i j : ℕ) → i < n → j < n → p ≢ i + j * g.ldc)
      → Acts kern g.pa g.pb g.pc abuf bbuf p cells (λ c. c)
  cells_padding p apart = emit_skip kern v.reads_a v.reads_b 0 _ _ λ x l h.
      emit_skip kern v.reads_a v.reads_b (min_n uplo x) _ _
        λ y l' h'. pad x y (omega arith) (range_inside uplo x _ y (omega arith) h')
    where
      pad :
          (x y : ℕ)
          → x < num_of_tiles n g.nb
          → y < num_of_tiles n g.nb
          → Acts kern g.pa g.pb g.pc abuf bbuf p (cell g uplo ta tb n k x y) (λ c. c)
      pad x y hx hy = elim (Bool-cases (is_diagonal uplo x y)) [
        | inl d ↦ rw d (
            gemmt_padding kern abuf bbuf uplo (fits y hy) p n n (tile_inside v.tiled_m y hy)
              (tile_inside v.tiled_n y hy) apart)
        | inr d ↦ rw d (
            k_loop_padding kern abuf bbuf (tile_Fits kern v abuf bbuf x y hx hy) y p n n
              (tile_inside v.tiled_m x hx) (tile_inside v.tiled_n y hy) apart)
      ]
