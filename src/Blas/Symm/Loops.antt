-- ===== src/Blas/Symm/Loops.antt =====
-- Each round of the loops of zsymm adds one step of the product, whichever task it chooses.
use xkblas.Base.{
  ℕ, ◌+◌, ◌*◌, ◌<◌, ◌≤◌, ◌≡◌, ◌≢◌, inl, inr, refl, sym, ap, ◌∙◌, arith, true, false, not, ℤ, ◌==◌,
  ltb, eq_int, Bool-cases, mul_mono,
}
use xkblas.Blas.Descr.Handles.{get_handle-init_matrix_handle}
use xkblas.Blas.Descr.{MatrixDescr, tile_handle, init_matrix_handle, get_handle}
use xkblas.Blas.Insert.{insert_task_zgemm, insert_task_zsymm}
use xkblas.Blas.Kernel.GemmLoop.{Grid}
use xkblas.Blas.Kernel.Rounds.{TileAdds}
use xkblas.Blas.Kernel.SymmTask.{gemm_adds, left_adds, right_adds}
use xkblas.Blas.Kernel.Tiles.{matrix}
use xkblas.Blas.Kernel.{Buffer, Kernels, sym_of, in_triangle, IsUplo}
use xkblas.Blas.Symm.{left_task, right_task}
use xkblas.Blas.Task.{lower, left}
use xkblas.Blas.Tiling.{num_of_tiles, tile_extent, IsTiled, tile_extent-eq, tile_inside}
use xkblas.Scalar.Sum.{sum}
use xkblas.Scalar.{Scalar, ◌⊗◌}

below : (uplo : ℤ) (r c : ℕ) → IsUplo uplo → c < r → in_triangle uplo r c ≡ eq_int uplo lower
below uplo r c (inl e) h = rw e (ground arith)
below uplo r c (inr e) h = rw e (ground arith)

above : (uplo : ℤ) (r c : ℕ) → IsUplo uplo → r < c → in_triangle uplo r c ≡ not (eq_int uplo lower)
above uplo r c (inl e) h = rw e (ground arith)
above uplo r c (inr e) h = rw e (ground arith)

module _ {ℓ} {R : Type ℓ} ⦃s : Scalar R⦄ (uplo : ℤ) (a : ℕ → ℕ → R) (r c : ℕ) where
  stored : in_triangle uplo r c ≡ true → sym_of uplo a r c ≡ a r c
  stored h = rw h refl

  mirrored : in_triangle uplo r c ≡ false → sym_of uplo a r c ≡ a c r
  mirrored h = rw h refl

-- Rows of an earlier tile come before rows of a later one.
earlier : (b z x l i : ℕ) → z < x → l < b → z * b + l < x * b + i
earlier b z x l i h hl = omega (arith, mul_mono (z + 1) x b (omega arith))

ltb_lt : (a b : ℕ) → ltb a b ≡ true → a < b
ltb_lt a b h = ground arith

gt_of : (a b : ℕ) → ltb a b ≡ false → (a == b) ≡ false → b < a
gt_of a b h k = ground arith

eq_of : (a b : ℕ) → (a == b) ≡ true → a ≡ b
eq_of a b h = ground arith

module _ {ℓ} {R : Type ℓ} ⦃s : Scalar R⦄ (kern : Kernels R) (g : Grid R) (abuf bbuf : Buffer R)
    (uplo : ℤ) (triangle : IsUplo uplo) {m n : ℕ} (tm : IsTiled m g.nb) (tn : IsTiled n g.nb)
    (na : g.pa ≢ g.pc) (nc : g.pb ≢ g.pc) (rows_c : m ≤ g.ldc) (h₀ h₁ h₂ : MatrixDescr) (zbeta : R)
    (x y : ℕ) (hx : x < num_of_tiles m g.nb) (hy : y < num_of_tiles n g.nb) where
  abbrev em : ℕ
  em = tile_extent x (num_of_tiles m g.nb) m g.nb

  abbrev en : ℕ
  en = tile_extent y (num_of_tiles n g.nb) n g.nb

  abbrev at_c :
      get_handle (init_matrix_handle h₂ g.pc m n g.ldc g.nb g.nb) x y
      ≡ tile_handle g.pc g.nb g.nb g.ldc x y
  at_c = get_handle-init_matrix_handle h₂ g.pc m n g.ldc g.nb g.nb x y hx hy

  fits : x * g.nb + em ≤ g.ldc
  fits = omega (arith, tile_inside tm x hx)

  small :
      {d : ℕ} (t : IsTiled d g.nb) (w : ℕ)
      → w < num_of_tiles d g.nb
      → (tile_extent w (num_of_tiles d g.nb) d g.nb ≤ g.nb)
        × (tile_extent w (num_of_tiles d g.nb) d g.nb ≤ d)
  small t w hw = omega (arith, tile_extent-eq t w hw)

  -- A at `pa`, B at `pb`
  module _ (la : m ≤ g.lda) (lb : m ≤ g.ldb) (z : ℕ) (hz : z < num_of_tiles m g.nb) where
    abbrev ek : ℕ
    ek = tile_extent z (num_of_tiles m g.nb) m g.nb

    abbrev a : ℕ → ℕ → R
    a = matrix abuf g.lda

    at_a :
        (u v : ℕ)
        → u < num_of_tiles m g.nb
        → v < num_of_tiles m g.nb
        → get_handle (init_matrix_handle h₀ g.pa m m g.lda g.nb g.nb) u v
          ≡ tile_handle g.pa g.nb g.nb g.lda u v
    at_a = get_handle-init_matrix_handle h₀ g.pa m m g.lda g.nb g.nb

    abbrev at_b :
        get_handle (init_matrix_handle h₁ g.pb m n g.ldb g.nb g.nb) z y
        ≡ tile_handle g.pb g.nb g.nb g.ldb z y
    at_b = get_handle-init_matrix_handle h₁ g.pb m n g.ldb g.nb g.nb z y hz hy

    abbrev left_term : ℕ → ℕ → ℕ → R
    left_term i l j = sym_of uplo a i (z * g.nb + l) ⊗ matrix bbuf g.ldb (z * g.nb + l) j

    pub left_task-adds :
        TileAdds kern g abuf bbuf x y em en
          (λ i j. sum ek (λ l. left_term i l j))
          zbeta
          (left_task left uplo g.alpha zbeta g.lda g.ldb g.ldc
            (init_matrix_handle h₀ g.pa m m g.lda g.nb g.nb)
            (init_matrix_handle h₁ g.pb m n g.ldb g.nb g.nb)
            (init_matrix_handle h₂ g.pc m n g.ldc g.nb g.nb)
            z
            x
            y
            em
            en
            ek)
    unfolding left_task insert_task_zgemm insert_task_zsymm
    left_task-adds = elim (Bool-cases (ltb z x)) [
      | inl lt ↦ elim (Bool-cases (eq_int uplo lower)) [
        | inl e ↦
            rw (e, lt, at_a x z hx hz, at_b, at_c)
              (gemm_adds kern g abuf bbuf x y z em en ek fits zbeta na nc left_term (inl refl)
                (inl refl) (omega (arith, small tm x hx)) (omega (arith, small tm z hz))
                (λ i l j hi hl hj.
                  ap (λ t. t ⊗ matrix bbuf g.ldb (z * g.nb + l) (y * g.nb + j))
                    (sym (
                      stored uplo a _ _ (
                        below uplo _ _ triangle
                          (earlier g.nb z x l i (ltb_lt z x lt) (omega (arith, small tm z hz)))
                        ∙ e)))))
        | inr e ↦
            rw (e, lt, at_a z x hz hx, at_b, at_c)
              (gemm_adds kern g abuf bbuf x y z em en ek fits zbeta na nc left_term (inr (inl refl))
                (inl refl) (omega (arith, small tm z hz)) (omega (arith, small tm z hz))
                (λ i l j hi hl hj.
                  ap (λ t. t ⊗ matrix bbuf g.ldb (z * g.nb + l) (y * g.nb + j))
                    (sym (
                      mirrored uplo a _ _ (
                        below uplo _ _ triangle
                          (earlier g.nb z x l i (ltb_lt z x lt) (omega (arith, small tm z hz)))
                        ∙ e)))))
      ]
      | inr ge ↦ elim (Bool-cases (z == x)) [
        | inl eq ↦
            let w = eq_of z x eq in
            let diag =
              left_adds kern g abuf bbuf x y z em en ek fits zbeta uplo triangle w
                (ap (λ t. tile_extent t (num_of_tiles m g.nb) m g.nb) w)
                (omega (arith, small tm x hx)) (omega (arith, small tm x hx)) in
            elim (Bool-cases (eq_int uplo lower)) [
              | inl e ↦ rw (e, ge, eq, at_a z z hz hz, at_b, at_c) diag
              | inr e ↦ rw (e, ge, eq, at_a z z hz hz, at_b, at_c) diag
            ]
        | inr ne ↦ elim (Bool-cases (eq_int uplo lower)) [
          | inl e ↦
              rw (e, ge, ne, at_a z x hz hx, at_b, at_c)
                (gemm_adds kern g abuf bbuf x y z em en ek fits zbeta na nc left_term
                  (inr (inl refl)) (inl refl) (omega (arith, small tm z hz))
                  (omega (arith, small tm z hz))
                  (λ i l j hi hl hj.
                    ap (λ t. t ⊗ matrix bbuf g.ldb (z * g.nb + l) (y * g.nb + j))
                      (sym (
                        mirrored uplo a _ _ (
                          above uplo _ _ triangle
                            (earlier g.nb x z i l (gt_of z x ge ne) (omega (arith, small tm x hx)))
                          ∙ ap not e)))))
          | inr e ↦
              rw (e, ge, ne, at_a x z hx hz, at_b, at_c)
                (gemm_adds kern g abuf bbuf x y z em en ek fits zbeta na nc left_term (inl refl)
                  (inl refl) (omega (arith, small tm x hx)) (omega (arith, small tm z hz))
                  (λ i l j hi hl hj.
                    ap (λ t. t ⊗ matrix bbuf g.ldb (z * g.nb + l) (y * g.nb + j))
                      (sym (
                        stored uplo a _ _ (
                          above uplo _ _ triangle
                            (earlier g.nb x z i l (gt_of z x ge ne) (omega (arith, small tm x hx)))
                          ∙ ap not e)))))
        ]
      ]
    ]

  -- B at `pa`, A at `pb`
  module _ (la : m ≤ g.lda) (lb : n ≤ g.ldb) (z : ℕ) (hz : z < num_of_tiles n g.nb) where
    abbrev step : ℕ
    step = tile_extent z (num_of_tiles n g.nb) n g.nb

    abbrev right_a : ℕ → ℕ → R
    right_a = matrix bbuf g.ldb

    tile_of_a :
        (u v : ℕ)
        → u < num_of_tiles n g.nb
        → v < num_of_tiles n g.nb
        → get_handle (init_matrix_handle h₀ g.pb n n g.ldb g.nb g.nb) u v
          ≡ tile_handle g.pb g.nb g.nb g.ldb u v
    tile_of_a = get_handle-init_matrix_handle h₀ g.pb n n g.ldb g.nb g.nb

    abbrev tile_of_b :
        get_handle (init_matrix_handle h₁ g.pa m n g.lda g.nb g.nb) x z
        ≡ tile_handle g.pa g.nb g.nb g.lda x z
    tile_of_b = get_handle-init_matrix_handle h₁ g.pa m n g.lda g.nb g.nb x z hx hz

    abbrev right_term : ℕ → ℕ → ℕ → R
    right_term i l j = matrix abuf g.lda i (z * g.nb + l) ⊗ sym_of uplo right_a (z * g.nb + l) j

    pub right_task-adds :
        TileAdds kern g abuf bbuf x y em en
          (λ i j. sum step (λ l. right_term i l j))
          zbeta
          (right_task uplo g.alpha zbeta g.ldb g.lda g.ldc
            (init_matrix_handle h₀ g.pb n n g.ldb g.nb g.nb)
            (init_matrix_handle h₁ g.pa m n g.lda g.nb g.nb)
            (init_matrix_handle h₂ g.pc m n g.ldc g.nb g.nb)
            z
            x
            y
            em
            en
            step)
    unfolding right_task insert_task_zgemm insert_task_zsymm
    right_task-adds = elim (Bool-cases (ltb z y)) [
      | inl lt ↦ elim (Bool-cases (eq_int uplo lower)) [
        | inl e ↦
            rw (e, lt, tile_of_a y z hy hz, tile_of_b, at_c)
              (gemm_adds kern g abuf bbuf x y z em en step fits zbeta na nc right_term (inl refl)
                (inr (inl refl)) (omega (arith, small tm x hx)) (omega (arith, small tn y hy))
                (λ i l j hi hl hj.
                  ap (λ t. matrix abuf g.lda (x * g.nb + i) (z * g.nb + l) ⊗ t)
                    (sym (
                      mirrored uplo right_a _ _ (
                        above uplo _ _ triangle
                          (earlier g.nb z y l j (ltb_lt z y lt) (omega (arith, small tn z hz)))
                        ∙ ap not e)))))
        | inr e ↦
            rw (e, lt, tile_of_a z y hz hy, tile_of_b, at_c)
              (gemm_adds kern g abuf bbuf x y z em en step fits zbeta na nc right_term (inl refl)
                (inl refl) (omega (arith, small tm x hx)) (omega (arith, small tn z hz))
                (λ i l j hi hl hj.
                  ap (λ t. matrix abuf g.lda (x * g.nb + i) (z * g.nb + l) ⊗ t)
                    (sym (
                      stored uplo right_a _ _ (
                        above uplo _ _ triangle
                          (earlier g.nb z y l j (ltb_lt z y lt) (omega (arith, small tn z hz)))
                        ∙ ap not e)))))
      ]
      | inr ge ↦ elim (Bool-cases (z == y)) [
        | inl eq ↦
            let w = eq_of z y eq in
            let diag =
              right_adds kern g abuf bbuf x y z em en step fits zbeta uplo triangle w
                (ap (λ t. tile_extent t (num_of_tiles n g.nb) n g.nb) w)
                (omega (arith, small tm x hx)) (omega (arith, small tn y hy)) in
            elim (Bool-cases (eq_int uplo lower)) [
              | inl e ↦ rw (e, ge, eq, tile_of_a z z hz hz, tile_of_b, at_c) diag
              | inr e ↦ rw (e, ge, eq, tile_of_a z z hz hz, tile_of_b, at_c) diag
            ]
        | inr ne ↦ elim (Bool-cases (eq_int uplo lower)) [
          | inl e ↦
              rw (e, ge, ne, tile_of_a z y hz hy, tile_of_b, at_c)
                (gemm_adds kern g abuf bbuf x y z em en step fits zbeta na nc right_term (inl refl)
                  (inl refl) (omega (arith, small tm x hx)) (omega (arith, small tn z hz))
                  (λ i l j hi hl hj.
                    ap (λ t. matrix abuf g.lda (x * g.nb + i) (z * g.nb + l) ⊗ t)
                      (sym (
                        stored uplo right_a _ _ (
                          below uplo _ _ triangle
                            (earlier g.nb y z j l (gt_of z y ge ne) (omega (arith, small tn y hy)))
                          ∙ e)))))
          | inr e ↦
              rw (e, ge, ne, tile_of_a y z hy hz, tile_of_b, at_c)
                (gemm_adds kern g abuf bbuf x y z em en step fits zbeta na nc right_term (inl refl)
                  (inr (inl refl)) (omega (arith, small tm x hx)) (omega (arith, small tn y hy))
                  (λ i l j hi hl hj.
                    ap (λ t. matrix abuf g.lda (x * g.nb + i) (z * g.nb + l) ⊗ t)
                      (sym (
                        mirrored uplo right_a _ _ (
                          below uplo _ _ triangle
                            (earlier g.nb y z j l (gt_of z y ge ne) (omega (arith, small tn y hy)))
                          ∙ e)))))
        ]
      ]
    ]
