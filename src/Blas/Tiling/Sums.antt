-- ===== src/Blas/Tiling/Sums.antt =====
-- A sum over a tiled dimension, tile by tile.
use xkblas.Base.{ℕ, zero, suc, ◌+◌, ◌-◌, ◌*◌, ◌<◌, ◌≤◌, ◌≡◌, min, sym, ap, ◌∙◌, arith, mul_mono}
use xkblas.Blas.Tiling.{num_of_tiles, tile_extent, IsTiled, tile_extent-eq, tiles_bounds}
use xkblas.Scalar.Sum.{sum, sum_congr, sum_split, sum_full}
use xkblas.Scalar.{Scalar, ◌⊕◌}

module _ {ℓ} {R : Type ℓ} ⦃s : Scalar R⦄ (f : ℕ → R) where
  -- all tiles but the last are full
  clipped :
      (q m b : ℕ)
      → m ≤ suc q * b
      → q * b < m
      → sum (suc q) (λ k. sum (min b (m - k * b)) (λ l. f (k * b + l))) ≡ sum m f
  unfolding sum
  clipped q m b hi lo =
      let first : sum q (λ k. sum (min b (m - k * b)) (λ l. f (k * b + l))) ≡ sum (q * b) f =
        sum_congr q _ _ (λ k h. ap (λ n. sum n (λ l. f (k * b + l))) (full k h)) ∙ sum_full q b f in
      let e : m ≡ q * b + min b (m - q * b) = omega arith in
      ap (λ t. t ⊕ sum (min b (m - q * b)) (λ l. f (q * b + l))) first
      ∙ sym (sum_split (q * b) (min b (m - q * b)) f)
      ∙ ap (λ n. sum n f) (sym e)
    where
      full : (k : ℕ) → k < q → min b (m - k * b) ≡ b
      full k h = omega (arith, mul_mono (k + 1) q b (omega arith))

  from_tiles :
      (q m b : ℕ)
      → 0 < m
      → m ≤ q * b
      → q * b < m + b
      → sum q (λ k. sum (min b (m - k * b)) (λ l. f (k * b + l))) ≡ sum m f
  from_tiles zero m b p hi lo = absurd (omega arith)
  from_tiles (suc q) m b p hi lo = clipped q m b hi (omega arith)

  pub sum_tiles :
      {m nb : ℕ}
      → IsTiled m nb
      → 0 < m
      → sum
          (num_of_tiles m nb)
          (λ k. sum (tile_extent k (num_of_tiles m nb) m nb) (λ l. f (k * nb + l)))
        ≡ sum m f
  sum_tiles {m} {nb} v p =
      sum_congr (num_of_tiles m nb) _ _
        (λ k h. ap (λ n. sum n (λ l. f (k * nb + l))) (tile_extent-eq v k h))
      ∙ from_tiles (num_of_tiles m nb) m nb p (tiles_bounds v).0 (tiles_bounds v).1
