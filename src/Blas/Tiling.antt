-- ===== src/Blas/Tiling.antt =====
-- How a dimension is cut into tiles: `xkblas_num_of_tiles` of blas/common.gen, and the expression
-- `x == Xt-1 ? X-x*Xb : Xb` by which the routines of blas/ size a tile.
pub mod Sums
use xkblas.Base.{
  ℕ, ◌+◌, ◌-◌, ◌*◌, ◌/◌, ◌^◌, ◌≤◌, ◌<◌, ◌≡◌, ◌≢◌, ap, arith, min, inl, inr, Bool-cases, mul_mono,
  div_unique, div-lt, ◌==◌, if◌then◌else◌, add_size, sub_size, mul_size,
}

pub num_of_tiles : ℕ → ℕ → ℕ
num_of_tiles m nb = sub_size (add_size m nb) 1 / nb

pub tile_extent : ℕ → ℕ → ℕ → ℕ → ℕ
tile_extent x xt m xb = if x == sub_size xt 1 then sub_size m (mul_size x xb) else xb

-- A dimension and a tile size for which nothing wraps.
pub record IsTiled (m nb : ℕ) : Type 0 where
  pub positive : 0 < nb
  pub small_tile : nb < 2 ^ 32
  pub small : m < 2 ^ 32

pub no_tiles : (nb : ℕ) → 0 < nb → nb < 2 ^ 32 → num_of_tiles 0 nb ≡ 0
unfolding num_of_tiles
no_tiles nb p q = omega (arith, div-lt (sub_size (add_size 0 nb) 1) nb 1 p (omega arith))

module _ {m nb : ℕ} (v : IsTiled m nb) where
  pub num_of_tiles-eq : num_of_tiles m nb ≡ (m + nb - 1) / nb
  unfolding num_of_tiles
  num_of_tiles-eq = ap (λ n. n / nb) (omega arith)

  -- the tiles cover the dimension, and all but the last lie inside it
  pub tiles_bounds : (m ≤ num_of_tiles m nb * nb) × (num_of_tiles m nb * nb < m + nb)
  tiles_bounds = rw num_of_tiles-eq (omega arith)

  pub num_of_tiles-lt : num_of_tiles m nb < 2 ^ 33
  num_of_tiles-lt = omega (arith, tiles_bounds, mul_mono 1 nb (num_of_tiles m nb))

  module _ (x : ℕ) (inside : x < num_of_tiles m nb) where
    before_last : x + 1 < num_of_tiles m nb → x * nb + nb < m
    before_last h =
        omega (arith, tiles_bounds, mul_mono (x + 2) (num_of_tiles m nb) nb (omega arith))

    last_tile : x + 1 ≡ num_of_tiles m nb → (x * nb < m) × (m ≤ x * nb + nb)
    last_tile h =
        let p : (x + 1) * nb ≡ num_of_tiles m nb * nb = rw h in omega (arith, tiles_bounds)

    -- A tile is full, or it is the last and ends the dimension.
    pub tile_extent-eq : tile_extent x (num_of_tiles m nb) m nb ≡ min nb (m - x * nb)
    unfolding tile_extent
    tile_extent-eq = elim (Bool-cases (x == sub_size (num_of_tiles m nb) 1)) [
      | inl last ↦ rw last (ground (arith, num_of_tiles-lt, last_tile, before_last))
      | inr more ↦ rw more (ground (arith, num_of_tiles-lt, last_tile, before_last))
    ]

    pub tile_inside : x * nb + tile_extent x (num_of_tiles m nb) m nb ≤ m
    tile_inside =
        omega (
          arith,
          tile_extent-eq,
          tiles_bounds,
          mul_mono (x + 1) (num_of_tiles m nb) nb (omega arith),
        )

    -- The tile holds exactly the indices that divide to its number.
    pub tile_other :
        (r i : ℕ) → i < m → i / nb ≢ x → r < tile_extent x (num_of_tiles m nb) m nb → x * nb + r ≢ i
    tile_other r i hi ne hr e = ne (div_unique x nb i (omega arith) (omega (arith, tile_extent-eq)))

  module _ (i : ℕ) (hi : i < m) where
    pub home_tile-lt : i / nb < num_of_tiles m nb
    home_tile-lt = div-lt i nb _ v.positive (omega (arith, tiles_bounds))

    pub home_tile :
        (i / nb * nb ≤ i) × (i - i / nb * nb < tile_extent (i / nb) (num_of_tiles m nb) m nb)
    home_tile = omega (arith, tile_extent-eq (i / nb) home_tile-lt)
