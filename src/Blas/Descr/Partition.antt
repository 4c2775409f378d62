-- ===== src/Blas/Descr/Partition.antt =====
-- The tiles of a descriptor partition the elements of its matrix.
use xkblas.Base.{
  ℕ, ◌%◌, ◌^◌, add_size, mul_size, mul_mono, ◌+◌, ◌-◌, ◌*◌, ◌/◌, ◌<◌, ◌≤◌, ◌≡◌, ap, sym, ◌∙◌, arith,
  ℕ_discrete,
}
use xkblas.Blas.Descr.Handles.{get_handle-init_matrix_handle}
use xkblas.Blas.Descr.{MatrixDescr, Handle, init_matrix_handle, get_handle, tile_address}
use xkblas.Blas.Kernel.Tiles.{address_injective}
use xkblas.Blas.Tiling.{
  num_of_tiles, tile_extent, IsTiled, tile_inside, tile_other, home_tile, home_tile-lt,
}

-- A tile of a descriptor, and an element of the tile.
pub record Place (m mb n nb : ℕ) : Type 0 where
  pub x : ℕ
  pub y : ℕ
  pub row : ℕ
  pub col : ℕ
  pub x_lt : x < num_of_tiles m mb
  pub y_lt : y < num_of_tiles n nb
  pub row_lt : row < tile_extent x (num_of_tiles m mb) m mb
  pub col_lt : col < tile_extent y (num_of_tiles n nb) n nb

-- where it is in the matrix, by the handle that the descriptor keeps
abbrev pub address : (h : MatrixDescr) (ld : ℕ) {m mb n nb : ℕ} → Place m mb n nb → ℕ
address h ld p = (get_handle h p.x p.y).offset + (p.row + p.col * ld)

-- and in memory: the address of the tile, and the bytes from there to the element
abbrev pub byte_address : (eltsize a ld : ℕ) {m mb n nb : ℕ} → Place m mb n nb → ℕ
byte_address eltsize a ld {m} {mb} {n} {nb} p =
    add_size (tile_address eltsize a mb nb ld p.x p.y)
      (mul_size (add_size p.row (mul_size p.col ld)) eltsize)

quotient :
    {m mb : ℕ} (t : IsTiled m mb) (x r i : ℕ)
    → x < num_of_tiles m mb
    → r < tile_extent x (num_of_tiles m mb) m mb
    → i < m
    → x * mb + r ≡ i
    → x ≡ i / mb
quotient {mb} t x r i hx hr hi e = elim (ℕ_discrete x (i / mb)) [
  | yes p ↦ p
  | no ne ↦ absurd (tile_other t x hx r i hi (λ w. ne (sym w)) hr e)
]

module _ (h : MatrixDescr) (a : ℕ) {m mb n nb : ℕ} (ld : ℕ) (tm : IsTiled m mb) (tn : IsTiled n nb)
    (fits : m ≤ ld) where
  abbrev descr : MatrixDescr
  descr = init_matrix_handle h a m n ld mb nb

  address-eq :
      (p : Place m mb n nb) → address descr ld p ≡ p.x * mb + p.row + (p.y * nb + p.col) * ld
  address-eq p =
      ap (λ (t : Handle). t.offset + (p.row + p.col * ld))
        (get_handle-init_matrix_handle h a m n ld mb nb p.x p.y p.x_lt p.y_lt)
      ∙ omega arith

  places_partition :
      (i j : ℕ)
      → i < m
      → j < n
      → (p : Place m mb n nb) × (address descr ld p ≡ i + j * ld)
        × ((q : Place m mb n nb)
            → address descr ld q ≡ i + j * ld
            → (q.x ≡ p.x) × (q.y ≡ p.y) × (q.row ≡ p.row) × (q.col ≡ p.col))
  places_partition i j hi hj =
      let (lo_i, in_i) = home_tile tm i hi in
      let (lo_j, in_j) = home_tile tn j hj in
      let p : Place m mb n nb = record {
        x = i / mb;
        y = j / nb;
        row = i - i / mb * mb;
        col = j - j / nb * nb;
        x_lt = home_tile-lt tm i hi;
        y_lt = home_tile-lt tn j hj;
        row_lt = in_i;
        col_lt = in_j;
      } in
      let r : i / mb * mb + (i - i / mb * mb) ≡ i = omega arith in
      let c : j / nb * nb + (j - j / nb * nb) ≡ j = omega arith in
      (p, address-eq p ∙ rw (r, c), only)
    where
      only :
          (q : Place m mb n nb)
          → address descr ld q ≡ i + j * ld
          → (q.x ≡ i / mb) × (q.y ≡ j / nb) × (q.row ≡ i - i / mb * mb) × (q.col ≡ j - j / nb * nb)
      only q e =
          let (ei, ej) =
            address_injective ld (q.x * mb + q.row) (q.y * nb + q.col) i j
              (omega (arith, tile_inside tm q.x q.x_lt)) (omega arith) (sym (address-eq q) ∙ e) in
          let qx = quotient tm q.x q.row i q.x_lt q.row_lt hi ei in
          let qy = quotient tn q.y q.col j q.y_lt q.col_lt hj ej in
          (
            qx,
            qy,
            omega (arith, ap (λ (t : ℕ). t * mb) qx),
            omega (arith, ap (λ (t : ℕ). t * nb) qy),
          )

-- Nothing wraps around below the end of the address space.
bytes_lem :
    (a x mb row y nb col ld e : ℕ)
    → 0 < ld
    → 0 < e
    → a + (x * mb + row + (y * nb + col) * ld) * e < 2 ^ 64
    → add_size (tile_address e a mb nb ld x y) (mul_size (add_size row (mul_size col ld)) e)
      ≡ a + (x * mb + row + (y * nb + col) * ld) * e
unfolding tile_address
bytes_lem a x mb row y nb col ld e some_ld some_e room =
    let once = mul_mono 1 e (x * mb + y * nb * ld) some_e in
    let once' = mul_mono 1 e (row + col * ld) some_e in
    let once'' = mul_mono 1 ld (y * nb) some_ld in
    let s = small (y * nb) (omega arith) in
    let s₁ = small (x * mb) (omega arith) in
    let s₂ = small (y * nb * ld) (omega arith) in
    let s₃ = small (x * mb + y * nb * ld) (omega arith) in
    let s₄ = small ((x * mb + y * nb * ld) * e) (omega arith) in
    let s₅ = small (a + (x * mb + y * nb * ld) * e) (omega arith) in
    let s₆ = small (col * ld) (omega arith) in
    let s₇ = small (row + col * ld) (omega arith) in
    let s₈ = small ((row + col * ld) * e) (omega arith) in
    rw (tile_address, s, s₁, s₂, s₃, s₄, s₅, s₆, s₇, s₈) (omega arith)
  where
    small : (t : ℕ) → t < 2 ^ 64 → t % 2 ^ 64 ≡ t
    small t h = omega arith

module _ (h : MatrixDescr) (a : ℕ) {m mb n nb : ℕ} (ld eltsize : ℕ) (tm : IsTiled m mb)
    (tn : IsTiled n nb) (fits : m ≤ ld) (some_size : 0 < eltsize)
    (room : a + n * ld * eltsize ≤ 2 ^ 64) where
  abbrev filled : MatrixDescr
  filled = init_matrix_handle h a m n ld mb nb

  byte_address-eq :
      (p : Place m mb n nb) → byte_address eltsize a ld p ≡ a + address filled ld p * eltsize
  byte_address-eq p =
      let row_in = tile_inside tm p.x p.x_lt in
      let col_in = tile_inside tn p.y p.y_lt in
      let i = p.x * mb + p.row in
      let j = p.y * nb + p.col in
      let below = mul_mono (j + 1) n ld (omega (arith, col_in, p.col_lt)) in
      let size =
        mul_mono (i + j * ld + 1) (n * ld) eltsize (omega (arith, row_in, p.row_lt, below)) in
      bytes_lem a p.x mb p.row p.y nb p.col ld eltsize (omega (arith, row_in, p.row_lt)) some_size
        (omega arith)
      ∙ ap (λ (t : ℕ). a + t * eltsize) (sym (address-eq h a ld tm tn fits p))

  cancel : (s t : ℕ) → a + s * eltsize ≡ a + t * eltsize → s ≡ t
  cancel s t e = grind arith

  -- Each element (i, j) of a matrix is an element of exactly one tile of the descriptor that
  -- xkblas_init_matrix_handle fills in, for dimensions and tile sizes below 2 ^ 32, tile sizes that are
  -- not 0, a leading dimension that is at least the number of rows, and a matrix that lies in the address
  -- space of 64 bits: the address, in bytes, of the element in the matrix is that of one place
  -- in one tile, computed from the address of the tile in arithmetic that wraps around, and of
  -- no other place in any tile; and the handle of the tile stands for that address.
  pub tiles_partition :
      (i j : ℕ)
      → i < m
      → j < n
      → (p : Place m mb n nb) × (byte_address eltsize a ld p ≡ a + (i + j * ld) * eltsize)
        × (address filled ld p ≡ i + j * ld)
        × ((q : Place m mb n nb)
            → byte_address eltsize a ld q ≡ a + (i + j * ld) * eltsize
            → (q.x ≡ p.x) × (q.y ≡ p.y) × (q.row ≡ p.row) × (q.col ≡ p.col))
  tiles_partition i j hi hj =
      let (p, here, only) = places_partition h a ld tm tn fits i j hi hj in
      (
        p,
        byte_address-eq p ∙ ap (λ (t : ℕ). a + t * eltsize) here,
        here,
        λ q e. only q (cancel (address filled ld q) (i + j * ld) (sym (byte_address-eq q) ∙ e)),
      )
