-- ===== src/Blas/Descr.antt =====
-- The internal descriptor of a matrix (struct xkblas_matrix_descr of blas/common.gen) and what
-- blas/xkblas.c does with it. Tiles are handles in a row-major array.
pub mod Handles
pub mod Partition
mod Tests
use xkblas.Base.{
  ℕ, add_size, mul_size, ◌+◌, ◌*◌, Bool, not, List, [], ◌∷◌, ◌==◌, leb, if◌then◌else◌, get_or, emit,
}
use xkblas.Blas.Tiling.{num_of_tiles}

-- `kaapi_handle_t`: the matrix, and where the tile begins in it. The source counts in bytes; every
-- element of a matrix has the same size, so an offset counts elements here.
pub record Handle : Type 0 where
  pub base : ℕ
  pub offset : ℕ

pub record MatrixDescr : Type 0 where
  pub addr : ℕ
  pub ld : ℕ
  pub m : ℕ
  pub n : ℕ
  pub mb : ℕ
  pub nb : ℕ
  pub mt : ℕ
  pub nt : ℕ
  pub ldid : List ℕ
  pub handle : List Handle
  pub capacity : ℕ

-- what `xkblas_find` allocates for a pointer that it has not met
abbrev pub new_descr : MatrixDescr
new_descr = record {
  addr = 0;
  ld = 0;
  m = 0;
  n = 0;
  mb = 0;
  nb = 0;
  mt = 0;
  nt = 0;
  ldid = [];
  handle = [];
  capacity = 0;
}

unfoldable pub isinit : MatrixDescr → Bool
isinit h = not (h.addr == 0)

-- `ADDR_(A, m, n)` in `size_t`, which wraps around
unfoldable pub tile_address : ℕ → ℕ → ℕ → ℕ → ℕ → ℕ → ℕ → ℕ
tile_address eltsize a mb nb ld m n =
    add_size a (mul_size (add_size (mul_size m mb) (mul_size (mul_size n nb) ld)) eltsize)

-- the tile at that address, for a matrix that fits in the address space, where nothing wraps
abbrev pub tile_handle : ℕ → ℕ → ℕ → ℕ → ℕ → ℕ → Handle
tile_handle a mb nb ld m n = record { base = a; offset = m * mb + n * nb * ld }

abbrev pub no_ldid : ℕ
no_ldid = 0xffff

-- one entry for each tile, row by row
pub row_major {ℓ} : {X : Type ℓ} → ℕ → ℕ → (ℕ → ℕ → X) → List X
row_major mt nt f = emit 0 mt (λ m. emit 0 nt (λ n. f m n ∷ []))

unfoldable pub init_matrix_handle : MatrixDescr → ℕ → ℕ → ℕ → ℕ → ℕ → ℕ → MatrixDescr
unfolding row_major
init_matrix_handle h a m n ld mb nb =
    let mt = num_of_tiles m mb in
    let nt = num_of_tiles n nb in
    record {
      addr = a;
      ld = ld;
      m = m;
      n = n;
      mb = mb;
      nb = nb;
      mt = mt;
      nt = nt;
      ldid = row_major mt nt (λ x y. no_ldid);
      handle = row_major mt nt (tile_handle a mb nb ld);
      capacity = if leb h.capacity (mt * nt) then mt * nt else h.capacity;
    }

-- `&Ah->handle[m*Ah->nt+n]`; out of range is undefined in C, and never asked for
unfoldable pub get_handle : MatrixDescr → ℕ → ℕ → Handle
get_handle h m n = get_or h.handle (m * h.nt + n) (record { base = 0; offset = 0 })

unfoldable pub get_ldid : MatrixDescr → ℕ → ℕ → ℕ
get_ldid h m n = get_or h.ldid (m * h.nt + n) no_ldid
