-- ===== src/Blas/Mapping.antt =====
-- The mapping of the tiles of a matrix to locality domains: xkblas_map_all, xkblas_map_2Dblock_cyclic,
-- xkblas_map_1Dblock_cyclic, xkblas_map_cyclic and xkblas_map_ij_cyclic of blas/xkblas.c. `none` stands for undefined
-- behaviour, a null pointer or a division by zero, and for an assertion that fails. There are fewer than 2 ^ 31
-- domains, so that an `int` holds a rest by their number. What xkblas_find finds is an argument, and the list
-- of all domains exists.
pub mod Tiles
pub mod Owners
mod Tests
use xkblas.Base.{
  ℕ, zero, suc, ◌+◌, ◌-◌, ◌*◌, ◌/◌, ◌%◌, Bool, true, false, not, ◌||◌, ◌&&◌, Option, none, some,
  List, [], ◌∷◌, length, ◌==◌, ltb, if◌then◌else◌, ℤ, pos, negsuc, add_size, sub_size, mul_size,
}
use xkblas.Blas.Descr.{MatrixDescr, isinit, no_ldid, get_ldid}

abbrev pub einval : ℕ
einval = 22

pub data LdType : Type 0 where
  ld_board ld_gpu ld_core : LdType

-- the domains of each type, by their `ldid`, in order
pub record Domains : Type 0 where
  pub domains : LdType → List ℕ

pub record XkblasContext : Type 0 where
  pub ngpus : ℕ
  pub gpuset : ℕ → ℕ
  pub use_partition_thread_strategy : Bool

abbrev pub nth : List ℕ → ℕ → Option ℕ
nth [] i = none
nth (x ∷ xs) zero = some x
nth (x ∷ xs) (suc i) = nth xs i

abbrev pub kaapi_localitydomain_count : Domains → LdType → ℕ
kaapi_localitydomain_count ds t = length (ds.domains t)

-- the `ldid` of the domain; none for the null pointer
abbrev pub kaapi_localitydomain_get_bytype : Domains → LdType → ℕ → Option ℕ
kaapi_localitydomain_get_bytype ds t ith = nth (ds.domains t) ith

-- as the 16 bits that are stored
unfoldable pub kaapi_localitydomain_get_num : Domains → LdType → ℕ → ℕ
kaapi_localitydomain_get_num ds t i = elim (kaapi_localitydomain_get_bytype ds t i) [
  | none ↦ no_ldid
  | some ldid ↦ ldid
]

unfoldable pub type_of_hlevel : ℤ → Option LdType
type_of_hlevel (pos zero) = some ld_board
type_of_hlevel (pos (suc zero)) = some ld_gpu
type_of_hlevel (pos (suc (suc zero))) = some ld_core
type_of_hlevel _ = none

unfoldable pub is_gpu : LdType → Bool
is_gpu ld_board = false
is_gpu ld_gpu = true
is_gpu ld_core = false

abbrev pub set_at : List ℕ → ℕ → ℕ → List ℕ
set_at [] i v = []
set_at (x ∷ xs) zero v = v ∷ xs
set_at (x ∷ xs) (suc i) v = x ∷ set_at xs i v

unfoldable pub set_ldid : MatrixDescr → ℕ → ℕ → ℕ → MatrixDescr
set_ldid h m n val = record h { ldid = set_at h.ldid (m * h.nt + n) val }

-- one tile, where `place` is the `ldid` that the tile gets
unfoldable pub map_tile : (ℕ → ℕ → Option ℕ) → Bool → MatrixDescr → ℕ → ℕ → Option MatrixDescr
map_tile place force h i j =
    if (get_ldid h i j == no_ldid) || force
    then elim (place i j) [ none ↦ none | some ldid ↦ some (set_ldid h i j ldid) ]
    else some h

unfoldable pub map_columns :
    (ℕ → ℕ → Option ℕ) → Bool → MatrixDescr → ℕ → ℕ → ℕ → Option MatrixDescr
map_columns place force h i j zero = some h
map_columns place force h i j (suc left) = elim (map_tile place force h i j) [
  | none ↦ none
  | some next ↦ map_columns place force next i (suc j) left
]

unfoldable pub map_rows : (ℕ → ℕ → Option ℕ) → Bool → MatrixDescr → ℕ → ℕ → Option MatrixDescr
map_rows place force h i zero = some h
map_rows place force h i (suc left) = elim (map_columns place force h i 0 h.nt) [
  | none ↦ none
  | some next ↦ map_rows place force next (suc i) left
]

-- the checks, and the loops over the tiles
unfoldable pub map_tiles :
    (LdType → ℕ) → (LdType → ℕ → ℕ → Option ℕ) → ℤ → Bool → MatrixDescr → Option (ℕ × MatrixDescr)
map_tiles count place hlevel force h =
    if isinit h
    then elim (type_of_hlevel hlevel) [
      | none ↦ some (einval, h)
      | some type ↦
          let mapped = map_rows (place type) force h 0 h.mt in
          if count type == 0
          then some (einval, h)
          else elim mapped [ none ↦ none | some next ↦ some (0, next) ]
    ]
    else some (einval, h)

abbrev pub partitioned : XkblasContext → LdType → Bool
partitioned xkctxt type = xkctxt.use_partition_thread_strategy && is_gpu type

abbrev pub count_of : Domains → XkblasContext → LdType → ℕ
count_of ds xkctxt type =
    if partitioned xkctxt type then xkctxt.ngpus else kaapi_localitydomain_count ds type

-- the domain of a rest `r`
unfoldable pub domain_index : XkblasContext → LdType → ℕ → Option ℕ
domain_index xkctxt type r =
    if partitioned xkctxt type
    then if ltb r xkctxt.ngpus then some (xkctxt.gpuset r) else none
    else some r

unfoldable pub xkblas_map_all : Domains → ℤ → ℕ → Bool → MatrixDescr → Option (ℕ × MatrixDescr)
xkblas_map_all ds hlevel gpu force h =
    map_tiles (kaapi_localitydomain_count ds)
      (λ type i j. kaapi_localitydomain_get_bytype ds type gpu) hlevel force h

-- `((i/Bp)%Gp)*Gq + (j/Bq)%Gq`
unfoldable pub grid_cell : ℕ → ℕ → ℕ → ℕ → ℕ → ℕ → Option ℕ
grid_cell bp bq gp gq i j =
    if (bp == 0 || gp == 0) || (bq == 0 || gq == 0)
    then none
    else some (add_size (mul_size ((i / bp) % gp) gq) ((j / bq) % gq))

unfoldable pub place_2d : Domains → XkblasContext → ℕ → ℕ → ℕ → ℕ → LdType → ℕ → ℕ → Option ℕ
place_2d ds xkctxt bp bq gp gq type i j = elim (grid_cell bp bq gp gq i j) [
  | none ↦ none
  | some cell ↦ elim (domain_index xkctxt type (cell % count_of ds xkctxt type)) [
    | none ↦ none
    | some r ↦ kaapi_localitydomain_get_bytype ds type r
  ]
]

unfoldable pub xkblas_map_2dblock_cyclic :
    Domains → XkblasContext → ℤ → ℕ → ℕ → ℕ → ℕ → Bool → MatrixDescr → Option (ℕ × MatrixDescr)
xkblas_map_2dblock_cyclic ds xkctxt hlevel bp bq gp gq force h =
    map_tiles (count_of ds xkctxt) (place_2d ds xkctxt bp bq gp gq) hlevel force h

-- `nb` is the parameter NB, not 0; `m` and `n` are the dimensions that the caller gives
unfoldable pub xkblas_map_1dblock_cyclic :
    Domains
    → XkblasContext
    → ℕ
    → ℤ
    → ℤ
    → ℕ
    → ℕ
    → ℕ
    → ℕ
    → Bool
    → MatrixDescr
    → Option (ℕ × MatrixDescr)
xkblas_map_1dblock_cyclic ds xkctxt nb hlevel colrow m n b g force h = elim colrow [
  | pos zero ↦
      xkblas_map_2dblock_cyclic ds xkctxt hlevel (sub_size (add_size m nb) 1 / nb) b 1 g force h
  | _ ↦ xkblas_map_2dblock_cyclic ds xkctxt hlevel b (sub_size (add_size n nb) 1 / nb) g 1 force h
]

-- the `ldid` at a number
unfoldable pub place_num : Domains → XkblasContext → (ℕ → ℕ → ℕ) → LdType → ℕ → ℕ → Option ℕ
place_num ds xkctxt number type i j =
    elim (domain_index xkctxt type (number i j % count_of ds xkctxt type)) [
      | none ↦ none
      | some r ↦ some (kaapi_localitydomain_get_num ds type r)
    ]

unfoldable pub xkblas_map_cyclic :
    Domains → XkblasContext → ℤ → Bool → MatrixDescr → Option (ℕ × MatrixDescr)
xkblas_map_cyclic ds xkctxt hlevel force h =
    map_tiles (count_of ds xkctxt) (place_num ds xkctxt (λ i j. add_size (mul_size i h.nt) j))
      hlevel force h

unfoldable pub xkblas_map_ij_cyclic :
    Domains → XkblasContext → ℤ → Bool → MatrixDescr → Option (ℕ × MatrixDescr)
xkblas_map_ij_cyclic ds xkctxt hlevel force h =
    map_tiles (count_of ds xkctxt) (place_num ds xkctxt (λ i j. add_size i j)) hlevel force h
