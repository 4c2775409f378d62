-- ===== src/Blas/Mapping/Owners.antt =====
-- The tiles' domains after the calls that map them.
use xkblas.Base.{
  ℕ, zero, suc, ◌+◌, ◌*◌, ◌/◌, ◌%◌, ◌^◌, ◌<◌, ◌≡◌, inl, inr, Bool-cases, refl, ap, arith, Bool,
  true, false, ◌||◌, Option, none, some, List, [], ◌∷◌, length, ◌==◌, ltb, if◌then◌else◌, ℤ,
  add_size, mul_size,
}
use native.Mathlib.Nat.{mod-lt}
use xkblas.Blas.Descr.{MatrixDescr, isinit, no_ldid, get_ldid}
use xkblas.Blas.Mapping.{
  LdType, Domains, XkblasContext, nth, type_of_hlevel, map_tiles, partitioned, count_of,
  domain_index, grid_cell, place_2d, place_num, xkblas_map_2dblock_cyclic, xkblas_map_cyclic,
  xkblas_map_ij_cyclic, kaapi_localitydomain_get_bytype, kaapi_localitydomain_get_num,
}
use xkblas.Blas.Mapping.Tiles.{place-bound, rows_lem}

-- What a call leaves in the descriptor: each tile has its new domain where it had none or `force` is set, and nothing
-- else has changed.
pub record Mapped (owner : ℕ → ℕ → ℕ) (force : Bool) (h next : MatrixDescr) : Type 0 where
  pub tiles :
      (x y : ℕ)
      → x < h.mt
      → y < h.nt
      → get_ldid next x y
        ≡ (if (get_ldid h x y == no_ldid) || force then owner x y else get_ldid h x y)
  pub only_ldid : next ≡ record h { ldid = next.ldid }

map_tiles_lem :
    (count : LdType → ℕ) (place : LdType → ℕ → ℕ → Option ℕ) (owner : ℕ → ℕ → ℕ) (hlevel : ℤ)
    (force : Bool) (h : MatrixDescr) (type : LdType)
    → ((x y : ℕ) → x < h.mt → y < h.nt → place type x y ≡ some (owner x y))
    → isinit h ≡ true
    → length h.ldid ≡ h.mt * h.nt
    → type_of_hlevel hlevel ≡ some type
    → 0 < count type
    → (next : MatrixDescr) × (map_tiles count place hlevel force h ≡ some (0, next))
      × Mapped owner force h next
unfolding map_tiles get_ldid
map_tiles_lem count place owner hlevel force h type placed init sized level some_domain =
    let (l, run, rows) =
      rows_lem (place type) owner force h placed h.ldid 0 h.mt sized (omega arith) in
    let f : count type == 0 ≡ false = ground arith in
    (
      record h { ldid = l },
      rw (map_tiles, init, level, f, run) refl,
      record { tiles = λ x y hx hy. rows.here x y (omega arith) hx hy; only_ldid = refl },
    )

-- the domains of a type in the order in which a context uses them
unfoldable pub domain_at : Domains → XkblasContext → LdType → ℕ → ℕ
domain_at ds xkctxt type r =
    let idx = if partitioned xkctxt type then xkctxt.gpuset r else r in
    elim (nth (ds.domains type) idx) [ none ↦ no_ldid | some ldid ↦ ldid ]

-- Every device of the context is a domain.
abbrev pub AreDomains : Domains → XkblasContext → LdType → Type 0
AreDomains ds xkctxt type =
    (r : ℕ)
    → r < count_of ds xkctxt type
    → (if partitioned xkctxt type then xkctxt.gpuset r else r) < length (ds.domains type)

nth_within : (xs : List ℕ) (i : ℕ) → i < length xs → (x : ℕ) × (nth xs i ≡ some x)
nth_within [] i h = absurd (omega arith)
nth_within (x ∷ xs) zero h = (x, refl)
nth_within (x ∷ xs) (suc i) h = nth_within xs i (omega arith)

index_lem :
    (ds : Domains) (xkctxt : XkblasContext) (type : LdType) (r : ℕ)
    → r < count_of ds xkctxt type
    → domain_index xkctxt type r ≡ some (if partitioned xkctxt type then xkctxt.gpuset r else r)
unfolding domain_index
index_lem ds xkctxt type r small = elim (Bool-cases (partitioned xkctxt type)) [
  | inl t ↦
      let few : r < xkctxt.ngpus = rw t at small in
      let less : ltb r xkctxt.ngpus ≡ true = ground arith in rw (domain_index, t, less) refl
  | inr f ↦ rw (domain_index, f) refl
]

bytype_lem :
    (ds : Domains) (xkctxt : XkblasContext) (type : LdType) (r : ℕ)
    → AreDomains ds xkctxt type
    → r < count_of ds xkctxt type
    → kaapi_localitydomain_get_bytype ds type
        (if partitioned xkctxt type then xkctxt.gpuset r else r)
      ≡ some (domain_at ds xkctxt type r)
unfolding domain_at
bytype_lem ds xkctxt type r all small =
    let idx = if partitioned xkctxt type then xkctxt.gpuset r else r in
    let (x, e) = nth_within (ds.domains type) idx (all r small) in rw (domain_at, e) refl

num_lem :
    (ds : Domains) (xkctxt : XkblasContext) (type : LdType) (r : ℕ)
    → kaapi_localitydomain_get_num ds type (if partitioned xkctxt type then xkctxt.gpuset r else r)
      ≡ domain_at ds xkctxt type r
unfolding domain_at kaapi_localitydomain_get_num
num_lem ds xkctxt type r = refl

-- the cell of a tile in a grid of `gp` rows and `gq` columns of blocs of `bp` by `bq` tiles
abbrev pub cell_of : ℕ → ℕ → ℕ → ℕ → ℕ → ℕ → ℕ
cell_of bp bq gp gq i j = ((i / bp) % gp) * gq + (j / bq) % gq

grid_cell_lem :
    (bp bq gp gq i j : ℕ)
    → 0 < bp
    → 0 < bq
    → 0 < gp
    → 0 < gq
    → gp * gq < 2 ^ 64
    → grid_cell bp bq gp gq i j ≡ some (cell_of bp bq gp gq i j)
unfolding grid_cell
grid_cell_lem bp bq gp gq i j b c p q small =
    let inside =
      place-bound gp gq ((i / bp) % gp) ((j / bq) % gq) (mod-lt (i / bp) p) (mod-lt (j / bq) q) in
    let fb : bp == 0 ≡ false = ground arith in
    let fc : bq == 0 ≡ false = ground arith in
    let fp : gp == 0 ≡ false = ground arith in
    let fq : gq == 0 ≡ false = ground arith in
    let row = ((i / bp) % gp) * gq in
    let m : row % 2 ^ 64 ≡ row = omega (arith, inside, small) in
    let s : (row + (j / bq) % gq) % 2 ^ 64 ≡ row + (j / bq) % gq = omega (arith, inside, small) in
    rw (grid_cell, fb, fc, fp, fq, m, s) refl

-- the domain of a tile in a block-cyclic map, and in the cyclic ones
abbrev pub block_owner : Domains → XkblasContext → LdType → ℕ → ℕ → ℕ → ℕ → ℕ → ℕ → ℕ
block_owner ds xkctxt type bp bq gp gq i j =
    domain_at ds xkctxt type (cell_of bp bq gp gq i j % count_of ds xkctxt type)

-- For a known matrix, a level of 0, 1 or 2 with a domain, devices of the context that are domains, and a
-- grid that is not empty, whose blocs are not and whose size fits in 64 bits, xkblas_map_2Dblock_cyclic returns 0 and maps
-- every tile that has no domain, or with `force` every tile, to the domain of its cell, ((i / Bp) % Gp) * Gq + (j / Bq) % Gq, by the rest by the
-- number of domains; the other tiles keep theirs, and nothing else in the descriptor changes.
pub map_2dblock_cyclic-Mapped :
    (ds : Domains) (xkctxt : XkblasContext) (hlevel : ℤ) (type : LdType) (bp bq gp gq : ℕ)
    (force : Bool) (h : MatrixDescr)
    → isinit h ≡ true
    → length h.ldid ≡ h.mt * h.nt
    → type_of_hlevel hlevel ≡ some type
    → 0 < count_of ds xkctxt type
    → AreDomains ds xkctxt type
    → 0 < bp
    → 0 < bq
    → 0 < gp
    → 0 < gq
    → gp * gq < 2 ^ 64
    → (next : MatrixDescr) × (xkblas_map_2dblock_cyclic ds xkctxt hlevel bp bq gp gq force h
        ≡ some (0, next))
      × Mapped (block_owner ds xkctxt type bp bq gp gq) force h next
unfolding xkblas_map_2dblock_cyclic place_2d
map_2dblock_cyclic-Mapped ds xkctxt hlevel type bp bq gp gq force h init sized level some_domain all
      b c p q small =
    map_tiles_lem (count_of ds xkctxt) (place_2d ds xkctxt bp bq gp gq)
      (block_owner ds xkctxt type bp bq gp gq) hlevel force h type placed init sized level
      some_domain
  where
    placed :
        (x y : ℕ)
        → x < h.mt
        → y < h.nt
        → place_2d ds xkctxt bp bq gp gq type x y
          ≡ some (block_owner ds xkctxt type bp bq gp gq x y)
    placed x y hx hy =
        let r = cell_of bp bq gp gq x y % count_of ds xkctxt type in
        let few : r < count_of ds xkctxt type = mod-lt (cell_of bp bq gp gq x y) some_domain in
        rw (place_2d, grid_cell_lem bp bq gp gq x y b c p q small, index_lem ds xkctxt type r few)
          (bytype_lem ds xkctxt type r all few)

num_placed :
    (ds : Domains) (xkctxt : XkblasContext) (number : ℕ → ℕ → ℕ) (type : LdType) (x y : ℕ)
    → 0 < count_of ds xkctxt type
    → place_num ds xkctxt number type x y
      ≡ some (domain_at ds xkctxt type (number x y % count_of ds xkctxt type))
unfolding place_num
num_placed ds xkctxt number type x y some_domain =
    let r = number x y % count_of ds xkctxt type in
    let few : r < count_of ds xkctxt type = mod-lt (number x y) some_domain in
    rw (place_num, index_lem ds xkctxt type r few)
      (ap (λ (d : ℕ). some d) (num_lem ds xkctxt type r))

-- For a known matrix and a level of 0, 1 or 2 with a domain, xkblas_map_cyclic and xkblas_map_ij_cyclic return 0 and map
-- every tile that has no domain, or with `force` every tile, to the domain of its number in the row-major
-- order, and of the sum of its row and column, by the rest by the number of domains, in the arithmetic of
-- 64 bits; the other tiles keep theirs, and nothing else in the descriptor changes.
pub map_cyclic-Mapped :
    (ds : Domains) (xkctxt : XkblasContext) (hlevel : ℤ) (type : LdType) (force : Bool)
    (h : MatrixDescr)
    → isinit h ≡ true
    → length h.ldid ≡ h.mt * h.nt
    → type_of_hlevel hlevel ≡ some type
    → 0 < count_of ds xkctxt type
    → ((next : MatrixDescr) × (xkblas_map_cyclic ds xkctxt hlevel force h ≡ some (0, next))
        × Mapped
            (λ i j.
              domain_at ds xkctxt type (add_size (mul_size i h.nt) j % count_of ds xkctxt type))
            force
            h
            next)
      × ((next : MatrixDescr) × (xkblas_map_ij_cyclic ds xkctxt hlevel force h ≡ some (0, next))
          × Mapped
              (λ i j. domain_at ds xkctxt type (add_size i j % count_of ds xkctxt type))
              force
              h
              next)
unfolding xkblas_map_cyclic xkblas_map_ij_cyclic
map_cyclic-Mapped ds xkctxt hlevel type force h init sized level some_domain =
    let each = λ (number : ℕ → ℕ → ℕ).
      (map_tiles_lem (count_of ds xkctxt) (place_num ds xkctxt number)
        (λ i j. domain_at ds xkctxt type (number i j % count_of ds xkctxt type)) hlevel force h type
        (λ x y hx hy. num_placed ds xkctxt number type x y some_domain) init sized level
        some_domain) in
    (each (λ i j. add_size (mul_size i h.nt) j), each (λ i j. add_size i j))
