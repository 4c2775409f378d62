-- ===== src/Blas/Mapping/Tests.antt =====
-- A matrix of 2 by 2 tiles, one of them mapped, and three GPUs.
use xkblas.Base.{
  ℕ, zero, suc, ◌+◌, ◌%◌, ◌≡◌, refl, arith, true, false, some, List, [], ◌∷◌, pos, negsuc, add_size,
  mul_size,
}
use xkblas.Blas.Descr.{MatrixDescr, isinit, get_ldid}
use xkblas.Blas.Mapping.{
  LdType, ld_board, ld_gpu, ld_core, Domains, XkblasContext, type_of_hlevel, is_gpu, map_tiles,
  map_rows, map_columns, map_tile, set_ldid, count_of, xkblas_map_all, xkblas_map_2dblock_cyclic,
  xkblas_map_cyclic, xkblas_map_ij_cyclic, einval,
}
use xkblas.Blas.Mapping.Owners.{
  domain_at, block_owner, Mapped, AreDomains, map_2dblock_cyclic-Mapped, map_cyclic-Mapped,
}

abbrev matrix : MatrixDescr
matrix = record {
  addr = 4096;
  ld = 4;
  m = 4;
  n = 4;
  mb = 2;
  nb = 2;
  mt = 2;
  nt = 2;
  ldid = 0xffff ∷ 0xffff ∷ 7 ∷ 0xffff ∷ [];
  handle = [];
  capacity = 4;
}

abbrev gpus : LdType → List ℕ
gpus ld_board = []
gpus ld_gpu = 7 ∷ 8 ∷ 9 ∷ []
gpus ld_core = []

abbrev domains : Domains
domains = record { domains = gpus }

abbrev context : XkblasContext
context = record { ngpus = 2; gpuset = λ r. r + 1; use_partition_thread_strategy = true }

all-AreDomains : AreDomains domains context ld_gpu
unfolding is_gpu
all-AreDomains zero h = omega arith
all-AreDomains (suc zero) h = omega arith
all-AreDomains (suc (suc r)) h = absurd (omega arith)

map_2dblock_cyclic-Mapped_example :
    (next : MatrixDescr) × (xkblas_map_2dblock_cyclic domains context (pos 1) 1 1 2 1 false matrix
      ≡ some (0, next))
    × Mapped (block_owner domains context ld_gpu 1 1 2 1) false matrix next
unfolding isinit type_of_hlevel is_gpu
map_2dblock_cyclic-Mapped_example =
    map_2dblock_cyclic-Mapped domains context (pos 1) ld_gpu 1 1 2 1 false matrix refl refl refl
      (omega arith) all-AreDomains (omega arith) (omega arith) (omega arith) (omega arith)
      (omega arith)

map_cyclic-Mapped_example :
    ((next : MatrixDescr) × (xkblas_map_cyclic domains context (pos 1) true matrix ≡ some (0, next))
      × Mapped
          (λ i j.
            domain_at domains context ld_gpu
              (add_size (mul_size i 2) j % count_of domains context ld_gpu))
          true
          matrix
          next)
    × ((next : MatrixDescr) × (xkblas_map_ij_cyclic domains context (pos 1) true matrix
          ≡ some (0, next))
        × Mapped
            (λ i j.
              domain_at domains context ld_gpu (add_size i j % count_of domains context ld_gpu))
            true
            matrix
            next)
unfolding isinit type_of_hlevel is_gpu
map_cyclic-Mapped_example =
    map_cyclic-Mapped domains context (pos 1) ld_gpu true matrix refl refl refl (omega arith)

all_test :
    xkblas_map_all domains (pos 1) 2 false matrix
    ≡ some (0, record matrix { ldid = 9 ∷ 9 ∷ 7 ∷ 9 ∷ [] })
unfolding xkblas_map_all map_tiles map_rows map_columns map_tile set_ldid get_ldid isinit
    type_of_hlevel
all_test = refl

level_test : xkblas_map_all domains (negsuc 0) 2 false matrix ≡ some (einval, matrix)
unfolding xkblas_map_all map_tiles isinit type_of_hlevel
level_test = refl

no_domain_test : xkblas_map_all domains (pos 0) 0 false matrix ≡ some (einval, matrix)
unfolding xkblas_map_all map_tiles isinit type_of_hlevel
no_domain_test = refl
