-- ===== src/Blas/Descr/Tests.antt =====
-- A 5 by 3 matrix in tiles of 2 by 2.
use xkblas.Base.{◌+◌, ◌*◌, ◌≡◌, arith}
use xkblas.Blas.Descr.Partition.{Place, address, byte_address, tiles_partition}
use xkblas.Blas.Descr.{new_descr, init_matrix_handle}

tiles_partition_example :
    (p : Place 5 2 3 2) × (byte_address 8 4096 6 p ≡ 4096 + (4 + 2 * 6) * 8)
    × (address (init_matrix_handle new_descr 4096 5 3 6 2 2) 6 p ≡ 4 + 2 * 6)
    × ((q : Place 5 2 3 2)
        → byte_address 8 4096 6 q ≡ 4096 + (4 + 2 * 6) * 8
        → (q.x ≡ p.x) × (q.y ≡ p.y) × (q.row ≡ p.row) × (q.col ≡ p.col))
tiles_partition_example =
    tiles_partition new_descr 4096 6 8 (omega arith) (omega arith) (omega arith) (omega arith)
      (omega arith) 4 2 (omega arith) (omega arith)
