-- ===== src/Kaapi/Replica/Tests.antt =====
-- A data that is valid on the address spaces 0 and 3.
use xkblas.Base.{ℕ, ◌≡◌, ◌≢◌, ◌↔◌, arith, false, not, ◌&&◌, ◌||◌, ◌==◌}
use xkblas.Kaapi.Replica.Bitmaps.{IsLid, valid_bits, valid_excepton}
use xkblas.Kaapi.Replica.{
  MetadataInfo, is_valid_on, is_valid_excepton, set_valid, unset_valid, set_all_dirty_except,
}

abbrev two_replicas : MetadataInfo
two_replicas = record { alloc = 9; valid = 9; xfer = 0; wish = 0; xferb = 0 }

valid_bits_example :
    (is_valid_on (set_valid two_replicas 5) 3 ≡ (3 == 5) || is_valid_on two_replicas 3)
    × (is_valid_on (unset_valid two_replicas 5) 3 ≡ not (3 == 5) && is_valid_on two_replicas 3)
    × (is_valid_on (set_all_dirty_except two_replicas 5) 3 ≡ (3 == 5))
valid_bits_example = valid_bits two_replicas (omega arith) 5 (omega arith) 3 (omega arith)

valid_excepton_example : (is_valid_excepton two_replicas 3 ≡ false) ↔ (
    ((i : ℕ) → IsLid i → i ≢ 3 → is_valid_on two_replicas i ≡ false)
    × (is_valid_on two_replicas 15 ≡ false))
valid_excepton_example = valid_excepton two_replicas (omega arith) 3 (omega arith)
