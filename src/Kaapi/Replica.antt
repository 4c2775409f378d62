-- ===== src/Kaapi/Replica.antt =====
-- Where a data has replicas: the bitmaps of `kaapi_metadata_info_t` (kaapi/kaapi_memory.h) and the
-- inline functions of kaapi/kaapi_memory.c that read and write them, one bit for each of the 16
-- address spaces. Each function is one atomic access.
pub mod Bitmaps
mod Tests
use xkblas.Base.{ℕ, ◌+◌, ltb, if◌then◌else◌, ◌-◌, ◌^◌, ◌<◌, Bool, not, ◌==◌, bit_and, bit_or}

pub record MetadataInfo : Type 0 where
  pub alloc : ℕ
  pub valid : ℕ
  pub xfer : ℕ
  pub wish : ℕ
  pub xferb : ℕ

-- `field & (1UL<<lid)`, `field |= 1UL<<lid` and `field &= ~(uint16_t)(1UL<<lid)`, on 16-bit fields
abbrev pub bit_is_set : ℕ → ℕ → Bool
bit_is_set field lid = not (bit_and field (2 ^ lid) == 0)

abbrev pub with_bit : ℕ → ℕ → ℕ
with_bit field lid = bit_or field (2 ^ lid)

abbrev pub without_bit : ℕ → ℕ → ℕ
without_bit field lid = bit_and field (0xffff - 2 ^ lid)

unfoldable pub is_allocated : MetadataInfo → ℕ → Bool
is_allocated mdi lid = bit_is_set mdi.alloc lid

unfoldable pub set_allocated : MetadataInfo → ℕ → MetadataInfo
set_allocated mdi lid = record mdi { alloc = with_bit mdi.alloc lid }

unfoldable pub unset_allocated : MetadataInfo → ℕ → MetadataInfo
unset_allocated mdi lid = record mdi { alloc = without_bit mdi.alloc lid }

unfoldable pub is_valid_on : MetadataInfo → ℕ → Bool
is_valid_on mdi lid = bit_is_set mdi.valid lid

-- The fields are signed: a read extends the sign to the 32 bits of an `int`, and the complement of
-- `(uint16_t)(1UL<<lid)` is an `int` as well.
abbrev pub sign_extend : ℕ → ℕ
sign_extend v = if ltb v (2 ^ 15) then v else v + (2 ^ 32 - 2 ^ 16)

unfoldable pub is_valid_excepton : MetadataInfo → ℕ → Bool
is_valid_excepton mdi lid = not (bit_and (sign_extend mdi.valid) (2 ^ 32 - 1 - 2 ^ lid) == 0)

unfoldable pub is_valid_somewhere : MetadataInfo → Bool
is_valid_somewhere mdi = not (mdi.valid == 0)

unfoldable pub set_valid : MetadataInfo → ℕ → MetadataInfo
set_valid mdi lid = record mdi { valid = with_bit mdi.valid lid }

unfoldable pub unset_valid : MetadataInfo → ℕ → MetadataInfo
unset_valid mdi lid = record mdi { valid = without_bit mdi.valid lid }

unfoldable pub set_all_dirty_except : MetadataInfo → ℕ → MetadataInfo
set_all_dirty_except mdi lid = record mdi { valid = 2 ^ lid }

unfoldable pub set_xfer : MetadataInfo → ℕ → MetadataInfo
set_xfer mdi lid = record mdi { xfer = with_bit mdi.xfer lid }

unfoldable pub unset_xfer : MetadataInfo → ℕ → MetadataInfo
unset_xfer mdi lid = record mdi { xfer = without_bit mdi.xfer lid }

unfoldable pub is_xfer_tosomewhere : MetadataInfo → Bool
is_xfer_tosomewhere mdi = not (mdi.xfer == 0)

unfoldable pub set_xferb : MetadataInfo → ℕ → MetadataInfo
set_xferb mdi lid = record mdi { xferb = with_bit mdi.xferb lid }

unfoldable pub unset_xferb : MetadataInfo → ℕ → MetadataInfo
unset_xferb mdi lid = record mdi { xferb = without_bit mdi.xferb lid }

unfoldable pub clear_wish : MetadataInfo → MetadataInfo
clear_wish mdi = record mdi { wish = 0 }

-- It reads `valid`.
unfoldable pub has_wish : MetadataInfo → ℕ → Bool
has_wish mdi lid = bit_is_set mdi.valid lid

unfoldable pub set_wish : MetadataInfo → ℕ → MetadataInfo
set_wish mdi lid = record mdi { wish = with_bit mdi.wish lid }

unfoldable pub unset_wish : MetadataInfo → ℕ → MetadataInfo
unset_wish mdi lid = record mdi { wish = without_bit mdi.wish lid }
