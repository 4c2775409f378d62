-- ===== src/Kaapi/Dependencies/Modes.antt =====
-- The access modes of kaapi/kaapi.h, and which two of them may be concurrent.
use xkblas.Base.{
  ℕ, ◌<◌, ◌≡◌, refl, arith, Bool, true, not, ◌&&◌, ◌||◌, ◌==◌, bit_and, bit_or, bit_or-lt,
  rows_pass, rows_pass-row,
}

abbrev pub access_mode_void : ℕ
access_mode_void = 0x00

abbrev pub access_mode_r : ℕ
access_mode_r = 0x02

abbrev pub access_mode_cw : ℕ
access_mode_cw = 0x08

abbrev pub access_mode_p : ℕ
access_mode_p = 0x40

abbrev pub access_sync : ℕ
access_sync = 0xff

unfoldable pub access_is_concurrent : ℕ → ℕ → Bool
access_is_concurrent a b =
    ((a == b) && ((b == access_mode_r) || (b == access_mode_cw)))
    || not (bit_and (bit_or a b) access_mode_p == 0)

-- Two modes without the bit of a postponed access.
postponed_table : rows_pass (λ m. bit_and m access_mode_p == 0) 64 ≡ true
unfolding rows_pass
postponed_table = refl

sync_table : rows_pass (λ m. access_is_concurrent m access_sync) 256 ≡ true
unfolding rows_pass access_is_concurrent
sync_table = refl

-- Every access is concurrent with a synchronisation access.
pub concurrent_with_sync : (m : ℕ) → m < 256 → access_is_concurrent m access_sync ≡ true
concurrent_with_sync m h =
    rows_pass-row (λ m. access_is_concurrent m access_sync) 256 m sync_table h

-- Two modes without the bit of a postponed access are concurrent only if both read, or both
-- cumulate.
pub concurrent_same :
    (a b : ℕ)
    → a < 64
    → b < 64
    → access_is_concurrent a b ≡ ((a == b) && ((b == access_mode_r) || (b == access_mode_cw)))
unfolding access_is_concurrent
concurrent_same a b ha hb =
    let t =
      rows_pass-row (λ m. bit_and m access_mode_p == 0) 64 (bit_or a b) postponed_table
        (bit_or-lt 6 a b ha hb) in
    rw t (ground arith)
