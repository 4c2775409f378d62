-- ===== src/Blas/Task.antt =====
-- The tasks that the tile algorithms insert: the argument records of blas/ztask_gemm.c,
-- ztask_gemmt.c, ztask_syrk.c, ztask_symm.c and ztask_syr2k.c, and the CBLAS constants of
-- blas/xkblas.h. What runs a task (scheduling, transfers) and where it runs are no part of it.
use xkblas.Base.{ℕ, ℤ, pos, if◌then◌else◌}
use xkblas.Blas.Descr.{Handle}
use xkblas.Scalar.{Scalar}

abbrev pub no_trans : ℤ
no_trans = pos 111

abbrev pub trans : ℤ
trans = pos 112

abbrev pub conj_trans : ℤ
conj_trans = pos 113

abbrev pub upper : ℤ
upper = pos 121

abbrev pub lower : ℤ
lower = pos 122

abbrev pub left : ℤ
left = pos 141

abbrev pub right : ℤ
right = pos 142

-- KAAPI_ACCESS_MODE_W and KAAPI_ACCESS_MODE_RW, of the tile of C
pub data AccessMode : Type 0 where
  mode_w mode_rw : AccessMode

-- `beta == 0.0 ? KAAPI_ACCESS_MODE_W : KAAPI_ACCESS_MODE_RW`
abbrev pub access_mode {ℓ} : {R : Type ℓ} ⦃s : Scalar R⦄ → R → AccessMode
access_mode ⦃s⦄ beta = if s.is_zero beta then mode_w else mode_rw

pub record GemmArg {ℓ} (R : Type ℓ) : Type ℓ where
  pub trans_a : ℤ
  pub trans_b : ℤ
  pub m : ℕ
  pub n : ℕ
  pub k : ℕ
  pub alpha : R
  pub a : Handle
  pub lda : ℕ
  pub b : Handle
  pub ldb : ℕ
  pub beta : R
  pub c : Handle
  pub ldc : ℕ
  pub mode : AccessMode

pub record GemmtArg {ℓ} (R : Type ℓ) : Type ℓ where
  pub uplo : ℤ
  pub trans_a : ℤ
  pub trans_b : ℤ
  pub n : ℕ
  pub k : ℕ
  pub alpha : R
  pub a : Handle
  pub lda : ℕ
  pub b : Handle
  pub ldb : ℕ
  pub beta : R
  pub c : Handle
  pub ldc : ℕ

pub record SyrkArg {ℓ} (R : Type ℓ) : Type ℓ where
  pub uplo : ℤ
  pub trans_a : ℤ
  pub n : ℕ
  pub k : ℕ
  pub alpha : R
  pub a : Handle
  pub lda : ℕ
  pub beta : R
  pub c : Handle
  pub ldc : ℕ
  pub mode : AccessMode

pub record SymmArg {ℓ} (R : Type ℓ) : Type ℓ where
  pub side : ℤ
  pub uplo : ℤ
  pub m : ℕ
  pub n : ℕ
  pub alpha : R
  pub a : Handle
  pub lda : ℕ
  pub b : Handle
  pub ldb : ℕ
  pub beta : R
  pub c : Handle
  pub ldc : ℕ

pub data Task {ℓ} (R : Type ℓ) : Type ℓ where
  gemm : GemmArg R → Task R
  gemmt : GemmtArg R → Task R
  syrk : SyrkArg R → Task R
  symm : SymmArg R → Task R
