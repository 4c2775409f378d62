-- ===== src/Blas/Gemmt/Check.antt =====
-- What the argument checks of a gemmt call let through.
use xkblas.Base.{ℕ, ◌≤◌, ◌<◌, ◌≡◌, ◌↔◌, refl, max, none, ℤ, pos, eq_int, to_size, if◌then◌else◌}
use xkblas.Blas.Gemm.Check.{
  int_bound, to_size-pos, to_size-rows, passed_test, ld_enough, ld_is_enough, IsTrans-range,
  range_of_trans,
}
use xkblas.Blas.Gemmt.{GemmtCall, check_gemmt}
use xkblas.Blas.Kernel.{IsTrans, rows_of}
use xkblas.Blas.Task.{no_trans}

-- A call with dimensions and leading dimensions that are not negative.
abbrev pub gemmt_call {ℓ} :
    {R : Type ℓ} (uplo ta tb : ℤ) (n k : ℕ) (alpha : R) (a lda b ldb : ℕ) (beta : R) (c ldc : ℕ)
    → GemmtCall R
gemmt_call uplo ta tb n k alpha a lda b ldb beta c ldc = record {
  uplo = uplo;
  trans_a = ta;
  trans_b = tb;
  n = pos n;
  k = pos k;
  alpha = alpha;
  a = a;
  lda = pos lda;
  b = b;
  ldb = pos ldb;
  beta = beta;
  c = c;
  ldc = pos ldc;
}

pub record GemmtInts (n k lda ldb ldc : ℕ) : Type 0 where
  pub n_int : n < int_bound
  pub k_int : k < int_bound
  pub lda_int : lda < int_bound
  pub ldb_int : ldb < int_bound
  pub ldc_int : ldc < int_bound

pub record GemmtLegal (ta tb : ℤ) (n k lda ldb ldc : ℕ) : Type 0 where
  pub legal_a : IsTrans ta
  pub legal_b : IsTrans tb
  pub enough_a : max 1 (rows_of ta n k) ≤ lda
  pub enough_b : max 1 (rows_of tb k n) ≤ ldb
  pub enough_c : max 1 n ≤ ldc

module _ {ℓ} {R : Type ℓ} (uplo ta tb : ℤ) (n k lda ldb ldc : ℕ) (alpha beta : R) (a b c : ℕ)
    (v : GemmtInts n k lda ldb ldc) where
  abbrev size_a : to_size (if eq_int ta no_trans then pos n else pos k) ≡ rows_of ta n k
  size_a = to_size-rows ta n k v.n_int v.k_int

  abbrev size_b : to_size (if eq_int tb no_trans then pos k else pos n) ≡ rows_of tb k n
  size_b = to_size-rows tb k n v.k_int v.n_int

  -- The checks let a call with int sizes that are not negative through exactly if its flags are NoTrans,
  -- Trans or ConjTrans and each leading dimension is at least one and at least the number of rows of
  -- its matrix, whatever uplo is.
  pub check_gemmt-GemmtLegal :
      (check_gemmt (gemmt_call uplo ta tb n k alpha a lda b ldb beta c ldc) ≡ none)
      ↔ GemmtLegal ta tb n k lda ldb ldc
  unfolding check_gemmt
  check_gemmt-GemmtLegal = (there, back)
    where
      there :
          check_gemmt (gemmt_call uplo ta tb n k alpha a lda b ldb beta c ldc) ≡ none
          → GemmtLegal ta tb n k lda ldb ldc
      there h =
          let (t₁, h₁) = passed_test _ 1 _ h in
          let (t₂, h₂) = passed_test _ 2 _ h₁ in
          let (t₈, h₈) = passed_test _ 8 _ h₂ in
          let (t₁₀, h₁₀) = passed_test _ 10 _ h₈ in
          let (t₁₃, h₁₃) = passed_test _ 13 _ h₁₀ in
          record {
            legal_a = IsTrans-range ta t₁;
            legal_b = IsTrans-range tb t₂;
            enough_a = ld_is_enough _ lda _ _ (to_size-pos lda v.lda_int) size_a t₈;
            enough_b = ld_is_enough _ ldb _ _ (to_size-pos ldb v.ldb_int) size_b t₁₀;
            enough_c =
                ld_is_enough _ ldc _ _ (to_size-pos ldc v.ldc_int) (to_size-pos n v.n_int) t₁₃;
          }

      back :
          GemmtLegal ta tb n k lda ldb ldc
          → check_gemmt (gemmt_call uplo ta tb n k alpha a lda b ldb beta c ldc) ≡ none
      back l =
          rw (range_of_trans ta l.legal_a, range_of_trans tb l.legal_b)
            (rw
              (
                ld_enough _ lda _ _ (to_size-pos lda v.lda_int) size_a l.enough_a,
                ld_enough _ ldb _ _ (to_size-pos ldb v.ldb_int) size_b l.enough_b,
                ld_enough _ ldc _ _ (to_size-pos ldc v.ldc_int) (to_size-pos n v.n_int) l.enough_c,
              )
              refl)
