-- ===== src/Blas/Syrk/Check.antt =====
-- What the argument checks of a syrk call let through.
use xkblas.Base.{
  ℕ, ◌≤◌, ◌<◌, ◌≡◌, ◌⊎◌, ◌↔◌, inl, inr, refl, arith, max, false, not, ◌&&◌, none, ℤ, pos, eq_int,
  eq_int_sound, to_size, if◌then◌else◌,
}
use xkblas.Blas.Gemm.Check.{
  int_bound, to_size-pos, to_size-rows, passed_test, ld_enough, ld_is_enough,
}
use xkblas.Blas.Kernel.{IsUplo, rows_of}
use xkblas.Blas.Syrk.{SyrkCall, check_syrk}
use xkblas.Blas.Task.{no_trans, trans, upper, lower}

-- A call with dimensions and leading dimensions that are not negative.
abbrev pub syrk_call {ℓ} :
    {R : Type ℓ} (uplo ta : ℤ) (n k : ℕ) (alpha : R) (a lda : ℕ) (beta : R) (c ldc : ℕ) → SyrkCall R
syrk_call uplo ta n k alpha a lda beta c ldc = record {
  uplo = uplo;
  trans_a = ta;
  n = pos n;
  k = pos k;
  alpha = alpha;
  a = a;
  lda = pos lda;
  beta = beta;
  c = c;
  ldc = pos ldc;
}

pub record SyrkInts (n k lda ldc : ℕ) : Type 0 where
  pub n_int : n < int_bound
  pub k_int : k < int_bound
  pub lda_int : lda < int_bound
  pub ldc_int : ldc < int_bound

pub record SyrkLegal (uplo ta : ℤ) (n k lda ldc : ℕ) : Type 0 where
  pub legal_uplo : IsUplo uplo
  pub legal_trans : (ta ≡ no_trans) ⊎ (ta ≡ trans)
  pub enough_a : max 1 (rows_of ta n k) ≤ lda
  pub enough_c : max 1 n ≤ ldc

pub one_of : (t a b : ℤ) → not (eq_int t a) && not (eq_int t b) ≡ false → (t ≡ a) ⊎ (t ≡ b)
one_of t a b h = ground (arith, eq_int_sound t a, eq_int_sound t b)

module _ {ℓ} {R : Type ℓ} (uplo ta : ℤ) (n k lda ldc : ℕ) (alpha beta : R) (a c : ℕ)
    (v : SyrkInts n k lda ldc) where
  abbrev size_a : to_size (if eq_int ta no_trans then pos n else pos k) ≡ rows_of ta n k
  size_a = to_size-rows ta n k v.n_int v.k_int

  -- The checks let a call with int sizes that are not negative through exactly if uplo is Upper or Lower,
  -- trans is NoTrans or Trans, and each leading dimension is at least one and at least the number of
  -- rows of its matrix.
  pub check_syrk-SyrkLegal :
      (check_syrk (syrk_call uplo ta n k alpha a lda beta c ldc) ≡ none)
      ↔ SyrkLegal uplo ta n k lda ldc
  unfolding check_syrk
  check_syrk-SyrkLegal = (there, back)
    where
      there :
          check_syrk (syrk_call uplo ta n k alpha a lda beta c ldc) ≡ none
          → SyrkLegal uplo ta n k lda ldc
      there h =
          let (t₁, h₁) = passed_test _ 1 _ h in
          let (t₂, h₂) = passed_test _ 2 _ h₁ in
          let (t₇, h₇) = passed_test _ 7 _ h₂ in
          let (t₁₀, h₁₀) = passed_test _ 10 _ h₇ in
          record {
            legal_uplo = one_of uplo upper lower t₁;
            legal_trans = one_of ta no_trans trans t₂;
            enough_a = ld_is_enough _ lda _ _ (to_size-pos lda v.lda_int) size_a t₇;
            enough_c =
                ld_is_enough _ ldc _ _ (to_size-pos ldc v.ldc_int) (to_size-pos n v.n_int) t₁₀;
          }

      uplo_passes : IsUplo uplo → not (eq_int uplo upper) && not (eq_int uplo lower) ≡ false
      uplo_passes (inl e) = rw e refl
      uplo_passes (inr e) = rw e refl

      trans_passes :
          (ta ≡ no_trans) ⊎ (ta ≡ trans) → not (eq_int ta no_trans) && not (eq_int ta trans) ≡ false
      trans_passes (inl e) = rw e refl
      trans_passes (inr e) = rw e refl

      back :
          SyrkLegal uplo ta n k lda ldc
          → check_syrk (syrk_call uplo ta n k alpha a lda beta c ldc) ≡ none
      back l =
          rw (uplo_passes l.legal_uplo, trans_passes l.legal_trans)
            (rw
              (
                ld_enough _ lda _ _ (to_size-pos lda v.lda_int) size_a l.enough_a,
                ld_enough _ ldc _ _ (to_size-pos ldc v.ldc_int) (to_size-pos n v.n_int) l.enough_c,
              )
              refl)
