-- ===== src/Blas/Symm/Check.antt =====
-- What the argument checks of a symm call let through.
use xkblas.Base.{
  ℕ, ◌≤◌, ◌<◌, ◌≡◌, ◌⊎◌, ◌↔◌, inl, inr, refl, max, false, not, ◌&&◌, none, ℤ, pos, eq_int, to_size,
  if◌then◌else◌, Bool-cases,
}
use xkblas.Blas.Gemm.Check.{int_bound, to_size-pos, passed_test, ld_enough, ld_is_enough}
use xkblas.Blas.Kernel.{IsUplo}
use xkblas.Blas.Symm.{SymmCall, check_symm}
use xkblas.Blas.Syrk.Check.{one_of}
use xkblas.Blas.Task.{upper, lower, left, right}

-- A call with dimensions and leading dimensions that are not negative.
abbrev pub symm_call {ℓ} :
    {R : Type ℓ} (side uplo : ℤ) (m n : ℕ) (alpha : R) (a lda b ldb : ℕ) (beta : R) (c ldc : ℕ)
    → SymmCall R
symm_call side uplo m n alpha a lda b ldb beta c ldc = record {
  side = side;
  uplo = uplo;
  m = pos m;
  n = pos n;
  alpha = alpha;
  a = a;
  lda = pos lda;
  b = b;
  ldb = pos ldb;
  beta = beta;
  c = c;
  ldc = pos ldc;
}

-- the order of A
abbrev pub order : ℤ → ℕ → ℕ → ℕ
order side m n = if eq_int side left then m else n

pub record SymmInts (m n lda ldb ldc : ℕ) : Type 0 where
  pub m_int : m < int_bound
  pub n_int : n < int_bound
  pub lda_int : lda < int_bound
  pub ldb_int : ldb < int_bound
  pub ldc_int : ldc < int_bound

pub record SymmLegal (side uplo : ℤ) (m n lda ldb ldc : ℕ) : Type 0 where
  pub legal_side : (side ≡ left) ⊎ (side ≡ right)
  pub legal_uplo : IsUplo uplo
  pub enough_a : max 1 (order side m n) ≤ lda
  pub enough_b : max 1 m ≤ ldb
  pub enough_c : max 1 m ≤ ldc

pub to_size-order :
    (side : ℤ) (m n : ℕ)
    → m < int_bound
    → n < int_bound
    → to_size (if eq_int side left then pos m else pos n) ≡ order side m n
to_size-order side m n hm hn = elim (Bool-cases (eq_int side left)) [
  | inl e ↦ rw e (to_size-pos m hm)
  | inr e ↦ rw e (to_size-pos n hn)
]

module _ {ℓ} {R : Type ℓ} (side uplo : ℤ) (m n lda ldb ldc : ℕ) (alpha beta : R) (a b c : ℕ)
    (v : SymmInts m n lda ldb ldc) where
  abbrev size_a : to_size (if eq_int side left then pos m else pos n) ≡ order side m n
  size_a = to_size-order side m n v.m_int v.n_int

  -- The checks let a call with int sizes that are not negative through exactly if side is Left or Right,
  -- uplo is Upper or Lower, and each leading dimension is at least one and at least the number of rows
  -- of its matrix.
  pub check_symm-SymmLegal :
      (check_symm (symm_call side uplo m n alpha a lda b ldb beta c ldc) ≡ none)
      ↔ SymmLegal side uplo m n lda ldb ldc
  unfolding check_symm
  check_symm-SymmLegal = (there, back)
    where
      swap : (uplo ≡ lower) ⊎ (uplo ≡ upper) → IsUplo uplo
      swap (inl e) = inr e
      swap (inr e) = inl e

      there :
          check_symm (symm_call side uplo m n alpha a lda b ldb beta c ldc) ≡ none
          → SymmLegal side uplo m n lda ldb ldc
      there h =
          let (t₁, h₁) = passed_test _ 1 _ h in
          let (t₂, h₂) = passed_test _ 2 _ h₁ in
          let (t₇, h₇) = passed_test _ 7 _ h₂ in
          let (t₉, h₉) = passed_test _ 9 _ h₇ in
          let (t₁₂, h₁₂) = passed_test _ 12 _ h₉ in
          record {
            legal_side = one_of side left right t₁;
            legal_uplo = swap (one_of uplo lower upper t₂);
            enough_a = ld_is_enough _ lda _ _ (to_size-pos lda v.lda_int) size_a t₇;
            enough_b =
                ld_is_enough _ ldb _ _ (to_size-pos ldb v.ldb_int) (to_size-pos m v.m_int) t₉;
            enough_c =
                ld_is_enough _ ldc _ _ (to_size-pos ldc v.ldc_int) (to_size-pos m v.m_int) t₁₂;
          }

      side_passes :
          (side ≡ left) ⊎ (side ≡ right) → not (eq_int side left) && not (eq_int side right) ≡ false
      side_passes (inl e) = rw e refl
      side_passes (inr e) = rw e refl

      uplo_passes : IsUplo uplo → not (eq_int uplo lower) && not (eq_int uplo upper) ≡ false
      uplo_passes (inl e) = rw e refl
      uplo_passes (inr e) = rw e refl

      back :
          SymmLegal side uplo m n lda ldb ldc
          → check_symm (symm_call side uplo m n alpha a lda b ldb beta c ldc) ≡ none
      back l =
          rw (side_passes l.legal_side, uplo_passes l.legal_uplo)
            (rw
              (
                ld_enough _ lda _ _ (to_size-pos lda v.lda_int) size_a l.enough_a,
                ld_enough _ ldb _ _ (to_size-pos ldb v.ldb_int) (to_size-pos m v.m_int) l.enough_b,
                ld_enough _ ldc _ _ (to_size-pos ldc v.ldc_int) (to_size-pos m v.m_int) l.enough_c,
              )
              refl)
