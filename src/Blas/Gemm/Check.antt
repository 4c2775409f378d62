-- ===== src/Blas/Gemm/Check.antt =====
-- What the argument checks of a gemm call let through.
use xkblas.Base.{
  ℕ, ◌<◌, ◌≤◌, ◌≡◌, ◌^◌, inl, inr, refl, arith, max, true, false, Bool, none, ℤ, pos, negsuc,
  to_size, lt_int, eq_int, ltb, if◌then◌else◌, ◌||◌, Bool-cases, some, Option, ◌↔◌,
}
use xkblas.Blas.Gemm.{GemmCall, check_arguments}
use xkblas.Blas.Kernel.{IsTrans, rows_of}
use xkblas.Blas.Task.{no_trans, conj_trans}

abbrev pub int_bound : ℕ
int_bound = 2 ^ 31

-- A call with dimensions and leading dimensions that are not negative.
abbrev pub call {ℓ} :
    {R : Type ℓ} (ta tb : ℤ) (m n k : ℕ) (alpha : R) (a lda b ldb : ℕ) (beta : R) (c ldc : ℕ)
    → GemmCall R
call ta tb m n k alpha a lda b ldb beta c ldc = record {
  trans_a = ta;
  trans_b = tb;
  m = pos m;
  n = pos n;
  k = pos k;
  alpha = alpha;
  a = a;
  lda = pos lda;
  b = b;
  ldb = pos ldb;
  beta = beta;
  c = c;
  ldc = pos ldc;
}

pub record AreInts (m n k lda ldb ldc : ℕ) : Type 0 where
  pub m_int : m < int_bound
  pub n_int : n < int_bound
  pub k_int : k < int_bound
  pub lda_int : lda < int_bound
  pub ldb_int : ldb < int_bound
  pub ldc_int : ldc < int_bound

pub to_size-pos : (n : ℕ) → n < int_bound → to_size (pos n) ≡ n
to_size-pos n h = omega arith

pub to_size-rows :
    (t : ℤ) (r c : ℕ)
    → r < int_bound
    → c < int_bound
    → to_size (if eq_int t no_trans then pos r else pos c) ≡ rows_of t r c
to_size-rows t r c hr hc = elim (Bool-cases (eq_int t no_trans)) [
  | inl e ↦ rw e (to_size-pos r hr)
  | inr e ↦ rw e (to_size-pos c hc)
]

pub IsTrans-range : (t : ℤ) → lt_int t no_trans || lt_int conj_trans t ≡ false → IsTrans t
IsTrans-range (pos n) h = ground arith
IsTrans-range (negsuc n) h = ground arith

pub passed_test :
    (t : Bool) (i : ℕ) (rest : Option ℕ)
    → (if t then some i else rest) ≡ none
    → (t ≡ false) × (rest ≡ none)
passed_test true i rest h = cc
passed_test false i rest h = (refl, h)

-- What the code asks of the arguments, for sizes that are not negative: a leading dimension is at least
-- the number of rows of the stored matrix.
pub record IsLegal (ta tb : ℤ) (m n k lda ldb ldc : ℕ) : Type 0 where
  pub legal_a : IsTrans ta
  pub legal_b : IsTrans tb
  pub enough_a : max 1 (rows_of ta m k) ≤ lda
  pub enough_b : max 1 (rows_of tb k n) ≤ ldb
  pub enough_c : max 1 m ≤ ldc

pub range_of_trans : (t : ℤ) → IsTrans t → lt_int t no_trans || lt_int conj_trans t ≡ false
range_of_trans t (inl e) = rw e refl
range_of_trans t (inr (inl e)) = rw e refl
range_of_trans t (inr (inr e)) = rw e refl

pub ld_enough : (x l y r : ℕ) → x ≡ l → y ≡ r → max 1 r ≤ l → ltb x (max 1 y) ≡ false
ld_enough x l y r p q h = ground arith

pub ld_is_enough : (x l y r : ℕ) → x ≡ l → y ≡ r → ltb x (max 1 y) ≡ false → max 1 r ≤ l
ld_is_enough x l y r p q h = ground arith

module _ {ℓ} {R : Type ℓ} (ta tb : ℤ) (m n k lda ldb ldc : ℕ) (alpha beta : R) (a b c : ℕ)
    (v : AreInts m n k lda ldb ldc) where
  abbrev size_a : to_size (if eq_int ta no_trans then pos m else pos k) ≡ rows_of ta m k
  size_a = to_size-rows ta m k v.m_int v.k_int

  abbrev size_b : to_size (if eq_int tb no_trans then pos k else pos n) ≡ rows_of tb k n
  size_b = to_size-rows tb k n v.k_int v.n_int

  -- The checks let a call with int sizes that are not negative through exactly if its arguments are
  -- legal: the flags are NoTrans, Trans or ConjTrans, and each leading dimension is at least one
  -- and at least the number of rows of its matrix.
  pub check-IsLegal :
      (check_arguments (call ta tb m n k alpha a lda b ldb beta c ldc) ≡ none)
      ↔ IsLegal ta tb m n k lda ldb ldc
  unfolding check_arguments
  check-IsLegal = (there, back)
    where
      there :
          check_arguments (call ta tb m n k alpha a lda b ldb beta c ldc) ≡ none
          → IsLegal ta tb m n k lda ldb ldc
      there h =
          let (t₁, h₁) = passed_test _ 1 _ h in
          let (t₂, h₂) = passed_test _ 2 _ h₁ in
          let (t₈, h₈) = passed_test _ 8 _ h₂ in
          let (t₁₀, h₁₀) = passed_test _ 10 _ h₈ in
          let (t₁₃, h₁₃) = passed_test _ 13 _ h₁₀ in
          record {
            legal_a = IsTrans-range ta t₁;
            legal_b = IsTrans-range tb t₂;
            enough_a = ld_is_enough _ lda _ _ (to_size-pos lda v.lda_int) size_a t₈;
            enough_b = ld_is_enough _ ldb _ _ (to_size-pos ldb v.ldb_int) size_b t₁₀;
            enough_c =
                ld_is_enough _ ldc _ _ (to_size-pos ldc v.ldc_int) (to_size-pos m v.m_int) t₁₃;
          }

      back :
          IsLegal ta tb m n k lda ldb ldc
          → check_arguments (call ta tb m n k alpha a lda b ldb beta c ldc) ≡ none
      back l =
          rw (range_of_trans ta l.legal_a, range_of_trans tb l.legal_b)
            (rw
              (
                ld_enough _ lda _ _ (to_size-pos lda v.lda_int) size_a l.enough_a,
                ld_enough _ ldb _ _ (to_size-pos ldb v.ldb_int) size_b l.enough_b,
                ld_enough _ ldc _ _ (to_size-pos ldc v.ldc_int) (to_size-pos m v.m_int) l.enough_c,
              )
              refl)

  -- Negative leading dimensions of A, B and C pass the checks of a call that is legal with other leading
  -- dimensions, since they are compared as `size_t`.
  pub negative_ld_passes :
      (x y z : ℕ)
      → x < int_bound
      → y < int_bound
      → z < int_bound
      → IsLegal ta tb m n k lda ldb ldc
      → check_arguments (record (call ta tb m n k alpha a lda b ldb beta c ldc) {
        lda = negsuc x;
        ldb = negsuc y;
        ldc = negsuc z;
      })
        ≡ none
  unfolding check_arguments
  negative_ld_passes x y z hx hy hz l =
      rw (range_of_trans ta l.legal_a, range_of_trans tb l.legal_b)
        (rw
          (
            huge x _ _ lda hx size_a l.enough_a v.lda_int,
            huge y _ _ ldb hy size_b l.enough_b v.ldb_int,
            huge z _ _ ldc hz (to_size-pos m v.m_int) l.enough_c v.ldc_int,
          )
          refl)
    where
      huge :
          (x y r l : ℕ)
          → x < int_bound
          → y ≡ r
          → max 1 r ≤ l
          → l < int_bound
          → ltb (to_size (negsuc x)) (max 1 y) ≡ false
      huge x y r l hx e h hl = ground arith
