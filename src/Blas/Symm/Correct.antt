-- ===== src/Blas/Symm/Correct.antt =====
-- A symm call as a whole.
use xkblas.Base.{
  ℕ, ◌≤◌, ◌<◌, ◌≡◌, ◌⊎◌, ◌^◌, inl, inr, refl, sym, ap₃, subst, arith, true, false, none, List, [],
  ℤ, eq_int, if◌then◌else◌, Bool-cases,
}
use xkblas.Blas.Context.Three.{Operand, Apart, lookup_three, lookup_three-Found}
use xkblas.Blas.Context.{Context, done}
use xkblas.Blas.Descr.{MatrixDescr, init_matrix_handle}
use xkblas.Blas.Gemm.Check.{to_size-pos}
use xkblas.Blas.Kernel.Cover.{Computes, Computes-nil}
use xkblas.Blas.Kernel.GemmLoop.{Grid}
use xkblas.Blas.Kernel.Tiles.{matrix}
use xkblas.Blas.Kernel.{Mem, Kernels, sym_of, product}
use xkblas.Blas.Symm.Check.{
  symm_call, order, SymmInts, SymmLegal, to_size-order, check_symm-SymmLegal,
}
use xkblas.Blas.Symm.Sides.{left-Computes, right-Computes}
use xkblas.Blas.Symm.{SymmCall, check_symm, quick_symm, symm_tasks, zsymm_async}
use xkblas.Blas.Task.{Task, left, right}
use xkblas.Scalar.{Scalar, ◌⊕◌, ◌⊗◌}

abbrev pub operand_a : (side : ℤ) (m n a lda : ℕ) → Operand
operand_a side m n a lda = record {
  ptr = a;
  rows = order side m n;
  cols = order side m n;
  ld = lda;
}

abbrev pub operand_b : (m n b ldb : ℕ) → Operand
operand_b m n b ldb = record { ptr = b; rows = m; cols = n; ld = ldb }

-- A B or B A, for the symmetric A that one triangle holds
abbrev pub symm_product {ℓ} :
    {R : Type ℓ} ⦃s : Scalar R⦄ (side uplo : ℤ) (m n : ℕ) (a b : ℕ → ℕ → R) → ℕ → ℕ → R
symm_product side uplo m n a b i j =
    if eq_int side left then product m (sym_of uplo a) b i j else product n b (sym_of uplo a) i j

abbrev pub symm_spec {ℓ} :
    {R : Type ℓ} ⦃s : Scalar R⦄ (side uplo : ℤ) (m n : ℕ) (alpha : R) (a lda b ldb : ℕ) (beta : R)
    (c ldc : ℕ)
    → Mem R
    → ℕ
    → ℕ
    → R
symm_spec side uplo m n alpha a lda b ldb beta c ldc mem i j =
    alpha ⊗ symm_product side uplo m n (matrix (mem a) lda) (matrix (mem b) ldb) i j
    ⊕ beta ⊗ matrix (mem c) ldc i j

module _ {ℓ} {R : Type ℓ} ⦃s : Scalar R⦄ (kern : Kernels R) (nb : ℕ) (ctx : Context) (side uplo : ℤ)
    (m n : ℕ) (alpha : R) (a lda b ldb : ℕ) (beta : R) (c ldc : ℕ) where
  abbrev this_call : SymmCall R
  this_call = symm_call side uplo m n alpha a lda b ldb beta c ldc

  abbrev spec : Mem R → ℕ → ℕ → R
  spec = symm_spec side uplo m n alpha a lda b ldb beta c ldc

  quick_cases :
      quick_symm this_call ≡ true → (m ≡ 0) ⊎ (n ≡ 0) ⊎ ((alpha ≡ s.zero) × (beta ≡ s.one))
  unfolding quick_symm
  quick_cases h = ground (arith, s.is_zero_sound alpha, s.is_one_sound beta)

  -- A call that returns early has nothing to compute.
  quick-Computes : quick_symm this_call ≡ true → Computes kern [] c m n ldc spec
  quick-Computes h = Computes-nil kern λ mem i j hi hj. entry mem i j hi hj (quick_cases h)
    where
      entry :
          (mem : Mem R) (i j : ℕ)
          → i < m
          → j < n
          → (m ≡ 0) ⊎ (n ≡ 0) ⊎ ((alpha ≡ s.zero) × (beta ≡ s.one))
          → matrix (mem c) ldc i j ≡ spec mem i j
      entry mem i j hi hj (inl e) = absurd (omega arith)
      entry mem i j hi hj (inr (inl e)) = absurd (omega arith)
      entry mem i j hi hj (inr (inr (e, f))) = rw (e, f, s.zero-mul, s.zero-add, s.one-mul) refl

  abbrev after : Context
  after = lookup_three nb (operand_a side m n a lda) (operand_b m n b ldb) (operand_b m n c ldc) ctx

  abbrev inserted : MatrixDescr → MatrixDescr → MatrixDescr → List (Task R)
  inserted x y z = symm_tasks side uplo alpha beta lda ldb ldc x y z

  early :
      check_symm this_call ≡ none
      → quick_symm this_call ≡ true
      → zsymm_async nb this_call ctx ≡ done ctx []
  unfolding zsymm_async
  early h q = rw (h, zsymm_async) (rw q refl)

  sized :
      SymmInts m n lda ldb ldc
      → check_symm this_call ≡ none
      → quick_symm this_call ≡ false
      → zsymm_async nb this_call ctx ≡ done after (inserted (after a) (after b) (after c))
  unfolding zsymm_async
  sized v h q =
      rw (h, zsymm_async)
        (rw
          (
            q,
            to_size-pos m v.m_int,
            to_size-pos n v.n_int,
            to_size-pos lda v.lda_int,
            to_size-pos ldb v.ldb_int,
            to_size-pos ldc v.ldc_int,
            to_size-order side m n v.m_int v.n_int,
          )
          refl)

  module _ (v : SymmInts m n lda ldb ldc) (hb : 0 < nb) (hb' : nb < 2 ^ 32)
      (p : Apart nb (operand_a side m n a lda) (operand_b m n b ldb) (operand_b m n c ldc) ctx)
      (passed : check_symm this_call ≡ none) where
    abbrev legal : SymmLegal side uplo m n lda ldb ldc
    legal = (check_symm-SymmLegal side uplo m n lda ldb ldc alpha beta a b c v).0 passed

    abbrev left_grid : Grid R
    left_grid = record {
      alpha = alpha;
      beta = beta;
      pa = a;
      lda = lda;
      pb = b;
      ldb = ldb;
      pc = c;
      ldc = ldc;
      nb = nb;
    }

    abbrev right_grid : Grid R
    right_grid = record {
      alpha = alpha;
      beta = beta;
      pa = b;
      lda = ldb;
      pb = a;
      ldb = lda;
      pc = c;
      ldc = ldc;
      nb = nb;
    }

    described :
        (h₀ h₁ h₂ : MatrixDescr)
        → (side ≡ left) ⊎ (side ≡ right)
        → order side m n ≤ lda
        → Computes kern
            (inserted
              (init_matrix_handle h₀ a (order side m n) (order side m n) lda nb nb)
              (init_matrix_handle h₁ b m n ldb nb nb)
              (init_matrix_handle h₂ c m n ldc nb nb))
            c
            m
            n
            ldc
            spec
    described h₀ h₁ h₂ (inl e) la =
        let la' = (rw e at la) in
        rw e (
          left-Computes kern left_grid uplo legal.legal_uplo (omega arith) (omega arith) p.a_c p.b_c
            (omega (arith, legal.enough_c)) la' h₀ h₁ h₂ (omega (arith, legal.enough_b)))
    described h₀ h₁ h₂ (inr e) la =
        let la' = (rw e at la) in
        rw e (
          right-Computes kern right_grid uplo legal.legal_uplo (omega arith) (omega arith) p.b_c
            p.a_c (omega (arith, legal.enough_c)) (omega (arith, legal.enough_b)) h₀ h₁ h₂ la')

    inserted-Computes : Computes kern (inserted (after a) (after b) (after c)) c m n ldc spec
    inserted-Computes =
        let ((h₀, ea), (h₁, eb), (h₂, ec)) = lookup_three-Found p in
        subst (λ ts. Computes kern ts c m n ldc spec) (sym (ap₃ inserted ea eb ec))
          (described h₀ h₁ h₂ legal.legal_side (omega (arith, legal.enough_a)))

    -- A legal call, whatever tile size it chooses, returns 0 and inserts tasks that, run in order, set
    -- C to alpha A B + beta C, or to alpha B A + beta C if `side` is Right, where A is symmetric and
    -- stored in the triangle that `uplo` names, and change nothing else in memory, neither the
    -- elements of C's buffer between the columns nor any other matrix. It takes three matrices at
    -- different pointers, each new or known with these dimensions and this tile size.
    pub zsymm-Computes :
        (final : Context) × (ts : List (Task R)) × (zsymm_async nb this_call ctx ≡ done final ts)
        × Computes kern ts c m n ldc spec
    zsymm-Computes = elim (Bool-cases (quick_symm this_call)) [
      | inl q ↦ (ctx, [], early passed q, quick-Computes q)
      | inr q ↦ (after, _, sized v passed q, inserted-Computes)
    ]
