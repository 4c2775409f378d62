-- ===== src/Blas/Gemm/Correct.antt =====
-- A gemm call as a whole.
use xkblas.Base.{
  ℕ, ◌<◌, ◌≡◌, ◌⊎◌, ◌^◌, inl, inr, refl, sym, ap₃, subst, arith, true, false, none, List, [], ℤ,
  Bool-cases,
}
use xkblas.Blas.Context.Three.{Operand, Apart, lookup_three, lookup_three-Found}
use xkblas.Blas.Context.{Context, done}
use xkblas.Blas.Descr.{MatrixDescr}
use xkblas.Blas.Gemm.Check.{call, AreInts, to_size-pos, to_size-rows, check-IsLegal}
use xkblas.Blas.Gemm.Grid.{Shape, tasks-Computes}
use xkblas.Blas.Gemm.{GemmCall, check_arguments, quick_return, zgemm_async, tasks}
use xkblas.Blas.Kernel.Cover.{Computes, Computes-nil}
use xkblas.Blas.Kernel.GemmLoop.{Grid}
use xkblas.Blas.Kernel.Tiles.{matrix}
use xkblas.Blas.Kernel.{Mem, Kernels, op, rows_of, product}
use xkblas.Blas.Task.{Task}
use xkblas.Scalar.Sum.{sum}
use xkblas.Scalar.{Scalar, ◌⊕◌, ◌⊗◌}

abbrev pub operand_a : (ta : ℤ) (m k a lda : ℕ) → Operand
operand_a ta m k a lda = record { ptr = a; rows = rows_of ta m k; cols = rows_of ta k m; ld = lda }

abbrev pub operand_b : (tb : ℤ) (n k b ldb : ℕ) → Operand
operand_b tb n k b ldb = record { ptr = b; rows = rows_of tb k n; cols = rows_of tb n k; ld = ldb }

abbrev pub operand_c : (m n c ldc : ℕ) → Operand
operand_c m n c ldc = record { ptr = c; rows = m; cols = n; ld = ldc }

-- alpha op(A) op(B) + beta C
abbrev pub gemm_spec {ℓ} :
    {R : Type ℓ} ⦃s : Scalar R⦄ (ta tb : ℤ) (k : ℕ) (alpha : R) (a lda b ldb : ℕ) (beta : R)
    (c ldc : ℕ)
    → Mem R
    → ℕ
    → ℕ
    → R
gemm_spec ta tb k alpha a lda b ldb beta c ldc mem i j =
    alpha ⊗ product k (op ta (matrix (mem a) lda)) (op tb (matrix (mem b) ldb)) i j
    ⊕ beta ⊗ matrix (mem c) ldc i j

module _ {ℓ} {R : Type ℓ} ⦃s : Scalar R⦄ (kern : Kernels R) (nb : ℕ) (ctx : Context) (ta tb : ℤ)
    (m n k : ℕ) (alpha : R) (a lda b ldb : ℕ) (beta : R) (c ldc : ℕ) where
  abbrev this_call : GemmCall R
  this_call = call ta tb m n k alpha a lda b ldb beta c ldc

  abbrev spec : Mem R → ℕ → ℕ → R
  spec = gemm_spec ta tb k alpha a lda b ldb beta c ldc

  quick_cases :
      quick_return this_call ≡ true
      → (m ≡ 0) ⊎ (n ≡ 0) ⊎ (((alpha ≡ s.zero) ⊎ (k ≡ 0)) × (beta ≡ s.one))
  unfolding quick_return
  quick_cases h = ground (arith, s.is_zero_sound alpha, s.is_one_sound beta)

  -- A call that returns early has nothing to compute.
  quick-Computes : quick_return this_call ≡ true → Computes kern [] c m n ldc spec
  unfolding product sum
  quick-Computes h = Computes-nil kern λ mem i j hi hj. entry mem i j hi hj (quick_cases h)
    where
      entry :
          (mem : Mem R) (i j : ℕ)
          → i < m
          → j < n
          → (m ≡ 0) ⊎ (n ≡ 0) ⊎ (((alpha ≡ s.zero) ⊎ (k ≡ 0)) × (beta ≡ s.one))
          → matrix (mem c) ldc i j ≡ spec mem i j
      entry mem i j hi hj (inl e) = absurd (omega arith)
      entry mem i j hi hj (inr (inl e)) = absurd (omega arith)
      entry mem i j hi hj (inr (inr (inl e, f))) = rw (e, f, s.zero-mul, s.zero-add, s.one-mul) refl
      entry mem i j hi hj (inr (inr (inr e, f))) =
          rw (e, f, sum, s.mul-zero, s.zero-add, s.one-mul) refl

  -- The inner dimension is only empty where `beta` is one, and that returns early.
  slow_pos : (0 < k) ⊎ (s.is_one beta ≡ true) → quick_return this_call ≡ false → 0 < k
  unfolding quick_return
  slow_pos (inl p) h = p
  slow_pos (inr e) h = ground arith

  abbrev after : Context
  after =
      lookup_three nb (operand_a ta m k a lda) (operand_b tb n k b ldb) (operand_c m n c ldc) ctx

  abbrev inserted : MatrixDescr → MatrixDescr → MatrixDescr → List (Task R)
  inserted = tasks ta tb m n (rows_of ta m k) (rows_of ta k m) alpha beta lda ldb ldc

  early :
      check_arguments this_call ≡ none
      → quick_return this_call ≡ true
      → zgemm_async nb this_call ctx ≡ done ctx []
  unfolding zgemm_async
  early h q = rw (h, zgemm_async) (rw q refl)

  sized :
      AreInts m n k lda ldb ldc
      → check_arguments this_call ≡ none
      → quick_return this_call ≡ false
      → zgemm_async nb this_call ctx ≡ done after (inserted (after a) (after b) (after c))
  unfolding zgemm_async
  sized v h q =
      rw (h, zgemm_async)
        (rw
          (
            q,
            to_size-pos m v.m_int,
            to_size-pos n v.n_int,
            to_size-pos lda v.lda_int,
            to_size-pos ldb v.ldb_int,
            to_size-pos ldc v.ldc_int,
            to_size-rows ta m k v.m_int v.k_int,
            to_size-rows ta k m v.k_int v.m_int,
            to_size-rows tb k n v.k_int v.n_int,
            to_size-rows tb n k v.n_int v.k_int,
          )
          refl)

  module _ (v : AreInts m n k lda ldb ldc) (hb : 0 < nb) (hb' : nb < 2 ^ 32)
      (p : Apart nb (operand_a ta m k a lda) (operand_b tb n k b ldb) (operand_c m n c ldc) ctx)
      (passed : check_arguments this_call ≡ none) where
    abbrev grid : Grid R
    grid = record {
      alpha = alpha;
      beta = beta;
      pa = a;
      lda = lda;
      pb = b;
      ldb = ldb;
      pc = c;
      ldc = ldc;
      nb = nb;
    }

    shape : Shape grid ta tb m n k
    shape =
        let l = (check-IsLegal ta tb m n k lda ldb ldc alpha beta a b c v).0 passed in
        record {
          trans_a = l.legal_a;
          trans_b = l.legal_b;
          tiled_m = omega arith;
          tiled_n = omega arith;
          tiled_k = omega arith;
          rows_a = omega (arith, l.enough_a);
          rows_b = omega (arith, l.enough_b);
          rows_c = omega (arith, l.enough_c);
          reads_a = p.a_c;
          reads_b = p.b_c;
        }

    inserted-Computes :
        0 < k → Computes kern (inserted (after a) (after b) (after c)) c m n ldc spec
    inserted-Computes hk =
        let ((h₀, ea), (h₁, eb), (h₂, ec)) = lookup_three-Found p in
        subst (λ ts. Computes kern ts c m n ldc spec) (sym (ap₃ inserted ea eb ec))
          (tasks-Computes kern shape h₀ h₁ h₂ hk)

    -- A legal call, whatever tile size it chooses, returns 0 and inserts tasks that, run in order, set
    -- C to alpha op(A) op(B) + beta C, and change nothing else in memory, neither the elements of C's
    -- buffer between the columns nor any other matrix. It takes three matrices at different pointers,
    -- each new or known with these dimensions and this tile size, and an inner dimension that is not 0
    -- unless beta is 1.
    pub zgemm-Computes :
        (0 < k) ⊎ (s.is_one beta ≡ true)
        → (final : Context) × (ts : List (Task R)) × (zgemm_async nb this_call ctx ≡ done final ts)
          × Computes kern ts c m n ldc spec
    zgemm-Computes hk = elim (Bool-cases (quick_return this_call)) [
      | inl q ↦ (ctx, [], early passed q, quick-Computes q)
      | inr q ↦ (after, _, sized v passed q, inserted-Computes (slow_pos hk q))
    ]
