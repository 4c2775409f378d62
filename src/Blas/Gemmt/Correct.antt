-- ===== src/Blas/Gemmt/Correct.antt =====
-- A gemmt call as a whole.
use xkblas.Base.{
  ℕ, ◌+◌, ◌*◌, ◌<◌, ◌≡◌, ◌≢◌, ◌⊎◌, ◌^◌, inl, inr, refl, sym, ◌∙◌, ap₃, subst, arith, true, false,
  none, List, [], ℤ, if◌then◌else◌, Bool-cases, mul_mono, emit_congr,
}
use xkblas.Blas.Context.Three.{Apart, lookup_three, lookup_three-Found}
use xkblas.Blas.Context.{Context, done}
use xkblas.Blas.Descr.{MatrixDescr, init_matrix_handle}
use xkblas.Blas.Gemm.Check.{to_size-pos, to_size-rows}
use xkblas.Blas.Gemm.Correct.{operand_a, operand_b, operand_c}
use xkblas.Blas.Gemm.Grid.{Shape}
use xkblas.Blas.Gemm.Loops.{a_descr, b_descr, c_descr}
use xkblas.Blas.Gemmt.Check.{gemmt_call, GemmtInts, check_gemmt-GemmtLegal}
use xkblas.Blas.Gemmt.Loops.{cell_tasks-eq}
use xkblas.Blas.Gemmt.Triangle.{
  IsRegion, written, cells, cells_hit, cells_miss, cells_padding, range_inside,
}
use xkblas.Blas.Gemmt.{GemmtCall, check_gemmt, quick_gemmt, sets_range, gemmt_tasks, zgemmt_async}
use xkblas.Blas.Kernel.Cover.{Computes, Computes-nil}
use xkblas.Blas.Kernel.GemmLoop.{Grid}
use xkblas.Blas.Kernel.Tiles.{matrix}
use xkblas.Blas.Kernel.{Mem, Kernels, op, rows_of, product}
use xkblas.Blas.Task.{Task}
use xkblas.Blas.Tiling.{num_of_tiles}
use xkblas.Scalar.Sum.{sum}
use xkblas.Scalar.{Scalar, ◌⊕◌, ◌⊗◌}

-- alpha op(A) op(B) + beta C in the tiles of one triangle, or in the whole matrix
abbrev pub gemmt_spec {ℓ} :
    {R : Type ℓ} ⦃s : Scalar R⦄ (nb : ℕ) (uplo ta tb : ℤ) (k : ℕ) (alpha : R) (a lda b ldb : ℕ)
    (beta : R) (c ldc : ℕ)
    → Mem R
    → ℕ
    → ℕ
    → R
gemmt_spec nb uplo ta tb k alpha a lda b ldb beta c ldc mem i j =
    if written uplo nb i j
    then alpha ⊗ product k (op ta (matrix (mem a) lda)) (op tb (matrix (mem b) ldb)) i j
      ⊕ beta ⊗ matrix (mem c) ldc i j
    else matrix (mem c) ldc i j

IsRegion-sets_range : (uplo : ℤ) → IsRegion uplo → sets_range uplo ≡ true
IsRegion-sets_range uplo (inl e) = rw e refl
IsRegion-sets_range uplo (inr (inl e)) = rw e refl
IsRegion-sets_range uplo (inr (inr e)) = rw e refl

module _ {ℓ} {R : Type ℓ} ⦃s : Scalar R⦄ (kern : Kernels R) (nb : ℕ) (ctx : Context)
    (uplo ta tb : ℤ) (n k : ℕ) (alpha : R) (a lda b ldb : ℕ) (beta : R) (c ldc : ℕ) where
  abbrev this_call : GemmtCall R
  this_call = gemmt_call uplo ta tb n k alpha a lda b ldb beta c ldc

  abbrev spec : Mem R → ℕ → ℕ → R
  spec = gemmt_spec nb uplo ta tb k alpha a lda b ldb beta c ldc

  quick_cases :
      quick_gemmt this_call ≡ true → (n ≡ 0) ⊎ (((alpha ≡ s.zero) ⊎ (k ≡ 0)) × (beta ≡ s.one))
  unfolding quick_gemmt
  quick_cases h = ground (arith, s.is_zero_sound alpha, s.is_one_sound beta)

  -- A call that returns early has nothing to compute.
  quick-Computes : quick_gemmt this_call ≡ true → Computes kern [] c n n ldc spec
  unfolding product sum
  quick-Computes h = Computes-nil kern λ mem i j hi hj. elim (Bool-cases (written uplo nb i j)) [
    | inl e ↦ rw e (entry mem i j hi hj (quick_cases h))
    | inr e ↦ rw e refl
  ]
    where
      entry :
          (mem : Mem R) (i j : ℕ)
          → i < n
          → j < n
          → (n ≡ 0) ⊎ (((alpha ≡ s.zero) ⊎ (k ≡ 0)) × (beta ≡ s.one))
          → matrix (mem c) ldc i j
            ≡ alpha ⊗ product k (op ta (matrix (mem a) lda)) (op tb (matrix (mem b) ldb)) i j
              ⊕ beta ⊗ matrix (mem c) ldc i j
      entry mem i j hi hj (inl e) = absurd (omega arith)
      entry mem i j hi hj (inr (inl e, f)) = rw (e, f, s.zero-mul, s.zero-add, s.one-mul) refl
      entry mem i j hi hj (inr (inr e, f)) = rw (e, f, sum, s.mul-zero, s.zero-add, s.one-mul) refl

  slow_pos : (0 < k) ⊎ (s.is_one beta ≡ true) → quick_gemmt this_call ≡ false → 0 < k
  unfolding quick_gemmt
  slow_pos (inl p) h = p
  slow_pos (inr e) h = ground arith

  abbrev after : Context
  after =
      lookup_three nb (operand_a ta n k a lda) (operand_b tb n k b ldb) (operand_c n n c ldc) ctx

  abbrev inserted : MatrixDescr → MatrixDescr → MatrixDescr → List (Task R)
  inserted = gemmt_tasks uplo ta tb n (rows_of ta n k) (rows_of ta k n) alpha beta lda ldb ldc

  early :
      check_gemmt this_call ≡ none
      → quick_gemmt this_call ≡ true
      → zgemmt_async nb this_call ctx ≡ done ctx []
  unfolding zgemmt_async
  early h q = rw (h, zgemmt_async) (rw q refl)

  sized :
      GemmtInts n k lda ldb ldc
      → IsRegion uplo
      → check_gemmt this_call ≡ none
      → quick_gemmt this_call ≡ false
      → zgemmt_async nb this_call ctx ≡ done after (inserted (after a) (after b) (after c))
  unfolding zgemmt_async
  sized v region h q =
      rw (h, zgemmt_async)
        (rw
          (
            q,
            IsRegion-sets_range uplo region,
            to_size-pos n v.n_int,
            to_size-pos lda v.lda_int,
            to_size-pos ldb v.ldb_int,
            to_size-pos ldc v.ldc_int,
            to_size-rows ta n k v.n_int v.k_int,
            to_size-rows ta k n v.k_int v.n_int,
            to_size-rows tb k n v.k_int v.n_int,
            to_size-rows tb n k v.n_int v.k_int,
          )
          refl)

  module _ (v : GemmtInts n k lda ldb ldc) (hb : 0 < nb) (hb' : nb < 2 ^ 32)
      (p : Apart nb (operand_a ta n k a lda) (operand_b tb n k b ldb) (operand_c n n c ldc) ctx)
      (region : IsRegion uplo) (passed : check_gemmt this_call ≡ none) where
    abbrev grid : Grid R
    grid = record {
      alpha = alpha;
      beta = beta;
      pa = a;
      lda = lda;
      pb = b;
      ldb = ldb;
      pc = c;
      ldc = ldc;
      nb = nb;
    }

    shape : Shape grid ta tb n n k
    shape =
        let l = (check_gemmt-GemmtLegal uplo ta tb n k lda ldb ldc alpha beta a b c v).0 passed in
        record {
          trans_a = l.legal_a;
          trans_b = l.legal_b;
          tiled_m = omega arith;
          tiled_n = omega arith;
          tiled_k = omega arith;
          rows_a = omega (arith, l.enough_a);
          rows_b = omega (arith, l.enough_b);
          rows_c = omega (arith, l.enough_c);
          reads_a = p.a_c;
          reads_b = p.b_c;
        }

    cells-Computes :
        (buf : Mem R)
        → 0 < k
        → Computes kern (cells kern shape region (buf a) (buf b)) c n n ldc spec
    cells-Computes buf hk = record {
      entries = λ mem i j hi hj. elim (Bool-cases (written uplo nb i j)) [
        | inl e ↦
            rw e ((cells_hit kern shape region (mem a) (mem b) i j hi hj e hk).value mem refl refl)
        | inr e ↦
            rw e ((cells_miss kern shape region (mem a) (mem b) i j hi hj e).value mem refl refl)
      ];
      padding = λ mem q apart.
          (cells_padding kern shape region (mem a) (mem b) q apart).value mem refl refl;
      others = λ mem q ne.
          (cells_padding kern shape region (mem a) (mem b) (n * ldc) beyond_end).frame mem q ne;
    }
      where
        beyond_end : (i j : ℕ) → i < n → j < n → n * ldc ≢ i + j * ldc
        beyond_end i j hi hj e =
            absurd (omega (arith, shape.rows_c, mul_mono (j + 1) n ldc (omega arith)))

    gemmt_tasks-eq :
        (h₀ h₁ h₂ : MatrixDescr) (buf : Mem R)
        → inserted
            (a_descr grid ta tb h₀ h₁ h₂ n n k)
            (b_descr grid ta tb h₀ h₁ h₂ n n k)
            (c_descr grid ta tb h₀ h₁ h₂ n n k)
          ≡ cells kern shape region (buf a) (buf b)
    unfolding gemmt_tasks init_matrix_handle
    gemmt_tasks-eq h₀ h₁ h₂ buf = emit_congr 0 (num_of_tiles n nb) _ _ λ x l hx.
        emit_congr _ _ _ _ λ y l' hy.
          cell_tasks-eq grid uplo ta tb n k h₀ h₁ h₂ x y (omega arith)
            (range_inside uplo x (num_of_tiles n nb) y (omega arith) hy)

    inserted-Computes :
        0 < k → Computes kern (inserted (after a) (after b) (after c)) c n n ldc spec
    inserted-Computes hk =
        let ((h₀, ea), (h₁, eb), (h₂, ec)) = lookup_three-Found p in
        let zeros = λ (_ _ : ℕ). s.zero in
        subst (λ ts. Computes kern ts c n n ldc spec)
          (sym (ap₃ inserted ea eb ec ∙ gemmt_tasks-eq h₀ h₁ h₂ zeros)) (cells-Computes zeros hk)

    -- A legal call, whatever tile size it chooses, returns 0 and inserts tasks that, run in order, set
    -- the elements of C whose tile lies in the triangle of tiles that `uplo` names (all of C if it is 0)
    -- to those of alpha op(A) op(B) + beta C, and change nothing else in memory: not the tiles on the
    -- other side, not the elements between the columns of C, and no other matrix. The diagonal tiles are
    -- set as a whole, also above or below the diagonal of C: a gemmt task runs a gemm of its tile. It
    -- takes an uplo that is 0, Lower or Upper, three matrices at different pointers, each new or known with
    -- these dimensions and this tile size, and an inner dimension that is not 0 unless beta is 1.
    pub zgemmt-Computes :
        (0 < k) ⊎ (s.is_one beta ≡ true)
        → (final : Context) × (ts : List (Task R)) × (zgemmt_async nb this_call ctx ≡ done final ts)
          × Computes kern ts c n n ldc spec
    zgemmt-Computes hk = elim (Bool-cases (quick_gemmt this_call)) [
      | inl q ↦ (ctx, [], early passed q, quick-Computes q)
      | inr q ↦ (after, _, sized v region passed q, inserted-Computes (slow_pos hk q))
    ]
