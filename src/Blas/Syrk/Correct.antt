-- ===== src/Blas/Syrk/Correct.antt =====
-- A syrk call as a whole.
use xkblas.Base.{
  ℕ, ◌+◌, ◌*◌, ◌<◌, ◌≡◌, ◌≢◌, ◌⊎◌, ◌^◌, inl, inr, refl, sym, ap₂, subst, arith, true, false, none,
  List, [], ℤ, if◌then◌else◌, Bool-cases, mul_mono,
}
use xkblas.Blas.Context.Three.{Operand}
use xkblas.Blas.Context.Two.{ApartTwo, lookup_two, lookup_two-Found}
use xkblas.Blas.Context.{Context, done}
use xkblas.Blas.Gemm.Check.{to_size-pos, to_size-rows}
use xkblas.Blas.Kernel.Cover.{Computes, Computes-nil}
use xkblas.Blas.Kernel.SyrkLoop.{ReadsC, self_product}
use xkblas.Blas.Kernel.Tiles.{matrix}
use xkblas.Blas.Kernel.{Mem, Kernels, op, in_triangle, rows_of, product}
use xkblas.Blas.Syrk.Check.{syrk_call, SyrkInts, check_syrk-SyrkLegal}
use xkblas.Blas.Syrk.Loops.{syrk_tasks-eq}
use xkblas.Blas.Syrk.Triangle.{
  SyrkShape, triangle_list, triangle_hit, triangle_miss, triangle_padding,
}
use xkblas.Blas.Syrk.{SyrkCall, check_syrk, quick_syrk, syrk_tasks, zsyrk_async}
use xkblas.Blas.Task.{Task}
use xkblas.Scalar.Sum.{sum}
use xkblas.Scalar.{Scalar, ◌⊕◌, ◌⊗◌}

abbrev pub operand_a : (ta : ℤ) (n k a lda : ℕ) → Operand
operand_a ta n k a lda = record { ptr = a; rows = rows_of ta n k; cols = rows_of ta k n; ld = lda }

abbrev pub operand_c : (n c ldc : ℕ) → Operand
operand_c n c ldc = record { ptr = c; rows = n; cols = n; ld = ldc }

-- alpha op(A) op(A)^T + beta C in one triangle
abbrev pub syrk_spec {ℓ} :
    {R : Type ℓ} ⦃s : Scalar R⦄ (uplo ta : ℤ) (k : ℕ) (alpha : R) (a lda : ℕ) (beta : R) (c ldc : ℕ)
    → Mem R
    → ℕ
    → ℕ
    → R
syrk_spec uplo ta k alpha a lda beta c ldc mem i j =
    if in_triangle uplo i j
    then alpha ⊗ self_product k (op ta (matrix (mem a) lda)) i j ⊕ beta ⊗ matrix (mem c) ldc i j
    else matrix (mem c) ldc i j

module _ {ℓ} {R : Type ℓ} ⦃s : Scalar R⦄ (kern : Kernels R) (nb : ℕ) (ctx : Context) (uplo ta : ℤ)
    (n k : ℕ) (alpha : R) (a lda : ℕ) (beta : R) (c ldc : ℕ) where
  abbrev this_call : SyrkCall R
  this_call = syrk_call uplo ta n k alpha a lda beta c ldc

  abbrev spec : Mem R → ℕ → ℕ → R
  spec = syrk_spec uplo ta k alpha a lda beta c ldc

  quick_cases :
      quick_syrk this_call ≡ true → (n ≡ 0) ⊎ (((alpha ≡ s.zero) ⊎ (k ≡ 0)) × (beta ≡ s.one))
  unfolding quick_syrk
  quick_cases h = ground (arith, s.is_zero_sound alpha, s.is_one_sound beta)

  -- A call that returns early has nothing to compute.
  quick-Computes : quick_syrk this_call ≡ true → Computes kern [] c n n ldc spec
  unfolding product sum
  quick-Computes h = Computes-nil kern λ mem i j hi hj. elim (Bool-cases (in_triangle uplo i j)) [
    | inl e ↦ rw e (entry mem i j hi hj (quick_cases h))
    | inr e ↦ rw e refl
  ]
    where
      entry :
          (mem : Mem R) (i j : ℕ)
          → i < n
          → j < n
          → (n ≡ 0) ⊎ (((alpha ≡ s.zero) ⊎ (k ≡ 0)) × (beta ≡ s.one))
          → matrix (mem c) ldc i j
            ≡ alpha ⊗ self_product k (op ta (matrix (mem a) lda)) i j
              ⊕ beta ⊗ matrix (mem c) ldc i j
      entry mem i j hi hj (inl e) = absurd (omega arith)
      entry mem i j hi hj (inr (inl e, f)) = rw (e, f, s.zero-mul, s.zero-add, s.one-mul) refl
      entry mem i j hi hj (inr (inr e, f)) = rw (e, f, sum, s.mul-zero, s.zero-add, s.one-mul) refl

  slow_pos : (0 < k) ⊎ (s.is_one beta ≡ true) → quick_syrk this_call ≡ false → 0 < k
  unfolding quick_syrk
  slow_pos (inl p) h = p
  slow_pos (inr e) h = ground arith

  abbrev after : Context
  after = lookup_two nb (operand_a ta n k a lda) (operand_c n c ldc) ctx

  early :
      check_syrk this_call ≡ none
      → quick_syrk this_call ≡ true
      → zsyrk_async nb this_call ctx ≡ done ctx []
  unfolding zsyrk_async
  early h q = rw (h, zsyrk_async) (rw q refl)

  sized :
      SyrkInts n k lda ldc
      → check_syrk this_call ≡ none
      → quick_syrk this_call ≡ false
      → zsyrk_async nb this_call ctx
        ≡ done after (syrk_tasks uplo ta alpha beta lda ldc (after a) (after c))
  unfolding zsyrk_async
  sized v h q =
      rw (h, zsyrk_async)
        (rw
          (
            q,
            to_size-pos n v.n_int,
            to_size-pos lda v.lda_int,
            to_size-pos ldc v.ldc_int,
            to_size-rows ta n k v.n_int v.k_int,
            to_size-rows ta k n v.k_int v.n_int,
          )
          refl)

  module _ (v : SyrkInts n k lda ldc) (hb : 0 < nb) (hb' : nb < 2 ^ 32)
      (p : ApartTwo nb (operand_a ta n k a lda) (operand_c n c ldc) ctx)
      (passed : check_syrk this_call ≡ none) (reads : ReadsC beta) where
    shape : SyrkShape uplo ta n k a lda c ldc nb
    shape =
        let l = (check_syrk-SyrkLegal uplo ta n k lda ldc alpha beta a c v).0 passed in
        record {
          triangle = l.legal_uplo;
          trans_a = l.legal_trans;
          tiled_n = omega arith;
          tiled_k = omega arith;
          rows_a = omega (arith, l.enough_a);
          rows_c = omega (arith, l.enough_c);
          reads_a = p.a_c;
        }

    triangle-Computes :
        (buf : Mem R)
        → 0 < k
        → Computes kern (triangle_list kern alpha beta shape reads (buf a)) c n n ldc spec
    triangle-Computes buf hk = record {
      entries = λ mem i j hi hj. elim (Bool-cases (in_triangle uplo i j)) [
        | inl e ↦
            rw e (
              (triangle_hit kern alpha beta shape reads (mem a) i j hi hj e hk).value mem refl refl)
        | inr e ↦
            rw e
              ((triangle_miss kern alpha beta shape reads (mem a) i j hi hj e).value mem refl refl)
      ];
      padding = λ mem q apart.
          (triangle_padding kern alpha beta shape reads (mem a) q apart).value mem refl refl;
      others = λ mem q ne.
          (triangle_padding kern alpha beta shape reads (mem a) (n * ldc) beyond_end).frame mem q
            ne;
    }
      where
        beyond_end : (i j : ℕ) → i < n → j < n → n * ldc ≢ i + j * ldc
        beyond_end i j hi hj e =
            absurd (omega (arith, shape.rows_c, mul_mono (j + 1) n ldc (omega arith)))

    inserted-Computes :
        0 < k
        → Computes kern (syrk_tasks uplo ta alpha beta lda ldc (after a) (after c)) c n n ldc spec
    inserted-Computes hk =
        let ((h₀, ea), (h₂, ec)) = lookup_two-Found p in
        subst (λ ts. Computes kern ts c n n ldc spec)
          (sym (ap₂ (λ x y. syrk_tasks uplo ta alpha beta lda ldc x y) ea ec))
          (rw (syrk_tasks-eq alpha beta a lda c ldc nb uplo ta n k h₀ h₂)
            (triangle-Computes (λ _ _. s.zero) hk))

    -- A legal call, whatever tile size it chooses, returns 0 and inserts tasks that, run in order, set
    -- the elements of C in the triangle that `uplo` names to those of alpha op(A) op(A)^T + beta C, and
    -- change nothing else in memory: not the other triangle, not the elements between the columns of
    -- C, and no other matrix. It takes a beta that is not 0, since with 0 the diagonal tiles of C are
    -- not fetched, scalars in which 1 is not 0, two matrices at different pointers, each new or known
    -- with these dimensions and this tile size, and an inner dimension that is not 0 unless beta is 1.
    pub zsyrk-Computes :
        (0 < k) ⊎ (s.is_one beta ≡ true)
        → (final : Context) × (ts : List (Task R)) × (zsyrk_async nb this_call ctx ≡ done final ts)
          × Computes kern ts c n n ldc spec
    zsyrk-Computes hk = elim (Bool-cases (quick_syrk this_call)) [
      | inl q ↦ (ctx, [], early passed q, quick-Computes q)
      | inr q ↦ (after, _, sized v passed q, inserted-Computes (slow_pos hk q))
    ]
