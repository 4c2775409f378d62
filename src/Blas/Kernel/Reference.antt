-- ===== src/Blas/Kernel/Reference.antt =====
-- Kernels that do what the BLAS documents, over any scalars: the interface can be met.
use xkblas.Base.{
  ℕ, ◌+◌, ◌-◌, ◌*◌, ◌/◌, ◌%◌, ◌<◌, ◌≤◌, ◌≡◌, ◌≢◌, refl, ap, arith, Bool, true, ◌&&◌, inl, inr, ltb,
  leb, if◌then◌else◌, Bool-cases, div_unique, eq_int,
}
use xkblas.Blas.Descr.{Handle}
use xkblas.Blas.Kernel.{Mem, Buffer, Updates, Kernels, elt, op, sym_of, product, whole, in_triangle}
use xkblas.Blas.Task.{left}
use xkblas.Scalar.{Scalar, ◌⊕◌, ◌⊗◌}

-- is this address an element of the part that is updated?
abbrev selects : Handle → (ldc m n : ℕ) → (ℕ → ℕ → Bool) → ℕ → Bool
selects c ldc m n shape x =
    let d = x - c.offset in
    leb c.offset x && (ltb (d % ldc) m && (ltb (d / ldc) n && shape (d % ldc) (d / ldc)))

all_four :
    (o x i m j n : ℕ) (sh : Bool)
    → (leb o x && (ltb i m && (ltb j n && sh))) ≡ true
    → (o ≤ x) × (i < m) × (j < n) × (sh ≡ true)
all_four o x i m j n sh h = ground arith

module _ (c : Handle) (ldc m n : ℕ) (shape : ℕ → ℕ → Bool) (fits : m ≤ ldc) where
  coordinates :
      (i j : ℕ)
      → i < m
      → ((c.offset + (i + j * ldc) - c.offset) % ldc ≡ i)
        × ((c.offset + (i + j * ldc) - c.offset) / ldc ≡ j)
  coordinates i j hi =
      let d = c.offset + (i + j * ldc) - c.offset in
      let q : d / ldc ≡ j = div_unique j ldc d (omega arith) (omega arith) in
      (omega (arith, ap (λ (t : ℕ). t * ldc) q), q)

  selects_complete :
      (i j : ℕ)
      → i < m
      → j < n
      → shape i j ≡ true
      → selects c ldc m n shape (c.offset + (i + j * ldc)) ≡ true
  selects_complete i j hi hj sh = let (p, q) = coordinates i j hi in rw (p, q) (ground arith)

  selects_sound :
      (x : ℕ)
      → selects c ldc m n shape x ≡ true
      → ((i j : ℕ) → i < m → j < n → shape i j ≡ true → x ≢ c.offset + (i + j * ldc))
      → ⊥
  selects_sound x h apart =
      let (o, p, q, sh) =
        all_four c.offset x ((x - c.offset) % ldc) m ((x - c.offset) / ldc) n _ h in
      apart _ _ p q sh (omega arith)

module _ {ℓ} {R : Type ℓ} ⦃s : Scalar R⦄ where
  abbrev updated : Mem R → Handle → (ldc m n : ℕ) → (ℕ → ℕ → Bool) → R → (ℕ → ℕ → R) → R → Buffer R
  updated mem c ldc m n shape alpha value beta x =
      let d = x - c.offset in
      if selects c ldc m n shape x
      then alpha ⊗ value (d % ldc) (d / ldc) ⊕ beta ⊗ mem c.base x
      else mem c.base x

  pub updated-Updates :
      (mem : Mem R) (c : Handle) (ldc m n : ℕ) (shape : ℕ → ℕ → Bool) (alpha : R)
      (value : ℕ → ℕ → R) (beta : R)
      → m ≤ ldc
      → Updates mem c ldc m n shape alpha value beta (updated mem c ldc m n shape alpha value beta)
  updated-Updates mem c ldc m n shape alpha value beta fits = record {
    inside = λ i j hi hj sh.
        let (p, q) = coordinates c ldc m n shape fits i j hi in
        rw (selects_complete c ldc m n shape fits i j hi hj sh, p, q) refl;
    outside = λ x apart. elim (Bool-cases (selects c ldc m n shape x)) [
      | inl e ↦ absurd (selects_sound c ldc m n shape fits x e apart)
      | inr e ↦ rw e refl
    ];
  }

  abbrev pub reference_kernels : Kernels R
  reference_kernels = record {
    zgemm = λ t mem.
        updated mem t.c t.ldc t.m t.n whole t.alpha
          (product t.k (op t.trans_a (elt mem t.a t.lda)) (op t.trans_b (elt mem t.b t.ldb)))
          t.beta;
    zsyrk = λ t mem.
        updated mem t.c t.ldc t.n t.n (in_triangle t.uplo) t.alpha
          (product t.k (op t.trans_a (elt mem t.a t.lda))
            (λ l j. op t.trans_a (elt mem t.a t.lda) j l))
          t.beta;
    zsymm = λ t mem.
        updated mem t.c t.ldc t.m t.n whole t.alpha
          (if eq_int t.side left
            then product t.m (sym_of t.uplo (elt mem t.a t.lda)) (elt mem t.b t.ldb)
            else product t.n (elt mem t.b t.ldb) (sym_of t.uplo (elt mem t.a t.lda)))
          t.beta;
    unread = λ x. s.zero;
    zgemm_lem = λ t mem ha hb la lb lc. updated-Updates mem t.c t.ldc t.m t.n _ _ _ _ lc;
    zsyrk_lem = λ t mem hu ha la lc. updated-Updates mem t.c t.ldc t.n t.n _ _ _ _ lc;
    zsymm_left_lem = λ t mem e hu la lb lc.
        rw e (updated-Updates mem t.c t.ldc t.m t.n whole t.alpha _ t.beta lc);
    zsymm_right_lem = λ t mem e hu la lb lc.
        rw e (updated-Updates mem t.c t.ldc t.m t.n whole t.alpha _ t.beta lc);
  }
