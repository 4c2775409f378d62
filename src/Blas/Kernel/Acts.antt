-- ===== src/Blas/Kernel/Acts.antt =====
-- The effect of a list of tasks on one element of C, for lists that write C only.
use xkblas.Base.{
  ℕ, zero, suc, ◌+◌, ◌<◌, ◌≤◌, ◌≡◌, ◌≢◌, refl, sym, ap, subst, ◌∙◌, arith, List, [], ◌∷◌, ◌++◌,
  emit, ◌==◌, if◌then◌else◌, ℕ_discrete, false,
}
use xkblas.Blas.Kernel.{Buffer, Mem, Kernels, run}
use xkblas.Blas.Task.{Task}
use xkblas.Scalar.Sum.{sum, sum_congr, sum_front}
use xkblas.Scalar.{Scalar, ◌⊕◌, ◌⊗◌, accumulate}

module _ {ℓ} {R : Type ℓ} ⦃s : Scalar R⦄ (kern : Kernels R) where
  pub run-append :
      (ts us : List (Task R)) (mem : Mem R)
      → run kern (ts ++ us) mem ≡ run kern us (run kern ts mem)
  unfolding run
  run-append [] us mem = refl
  run-append (t ∷ ts) us mem = run-append ts us _

  -- where the read buffers at `pa` and `pb` hold `a` and `b`, element `x` of C becomes `g` of it
  pub record Acts (pa pb pc : ℕ) (a b : Buffer R) (x : ℕ) (ts : List (Task R)) (g : R → R)
      : Type ℓ where
    pub value : (mem : Mem R) → mem pa ≡ a → mem pb ≡ b → run kern ts mem pc x ≡ g (mem pc x)
    pub frame : (mem : Mem R) (p : ℕ) → p ≢ pc → run kern ts mem p ≡ mem p

  later_beta : (beta c : R) (k : ℕ) → 1 ≤ k → (if k == 0 then beta else s.one) ⊗ c ≡ c
  later_beta beta c zero h = absurd (omega arith)
  later_beta beta c (suc k) h = let e : suc k == 0 ≡ false = ground arith in rw e (s.one-mul c)

  module _ {pa pb pc : ℕ} (na : pa ≢ pc) (nb : pb ≢ pc) {a b : Buffer R} {x : ℕ} where
    pub Acts-nil : Acts pa pb pc a b x [] (λ c. c)
    unfolding run
    Acts-nil = record { value = λ mem ea eb. refl; frame = λ mem p n. refl }

    pub Acts-append :
        {ts us : List (Task R)} {g h : R → R}
        → Acts pa pb pc a b x ts g
        → Acts pa pb pc a b x us h
        → Acts pa pb pc a b x (ts ++ us) (λ c. h (g c))
    Acts-append {ts} {us} {g} {h} t u = record {
      value = λ mem ea eb.
          rw (run-append ts us mem) (
            u.value _ (t.frame mem pa na ∙ ea) (t.frame mem pb nb ∙ eb) ∙ ap h (t.value mem ea eb));
      frame = λ mem p n. rw (run-append ts us mem) (u.frame _ p n ∙ t.frame mem p n);
    }

    pub Acts-congr :
        {ts : List (Task R)} {g h : R → R}
        → ((c : R) → g c ≡ h c)
        → Acts pa pb pc a b x ts g
        → Acts pa pb pc a b x ts h
    Acts-congr e t = record { value = λ mem ea eb. t.value mem ea eb ∙ e _; frame = t.frame }

    pub emit_skip :
        (lo n : ℕ) (body : ℕ → List (Task R))
        → ((k : ℕ) → lo ≤ k → k < lo + n → Acts pa pb pc a b x (body k) (λ c. c))
        → Acts pa pb pc a b x (emit lo n body) (λ c. c)
    unfolding emit
    emit_skip lo zero body h = Acts-nil
    emit_skip lo (suc n) body h =
        Acts-append (h lo (omega arith) (omega arith))
          (emit_skip (suc lo) n body (λ k p q. h k (omega arith) (omega arith)))

    -- one round acts, and the others do nothing
    pub emit_once :
        (lo n k₀ : ℕ) (body : ℕ → List (Task R)) (g : R → R)
        → lo ≤ k₀
        → k₀ < lo + n
        → Acts pa pb pc a b x (body k₀) g
        → ((k : ℕ) → lo ≤ k → k < lo + n → k ≢ k₀ → Acts pa pb pc a b x (body k) (λ c. c))
        → Acts pa pb pc a b x (emit lo n body) g
    unfolding emit
    emit_once lo zero k₀ body g p q here others = absurd (omega arith)
    emit_once lo (suc n) k₀ body g p q here others = elim (ℕ_discrete lo k₀) [
      | yes e ↦
          Acts-append (subst (λ k. Acts pa pb pc a b x (body k) g) (sym e) here) (
            emit_skip (suc lo) n body (λ k u v. others k (omega arith) (omega arith) (omega arith)))
      | no ne ↦ Acts-append (others lo (omega arith) (omega arith) ne) (
          emit_once (suc lo) n k₀ body g (omega arith) (omega arith) here
            (λ k u v w. others k (omega arith) (omega arith) w))
    ]

    -- rounds that each add a term
    pub emit_add :
        (alpha : R) (lo n : ℕ) (body : ℕ → List (Task R)) (f : ℕ → R)
        → ((k : ℕ) → lo ≤ k → k < lo + n → Acts pa pb pc a b x (body k) (λ c. alpha ⊗ f k ⊕ c))
        → Acts pa pb pc a b x (emit lo n body) (λ c. alpha ⊗ sum n (λ k. f (lo + k)) ⊕ c)
    unfolding emit sum
    emit_add alpha lo zero body f h = Acts-congr (λ c. rw (s.mul-zero, s.zero-add)) Acts-nil
    emit_add alpha lo (suc n) body f h =
        Acts-congr (λ c. regroup c)
          (Acts-append (h lo (omega arith) (omega arith))
            (emit_add alpha (suc lo) n body f (λ k p q. h k (omega arith) (omega arith))))
      where
        shift : sum n (λ k. f (suc lo + k)) ≡ sum n (λ k. f (lo + suc k))
        shift = sum_congr n _ _ (λ l _. ap f (omega arith))

        regroup :
            (c : R)
            → alpha ⊗ sum n (λ k. f (suc lo + k)) ⊕ (alpha ⊗ f lo ⊕ c)
              ≡ alpha ⊗ sum (suc n) (λ k. f (lo + k)) ⊕ c
        regroup c =
            let e : lo + 0 ≡ lo = omega arith in
            rw (shift, sum_front n (λ k. f (lo + k)), e) (accumulate alpha (f lo) _ c)

    -- The first round also scales by `beta`.
    pub emit-sum :
        (alpha beta : R) (n : ℕ) (body : ℕ → List (Task R)) (f : ℕ → R)
        → 0 < n
        → ((k : ℕ)
            → k < n
            → Acts pa pb pc a b x
                (body k)
                (λ c. alpha ⊗ f k ⊕ (if k == 0 then beta else s.one) ⊗ c))
        → Acts pa pb pc a b x (emit 0 n body) (λ c. alpha ⊗ sum n f ⊕ beta ⊗ c)
    unfolding emit
    emit-sum alpha beta zero body f h p = absurd (omega arith)
    emit-sum alpha beta (suc n) body f h p = Acts-congr regroup (
        Acts-append (p 0 (omega arith)) (
          emit_add alpha 1 n body f (λ k u v.
            Acts-congr (λ c. ap (λ t. alpha ⊗ f k ⊕ t) (later_beta beta c k u))
              (p k (omega arith)))))
      where
        shift : sum n (λ k. f (1 + k)) ≡ sum n (λ k. f (suc k))
        shift = sum_congr n _ _ (λ l _. ap f (omega arith))

        regroup :
            (c : R)
            → alpha ⊗ sum n (λ k. f (1 + k)) ⊕ (alpha ⊗ f 0 ⊕ beta ⊗ c)
              ≡ alpha ⊗ sum (suc n) f ⊕ beta ⊗ c
        regroup c = rw (shift, sum_front n f) (accumulate alpha (f 0) _ (beta ⊗ c))
