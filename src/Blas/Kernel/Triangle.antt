-- ===== src/Blas/Kernel/Triangle.antt =====
-- Loops over the tiles of one triangle of C: the diagonal tile of each round, and the tiles beyond.
use xkblas.Base.{ℕ, suc, ◌-◌, ◌<◌, ◌≢◌, ◌⊎◌, inl, inr, arith, List, ◌++◌, emit}
use xkblas.Blas.Kernel.Acts.{Acts, Acts-append, emit_skip, emit_once}
use xkblas.Blas.Kernel.{Buffer, Kernels}
use xkblas.Blas.Task.{Task}
use xkblas.Scalar.{Scalar}

module _ {ℓ} {R : Type ℓ} (nt : ℕ) (diag : ℕ → List (Task R)) (beyond : ℕ → ℕ → List (Task R)) where
  abbrev pub triangle_round : ℕ → List (Task R)
  triangle_round n = diag n ++ emit (suc n) (nt - suc n) (λ m. beyond n m)

  abbrev pub triangle_tasks : List (Task R)
  triangle_tasks = emit 0 nt triangle_round

module _ {ℓ} {R : Type ℓ} ⦃s : Scalar R⦄ (kern : Kernels R) {pa pb pc : ℕ} (na : pa ≢ pc)
    (nb : pb ≢ pc) {abuf bbuf : Buffer R} {at : ℕ} (nt : ℕ) (diag : ℕ → List (Task R))
    (beyond : ℕ → ℕ → List (Task R)) where
  beyond_skip :
      (n : ℕ)
      → ((m : ℕ) → n < m → m < nt → Acts kern pa pb pc abuf bbuf at (beyond n m) (λ c. c))
      → Acts kern pa pb pc abuf bbuf at (emit (suc n) (nt - suc n) (λ m. beyond n m)) (λ c. c)
  beyond_skip n h = emit_skip kern na nb (suc n) _ _ (λ m p q. h m (omega arith) (omega arith))

  pub triangle_skip :
      ((n : ℕ) → n < nt → Acts kern pa pb pc abuf bbuf at (diag n) (λ c. c))
      → ((n m : ℕ) → n < m → m < nt → Acts kern pa pb pc abuf bbuf at (beyond n m) (λ c. c))
      → Acts kern pa pb pc abuf bbuf at (triangle_tasks nt diag beyond) (λ c. c)
  triangle_skip d o =
      emit_skip kern na nb 0 nt _
        λ n _ h. Acts-append kern na nb (d n (omega arith)) (beyond_skip n (o n))

  pub triangle_diag :
      (p : ℕ) (g : R → R)
      → p < nt
      → Acts kern pa pb pc abuf bbuf at (diag p) g
      → ((n : ℕ) → n < nt → n ≢ p → Acts kern pa pb pc abuf bbuf at (diag n) (λ c. c))
      → ((n m : ℕ) → n < m → m < nt → Acts kern pa pb pc abuf bbuf at (beyond n m) (λ c. c))
      → Acts kern pa pb pc abuf bbuf at (triangle_tasks nt diag beyond) g
  triangle_diag p g hp here d o =
      emit_once kern na nb 0 nt p _ g (omega arith) (omega arith)
        (Acts-append kern na nb here (beyond_skip p (o p)))
        (λ n _ h ne. Acts-append kern na nb (d n (omega arith) ne) (beyond_skip n (o n)))

  pub triangle_beyond :
      (p q : ℕ) (g : R → R)
      → p < q
      → q < nt
      → Acts kern pa pb pc abuf bbuf at (beyond p q) g
      → ((n : ℕ) → n < nt → Acts kern pa pb pc abuf bbuf at (diag n) (λ c. c))
      → ((n m : ℕ)
          → n < m
          → m < nt
          → (n ≢ p) ⊎ (m ≢ q)
          → Acts kern pa pb pc abuf bbuf at (beyond n m) (λ c. c))
      → Acts kern pa pb pc abuf bbuf at (triangle_tasks nt diag beyond) g
  triangle_beyond p q g hp hq here d o =
      emit_once kern na nb 0 nt p _ g (omega arith) (omega arith)
        (Acts-append kern na nb (d p (omega arith)) (
          emit_once kern na nb (suc p) _ q _ g (omega arith) (omega arith) here
            (λ m l h ne. o p m (omega arith) (omega arith) (inr ne))))
        (λ n _ h ne.
          Acts-append kern na nb (d n (omega arith)) (beyond_skip n (λ m l u. o n m l u (inl ne))))
