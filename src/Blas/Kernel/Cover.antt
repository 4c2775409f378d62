-- ===== src/Blas/Kernel/Cover.antt =====
-- Loops over the tiles of C reach each element in its own tile, and in no other.
use xkblas.Base.{ℕ, ◌+◌, ◌*◌, ◌<◌, ◌≡◌, ◌≢◌, ◌⊎◌, inl, inr, refl, arith, List, [], emit}
use xkblas.Blas.Kernel.Acts.{Acts, emit_skip, emit_once}
use xkblas.Blas.Kernel.Tiles.{matrix}
use xkblas.Blas.Kernel.{Buffer, Mem, Kernels, run}
use xkblas.Blas.Task.{Task}
use xkblas.Scalar.{Scalar}

module _ {ℓ} {R : Type ℓ} ⦃s : Scalar R⦄ (kern : Kernels R) where
  -- A list of tasks takes the matrix at `pc` to `spec`, and touches nothing else.
  pub record Computes (ts : List (Task R)) (pc rows cols ld : ℕ) (spec : Mem R → ℕ → ℕ → R)
      : Type ℓ where
    pub entries :
        (mem : Mem R) (i j : ℕ)
        → i < rows
        → j < cols
        → matrix (run kern ts mem pc) ld i j ≡ spec mem i j
    pub padding :
        (mem : Mem R) (p : ℕ)
        → ((i j : ℕ) → i < rows → j < cols → p ≢ i + j * ld)
        → run kern ts mem pc p ≡ mem pc p
    pub others : (mem : Mem R) (q : ℕ) → q ≢ pc → run kern ts mem q ≡ mem q

  module _ {pa pb pc : ℕ} (na : pa ≢ pc) (nb : pb ≢ pc) {abuf bbuf : Buffer R} {at : ℕ} where
    pub cover_skip :
        (mt nt : ℕ) (body : ℕ → ℕ → List (Task R))
        → ((x y : ℕ) → x < mt → y < nt → Acts kern pa pb pc abuf bbuf at (body x y) (λ c. c))
        → Acts kern pa pb pc abuf bbuf at (emit 0 mt (λ x. emit 0 nt (λ y. body x y))) (λ c. c)
    cover_skip mt nt body h =
        emit_skip kern na nb 0 mt _
          λ x _ hx. emit_skip kern na nb 0 nt _ λ y _ hy. h x y (omega arith) (omega arith)

    pub cover_once :
        (mt nt x₀ y₀ : ℕ) (body : ℕ → ℕ → List (Task R)) (g : R → R)
        → x₀ < mt
        → y₀ < nt
        → Acts kern pa pb pc abuf bbuf at (body x₀ y₀) g
        → ((x y : ℕ)
            → x < mt
            → y < nt
            → (x ≢ x₀) ⊎ (y ≢ y₀)
            → Acts kern pa pb pc abuf bbuf at (body x y) (λ c. c))
        → Acts kern pa pb pc abuf bbuf at (emit 0 mt (λ x. emit 0 nt (λ y. body x y))) g
    cover_once mt nt x₀ y₀ body g hx hy here others =
        emit_once kern na nb 0 mt x₀ _ g (omega arith) (omega arith)
          (emit_once kern na nb 0 nt y₀ _ g (omega arith) (omega arith) here
            (λ y _ k ne. others x₀ y hx (omega arith) (inr ne)))
          (λ x _ k ne.
            emit_skip kern na nb 0 nt _ λ y _ l. others x y (omega arith) (omega arith) (inl ne))

  -- No task at all computes what is there.
  pub Computes-nil :
      {pc rows cols ld : ℕ} {spec : Mem R → ℕ → ℕ → R}
      → ((mem : Mem R) (i j : ℕ) → i < rows → j < cols → matrix (mem pc) ld i j ≡ spec mem i j)
      → Computes [] pc rows cols ld spec
  unfolding run
  Computes-nil h = record { entries = h; padding = λ mem p _. refl; others = λ mem q _. refl }
