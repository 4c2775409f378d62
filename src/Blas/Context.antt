-- ===== src/Blas/Context.antt =====
-- What the routines share: the map from matrix pointers to descriptors (`xkblas_ptr2handle` of the
-- context, blas/xkblas.c), how a call looks a descriptor up, and what a call returns.
pub mod Three
pub mod Two
use xkblas.Base.{
  ℕ, ◌≡◌, ◌⊎◌, ◌≢◌, inl, inr, refl, Bool, true, false, List, ◌==◌, if◌then◌else◌, arith, Bool-cases,
}
use xkblas.Blas.Descr.{MatrixDescr, isinit, init_matrix_handle}
use xkblas.Blas.Task.{Task}

-- A pointer that was never looked up has the descriptor that `xkblas_find` would allocate.
abbrev pub Context : Type 0
Context = ℕ → MatrixDescr

-- `Ah = xkblas_find(A); if (!isinit(Ah)) xkblas_init_matrix_handle(Ah, A, m, n, ld, .., nb, nb)`
pub find_init : Context → ℕ → ℕ → ℕ → ℕ → ℕ → Context
find_init ctx a m n ld nb = if isinit (ctx a) then ctx else λ p.
    if p == a then init_matrix_handle (ctx a) a m n ld nb nb else ctx p

-- What a routine returns and does: for an illegal argument `i` the program is aborted by kaapi_error,
-- and `-i` would be returned if that came back; or 0, having inserted tasks; or it reads a variable that was never set.
pub data Outcome {ℓ} (R : Type ℓ) : Type ℓ where
  illegal : ℕ → Outcome R
  done : Context → List (Task R) → Outcome R
  undefined : Outcome R

-- The descriptor is that of this matrix, cut into tiles of this size.
abbrev pub Describes : MatrixDescr → ℕ → ℕ → ℕ → ℕ → ℕ → Type 0
Describes h a m n ld nb = (h₀ : MatrixDescr) × (h ≡ init_matrix_handle h₀ a m n ld nb nb)

-- Before a call, a matrix is new, or an earlier call left its descriptor.
abbrev pub IsReady : MatrixDescr → ℕ → ℕ → ℕ → ℕ → ℕ → Type 0
IsReady h a m n ld nb = (isinit h ≡ false) ⊎ Describes h a m n ld nb

module _ (ctx : Context) (a m n ld nb : ℕ) where
  pub find_init-Describes :
      IsReady (ctx a) a m n ld nb → Describes (find_init ctx a m n ld nb a) a m n ld nb
  unfolding find_init
  find_init-Describes ready = elim (Bool-cases (isinit (ctx a))) [
    | inl e ↦ rw e (known ready e)
    | inr e ↦ let r : a == a ≡ true = ground arith in rw (e, r) (ctx a, refl)
  ]
    where
      known : IsReady (ctx a) a m n ld nb → isinit (ctx a) ≡ true → Describes (ctx a) a m n ld nb
      known (inl f) e = cc
      known (inr d) e = d

  pub find_init-ne : (p : ℕ) → p ≢ a → find_init ctx a m n ld nb p ≡ ctx p
  unfolding find_init
  find_init-ne p ne = elim (Bool-cases (isinit (ctx a))) [
    | inl e ↦ rw e refl
    | inr e ↦ let r : p == a ≡ false = ground arith in rw (e, r) refl
  ]
