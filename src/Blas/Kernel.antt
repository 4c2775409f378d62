-- ===== src/Blas/Kernel.antt =====
-- What a task does to memory. The kernels are those of the BLAS that the tasks call (cuBLAS,
-- hipBLAS or the CPU library), which is no code of this repository: they are a parameter, with the
-- effect that the BLAS documents, promised for legal arguments only. The body of a gemmt task calls gemm.
pub mod Acts
pub mod Tiles
pub mod TileTask
pub mod GemmTask
pub mod GemmLoop
pub mod Cover
pub mod Triangle
pub mod SyrkLoop
pub mod GemmtLoop
pub mod Rounds
pub mod SymmTask
pub mod Reference
use xkblas.Base.{
  ltb, ◌-◌, ◌%◌, ◌/◌, ◌&&◌, ℕ, ◌+◌, ◌*◌, ◌<◌, ◌≤◌, ◌≡◌, ◌≢◌, ◌⊎◌, Bool, true, ◌==◌, leb,
  if◌then◌else◌, List, [], ◌∷◌, ℤ, eq_int,
}
use xkblas.Blas.Descr.{Handle}
use xkblas.Blas.Task.{
  GemmArg, GemmtArg, SyrkArg, SymmArg, AccessMode, mode_w, mode_rw, Task, gemm, gemmt, syrk, symm,
  no_trans, trans, conj_trans, upper, lower, left, right,
}
use xkblas.Scalar.Sum.{sum}
use xkblas.Scalar.{Scalar, ◌⊕◌, ◌⊗◌, conj}

-- One buffer for each matrix pointer. Matrices at different pointers do not overlap.
abbrev pub Buffer {ℓ} : Type ℓ → Type ℓ
Buffer R = ℕ → R

abbrev pub Mem {ℓ} : Type ℓ → Type ℓ
Mem R = ℕ → ℕ → R

-- the element in row `i`, column `j` of the column-major matrix that begins at a handle
abbrev pub elt {ℓ} : {R : Type ℓ} → Mem R → Handle → ℕ → ℕ → ℕ → R
elt mem h ld i j = mem h.base (h.offset + (i + j * ld))

abbrev pub IsTrans : ℤ → Type 0
IsTrans t = (t ≡ no_trans) ⊎ (t ≡ trans) ⊎ (t ≡ conj_trans)

abbrev pub IsUplo : ℤ → Type 0
IsUplo u = (u ≡ upper) ⊎ (u ≡ lower)

-- the part of a square matrix that a triangular update references
abbrev pub in_triangle : ℤ → ℕ → ℕ → Bool
in_triangle uplo i j = if eq_int uplo upper then leb i j else leb j i

module _ {ℓ} {R : Type ℓ} ⦃s : Scalar R⦄ where
  -- op(X), by the transposition flag
  abbrev pub op : ℤ → (ℕ → ℕ → R) → ℕ → ℕ → R
  op t x i j = if eq_int t no_trans then x i j else if eq_int t trans then x j i else conj (x j i)

  -- the whole of a symmetric matrix of which one triangle is stored
  abbrev pub sym_of : ℤ → (ℕ → ℕ → R) → ℕ → ℕ → R
  sym_of uplo x i j = if in_triangle uplo i j then x i j else x j i

  unfoldable pub product : ℕ → (ℕ → ℕ → R) → (ℕ → ℕ → R) → ℕ → ℕ → R
  product k x y i j = sum k (λ l. x i l ⊗ y l j)

  -- `out` is the buffer of C after an update of the elements that `shape` selects
  pub record Updates (mem : Mem R) (c : Handle) (ldc m n : ℕ) (shape : ℕ → ℕ → Bool) (alpha : R)
      (value : ℕ → ℕ → R) (beta : R) (out : Buffer R) : Type ℓ where
    pub inside :
        (i j : ℕ)
        → i < m
        → j < n
        → shape i j ≡ true
        → out (c.offset + (i + j * ldc)) ≡ alpha ⊗ value i j ⊕ beta ⊗ elt mem c ldc i j
    pub outside :
        (x : ℕ)
        → ((i j : ℕ) → i < m → j < n → shape i j ≡ true → x ≢ c.offset + (i + j * ldc))
        → out x ≡ mem c.base x

abbrev pub whole : ℕ → ℕ → Bool
whole i j = true

-- the number of rows of the stored matrix X, for op(X) of `r` rows and `c` columns
abbrev pub rows_of : ℤ → ℕ → ℕ → ℕ
rows_of t r c = if eq_int t no_trans then r else c

pub record Kernels {ℓ} (R : Type ℓ) ⦃s : Scalar R⦄ : Type ℓ where
  pub zgemm : GemmArg R → Mem R → Buffer R
  pub zsyrk : SyrkArg R → Mem R → Buffer R
  pub zsymm : SymmArg R → Mem R → Buffer R
  -- what the memory of a device holds where a tile was allocated and not fetched
  pub unread : Buffer R
  pub zgemm_lem :
      (t : GemmArg R) (mem : Mem R)
      → IsTrans t.trans_a
      → IsTrans t.trans_b
      → rows_of t.trans_a t.m t.k ≤ t.lda
      → rows_of t.trans_b t.k t.n ≤ t.ldb
      → t.m ≤ t.ldc
      → Updates mem t.c t.ldc t.m t.n whole t.alpha
          (product t.k (op t.trans_a (elt mem t.a t.lda)) (op t.trans_b (elt mem t.b t.ldb)))
          t.beta
          (zgemm t mem)
  pub zsyrk_lem :
      (t : SyrkArg R) (mem : Mem R)
      → IsUplo t.uplo
      → (t.trans_a ≡ no_trans) ⊎ (t.trans_a ≡ trans)
      → rows_of t.trans_a t.n t.k ≤ t.lda
      → t.n ≤ t.ldc
      → Updates mem t.c t.ldc t.n t.n
          (in_triangle t.uplo)
          t.alpha
          (product t.k
            (op t.trans_a (elt mem t.a t.lda))
            (λ l j. op t.trans_a (elt mem t.a t.lda) j l))
          t.beta
          (zsyrk t mem)
  pub zsymm_left_lem :
      (t : SymmArg R) (mem : Mem R)
      → t.side ≡ left
      → IsUplo t.uplo
      → t.m ≤ t.lda
      → t.m ≤ t.ldb
      → t.m ≤ t.ldc
      → Updates mem t.c t.ldc t.m t.n whole t.alpha
          (product t.m (sym_of t.uplo (elt mem t.a t.lda)) (elt mem t.b t.ldb))
          t.beta
          (zsymm t mem)
  pub zsymm_right_lem :
      (t : SymmArg R) (mem : Mem R)
      → t.side ≡ right
      → IsUplo t.uplo
      → t.n ≤ t.lda
      → t.m ≤ t.ldb
      → t.m ≤ t.ldc
      → Updates mem t.c t.ldc t.m t.n whole t.alpha
          (product t.n (elt mem t.b t.ldb) (sym_of t.uplo (elt mem t.a t.lda)))
          t.beta
          (zsymm t mem)

-- the memory with one buffer replaced
abbrev pub store {ℓ} : {R : Type ℓ} → Mem R → ℕ → Buffer R → Mem R
store mem p buf q = if q == p then buf else mem q

-- what the body of a gemmt task calls: a gemm of the whole tile, since cuBLAS has no gemmt
abbrev pub gemm_of {ℓ} : {R : Type ℓ} → GemmtArg R → GemmArg R
gemm_of t = record {
  trans_a = t.trans_a;
  trans_b = t.trans_b;
  m = t.n;
  n = t.n;
  k = t.k;
  alpha = t.alpha;
  a = t.a;
  lda = t.lda;
  b = t.b;
  ldb = t.ldb;
  beta = t.beta;
  c = t.c;
  ldc = t.ldc;
  mode = mode_rw;
}

module _ {ℓ} {R : Type ℓ} ⦃s : Scalar R⦄ (kern : Kernels R) where
  -- the memory that the body of a task on an n by n tile of C sees: in the mode W the tile is not
  -- fetched, and is written back as a whole
  unfoldable pub fetched : AccessMode → Handle → ℕ → ℕ → Mem R → Mem R
  fetched mode_rw c ldc n mem = mem
  fetched mode_w c ldc n mem = store mem c.base λ x.
      let d = x - c.offset in
      if leb c.offset x && (ltb (d % ldc) n && ltb (d / ldc) n) then kern.unread x else mem c.base x

  -- A gemm writes every element of its tile, and leaves no trace of what was not fetched.
  pub exec : Task R → Mem R → Mem R
  exec (gemm t) mem = store mem t.c.base (kern.zgemm t mem)
  exec (gemmt t) mem = store mem t.c.base (kern.zgemm (gemm_of t) mem)
  exec (syrk t) mem = store mem t.c.base (kern.zsyrk t (fetched t.mode t.c t.ldc t.n mem))
  exec (symm t) mem = store mem t.c.base (kern.zsymm t mem)

  -- The tasks in the order of their insertion. The runtime may run them in any order that keeps the
  -- dependencies.
  pub run : List (Task R) → Mem R → Mem R
  run [] mem = mem
  run (t ∷ ts) mem = run ts (exec t mem)
