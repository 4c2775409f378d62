-- ===== src/Blas/Kernel/SymmTask.antt =====
-- The three tasks of zsymm, each as the addition of one step's term to one tile of C.
use xkblas.Base.{
  ℕ, ◌+◌, ◌*◌, ◌<◌, ◌≤◌, ◌≡◌, ◌≢◌, inl, inr, refl, sym, ap, ap₂, ◌∙◌, arith, ℤ, [], ◌∷◌, Bool-cases,
}
use xkblas.Blas.Descr.{tile_handle}
use xkblas.Blas.Kernel.Acts.{Acts-congr}
use xkblas.Blas.Kernel.GemmLoop.{Grid}
use xkblas.Blas.Kernel.GemmTask.{tile_gemm, gemm_hit, gemm_miss, gemm_padding}
use xkblas.Blas.Kernel.Rounds.{TileAdds}
use xkblas.Blas.Kernel.TileTask.{Part, IsUpdate, update_hit, update_miss, update_padding}
use xkblas.Blas.Kernel.Tiles.{matrix, elt-tile, in_triangle_shift}
use xkblas.Blas.Kernel.{
  Buffer, Mem, Kernels, exec, elt, op, sym_of, in_triangle, whole, IsTrans, IsUplo, rows_of,
  product,
}
use xkblas.Blas.Task.{SymmArg, Task, gemm, symm, left, right}
use xkblas.Scalar.Sum.{sum, sum_congr}
use xkblas.Scalar.{Scalar, ◌⊕◌, ◌⊗◌}

pub sym_of-shift {ℓ} :
    {R : Type ℓ} ⦃s : Scalar R⦄ (uplo : ℤ) (t big : ℕ → ℕ → R) (r i j : ℕ)
    → ((i j : ℕ) → t i j ≡ big (r + i) (r + j))
    → sym_of uplo t i j ≡ sym_of uplo big (r + i) (r + j)
sym_of-shift uplo t big r i j e = elim (Bool-cases (in_triangle uplo i j)) [
  | inl h ↦ let h' = in_triangle_shift uplo r i j ∙ h in rw (h, h') (e i j)
  | inr h ↦ let h' = in_triangle_shift uplo r i j ∙ h in rw (h, h') (e j i)
]

module _ {ℓ} {R : Type ℓ} (g : Grid R) (x y z em en : ℕ) (zbeta : R) where
  -- the diagonal tile of A on the left: the first factor is stored at `pa`
  abbrev pub left_symm : ℤ → SymmArg R
  left_symm uplo = record {
    side = left;
    uplo = uplo;
    m = em;
    n = en;
    alpha = g.alpha;
    a = tile_handle g.pa g.nb g.nb g.lda z z;
    lda = g.lda;
    b = tile_handle g.pb g.nb g.nb g.ldb z y;
    ldb = g.ldb;
    beta = zbeta;
    c = tile_handle g.pc g.nb g.nb g.ldc x y;
    ldc = g.ldc;
  }

  -- the diagonal tile of A on the right: the first factor, at `pa`, is B, and A is at `pb`
  abbrev pub right_symm : ℤ → SymmArg R
  right_symm uplo = record {
    side = right;
    uplo = uplo;
    m = em;
    n = en;
    alpha = g.alpha;
    a = tile_handle g.pb g.nb g.nb g.ldb z z;
    lda = g.ldb;
    b = tile_handle g.pa g.nb g.nb g.lda x z;
    ldb = g.lda;
    beta = zbeta;
    c = tile_handle g.pc g.nb g.nb g.ldc x y;
    ldc = g.ldc;
  }

module _ {ℓ} {R : Type ℓ} ⦃s : Scalar R⦄ (kern : Kernels R) (g : Grid R) (abuf bbuf : Buffer R)
    (x y z em en ek : ℕ) (fits : x * g.nb + em ≤ g.ldc) (zbeta : R) where
  abbrev a : ℕ → ℕ → R
  a = matrix abuf g.lda

  abbrev b : ℕ → ℕ → R
  b = matrix bbuf g.ldb

  pub gemm_adds :
      (na : g.pa ≢ g.pc) (nc : g.pb ≢ g.pc) {ta tb : ℤ} (f : ℕ → ℕ → ℕ → R)
      → IsTrans ta
      → IsTrans tb
      → rows_of ta em ek ≤ g.lda
      → rows_of tb ek en ≤ g.ldb
      → ((i l j : ℕ)
          → i < em
          → l < ek
          → j < en
          → op ta a (x * g.nb + i) (z * g.nb + l) ⊗ op tb b (z * g.nb + l) (y * g.nb + j)
            ≡ f (x * g.nb + i) l (y * g.nb + j))
      → TileAdds kern g abuf bbuf x y em en
          (λ i j. sum ek (λ l. f i l j))
          zbeta
          (gemm (tile_gemm ta tb em en ek g.alpha g.pa g.lda g.pb g.ldb zbeta g.pc g.ldc g.nb x y z)
            ∷ [])
  gemm_adds na nc {ta} {tb} f ha hb la lb e = record {
    hit = λ i j hi hj.
        Acts-congr kern na nc
          (λ c. ap (λ v. g.alpha ⊗ v ⊕ zbeta ⊗ c) (sum_congr ek _ _ (λ l hl. e i l j hi hl hj)))
          (gemm_hit kern ta tb em en ek g.alpha g.pa g.lda g.pb g.ldb zbeta g.pc g.ldc g.nb x y z ha
            hb la lb fits abuf bbuf i j hi hj);
    miss = λ i j hi apart.
        gemm_miss kern ta tb em en ek g.alpha g.pa g.lda g.pb g.ldb zbeta g.pc g.ldc g.nb x y z ha
          hb la lb fits abuf bbuf i j hi apart;
    pad = λ p rows cols fr fc apart.
        gemm_padding kern ta tb em en ek g.alpha g.pa g.lda g.pb g.ldb zbeta g.pc g.ldc g.nb x y z
          ha hb la lb fits abuf bbuf p rows cols fr fc apart;
  }

  abbrev part : Part
  part = record {
    handle = tile_handle g.pc g.nb g.nb g.ldc x y;
    ld = g.ldc;
    row = x * g.nb;
    col = y * g.nb;
    height = em;
    width = en;
    at = refl;
    fits = fits;
  }

  update_adds :
      (t : Task R) (value : Mem R → ℕ → ℕ → R) (f : ℕ → ℕ → R)
      → IsUpdate kern part whole g.alpha value zbeta t
      → ((mem : Mem R) (i j : ℕ)
          → i < em
          → j < en
          → mem g.pa ≡ abuf
          → mem g.pb ≡ bbuf
          → value mem i j ≡ f (x * g.nb + i) (y * g.nb + j))
      → TileAdds kern g abuf bbuf x y em en f zbeta (t ∷ [])
  update_adds t value f u reads = record {
    hit = λ i j hi hj. update_hit kern u i j _ hi hj refl (λ mem ea eb. reads mem i j hi hj ea eb);
    miss = λ i j hi apart.
        update_miss kern u i j hi (λ (i', j', hi', hj', _, e, f). apart i' j' hi' hj' e f);
    pad = λ p rows cols fr fc apart. update_padding kern u p rows cols fr fc apart;
  }

  pub left_adds :
      (uplo : ℤ)
      → IsUplo uplo
      → z ≡ x
      → ek ≡ em
      → em ≤ g.lda
      → em ≤ g.ldb
      → TileAdds kern g abuf bbuf x y em en
          (λ i j. sum ek (λ l. sym_of uplo a i (z * g.nb + l) ⊗ b (z * g.nb + l) j))
          zbeta
          (symm (left_symm g x y z em en zbeta uplo) ∷ [])
  unfolding exec product
  left_adds uplo t e e' la lb =
      update_adds (symm (left_symm g x y z em en zbeta uplo))
        (λ mem.
          product em (sym_of uplo (elt mem (left_symm g x y z em en zbeta uplo).a g.lda))
            (elt mem (left_symm g x y z em en zbeta uplo).b g.ldb))
        _
        (record {
          out = λ mem. kern.zsymm (left_symm g x y z em en zbeta uplo) mem;
          exec_out = λ mem. refl;
          updates = λ mem.
              kern.zsymm_left_lem (left_symm g x y z em en zbeta uplo) mem refl t la lb
                (omega arith);
        })
        (λ mem i j hi hj ea eb.
          rw (e', sym e)
            (sum_congr em _ _
              (λ l hl. ap₂ (λ u v. u ⊗ v) (entry_a mem i l ea) (entry_b mem l j eb))))
    where
      entry_a :
          (mem : Mem R) (i l : ℕ)
          → mem g.pa ≡ abuf
          → sym_of uplo (elt mem (tile_handle g.pa g.nb g.nb g.lda z z) g.lda) i l
            ≡ sym_of uplo a (z * g.nb + i) (z * g.nb + l)
      entry_a mem i l ea = sym_of-shift uplo _ a (z * g.nb) i l (λ i j.
          elt-tile mem g.pa g.nb g.nb g.lda z z i j
          ∙ ap (λ v. matrix v g.lda (z * g.nb + i) (z * g.nb + j)) ea)

      entry_b :
          (mem : Mem R) (l j : ℕ)
          → mem g.pb ≡ bbuf
          → elt mem (tile_handle g.pb g.nb g.nb g.ldb z y) g.ldb l j
            ≡ b (z * g.nb + l) (y * g.nb + j)
      entry_b mem l j eb =
          elt-tile mem g.pb g.nb g.nb g.ldb z y l j
          ∙ ap (λ v. matrix v g.ldb (z * g.nb + l) (y * g.nb + j)) eb

  pub right_adds :
      (uplo : ℤ)
      → IsUplo uplo
      → z ≡ y
      → ek ≡ en
      → em ≤ g.lda
      → en ≤ g.ldb
      → TileAdds kern g abuf bbuf x y em en
          (λ i j. sum ek (λ l. a i (z * g.nb + l) ⊗ sym_of uplo b (z * g.nb + l) j))
          zbeta
          (symm (right_symm g x y z em en zbeta uplo) ∷ [])
  unfolding exec product
  right_adds uplo t e e' la lb =
      update_adds (symm (right_symm g x y z em en zbeta uplo))
        (λ mem.
          product en (elt mem (right_symm g x y z em en zbeta uplo).b g.lda)
            (sym_of uplo (elt mem (right_symm g x y z em en zbeta uplo).a g.ldb)))
        _
        (record {
          out = λ mem. kern.zsymm (right_symm g x y z em en zbeta uplo) mem;
          exec_out = λ mem. refl;
          updates = λ mem.
              kern.zsymm_right_lem (right_symm g x y z em en zbeta uplo) mem refl t lb la
                (omega arith);
        })
        (λ mem i j hi hj ea eb.
          rw (e', sym e)
            (sum_congr en _ _
              (λ l hl. ap₂ (λ u v. u ⊗ v) (entry_b mem i l ea) (entry_a mem l j eb))))
    where
      entry_a :
          (mem : Mem R) (l j : ℕ)
          → mem g.pb ≡ bbuf
          → sym_of uplo (elt mem (tile_handle g.pb g.nb g.nb g.ldb z z) g.ldb) l j
            ≡ sym_of uplo b (z * g.nb + l) (z * g.nb + j)
      entry_a mem l j eb = sym_of-shift uplo _ b (z * g.nb) l j (λ i j.
          elt-tile mem g.pb g.nb g.nb g.ldb z z i j
          ∙ ap (λ v. matrix v g.ldb (z * g.nb + i) (z * g.nb + j)) eb)

      entry_b :
          (mem : Mem R) (i l : ℕ)
          → mem g.pa ≡ abuf
          → elt mem (tile_handle g.pa g.nb g.nb g.lda x z) g.lda i l
            ≡ a (x * g.nb + i) (z * g.nb + l)
      entry_b mem i l ea =
          elt-tile mem g.pa g.nb g.nb g.lda x z i l
          ∙ ap (λ v. matrix v g.lda (x * g.nb + i) (z * g.nb + l)) ea
