-- ===== src/Blas/Kernel/Tiles.antt =====
-- One task, seen from one element of the whole matrix C.
use xkblas.Base.{
  ℕ, ◌+◌, ◌*◌, ◌<◌, ◌≤◌, ◌≡◌, ◌≢◌, inl, inr, refl, sym, ap, arith, Bool, true, false, [], ◌∷◌, ◌==◌,
  if◌then◌else◌, ℤ, eq_int, dec_lt, mul_mono,
}
use xkblas.Blas.Descr.{Handle, tile_handle}
use xkblas.Blas.Kernel.Acts.{Acts}
use xkblas.Blas.Kernel.{
  Buffer, Mem, Kernels, run, exec, store, elt, op, IsTrans, in_triangle, Updates,
}
use xkblas.Blas.Task.{Task, no_trans}
use xkblas.Scalar.{Scalar, ◌⊕◌, ◌⊗◌, conj}

-- Column-major addresses of rows below the leading dimension determine row and column.
pub address_injective :
    (ld a c b d : ℕ) → a < ld → b < ld → a + c * ld ≡ b + d * ld → (a ≡ b) × (c ≡ d)
address_injective ld a c b d ha hb e = elim (dec_lt c d) [
  | yes p ↦ absurd (omega (arith, mul_mono (c + 1) d ld (omega arith)))
  | no p ↦ elim (dec_lt d c) [
    | yes q ↦ absurd (omega (arith, mul_mono (d + 1) c ld (omega arith)))
    | no q ↦ let f : c ≡ d = omega arith in (omega (arith, ap (λ (t : ℕ). t * ld) f), f)
  ]
]

pub in_triangle_shift :
    (uplo : ℤ) (r i j : ℕ) → in_triangle uplo (r + i) (r + j) ≡ in_triangle uplo i j
in_triangle_shift uplo r i j = ground arith

-- the matrix in a buffer
abbrev pub matrix {ℓ} : {R : Type ℓ} → Buffer R → ℕ → ℕ → ℕ → R
matrix buf ld i j = buf (i + j * ld)

-- Which tile the code takes for op(X) at tile row `x` and tile column `y`.
abbrev pub op_tile : ℤ → (ℕ → ℕ → Handle) → ℕ → ℕ → Handle
op_tile t h x y = if eq_int t no_trans then h x y else h y x

module _ {ℓ} {R : Type ℓ} ⦃s : Scalar R⦄ where
  pub elt-tile :
      (mem : Mem R) (p mb nb ld x y i j : ℕ)
      → elt mem (tile_handle p mb nb ld x y) ld i j ≡ matrix (mem p) ld (x * mb + i) (y * nb + j)
  elt-tile mem p mb nb ld x y i j = ap (mem p) (omega arith)

  -- It holds that part of op(X).
  pub op-op_tile :
      (t : ℤ) (mem : Mem R) (p b ld x y i j : ℕ)
      → IsTrans t
      → op t (elt mem (op_tile t (tile_handle p b b ld) x y) ld) i j
        ≡ op t (matrix (mem p) ld) (x * b + i) (y * b + j)
  op-op_tile t mem p b ld x y i j (inl e) = rw e (elt-tile mem p b b ld x y i j)
  op-op_tile t mem p b ld x y i j (inr (inl e)) = rw e (elt-tile mem p b b ld y x j i)
  op-op_tile t mem p b ld x y i j (inr (inr e)) = rw e (ap conj (elt-tile mem p b b ld y x j i))

  -- an update of the part of C that begins at row `r` and column `q`
  module _ {mem : Mem R} {c : Handle} {ld em en : ℕ} {shape : ℕ → ℕ → Bool} {alpha beta : R}
      {value : ℕ → ℕ → R} {out : Buffer R} (u : Updates mem c ld em en shape alpha value beta out)
      (r q : ℕ) (at : c.offset ≡ r + q * ld) where
    pub tile_hit :
        (i j : ℕ)
        → i < em
        → j < en
        → shape i j ≡ true
        → matrix out ld (r + i) (q + j)
          ≡ alpha ⊗ value i j ⊕ beta ⊗ matrix (mem c.base) ld (r + i) (q + j)
    tile_hit i j hi hj e =
        let a : r + i + (q + j) * ld ≡ c.offset + (i + j * ld) = omega arith in
        rw a (u.inside i j hi hj e)

    pub tile_miss :
        (i j : ℕ)
        → i < ld
        → r + em ≤ ld
        → ((i' j' : ℕ) → i' < em → j' < en → shape i' j' ≡ true → r + i' ≡ i → q + j' ≡ j → ⊥)
        → matrix out ld i j ≡ matrix (mem c.base) ld i j
    tile_miss i j hi fits apart = u.outside (i + j * ld) λ i' j' hi' hj' sh e.
        let (ei, ej) = address_injective ld i j (r + i') (q + j') hi (omega arith) (omega arith) in
        apart i' j' hi' hj' sh (sym ei) (sym ej)

    -- An address that no element of the matrix has stays as it is.
    pub tile_padding :
        (k rows cols : ℕ)
        → r + em ≤ rows
        → q + en ≤ cols
        → ((i j : ℕ) → i < rows → j < cols → k ≢ i + j * ld)
        → out k ≡ mem c.base k
    tile_padding k rows cols fr fc apart =
        u.outside k
          λ i' j' hi' hj' sh e. apart (r + i') (q + j') (omega arith) (omega arith) (omega arith)

module _ {ℓ} {R : Type ℓ} (mem : Mem R) (p : ℕ) (buf : Buffer R) where
  store_self : store mem p buf p ≡ buf
  store_self = let e : p == p ≡ true = ground arith in rw e refl

  store_other : (q : ℕ) → q ≢ p → store mem p buf q ≡ mem q
  store_other q n = let e : q == p ≡ false = ground arith in rw e refl

module _ {ℓ} {R : Type ℓ} ⦃s : Scalar R⦄ (kern : Kernels R) where
  pub Acts-single :
      {pa pb pc : ℕ} {a b : Buffer R} {x : ℕ} (t : Task R) (out : Mem R → Buffer R) (g : R → R)
      → ((mem : Mem R) → exec kern t mem ≡ store mem pc (out mem))
      → ((mem : Mem R) → mem pa ≡ a → mem pb ≡ b → out mem x ≡ g (mem pc x))
      → Acts kern pa pb pc a b x (t ∷ []) g
  unfolding run
  Acts-single {pc} {x} t out g e h = record {
    value = λ mem ea eb. rw (e mem) (rw (store_self mem pc (out mem)) (h mem ea eb));
    frame = λ mem p n. rw (e mem) (store_other mem pc (out mem) p n);
  }
