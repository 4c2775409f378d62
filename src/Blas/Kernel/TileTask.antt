-- ===== src/Blas/Kernel/TileTask.antt =====
-- Tasks that update part of one tile of C, and loops of them over the inner dimension, as
-- accumulations into one element of C.
use xkblas.Base.{
  ℕ, ◌+◌, ◌*◌, ◌<◌, ◌≤◌, ◌≡◌, ◌≢◌, ap, ◌∙◌, arith, Bool, true, [], ◌∷◌, ◌==◌, if◌then◌else◌, emit,
}
use xkblas.Blas.Descr.{Handle}
use xkblas.Blas.Kernel.Acts.{Acts, emit_skip, emit-sum}
use xkblas.Blas.Kernel.Tiles.{matrix, tile_hit, tile_miss, tile_padding, Acts-single}
use xkblas.Blas.Kernel.{Buffer, Mem, Kernels, exec, store, Updates}
use xkblas.Blas.Task.{Task}
use xkblas.Scalar.Sum.{sum}
use xkblas.Scalar.{Scalar, ◌⊕◌, ◌⊗◌}

-- A part of C: the handle at which it begins, at which row and column that is, and its size.
pub record Part : Type 0 where
  pub handle : Handle
  pub ld : ℕ
  pub row : ℕ
  pub col : ℕ
  pub height : ℕ
  pub width : ℕ
  pub at : handle.offset ≡ row + col * ld
  pub fits : row + height ≤ ld

-- The element (i, j) of C lies in the part, at a place that `shape` selects.
abbrev pub Holds : Part → (ℕ → ℕ → Bool) → ℕ → ℕ → Type 0
Holds p shape i j =
    (i' : ℕ) × (j' : ℕ) × (i' < p.height)
    × (j' < p.width)
    × (shape i' j' ≡ true)
    × (p.row + i' ≡ i)
    × (p.col + j' ≡ j)

module _ {ℓ} {R : Type ℓ} ⦃s : Scalar R⦄ (kern : Kernels R) where
  -- a task that updates the selected elements of a part of C by `alpha * value + beta * C`
  pub record IsUpdate (p : Part) (shape : ℕ → ℕ → Bool) (alpha : R) (value : Mem R → ℕ → ℕ → R)
      (beta : R) (t : Task R) : Type ℓ where
    pub out : Mem R → Buffer R
    pub exec_out : (mem : Mem R) → exec kern t mem ≡ store mem p.handle.base (out mem)
    pub updates :
        (mem : Mem R)
        → Updates mem p.handle p.ld p.height p.width shape alpha (value mem) beta (out mem)

  module _ {pa pb : ℕ} {abuf bbuf : Buffer R} {p : Part} {shape : ℕ → ℕ → Bool} {alpha : R}
      {value : Mem R → ℕ → ℕ → R} {beta : R} {t : Task R}
      (u : IsUpdate p shape alpha value beta t) where
    pub update_hit :
        (i j : ℕ) (v : R)
        → i < p.height
        → j < p.width
        → shape i j ≡ true
        → ((mem : Mem R) → mem pa ≡ abuf → mem pb ≡ bbuf → value mem i j ≡ v)
        → Acts kern pa pb p.handle.base abuf bbuf
            (p.row + i + (p.col + j) * p.ld)
            (t ∷ [])
            (λ c. alpha ⊗ v ⊕ beta ⊗ c)
    update_hit i j v hi hj sh reads = Acts-single kern t u.out _ u.exec_out λ mem ea eb.
        tile_hit (u.updates mem) p.row p.col p.at i j hi hj sh
        ∙ ap (λ w. alpha ⊗ w ⊕ beta ⊗ matrix (mem p.handle.base) p.ld (p.row + i) (p.col + j))
            (reads mem ea eb)

    pub update_miss :
        (i j : ℕ)
        → i < p.ld
        → ¬ Holds p shape i j
        → Acts kern pa pb p.handle.base abuf bbuf (i + j * p.ld) (t ∷ []) (λ c. c)
    update_miss i j hi away = Acts-single kern t u.out _ u.exec_out λ mem ea eb.
        tile_miss (u.updates mem) p.row p.col p.at i j hi p.fits
          (λ i' j' hi' hj' sh e f. away (i', j', hi', hj', sh, e, f))

    pub update_padding :
        (k rows cols : ℕ)
        → p.row + p.height ≤ rows
        → p.col + p.width ≤ cols
        → ((i j : ℕ) → i < rows → j < cols → k ≢ i + j * p.ld)
        → Acts kern pa pb p.handle.base abuf bbuf k (t ∷ []) (λ c. c)
    update_padding k rows cols fr fc apart =
        Acts-single kern t u.out _ u.exec_out
          λ mem ea eb. tile_padding (u.updates mem) p.row p.col p.at k rows cols fr fc apart

  -- a loop in which each round adds a product to one part, and the first also scales by `beta`
  module _ {pa pb : ℕ} {abuf bbuf : Buffer R} {p : Part} (na : pa ≢ p.handle.base)
      (nb : pb ≢ p.handle.base) {shape : ℕ → ℕ → Bool} (alpha beta : R) (rounds : ℕ)
      {value : ℕ → Mem R → ℕ → ℕ → R} {t : ℕ → Task R}
      (u : (z : ℕ)
        → z < rounds
        → IsUpdate p shape alpha (value z) (if z == 0 then beta else s.one) (t z)) where
    pub loop_hit :
        (i j : ℕ) (v : ℕ → R)
        → i < p.height
        → j < p.width
        → shape i j ≡ true
        → 0 < rounds
        → ((z : ℕ) (mem : Mem R) → mem pa ≡ abuf → mem pb ≡ bbuf → value z mem i j ≡ v z)
        → Acts kern pa pb p.handle.base abuf bbuf
            (p.row + i + (p.col + j) * p.ld)
            (emit 0 rounds (λ z. t z ∷ []))
            (λ c. alpha ⊗ sum rounds v ⊕ beta ⊗ c)
    loop_hit i j v hi hj sh some_round reads =
        emit-sum kern na nb alpha beta rounds _ v some_round
          (λ z h. update_hit (u z h) i j (v z) hi hj sh (reads z))

    pub loop_miss :
        (i j : ℕ)
        → i < p.ld
        → ¬ Holds p shape i j
        → Acts kern pa pb p.handle.base abuf bbuf
            (i + j * p.ld)
            (emit 0 rounds (λ z. t z ∷ []))
            (λ c. c)
    loop_miss i j hi away =
        emit_skip kern na nb 0 rounds _ (λ z l h. update_miss (u z (omega arith)) i j hi away)

    pub loop_padding :
        (k rows cols : ℕ)
        → p.row + p.height ≤ rows
        → p.col + p.width ≤ cols
        → ((i j : ℕ) → i < rows → j < cols → k ≢ i + j * p.ld)
        → Acts kern pa pb p.handle.base abuf bbuf k (emit 0 rounds (λ z. t z ∷ [])) (λ c. c)
    loop_padding k rows cols fr fc apart =
        emit_skip kern na nb 0 rounds _
          (λ z l h. update_padding (u z (omega arith)) k rows cols fr fc apart)
