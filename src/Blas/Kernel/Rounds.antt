-- ===== src/Blas/Kernel/Rounds.antt =====
-- Loops whose outermost index is the inner dimension: each round adds one step's term to each tile.
use xkblas.Base.{
  ℕ, ◌+◌, ◌-◌, ◌*◌, ◌/◌, ◌<◌, ◌≤◌, ◌≡◌, ◌≢◌, ◌⊎◌, inl, inr, sym, arith, List, ◌==◌, if◌then◌else◌,
  emit,
}
use xkblas.Blas.Kernel.Acts.{Acts, emit_skip, emit-sum}
use xkblas.Blas.Kernel.Cover.{cover_once, cover_skip}
use xkblas.Blas.Kernel.GemmLoop.{Grid}
use xkblas.Blas.Kernel.{Buffer, Kernels}
use xkblas.Blas.Task.{Task}
use xkblas.Blas.Tiling.{
  num_of_tiles, tile_extent, IsTiled, tile_inside, home_tile, home_tile-lt, tile_other,
}
use xkblas.Scalar.Sum.{sum}
use xkblas.Scalar.{Scalar, ◌⊕◌, ◌⊗◌}

-- What one list of tasks does to C: it updates tile (x, y) by `alpha * term + zbeta * C`.
pub record TileAdds {ℓ} {R : Type ℓ} ⦃s : Scalar R⦄ (kern : Kernels R) (g : Grid R)
    (abuf bbuf : Buffer R) (x y em en : ℕ) (term : ℕ → ℕ → R) (zbeta : R) (ts : List (Task R))
    : Type ℓ where
  pub hit :
      (i j : ℕ)
      → i < em
      → j < en
      → Acts kern g.pa g.pb g.pc abuf bbuf
          (x * g.nb + i + (y * g.nb + j) * g.ldc)
          ts
          (λ c. g.alpha ⊗ term (x * g.nb + i) (y * g.nb + j) ⊕ zbeta ⊗ c)
  pub miss :
      (i j : ℕ)
      → i < g.ldc
      → ((i' j' : ℕ) → i' < em → j' < en → x * g.nb + i' ≡ i → y * g.nb + j' ≡ j → ⊥)
      → Acts kern g.pa g.pb g.pc abuf bbuf (i + j * g.ldc) ts (λ c. c)
  pub pad :
      (p rows cols : ℕ)
      → x * g.nb + em ≤ rows
      → y * g.nb + en ≤ cols
      → ((i j : ℕ) → i < rows → j < cols → p ≢ i + j * g.ldc)
      → Acts kern g.pa g.pb g.pc abuf bbuf p ts (λ c. c)

module _ {ℓ} {R : Type ℓ} ⦃s : Scalar R⦄ (kern : Kernels R) {g : Grid R} {abuf bbuf : Buffer R}
    (na : g.pa ≢ g.pc) (nc : g.pb ≢ g.pc) {m n kt : ℕ} (tm : IsTiled m g.nb) (tn : IsTiled n g.nb)
    (rows_c : m ≤ g.ldc) {term : ℕ → ℕ → ℕ → R} {cell : ℕ → ℕ → ℕ → List (Task R)}
    (adds : (z x y : ℕ)
      → z < kt
      → x < num_of_tiles m g.nb
      → y < num_of_tiles n g.nb
      → TileAdds kern g abuf bbuf x y
          (tile_extent x (num_of_tiles m g.nb) m g.nb)
          (tile_extent y (num_of_tiles n g.nb) n g.nb)
          (term z)
          (if z == 0 then g.beta else s.one)
          (cell z x y)) where
  home :
      (z i j : ℕ)
      → z < kt
      → i < m
      → j < n
      → Acts kern g.pa g.pb g.pc abuf bbuf
          (i + j * g.ldc)
          (cell z (i / g.nb) (j / g.nb))
          (λ c. g.alpha ⊗ term z i j ⊕ (if z == 0 then g.beta else s.one) ⊗ c)
  home z i j hz hi hj =
      let (ri, ei) = home_tile tm i hi in
      let (rj, ej) = home_tile tn j hj in
      let x = i / g.nb in
      let y = j / g.nb in
      let h =
        (adds z x y hz (home_tile-lt tm i hi) (home_tile-lt tn j hj)).hit (i - x * g.nb)
          (j - y * g.nb) ei ej in
      let p : x * g.nb + (i - x * g.nb) ≡ i = omega arith in
      let q : y * g.nb + (j - y * g.nb) ≡ j = omega arith in rw (p, q) at h

  away :
      (z x y i j : ℕ)
      → z < kt
      → x < num_of_tiles m g.nb
      → y < num_of_tiles n g.nb
      → i < m
      → j < n
      → (x ≢ i / g.nb) ⊎ (y ≢ j / g.nb)
      → Acts kern g.pa g.pb g.pc abuf bbuf (i + j * g.ldc) (cell z x y) (λ c. c)
  away z x y i j hz hx hy hi hj (inl ne) =
      (adds z x y hz hx hy).miss i j (omega arith)
        (λ i' j' p q e f. tile_other tm x hx i' i hi (λ w. ne (sym w)) p e)
  away z x y i j hz hx hy hi hj (inr ne) =
      (adds z x y hz hx hy).miss i j (omega arith)
        (λ i' j' p q e f. tile_other tn y hy j' j hj (λ w. ne (sym w)) q f)

  module _ (i j : ℕ) (hi : i < m) (hj : j < n) (some_round : 0 < kt) where
    -- rows of tiles outside, columns inside
    pub rows_hit :
        Acts kern g.pa g.pb g.pc abuf bbuf
          (i + j * g.ldc)
          (emit 0 kt (λ z.
            emit 0 (num_of_tiles m g.nb) (λ x. emit 0 (num_of_tiles n g.nb) (λ y. cell z x y))))
          (λ c. g.alpha ⊗ sum kt (λ z. term z i j) ⊕ g.beta ⊗ c)
    rows_hit = emit-sum kern na nc g.alpha g.beta kt _ _ some_round λ z hz.
        cover_once kern na nc _ _ (i / g.nb) (j / g.nb) _ _ (home_tile-lt tm i hi)
          (home_tile-lt tn j hj) (home z i j hz hi hj)
          (λ x y hx hy ne. away z x y i j hz hx hy hi hj ne)

    -- and the other way round
    pub cols_hit :
        Acts kern g.pa g.pb g.pc abuf bbuf
          (i + j * g.ldc)
          (emit 0 kt (λ z.
            emit 0 (num_of_tiles n g.nb) (λ y. emit 0 (num_of_tiles m g.nb) (λ x. cell z x y))))
          (λ c. g.alpha ⊗ sum kt (λ z. term z i j) ⊕ g.beta ⊗ c)
    cols_hit = emit-sum kern na nc g.alpha g.beta kt _ _ some_round λ z hz.
        cover_once kern na nc _ _ (j / g.nb) (i / g.nb) _ _ (home_tile-lt tn j hj)
          (home_tile-lt tm i hi) (home z i j hz hi hj)
          (λ y x hy hx ne. away z x y i j hz hx hy hi hj (swap ne))
      where
        swap : {a b : Type 0} → a ⊎ b → b ⊎ a
        swap (inl h) = inr h
        swap (inr h) = inl h

  module _ (p : ℕ) (apart : (i j : ℕ) → i < m → j < n → p ≢ i + j * g.ldc) where
    padding_cell :
        (z x y : ℕ)
        → z < kt
        → x < num_of_tiles m g.nb
        → y < num_of_tiles n g.nb
        → Acts kern g.pa g.pb g.pc abuf bbuf p (cell z x y) (λ c. c)
    padding_cell z x y hz hx hy =
        (adds z x y hz hx hy).pad p m n (tile_inside tm x hx) (tile_inside tn y hy) apart

    pub rows_padding :
        Acts kern g.pa g.pb g.pc abuf bbuf p
          (emit 0 kt (λ z.
            emit 0 (num_of_tiles m g.nb) (λ x. emit 0 (num_of_tiles n g.nb) (λ y. cell z x y))))
          (λ c. c)
    rows_padding =
        emit_skip kern na nc 0 kt _
          λ z _ hz. cover_skip kern na nc _ _ _ λ x y hx hy. padding_cell z x y (omega arith) hx hy

    pub cols_padding :
        Acts kern g.pa g.pb g.pc abuf bbuf p
          (emit 0 kt (λ z.
            emit 0 (num_of_tiles n g.nb) (λ y. emit 0 (num_of_tiles m g.nb) (λ x. cell z x y))))
          (λ c. c)
    cols_padding =
        emit_skip kern na nc 0 kt _
          λ z _ hz. cover_skip kern na nc _ _ _ λ y x hy hx. padding_cell z x y (omega arith) hx hy
