-- ===== src/Blas/Descr/Handles.antt =====
-- A tile's handle is found again in the row-major array.
use xkblas.Base.{
  ℕ, zero, suc, ◌+◌, ◌*◌, ◌<◌, ◌≡◌, refl, ap, ap₂, arith, List, [], ◌∷◌, ◌++◌, length, get_or, emit,
  ◌∙◌,
}
use xkblas.Blas.Tiling.{num_of_tiles}
use xkblas.Blas.Descr.{MatrixDescr, tile_handle, row_major, init_matrix_handle, get_handle}

module _ {ℓ} {X : Type ℓ} where
  get_or-append_right :
      (xs ys : List X) (i : ℕ) (d : X) → get_or (xs ++ ys) (length xs + i) d ≡ get_or ys i d
  get_or-append_right [] ys i d = let e : 0 + i ≡ i = omega arith in rw e refl
  get_or-append_right (x ∷ xs) ys i d =
      let e : suc (length xs) + i ≡ suc (length xs + i) = omega arith in
      rw e (get_or-append_right xs ys i d)

  get_or-append_left :
      (xs ys : List X) (i : ℕ) (d : X) → i < length xs → get_or (xs ++ ys) i d ≡ get_or xs i d
  get_or-append_left [] ys i d h = absurd (omega arith)
  get_or-append_left (x ∷ xs) ys zero d h = refl
  get_or-append_left (x ∷ xs) ys (suc i) d h = get_or-append_left xs ys i d (omega arith)

  length-row : (lo nt : ℕ) (f : ℕ → X) → length (emit lo nt (λ n. f n ∷ [])) ≡ nt
  unfolding emit
  length-row lo zero f = refl
  length-row lo (suc nt) f = ap suc (length-row (suc lo) nt f)

  get_or-row :
      (lo nt : ℕ) (f : ℕ → X) (i : ℕ) (d : X)
      → i < nt
      → get_or (emit lo nt (λ n. f n ∷ [])) i d ≡ f (lo + i)
  unfolding emit
  get_or-row lo zero f i d h = absurd (omega arith)
  get_or-row lo (suc nt) f zero d h = ap f (omega arith)
  get_or-row lo (suc nt) f (suc i) d h =
      get_or-row (suc lo) nt f i d (omega arith) ∙ ap f (omega arith)

  get_or-rows :
      (lo mt nt : ℕ) (f : ℕ → ℕ → X) (i j : ℕ) (d : X)
      → i < mt
      → j < nt
      → get_or (emit lo mt (λ m. emit 0 nt (λ n. f m n ∷ []))) (i * nt + j) d ≡ f (lo + i) j
  unfolding emit
  get_or-rows lo zero nt f i j d hi hj = absurd (omega arith)
  get_or-rows lo (suc mt) nt f zero j d hi hj =
      let row = emit 0 nt (λ n. f lo n ∷ []) in
      let e : 0 * nt + j ≡ j = omega arith in
      rw e (
        get_or-append_left row _ j d (omega (arith, length-row 0 nt (f lo)))
        ∙ get_or-row 0 nt (f lo) j d hj
        ∙ ap₂ f (omega arith) (omega arith))
  get_or-rows lo (suc mt) nt f (suc i) j d hi hj =
      let row = emit 0 nt (λ n. f lo n ∷ []) in
      let e : suc i * nt + j ≡ length row + (i * nt + j) = omega (arith, length-row 0 nt (f lo)) in
      rw e (
        get_or-append_right row _ (i * nt + j) d
        ∙ get_or-rows (suc lo) mt nt f i j d (omega arith) hj
        ∙ ap (λ k. f k j) (omega arith))

  pub get_or-row_major :
      (mt nt : ℕ) (f : ℕ → ℕ → X) (i j : ℕ) (d : X)
      → i < mt
      → j < nt
      → get_or (row_major mt nt f) (i * nt + j) d ≡ f i j
  unfolding row_major
  get_or-row_major mt nt f i j d hi hj =
      get_or-rows 0 mt nt f i j d hi hj ∙ ap (λ k. f k j) (omega arith)

module _ (h : MatrixDescr) (a m n ld mb nb : ℕ) where
  pub get_handle-init_matrix_handle :
      (x y : ℕ)
      → x < num_of_tiles m mb
      → y < num_of_tiles n nb
      → get_handle (init_matrix_handle h a m n ld mb nb) x y ≡ tile_handle a mb nb ld x y
  unfolding get_handle init_matrix_handle
  get_handle-init_matrix_handle x y hx hy = get_or-row_major _ _ _ x y _ hx hy
