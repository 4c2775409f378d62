-- ===== src/Blas/Gemmt/Loops.antt =====
-- The branches of the loop over `k` are two loops, one for a diagonal tile and one for any other.
use xkblas.Base.{
  ℕ, ◌<◌, ◌≡◌, refl, ap, ◌∙◌, ap₃, arith, inl, inr, Bool, not, true, false, ◌&&◌, ℤ, pos, List, [],
  ◌∷◌, ◌==◌, if◌then◌else◌, emit, emit_congr, eq_int, Bool-cases,
}
use xkblas.Blas.Descr.Handles.{get_handle-init_matrix_handle}
use xkblas.Blas.Descr.{MatrixDescr, Handle, tile_handle, init_matrix_handle, get_handle}
use xkblas.Blas.Gemm.Loops.{round, a_descr, b_descr, c_descr}
use xkblas.Blas.Gemmt.{tile_tasks}
use xkblas.Blas.Insert.{insert_task_zgemm, insert_task_zgemmt}
use xkblas.Blas.Kernel.GemmLoop.{Grid, k_loop}
use xkblas.Blas.Kernel.GemmtLoop.{gemmt_loop}
use xkblas.Blas.Kernel.{rows_of}
use xkblas.Blas.Task.{Task, gemmt, no_trans}
use xkblas.Blas.Tiling.{num_of_tiles, tile_extent}
use xkblas.Scalar.{Scalar}

abbrev pub is_diagonal : ℤ → ℕ → ℕ → Bool
is_diagonal uplo x y = (x == y) && not (eq_int uplo (pos 0))

pub is_diagonal-eq : (uplo : ℤ) (x y : ℕ) → is_diagonal uplo x y ≡ true → x ≡ y
is_diagonal-eq uplo x y h = ground arith

module _ {ℓ} {R : Type ℓ} ⦃s : Scalar R⦄ (g : Grid R) (uplo ta tb : ℤ) (n k : ℕ) where
  abbrev pub extent : ℕ → ℕ
  extent x = tile_extent x (num_of_tiles n g.nb) n g.nb

  abbrev pub cell : ℕ → ℕ → List (Task R)
  cell x y =
      if is_diagonal uplo x y
      then gemmt_loop g uplo ta tb k (extent y) y
      else k_loop g ta tb k (extent x) (extent y) x y

  abbrev gemmt_round : (en z : ℕ) (a b c : Handle) → List (Task R)
  gemmt_round en z a b c =
      gemmt (record {
        uplo = uplo;
        trans_a = ta;
        trans_b = tb;
        n = en;
        k = tile_extent z (num_of_tiles k g.nb) k g.nb;
        alpha = g.alpha;
        a = a;
        lda = g.lda;
        b = b;
        ldb = g.ldb;
        beta = if z == 0 then g.beta else s.one;
        c = c;
        ldc = g.ldc;
      })
      ∷ []

  module _ (h₀ h₁ h₂ : MatrixDescr) (x y : ℕ) (hx : x < num_of_tiles n g.nb)
      (hy : y < num_of_tiles n g.nb) where
    abbrev pub cell_tasks : List (Task R)
    cell_tasks =
        tile_tasks uplo ta tb (rows_of ta n k) (rows_of ta k n) g.alpha g.beta g.lda g.ldb g.ldc
          (a_descr g ta tb h₀ h₁ h₂ n n k) (b_descr g ta tb h₀ h₁ h₂ n n k)
          (c_descr g ta tb h₀ h₁ h₂ n n k) x y (extent x) (extent y)

    at_a :
        (r q u v : ℕ)
        → u < num_of_tiles r g.nb
        → v < num_of_tiles q g.nb
        → get_handle (init_matrix_handle h₀ g.pa r q g.lda g.nb g.nb) u v
          ≡ tile_handle g.pa g.nb g.nb g.lda u v
    at_a r q = get_handle-init_matrix_handle h₀ g.pa r q g.lda g.nb g.nb

    at_b :
        (r q u v : ℕ)
        → u < num_of_tiles r g.nb
        → v < num_of_tiles q g.nb
        → get_handle (init_matrix_handle h₁ g.pb r q g.ldb g.nb g.nb) u v
          ≡ tile_handle g.pb g.nb g.nb g.ldb u v
    at_b r q = get_handle-init_matrix_handle h₁ g.pb r q g.ldb g.nb g.nb

    -- a loop whose rounds find the tiles through the descriptors
    resolved :
        (make : (z : ℕ) (a b c : Handle) → List (Task R)) {c' : Handle} {a a' b b' : ℕ → Handle}
        → ((z : ℕ) → z < num_of_tiles k g.nb → a z ≡ a' z)
        → ((z : ℕ) → z < num_of_tiles k g.nb → b z ≡ b' z)
        → tile_handle g.pc g.nb g.nb g.ldc x y ≡ c'
        → emit 0
            (num_of_tiles k g.nb)
            (λ z. make z (a z) (b z) (get_handle (c_descr g ta tb h₀ h₁ h₂ n n k) x y))
          ≡ emit 0 (num_of_tiles k g.nb) (λ z. make z (a' z) (b' z) c')
    resolved make p q r = emit_congr 0 (num_of_tiles k g.nb) _ _ λ z u v.
        ap₃ (make z) (p z (omega arith)) (q z (omega arith))
          (get_handle-init_matrix_handle h₂ g.pc n n g.ldc g.nb g.nb x y hx hy ∙ r)

    diagonal-eq : is_diagonal uplo x y ≡ true → cell_tasks ≡ gemmt_loop g uplo ta tb k (extent y) y
    unfolding tile_tasks init_matrix_handle insert_task_zgemm insert_task_zgemmt
    diagonal-eq d =
        let e = is_diagonal-eq uplo x y d in
        let c = ap (λ t. tile_handle g.pc g.nb g.nb g.ldc t y) e in
        let row = λ (z : ℕ). ap (λ t. tile_handle g.pa g.nb g.nb g.lda t z) e in
        let col = λ (z : ℕ). ap (λ t. tile_handle g.pa g.nb g.nb g.lda z t) e in
        let make = λ (z : ℕ). gemmt_round (extent y) z in
        elim (Bool-cases (eq_int ta no_trans)) [
          | inl ea ↦ elim (Bool-cases (eq_int tb no_trans)) [
            | inl eb ↦
                rw (ea, eb, d)
                  (resolved make (λ z h. at_a n k x z hx h ∙ row z) (λ z h. at_b k n z y h hy) c)
            | inr eb ↦
                rw (ea, eb, d)
                  (resolved make (λ z h. at_a n k x z hx h ∙ row z) (λ z h. at_b n k y z hy h) c)
          ]
          | inr ea ↦ elim (Bool-cases (eq_int tb no_trans)) [
            | inl eb ↦
                rw (ea, eb, d)
                  (resolved make (λ z h. at_a k n z x h hx ∙ col z) (λ z h. at_b k n z y h hy) c)
            | inr eb ↦
                rw (ea, eb, d)
                  (resolved make (λ z h. at_a k n z x h hx ∙ col z) (λ z h. at_b n k y z hy h) c)
          ]
        ]

    other-eq :
        is_diagonal uplo x y ≡ false → cell_tasks ≡ k_loop g ta tb k (extent x) (extent y) x y
    unfolding tile_tasks init_matrix_handle insert_task_zgemm insert_task_zgemmt
    other-eq d =
        let make = λ (z : ℕ). round g ta tb k (extent x) (extent y) z in
        elim (Bool-cases (eq_int ta no_trans)) [
          | inl ea ↦ elim (Bool-cases (eq_int tb no_trans)) [
            | inl eb ↦
                rw (ea, eb, d)
                  (resolved make (λ z h. at_a n k x z hx h) (λ z h. at_b k n z y h hy) refl)
            | inr eb ↦
                rw (ea, eb, d)
                  (resolved make (λ z h. at_a n k x z hx h) (λ z h. at_b n k y z hy h) refl)
          ]
          | inr ea ↦ elim (Bool-cases (eq_int tb no_trans)) [
            | inl eb ↦
                rw (ea, eb, d)
                  (resolved make (λ z h. at_a k n z x h hx) (λ z h. at_b k n z y h hy) refl)
            | inr eb ↦
                rw (ea, eb, d)
                  (resolved make (λ z h. at_a k n z x h hx) (λ z h. at_b n k y z hy h) refl)
          ]
        ]

    pub cell_tasks-eq : cell_tasks ≡ cell x y
    cell_tasks-eq = elim (Bool-cases (is_diagonal uplo x y)) [
      | inl d ↦ rw d (diagonal-eq d)
      | inr d ↦ rw d (other-eq d)
    ]
