-- ===== src/Blas/Syrk/Loops.antt =====
-- The branches of the loops are one loop over the tiles of a triangle of C.
use xkblas.Base.{
  ℕ, suc, ◌-◌, ◌<◌, ◌≡◌, ap₂, arith, inl, inr, ℤ, List, [], ◌∷◌, ◌++◌, ◌==◌, if◌then◌else◌, emit,
  emit_congr, eq_int, Bool-cases, ap₃,
}
use xkblas.Blas.Descr.Handles.{get_handle-init_matrix_handle}
use xkblas.Blas.Descr.{MatrixDescr, Handle, tile_handle, init_matrix_handle, get_handle}
use xkblas.Blas.Gemm.Loops.{round}
use xkblas.Blas.Insert.{insert_task_zgemm, insert_task_zsyrk}
use xkblas.Blas.Kernel.GemmLoop.{Grid, k_loop}
use xkblas.Blas.Kernel.SyrkLoop.{diag_loop}
use xkblas.Blas.Kernel.Triangle.{triangle_tasks, triangle_round}
use xkblas.Blas.Kernel.{rows_of}
use xkblas.Blas.Syrk.{column_tasks, syrk_tasks}
use xkblas.Blas.Task.{access_mode, Task, syrk, no_trans, trans, lower}
use xkblas.Blas.Tiling.{num_of_tiles, tile_extent}
use xkblas.Scalar.{Scalar}

-- The flag by which the tiles below or above the diagonal take the second factor.
abbrev pub flip : ℤ → ℤ
flip t = if eq_int t no_trans then trans else no_trans

-- A product of one matrix with itself.
abbrev pub self_grid {ℓ} : {R : Type ℓ} (alpha beta : R) (pa lda pc ldc nb : ℕ) → Grid R
self_grid alpha beta pa lda pc ldc nb = record {
  alpha = alpha;
  beta = beta;
  pa = pa;
  lda = lda;
  pb = pa;
  ldb = lda;
  pc = pc;
  ldc = ldc;
  nb = nb;
}

module _ {ℓ} {R : Type ℓ} ⦃s : Scalar R⦄ (alpha beta : R) (pa lda pc ldc nb : ℕ) (uplo ta : ℤ)
    (n k : ℕ) where
  abbrev grid : Grid R
  grid = self_grid alpha beta pa lda pc ldc nb

  abbrev pub extent : ℕ → ℕ
  extent x = tile_extent x (num_of_tiles n nb) n nb

  abbrev pub diag : ℕ → List (Task R)
  diag y = diag_loop grid uplo ta k (extent y) y

  abbrev pub beyond : ℕ → ℕ → List (Task R)
  beyond y x =
      if eq_int uplo lower
      then k_loop grid ta (flip ta) k (extent x) (extent y) x y
      else k_loop grid ta (flip ta) k (extent y) (extent x) y x

  abbrev syrk_round : (en z : ℕ) (a c : Handle) → List (Task R)
  syrk_round en z a c =
      syrk (record {
        uplo = uplo;
        trans_a = ta;
        n = en;
        k = tile_extent z (num_of_tiles k nb) k nb;
        alpha = alpha;
        a = a;
        lda = lda;
        beta = if z == 0 then beta else s.one;
        c = c;
        ldc = ldc;
        mode = access_mode (if z == 0 then beta else s.one);
      })
      ∷ []

  module _ (h₀ h₂ : MatrixDescr) where
    abbrev pub a_descr : MatrixDescr
    a_descr = init_matrix_handle h₀ pa (rows_of ta n k) (rows_of ta k n) lda nb nb

    abbrev pub c_descr : MatrixDescr
    c_descr = init_matrix_handle h₂ pc n n ldc nb nb

    at_c :
        (x y : ℕ)
        → x < num_of_tiles n nb
        → y < num_of_tiles n nb
        → get_handle c_descr x y ≡ tile_handle pc nb nb ldc x y
    at_c x y hx hy = get_handle-init_matrix_handle h₂ pc n n ldc nb nb x y hx hy

    at_a :
        (r q u v : ℕ)
        → u < num_of_tiles r nb
        → v < num_of_tiles q nb
        → get_handle (init_matrix_handle h₀ pa r q lda nb nb) u v ≡ tile_handle pa nb nb lda u v
    at_a r q = get_handle-init_matrix_handle h₀ pa r q lda nb nb

    gemm_loop :
        (tb : ℤ) (em en x y : ℕ) {a a' b b' : ℕ → Handle}
        → x < num_of_tiles n nb
        → y < num_of_tiles n nb
        → ((z : ℕ) → z < num_of_tiles k nb → a z ≡ a' z)
        → ((z : ℕ) → z < num_of_tiles k nb → b z ≡ b' z)
        → emit 0
            (num_of_tiles k nb)
            (λ z. round grid ta tb k em en z (a z) (b z) (get_handle c_descr x y))
          ≡ emit 0
              (num_of_tiles k nb)
              (λ z. round grid ta tb k em en z (a' z) (b' z) (tile_handle pc nb nb ldc x y))
    gemm_loop tb em en x y hx hy p q = emit_congr 0 (num_of_tiles k nb) _ _ λ z u v.
        ap₃ (λ a b c. round grid ta tb k em en z a b c) (p z (omega arith)) (q z (omega arith))
          (at_c x y hx hy)

    syrk_loop :
        (y : ℕ) {a a' : ℕ → Handle}
        → y < num_of_tiles n nb
        → ((z : ℕ) → z < num_of_tiles k nb → a z ≡ a' z)
        → emit 0 (num_of_tiles k nb) (λ z. syrk_round (extent y) z (a z) (get_handle c_descr y y))
          ≡ emit 0
              (num_of_tiles k nb)
              (λ z. syrk_round (extent y) z (a' z) (tile_handle pc nb nb ldc y y))
    syrk_loop y hy p =
        emit_congr 0 (num_of_tiles k nb) _ _
          λ z u v. ap₂ (λ a c. syrk_round (extent y) z a c) (p z (omega arith)) (at_c y y hy hy)

    column_tasks-eq :
        (y : ℕ)
        → y < num_of_tiles n nb
        → column_tasks uplo ta alpha beta lda ldc a_descr c_descr y (extent y)
          ≡ triangle_round (num_of_tiles n nb) diag beyond y
    unfolding column_tasks init_matrix_handle insert_task_zgemm insert_task_zsyrk
    column_tasks-eq y hy = elim (Bool-cases (eq_int ta no_trans)) [
      | inl ea ↦ elim (Bool-cases (eq_int uplo lower)) [
        | inl eu ↦
            rw (ea, eu)
              (ap₂ ◌++◌ (syrk_loop y hy (λ z h. at_a n k y z hy h)) (
                rest λ x hx.
                  gemm_loop trans (extent x) (extent y) x y hx hy (λ z h. at_a n k x z hx h)
                    (λ z h. at_a n k y z hy h)))
        | inr eu ↦
            rw (ea, eu)
              (ap₂ ◌++◌ (syrk_loop y hy (λ z h. at_a n k y z hy h)) (
                rest λ x hx.
                  gemm_loop trans (extent y) (extent x) y x hy hx (λ z h. at_a n k y z hy h)
                    (λ z h. at_a n k x z hx h)))
      ]
      | inr ea ↦ elim (Bool-cases (eq_int uplo lower)) [
        | inl eu ↦
            rw (ea, eu)
              (ap₂ ◌++◌ (syrk_loop y hy (λ z h. at_a k n z y h hy)) (
                rest λ x hx.
                  gemm_loop no_trans (extent x) (extent y) x y hx hy (λ z h. at_a k n z x h hx)
                    (λ z h. at_a k n z y h hy)))
        | inr eu ↦
            rw (ea, eu)
              (ap₂ ◌++◌ (syrk_loop y hy (λ z h. at_a k n z y h hy)) (
                rest λ x hx.
                  gemm_loop no_trans (extent y) (extent x) y x hy hx (λ z h. at_a k n z y h hy)
                    (λ z h. at_a k n z x h hx)))
      ]
    ]
      where
        rest :
            {f f' : ℕ → List (Task R)}
            → ((x : ℕ) → x < num_of_tiles n nb → f x ≡ f' x)
            → emit (suc y) (num_of_tiles n nb - suc y) f
              ≡ emit (suc y) (num_of_tiles n nb - suc y) f'
        rest h = emit_congr (suc y) _ _ _ (λ x u v. h x (omega arith))

    pub syrk_tasks-eq :
        syrk_tasks uplo ta alpha beta lda ldc a_descr c_descr
        ≡ triangle_tasks (num_of_tiles n nb) diag beyond
    unfolding syrk_tasks init_matrix_handle
    syrk_tasks-eq = emit_congr 0 (num_of_tiles n nb) _ _ (λ y u v. column_tasks-eq y (omega arith))
