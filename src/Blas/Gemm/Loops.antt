-- ===== src/Blas/Gemm/Loops.antt =====
-- The four branches of the loop over `k` are one loop over tiles of op(A) and op(B).
use xkblas.Base.{
  ℕ, ◌<◌, ◌≡◌, ap₃, arith, inl, inr, ℤ, List, [], ◌∷◌, ◌==◌, if◌then◌else◌, emit, emit_congr,
  eq_int, Bool-cases,
}
use xkblas.Blas.Descr.Handles.{get_handle-init_matrix_handle}
use xkblas.Blas.Descr.{MatrixDescr, Handle, tile_handle, init_matrix_handle, get_handle}
use xkblas.Blas.Gemm.{inner_tasks}
use xkblas.Blas.Kernel.GemmLoop.{Grid, k_loop}
use xkblas.Blas.Kernel.{rows_of}
use xkblas.Blas.Task.{access_mode, Task, gemm, no_trans}
use xkblas.Blas.Tiling.{num_of_tiles, tile_extent}
use xkblas.Scalar.{Scalar}

-- One round of the loop, over the handles that it resolves.
abbrev pub round {ℓ} :
    {R : Type ℓ} ⦃s : Scalar R⦄
    → Grid R
    → (ta tb : ℤ) (k em en z : ℕ) (a b c : Handle) → List (Task R)
round ⦃s⦄ g ta tb k em en z a b c =
    gemm (record {
      trans_a = ta;
      trans_b = tb;
      m = em;
      n = en;
      k = tile_extent z (num_of_tiles k g.nb) k g.nb;
      alpha = g.alpha;
      a = a;
      lda = g.lda;
      b = b;
      ldb = g.ldb;
      beta = if z == 0 then g.beta else s.one;
      c = c;
      ldc = g.ldc;
      mode = access_mode (if z == 0 then g.beta else s.one);
    })
    ∷ []

module _ {ℓ} {R : Type ℓ} ⦃s : Scalar R⦄ (g : Grid R) (ta tb : ℤ) (h₀ h₁ h₂ : MatrixDescr)
    (m n k : ℕ) where
  abbrev pub a_descr : MatrixDescr
  a_descr = init_matrix_handle h₀ g.pa (rows_of ta m k) (rows_of ta k m) g.lda g.nb g.nb

  abbrev pub b_descr : MatrixDescr
  b_descr = init_matrix_handle h₁ g.pb (rows_of tb k n) (rows_of tb n k) g.ldb g.nb g.nb

  abbrev pub c_descr : MatrixDescr
  c_descr = init_matrix_handle h₂ g.pc m n g.ldc g.nb g.nb

  pub inner_tasks-eq :
      (x y em en : ℕ)
      → x < num_of_tiles m g.nb
      → y < num_of_tiles n g.nb
      → inner_tasks ta tb
          (rows_of ta m k)
          (rows_of ta k m)
          g.alpha
          g.beta
          g.lda
          g.ldb
          g.ldc
          a_descr
          b_descr
          c_descr
          x
          y
          em
          en
        ≡ k_loop g ta tb k em en x y
  unfolding inner_tasks init_matrix_handle
  inner_tasks-eq x y em en hx hy = elim (Bool-cases (eq_int ta no_trans)) [
    | inl ea ↦ elim (Bool-cases (eq_int tb no_trans)) [
      | inl eb ↦ rw (ea, eb) (loop (λ z h. at_a m k x z hx h) (λ z h. at_b k n z y h hy))
      | inr eb ↦ rw (ea, eb) (loop (λ z h. at_a m k x z hx h) (λ z h. at_b n k y z hy h))
    ]
    | inr ea ↦ elim (Bool-cases (eq_int tb no_trans)) [
      | inl eb ↦ rw (ea, eb) (loop (λ z h. at_a k m z x h hx) (λ z h. at_b k n z y h hy))
      | inr eb ↦ rw (ea, eb) (loop (λ z h. at_a k m z x h hx) (λ z h. at_b n k y z hy h))
    ]
  ]
    where
      at_a :
          (r q u v : ℕ)
          → u < num_of_tiles r g.nb
          → v < num_of_tiles q g.nb
          → get_handle (init_matrix_handle h₀ g.pa r q g.lda g.nb g.nb) u v
            ≡ tile_handle g.pa g.nb g.nb g.lda u v
      at_a r q = get_handle-init_matrix_handle h₀ g.pa r q g.lda g.nb g.nb

      at_b :
          (r q u v : ℕ)
          → u < num_of_tiles r g.nb
          → v < num_of_tiles q g.nb
          → get_handle (init_matrix_handle h₁ g.pb r q g.ldb g.nb g.nb) u v
            ≡ tile_handle g.pb g.nb g.nb g.ldb u v
      at_b r q = get_handle-init_matrix_handle h₁ g.pb r q g.ldb g.nb g.nb

      loop :
          {a a' b b' : ℕ → Handle}
          → ((z : ℕ) → z < num_of_tiles k g.nb → a z ≡ a' z)
          → ((z : ℕ) → z < num_of_tiles k g.nb → b z ≡ b' z)
          → emit 0
              (num_of_tiles k g.nb)
              (λ z. round g ta tb k em en z (a z) (b z) (get_handle c_descr x y))
            ≡ emit 0
                (num_of_tiles k g.nb)
                (λ z. round g ta tb k em en z (a' z) (b' z) (tile_handle g.pc g.nb g.nb g.ldc x y))
      loop p q = emit_congr 0 (num_of_tiles k g.nb) _ _ λ z u v.
          ap₃ (λ a b c. round g ta tb k em en z a b c) (p z (omega arith)) (q z (omega arith))
            (get_handle-init_matrix_handle h₂ g.pc m n g.ldc g.nb g.nb x y hx hy)
