-- ===== src/Blas/Context/Three.antt =====
-- The lookups of a call with three matrices at different pointers.
use xkblas.Base.{ℕ, ◌≡◌, ◌≢◌, sym, subst, ◌∙◌}
use xkblas.Blas.Context.{Context, find_init, Describes, IsReady, find_init-Describes, find_init-ne}

-- the pointer of a matrix, its dimensions and its leading dimension
pub record Operand : Type 0 where
  pub ptr : ℕ
  pub rows : ℕ
  pub cols : ℕ
  pub ld : ℕ

abbrev pub lookup : ℕ → Operand → Context → Context
lookup nb a ctx = find_init ctx a.ptr a.rows a.cols a.ld nb

abbrev pub lookup_three : ℕ → (a b c : Operand) → Context → Context
lookup_three nb a b c ctx = lookup nb c (lookup nb b (lookup nb a ctx))

abbrev pub IsKnown : ℕ → Operand → Context → Type 0
IsKnown nb a ctx = IsReady (ctx a.ptr) a.ptr a.rows a.cols a.ld nb

abbrev pub Found : ℕ → Operand → Context → Type 0
Found nb a ctx = Describes (ctx a.ptr) a.ptr a.rows a.cols a.ld nb

pub lookup-Found :
    (nb : ℕ) (a : Operand) (ctx : Context) → IsKnown nb a ctx → Found nb a (lookup nb a ctx)
lookup-Found nb a ctx h = find_init-Describes ctx a.ptr a.rows a.cols a.ld nb h

pub lookup-ne :
    (nb : ℕ) (a : Operand) (ctx : Context) (q : ℕ) → q ≢ a.ptr → lookup nb a ctx q ≡ ctx q
lookup-ne nb a ctx q ne = find_init-ne ctx a.ptr a.rows a.cols a.ld nb q ne

pub record Apart (nb : ℕ) (a b c : Operand) (ctx : Context) : Type 0 where
  pub a_b : a.ptr ≢ b.ptr
  pub a_c : a.ptr ≢ c.ptr
  pub b_c : b.ptr ≢ c.ptr
  pub known_a : IsKnown nb a ctx
  pub known_b : IsKnown nb b ctx
  pub known_c : IsKnown nb c ctx

module _ {nb : ℕ} {a b c : Operand} {ctx : Context} (p : Apart nb a b c ctx) where
  pub lookup_three-Found :
      let after = lookup_three nb a b c ctx in
      Found nb a after × Found nb b after × Found nb c after
  lookup_three-Found =
      let ctx₁ = lookup nb a ctx in
      let ctx₂ = lookup nb b ctx₁ in
      let b₁ = lookup-ne nb a ctx b.ptr (λ e. p.a_b (sym e)) in
      let c₂ =
        lookup-ne nb b ctx₁ c.ptr (λ e. p.b_c (sym e))
        ∙ lookup-ne nb a ctx c.ptr (λ e. p.a_c (sym e)) in
      let a₂ = lookup-ne nb c ctx₂ a.ptr p.a_c ∙ lookup-ne nb b ctx₁ a.ptr p.a_b in
      (
        subst (λ h. Describes h a.ptr a.rows a.cols a.ld nb) (sym a₂)
            (lookup-Found nb a ctx p.known_a),
        subst (λ h. Describes h b.ptr b.rows b.cols b.ld nb) (sym (lookup-ne nb c ctx₂ b.ptr p.b_c))
            (lookup-Found nb b ctx₁
              (subst (λ h. IsReady h b.ptr b.rows b.cols b.ld nb) (sym b₁) p.known_b)),
        lookup-Found nb c ctx₂
            (subst (λ h. IsReady h c.ptr c.rows c.cols c.ld nb) (sym c₂) p.known_c),
      )
