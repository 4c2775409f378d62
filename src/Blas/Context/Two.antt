-- ===== src/Blas/Context/Two.antt =====
-- The lookups of a call with two matrices at different pointers.
use xkblas.Base.{ℕ, ◌≢◌, sym, subst}
use xkblas.Blas.Context.Three.{Operand, lookup, IsKnown, Found, lookup-Found, lookup-ne}
use xkblas.Blas.Context.{Context, Describes, IsReady}

abbrev pub lookup_two : ℕ → (a c : Operand) → Context → Context
lookup_two nb a c ctx = lookup nb c (lookup nb a ctx)

pub record ApartTwo (nb : ℕ) (a c : Operand) (ctx : Context) : Type 0 where
  pub a_c : a.ptr ≢ c.ptr
  pub known_a : IsKnown nb a ctx
  pub known_c : IsKnown nb c ctx

module _ {nb : ℕ} {a c : Operand} {ctx : Context} (p : ApartTwo nb a c ctx) where
  pub lookup_two-Found : let after = lookup_two nb a c ctx in Found nb a after × Found nb c after
  lookup_two-Found =
      let ctx₁ = lookup nb a ctx in
      (
        subst (λ h. Describes h a.ptr a.rows a.cols a.ld nb) (sym (lookup-ne nb c ctx₁ a.ptr p.a_c))
            (lookup-Found nb a ctx p.known_a),
        lookup-Found nb c ctx₁ (
            subst (λ h. IsReady h c.ptr c.rows c.cols c.ld nb)
              (sym (lookup-ne nb a ctx c.ptr (λ e. p.a_c (sym e)))) p.known_c),
      )
