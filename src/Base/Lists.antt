-- ===== src/Base/Lists.antt =====
-- Lists measured and indexed by native numbers, and the lists that a counted loop emits.
use Prim.Native.Nat.{ℕ, zero, suc, ◌+◌, ◌<◌, ◌≤◌}
use mathlib.Core.Path.{◌≡◌, refl, ap₂}
use mathlib.Core.List.{List, [], ◌∷◌, ◌++◌}
use native.Mathlib.Omega.{arith}

module _ {ℓ} {A : Type ℓ} where
  abbrev pub length : List A → ℕ
  length [] = 0
  length (x ∷ xs) = suc (length xs)

  abbrev pub get_or : List A → ℕ → A → A
  get_or [] i d = d
  get_or (x ∷ xs) zero d = x
  get_or (x ∷ xs) (suc i) d = get_or xs i d

  pub length-append : (xs ys : List A) → length (xs ++ ys) ≡ length xs + length ys
  length-append [] ys = omega arith
  length-append (x ∷ xs) ys = omega (arith, length-append xs ys)

  -- `for (i = lo; rounds left; i++)`, with what each round appends to the output
  unfoldable pub emit : ℕ → ℕ → (ℕ → List A) → List A
  emit lo zero body = []
  emit lo (suc rounds) body = body lo ++ emit (suc lo) rounds body

  pub emit_congr :
      (lo n : ℕ) (f g : ℕ → List A)
      → ((k : ℕ) → lo ≤ k → k < lo + n → f k ≡ g k)
      → emit lo n f ≡ emit lo n g
  unfolding emit
  emit_congr lo zero f g h = refl
  emit_congr lo (suc n) f g h =
      ap₂ ◌++◌ (h lo (omega arith) (omega arith))
        (emit_congr (suc lo) n f g (λ k p q. h k (omega arith) (omega arith)))

  pub emit_nil : (lo n : ℕ) → emit lo n (λ k. []) ≡ []
  unfolding emit
  emit_nil lo zero = refl
  emit_nil lo (suc n) = emit_nil (suc lo) n
