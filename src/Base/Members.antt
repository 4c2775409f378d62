-- ===== src/Base/Members.antt =====
-- What holds of every member of a list, lists without repetition, and membership.
use Prim.Native.Nat.{ℕ}
use mathlib.Core.Logic.{◌≢◌}
use mathlib.Core.List.{List, [], ◌∷◌, ◌++◌}

module _ {ℓ} {A : Type ℓ} where
  unfoldable pub All : (A → Type 0) → List A → Type 0
  All P [] = Unit {0}
  All P (x ∷ xs) = P x × All P xs

  pub All-weaken : (P Q : A → Type 0) → ((x : A) → P x → Q x) → (xs : List A) → All P xs → All Q xs
  unfolding All
  All-weaken P Q f [] h = tt
  All-weaken P Q f (x ∷ xs) h = (f x h.0, All-weaken P Q f xs h.1)

  pub All-weaken₂ :
      (P Q S : A → Type 0)
      → ((x : A) → P x → Q x → S x)
      → (xs : List A) → All P xs
      → All Q xs
      → All S xs
  unfolding All
  All-weaken₂ P Q S f [] h k = tt
  All-weaken₂ P Q S f (x ∷ xs) h k = (f x h.0 k.0, All-weaken₂ P Q S f xs h.1 k.1)

  pub All-append : (P : A → Type 0) (xs ys : List A) → All P xs → All P ys → All P (xs ++ ys)
  unfolding All
  All-append P [] ys h k = k
  All-append P (x ∷ xs) ys h k = (h.0, All-append P xs ys h.1 k)

unfoldable pub Distinct : List ℕ → Type 0
Distinct [] = Unit {0}
Distinct (x ∷ xs) = All (λ y. y ≢ x) xs × Distinct xs
