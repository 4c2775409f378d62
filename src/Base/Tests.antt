-- ===== src/Base/Tests.antt =====
-- Boolean tests on the native numbers, and the conditional.
use Prim.Native.Nat.{ℕ, ◌+◌, ◌*◌, ◌/◌, ◌≤◌, ◌<◌, compare, Ordering}
use native.Mathlib.Decide.{dec_lt}
use mathlib.Core.Path.{◌≡◌, refl}
use mathlib.Core.Logic.{◌↔◌, ◌⊎◌, inl, inr}
use mathlib.Core.Bool.{Bool, true, false}
use native.Mathlib.Omega.{arith}

abbrev pub ltb : ℕ → ℕ → Bool
ltb a b = elim (compare a b) [ Ordering.lt ↦ true | _ ↦ false ]

abbrev pub leb : ℕ → ℕ → Bool
leb a b = elim (compare a b) [ Ordering.gt ↦ false | _ ↦ true ]

infix 50 ◌==◌
abbrev pub ◌==◌ : ℕ → ℕ → Bool
a == b = elim (compare a b) [ Ordering.eq ↦ true | _ ↦ false ]

infix 1 if◌then◌else◌
abbrev pub if◌then◌else◌ {ℓ} : {A : Type ℓ} → Bool → A → A → A
if true then x else y = x
if false then x else y = y

pub ==_iff : (a b : ℕ) → ((a == b) ≡ true) ↔ (a ≡ b)
==_iff a b = ground arith

-- To split on a computed value and keep the equation.
pub Bool-cases : (b : Bool) → (b ≡ true) ⊎ (b ≡ false)
Bool-cases true = inl refl
Bool-cases false = inr refl

pub mul_mono : (a b c : ℕ) → a ≤ b → a * c ≤ b * c
mul_mono a b c h = grind arith

-- A number lies in one interval of a division into intervals of one width.
pub div_unique : (x b i : ℕ) → x * b ≤ i → i < x * b + b → i / b ≡ x
div_unique x b i lo hi = elim (dec_lt (i / b) x) [
  | yes p ↦ absurd (omega (arith, mul_mono (i / b + 1) x b (omega arith)))
  | no p ↦ elim (dec_lt x (i / b)) [
    | yes q ↦ absurd (omega (arith, mul_mono (x + 1) (i / b) b (omega arith)))
    | no q ↦ omega arith
  ]
]

-- Division by one number is monotone, up to the quotient by which a bound is reached.
pub div-lt : (i b q : ℕ) → 0 < b → i < q * b → i / b < q
div-lt i b q hb h = elim (dec_lt (i / b) q) [
  | yes p ↦ p
  | no p ↦ absurd (omega (arith, mul_mono q (i / b) b (omega arith)))
]

pub ap₃ {ℓ κ} :
    {A : Type ℓ} {B : Type κ} (f : A → A → A → B) {a a' b b' c c' : A}
    → a ≡ a'
    → b ≡ b'
    → c ≡ c'
    → f a b c ≡ f a' b' c'
ap₃ f p q r i = f (p i) (q i) (r i)

-- writing one cell of a memory
abbrev pub update {ℓ} : {A : Type ℓ} → (ℕ → A) → ℕ → A → ℕ → A
update f i x j = if j == i then x else f j
