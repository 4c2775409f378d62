-- ===== src/Base/Bits.antt =====
-- Binary digits of native numbers, and how the bitwise operations act on them.
use Prim.Native.Nat.{
  ℕ, zero, suc, ◌+◌, ◌-◌, ◌*◌, ◌/◌, ◌%◌, ◌^◌, ◌≤◌, ◌<◌, min, max, bit_and, bit_or, digits, bitwise,
  bit_and-bitwise, bit_or-bitwise,
}
use mathlib.Core.Path.{◌≡◌, refl, sym, ap, ◌∙◌}
use mathlib.Core.Bool.{Bool, true, false}
use native.Mathlib.Omega.{arith}
use xkblas.Base.Tests.{ltb, ◌==◌, ==_iff, if◌then◌else◌}

module _ (rest : ℕ → ℕ) (f : ℕ → ℕ → ℕ)
    (unwind : (b : ℕ) → rest b ≡ rest (b / 2) * 2 + f 0 (b % 2)) where
  -- a first number that has run out
  spent : (fuel b : ℕ) → digits rest f fuel 0 b ≡ rest b
  spent zero b = refl
  spent (suc fuel) b = refl

  refuel : (m fuel b a : ℕ) → a ≤ fuel → a ≤ m → digits rest f m a b ≡ digits rest f fuel a b
  refuel m fuel b zero p q = spent m b ∙ sym (spent fuel b)
  refuel zero fuel b (suc a) p q = absurd (omega arith)
  refuel (suc m) zero b (suc a) p q = absurd (omega arith)
  refuel (suc m) (suc fuel) b (suc a) p q =
      let half = refuel m fuel (b / 2) (suc a / 2) (omega arith) (omega arith) in
      ap (λ (t : ℕ). t * 2 + f (suc a % 2) (b % 2)) half

  -- the law for the lowest digit
  bitwise_step :
      (a b : ℕ) → bitwise rest f a b ≡ bitwise rest f (a / 2) (b / 2) * 2 + f (a % 2) (b % 2)
  bitwise_step zero b = unwind b
  bitwise_step (suc a) b =
      ap (λ (t : ℕ). t * 2 + f (suc a % 2) (b % 2))
        (refuel a (suc a / 2) (b / 2) (suc a / 2) (omega arith) (omega arith))

bit_and_step : (a b : ℕ) → bit_and a b ≡ bit_and (a / 2) (b / 2) * 2 + min (a % 2) (b % 2)
bit_and_step a b = omega (
  arith,
  bit_and-bitwise a b,
  bit_and-bitwise (a / 2) (b / 2),
  bitwise_step (λ b. 0) min (λ b. omega arith) a b,
)

bit_or_step : (a b : ℕ) → bit_or a b ≡ bit_or (a / 2) (b / 2) * 2 + max (a % 2) (b % 2)
bit_or_step a b = omega (
  arith,
  bit_or-bitwise a b,
  bit_or-bitwise (a / 2) (b / 2),
  bitwise_step (λ b. b) max (λ b. omega arith) a b,
)

-- digit `i` of `m`
pub digit : ℕ → ℕ → ℕ
digit zero m = m % 2
digit (suc i) m = digit i (m / 2)

pub digit-lt : (i m : ℕ) → digit i m < 2
unfolding digit
digit-lt zero m = omega arith
digit-lt (suc i) m = digit-lt i (m / 2)

pub digit-bit_and : (i a b : ℕ) → digit i (bit_and a b) ≡ min (digit i a) (digit i b)
unfolding digit
digit-bit_and zero a b = omega (arith, bit_and_step a b)
digit-bit_and (suc i) a b =
    let e : bit_and a b / 2 ≡ bit_and (a / 2) (b / 2) = omega (arith, bit_and_step a b) in
    ap (digit i) e ∙ digit-bit_and i (a / 2) (b / 2)

pub digit-bit_or : (i a b : ℕ) → digit i (bit_or a b) ≡ max (digit i a) (digit i b)
unfolding digit
digit-bit_or zero a b = omega (arith, bit_or_step a b)
digit-bit_or (suc i) a b =
    let e : bit_or a b / 2 ≡ bit_or (a / 2) (b / 2) = omega (arith, bit_or_step a b) in
    ap (digit i) e ∙ digit-bit_or i (a / 2) (b / 2)

pub digit-zero : (i : ℕ) → digit i 0 ≡ 0
unfolding digit
digit-zero zero = refl
digit-zero (suc i) = digit-zero i

-- Numbers below 2 ^ 16 are given by their digits.
pub digits_determine : (k m : ℕ) → m < 2 ^ k → ((i : ℕ) → i < k → digit i m ≡ 0) → m ≡ 0
unfolding digit
digits_determine zero m h all = omega arith
digits_determine (suc k) m h all =
    let half = digits_determine k (m / 2) (omega arith) (λ i hi. all (suc i) (omega arith)) in
    omega (arith, all 0 (omega arith))

pub bit_and-lt : (k a b : ℕ) → a < 2 ^ k → bit_and a b < 2 ^ k
bit_and-lt zero a b h = let e : a ≡ 0 = omega arith in rw e (omega (arith, bit_and-bitwise 0 b))
bit_and-lt (suc k) a b h =
    omega (arith, bit_and_step a b, bit_and-lt k (a / 2) (b / 2) (omega arith))

bit_and-zero : (k a : ℕ) → a ≤ k → bit_and a 0 ≡ 0
bit_and-zero k zero h = omega (arith, bit_and-bitwise 0 0)
bit_and-zero zero (suc a) h = absurd (omega arith)
bit_and-zero (suc k) (suc a) h =
    omega (arith, bit_and_step (suc a) 0, bit_and-zero k (suc a / 2) (omega arith))

pub bit_and-le : (k a b : ℕ) → b ≤ k → bit_and a b ≤ b
bit_and-le zero a zero h = omega (arith, bit_and-zero a a (omega arith))
bit_and-le zero a (suc b) h = absurd (omega arith)
bit_and-le (suc k) a zero h = omega (arith, bit_and_step a 0, bit_and-le k (a / 2) 0 (omega arith))
bit_and-le (suc k) a (suc b) h =
    omega (arith, bit_and_step a (suc b), bit_and-le k (a / 2) (suc b / 2) (omega arith))

-- A test that every row of a table passes.
unfoldable pub rows_pass : (ℕ → Bool) → ℕ → Bool
rows_pass row zero = true
rows_pass row (suc k) = if row k then rows_pass row k else false

pub rows_pass-row : (row : ℕ → Bool) (k i : ℕ) → rows_pass row k ≡ true → i < k → row i ≡ true
unfolding rows_pass
rows_pass-row row zero i h p = absurd (omega arith)
rows_pass-row row (suc k) i h p = ground (arith, rows_pass-row row k i)

-- the words with one bit set, and with one bit clear
one_table :
    rows_pass (λ l. rows_pass (λ i. digit i (2 ^ l) == (if i == l then 1 else 0)) 16) 16 ≡ true
unfolding rows_pass digit
one_table = refl

hole_table :
    rows_pass (λ l. rows_pass (λ i. digit i (0xffff - 2 ^ l) == (if i == l then 0 else 1)) 16) 16
    ≡ true
unfolding rows_pass digit
hole_table = refl

pub digit-one : (i l : ℕ) → i < 16 → l < 16 → digit i (2 ^ l) ≡ (if i == l then 1 else 0)
digit-one i l hi hl = (==_iff _ _).0 (rows_pass-row _ 16 i (rows_pass-row _ 16 l one_table hl) hi)

pub digit-hole : (i l : ℕ) → i < 16 → l < 16 → digit i (0xffff - 2 ^ l) ≡ (if i == l then 0 else 1)
digit-hole i l hi hl = (==_iff _ _).0 (rows_pass-row _ 16 i (rows_pass-row _ 16 l hole_table hl) hi)

pub bit_or-lt : (k a b : ℕ) → a < 2 ^ k → b < 2 ^ k → bit_or a b < 2 ^ k
bit_or-lt zero a b h h' =
    let e : a ≡ 0 = omega arith in
    let e' : b ≡ 0 = omega arith in rw (e, e') (omega (arith, bit_or-bitwise 0 0))
bit_or-lt (suc k) a b h h' =
    omega (arith, bit_or_step a b, bit_or-lt k (a / 2) (b / 2) (omega arith) (omega arith))

power_table : rows_pass (λ l. ltb (2 ^ l) (2 ^ 16)) 16 ≡ true
unfolding rows_pass
power_table = refl

pub power-lt : (l : ℕ) → l < 16 → 2 ^ l < 2 ^ 16
power-lt l h = let t = rows_pass-row (λ l. ltb (2 ^ l) (2 ^ 16)) 16 l power_table h in ground arith

wide_table :
    rows_pass
      (λ l. rows_pass (λ i. digit i (2 ^ 32 - 1 - 2 ^ l) == (if i == l then 0 else 1)) 17)
      16
    ≡ true
unfolding rows_pass digit
wide_table = refl

pub digit-wide_hole :
    (i l : ℕ) → i < 17 → l < 16 → digit i (2 ^ 32 - 1 - 2 ^ l) ≡ (if i == l then 0 else 1)
digit-wide_hole i l hi hl =
    (==_iff _ _).0 (rows_pass-row _ 17 i (rows_pass-row _ 16 l wide_table hl) hi)

-- The bit 15 of a 16-bit number, and the bit 16 of a negative one with its sign extended.
pub digit-sign_clear : (m : ℕ) → m < 2 ^ 15 → digit 15 m ≡ 0
unfolding digit
digit-sign_clear m h = omega arith

pub digit-sign_set : (m : ℕ) → 2 ^ 15 ≤ m → m < 2 ^ 16 → digit 15 m ≡ 1
unfolding digit
digit-sign_set m h h' = omega arith

pub digit-extended : (m : ℕ) → m < 2 ^ 16 → digit 16 (m + (2 ^ 32 - 2 ^ 16)) ≡ 1
unfolding digit
digit-extended m h = omega arith
