-- ===== src/Kaapi/Stream/Ring.antt =====
-- The cells of an array used as a ring: the positions from `a` on, each at its rest by `c`.
use xkblas.Base.{
  ℕ, zero, suc, ◌+◌, ◌-◌, ◌%◌, ◌≤◌, ◌<◌, ◌≡◌, ◌≢◌, refl, sym, ap, ap₂, ◌∙◌, arith, List, [], ◌∷◌,
  ◌++◌, ◌==◌, ltb, true, false, update, Bool-cases, inl, inr,
}
use native.Mathlib.Nat.{mod-lt, mod-add-mod, mod-eq_of_lt, add-mod_right}

module _ {ℓ} {A : Type ℓ} where
  unfoldable pub ring : (ℕ → A) → ℕ → ℕ → ℕ → List A
  ring f c a zero = []
  ring f c a (suc n) = f (a % c) ∷ ring f c (suc a) n

  pub ring_congr :
      (f g : ℕ → A) (c a n : ℕ)
      → ((k : ℕ) → a ≤ k → k < a + n → f (k % c) ≡ g (k % c))
      → ring f c a n ≡ ring g c a n
  unfolding ring
  ring_congr f g c a zero h = refl
  ring_congr f g c a (suc n) h =
      ap₂ ◌∷◌ (h a (omega arith) (omega arith))
        (ring_congr f g c (suc a) n (λ k lo hi. h k (omega arith) (omega arith)))

  pub ring_snoc :
      (f : ℕ → A) (c a n : ℕ) → ring f c a (suc n) ≡ ring f c a n ++ f ((a + n) % c) ∷ []
  unfolding ring
  ring_snoc f c a zero = let e : a + 0 ≡ a = omega arith in rw e refl
  ring_snoc f c a (suc n) =
      let e : a + suc n ≡ suc a + n = omega arith in
      rw e (ap (λ (t : List A). f (a % c) ∷ t) (ring_snoc f c (suc a) n))

below : (c r d : ℕ) → r + d < c → (r + d) % c ≡ r + d
below c r d h = mod-eq_of_lt h

above : (c r d : ℕ) → c ≤ r + d → r < c → d < c → (r + d) % c ≡ r + d - c
above c r d h small short =
    let e : r + d ≡ (r + d - c) + c = omega arith in
    ap (λ (t : ℕ). t % c) e ∙ add-mod_right (r + d - c) c ∙ mod-eq_of_lt (omega arith)

pub other_rest : (c k d : ℕ) → 0 < d → d < c → (k + d) % c ≢ k % c
other_rest c k d some_way short e =
    let small : k % c < c = mod-lt k (omega arith) in
    let sum : (k % c + d) % c ≡ k % c = mod-add-mod k c d ∙ e in
    elim (Bool-cases (ltb (k % c + d) c)) [
      | inl t ↦
          let h : k % c + d < c = ground arith in
          let same = below c (k % c) d h in absurd (omega (arith, sum, same))
      | inr f ↦
          let h : c ≤ k % c + d = ground arith in
          let less = above c (k % c) d h small short in absurd (omega (arith, sum, less))
    ]

module _ {ℓ} {A : Type ℓ} where
  -- A write at a position outside of the ones in the list, but less than a turn away, leaves the list.
  pub ring-update :
      (f : ℕ → A) (c a n w : ℕ) (x : A)
      → ((k : ℕ) → a ≤ k → k < a + n → k % c ≢ w % c)
      → ring (update f (w % c) x) c a n ≡ ring f c a n
  ring-update f c a n w x apart = ring_congr _ f c a n (λ k lo hi. kept k (apart k lo hi))
    where
      kept : (k : ℕ) → k % c ≢ w % c → update f (w % c) x (k % c) ≡ f (k % c)
      kept k ne = let n : k % c == w % c ≡ false = ground arith in rw n refl

  -- A new entry behind the others.
  pub ring_push :
      (f : ℕ → A) (c a n : ℕ) (x : A)
      → n < c
      → ring (update f ((a + n) % c) x) c a (suc n) ≡ ring f c a n ++ x ∷ []
  ring_push f c a n x room =
      ring_snoc _ c a n
      ∙ ap₂ (λ (t : List A) (y : A). t ++ y ∷ [])
          (ring-update f c a n (a + n) x (λ k lo hi. apart k lo hi)) here
    where
      apart : (k : ℕ) → a ≤ k → k < a + n → k % c ≢ (a + n) % c
      apart k lo hi e =
          let d : (a + n) % c ≡ (k + (a + n - k)) % c = ap (λ (t : ℕ). t % c) (omega arith) in
          other_rest c k (a + n - k) (omega arith) (omega arith) (sym d ∙ sym e)

      here : update f ((a + n) % c) x ((a + n) % c) ≡ x
      here = let e : (a + n) % c == (a + n) % c ≡ true = ground arith in rw e refl
