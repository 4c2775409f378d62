-- ===== src/Kaapi/Replica/Bitmaps.antt =====
-- The bitmaps as sets of address spaces.
use xkblas.Base.{
  ℕ, ltb, ◌+◌, digit-wide_hole, digit-sign_clear, digit-sign_set, digit-extended, ◌-◌, ◌^◌, ◌<◌,
  ◌≡◌, ◌≢◌, ◌↔◌, inl, inr, refl, sym, ap, ◌∙◌, arith, true, false, not, ◌&&◌, ◌||◌, ◌==◌, ==_iff,
  Bool-cases, bit_and, digit, digit-lt, digit-bit_and, digit-bit_or, digit-zero, digit-one,
  digit-hole, digits_determine, bit_and-lt, bit_or-lt, power-lt,
}
use mathlib.Core.Bool.{true≢false}
use xkblas.Kaapi.Replica.{
  MetadataInfo, sign_extend, bit_is_set, with_bit, without_bit, is_valid_on, is_valid_excepton,
  set_valid, unset_valid, set_all_dirty_except,
}

-- a field of 16 bits, and the id of an address space
abbrev pub IsField : ℕ → Type 0
IsField m = m < 2 ^ 16

abbrev pub IsLid : ℕ → Type 0
IsLid l = l < 16

module _ (m l : ℕ) (hm : IsField m) (hl : IsLid l) where
  no_bit : digit l m ≡ 0 → bit_and m (2 ^ l) ≡ 0
  no_bit e = digits_determine 16 (bit_and m (2 ^ l)) (bit_and-lt 16 m (2 ^ l) hm) λ i hi.
      let d = digit-bit_and i m (2 ^ l) in
      let o = digit-one i l hi hl in
      elim (Bool-cases (i == l)) [
        | inl h ↦ let f = ap (λ (t : ℕ). digit t m) ((==_iff i l).0 h) in omega arith
        | inr h ↦ let o' = (rw h at o) in omega arith
      ]

  a_bit : bit_and m (2 ^ l) ≡ 0 → digit l m ≡ 0
  a_bit e =
      let d = digit-bit_and l m (2 ^ l) in
      let o = digit-one l l hl hl in
      let z = ap (digit l) e ∙ digit-zero l in
      let s : l == l ≡ true = ground arith in let o' = (rw s at o) in omega (arith, digit-lt l m)

  -- A bit is tested by its digit.
  bit_is_set-digit : bit_is_set m l ≡ (digit l m == 1)
  bit_is_set-digit = ground (arith, no_bit, a_bit, digit-lt l m)

module _ (m l i : ℕ) (hm : IsField m) (hl : IsLid l) (hi : IsLid i) where
  pub with_bit-IsField : IsField (with_bit m l)
  with_bit-IsField = bit_or-lt 16 m _ hm (power-lt l hl)

  pub bit_is_set-with_bit : bit_is_set (with_bit m l) i ≡ (i == l) || bit_is_set m i
  bit_is_set-with_bit =
      let d = digit-bit_or i m (2 ^ l) in
      let o = digit-one i l hi hl in
      let p = bit_is_set-digit (with_bit m l) i with_bit-IsField hi in
      let q = bit_is_set-digit m i hm hi in
      rw (p, q, d, o)
        (elim (Bool-cases (i == l)) [
          | inl h ↦ rw h (ground (arith, digit-lt i m))
          | inr h ↦ rw h (ground (arith, digit-lt i m))
        ])

  pub bit_is_set-without_bit : bit_is_set (without_bit m l) i ≡ not (i == l) && bit_is_set m i
  bit_is_set-without_bit =
      let d = digit-bit_and i m (0xffff - 2 ^ l) in
      let o = digit-hole i l hi hl in
      let p = bit_is_set-digit (without_bit m l) i (bit_and-lt 16 m _ hm) hi in
      let q = bit_is_set-digit m i hm hi in
      rw (p, q, d, o)
        (elim (Bool-cases (i == l)) [
          | inl h ↦ rw h (ground (arith, digit-lt i m))
          | inr h ↦ rw h (ground (arith, digit-lt i m))
        ])

  pub bit_is_set-only : bit_is_set (2 ^ l) i ≡ (i == l)
  bit_is_set-only =
      let o = digit-one i l hi hl in
      let p = bit_is_set-digit (2 ^ l) i (power-lt l hl) hi in
      rw (p, o) (elim (Bool-cases (i == l)) [ inl h ↦ rw h refl | inr h ↦ rw h refl ])

module _ (mdi : MetadataInfo) (hv : IsField mdi.valid) (lid : ℕ) (hl : IsLid lid) where
  -- kaapi_memory_replica_set_valid adds exactly the address space that it is given to those on which
  -- the data is valid, unset_valid removes exactly that one, and after set_all_dirty_except the data
  -- is valid there and nowhere else, for a 16-bit field and ids below 16.
  pub valid_bits :
      (i : ℕ)
      → IsLid i
      → (is_valid_on (set_valid mdi lid) i ≡ (i == lid) || is_valid_on mdi i)
        × (is_valid_on (unset_valid mdi lid) i ≡ not (i == lid) && is_valid_on mdi i)
        × (is_valid_on (set_all_dirty_except mdi lid) i ≡ (i == lid))
  unfolding is_valid_on set_valid unset_valid set_all_dirty_except
  valid_bits i hi = (
    bit_is_set-with_bit mdi.valid lid i hv hl hi,
    bit_is_set-without_bit mdi.valid lid i hv hl hi,
    bit_is_set-only mdi.valid lid i hv hl hi,
  )

  -- On address space 15 the field is negative as a signed number.
  valid_on_last : ltb mdi.valid (2 ^ 15) ≡ not (is_valid_on mdi 15)
  unfolding is_valid_on
  valid_on_last =
      let d = bit_is_set-digit mdi.valid 15 hv (omega arith) in
      elim (Bool-cases (ltb mdi.valid (2 ^ 15))) [
        | inl t ↦ let c = digit-sign_clear mdi.valid (ground arith) in rw (t, d, c) refl
        | inr f ↦ let s = digit-sign_set mdi.valid (ground arith) hv in rw (f, d, s) refl
      ]

  -- The sign puts the answer at true.
  negative_lem : is_valid_on mdi 15 ≡ true → is_valid_excepton mdi lid ≡ true
  unfolding is_valid_excepton
  negative_lem h =
      let f : ltb mdi.valid (2 ^ 15) ≡ false = valid_on_last ∙ rw h refl in
      let wide = mdi.valid + (2 ^ 32 - 2 ^ 16) in
      let mask = 2 ^ 32 - 1 - 2 ^ lid in
      let away : 16 == lid ≡ false = ground arith in
      let hole = digit-wide_hole 16 lid (omega arith) hl in
      let o = (rw away at hole) in
      let set : digit 16 (bit_and wide mask) ≡ 1 =
        omega (arith, digit-bit_and 16 wide mask, digit-extended mdi.valid hv, o) in
      elim (Bool-cases (bit_and wide mask == 0)) [
        | inl t ↦
            let z = ap (digit 16) ((==_iff (bit_and wide mask) 0).0 t) ∙ digit-zero 16 in
            absurd (omega arith)
        | inr n ↦ rw (f, n) refl
      ]

  -- kaapi_memory_replica_is_valid_excepton answers false exactly if the data is valid neither on an
  -- address space other than the given one nor, whichever is given, on address space 15, the sign bit
  -- of the field, for a 16-bit field and ids below 16.
  pub valid_excepton :
      (is_valid_excepton mdi lid ≡ false)
      ↔ (((i : ℕ) → IsLid i → i ≢ lid → is_valid_on mdi i ≡ false) × (is_valid_on mdi 15 ≡ false))
  unfolding is_valid_excepton is_valid_on
  valid_excepton = (λ h. let p = plus h in (there h p, p), λ r. back r.0 r.1)
    where
      mask : ℕ
      mask = 2 ^ 32 - 1 - 2 ^ lid

      plus : is_valid_excepton mdi lid ≡ false → is_valid_on mdi 15 ≡ false
      plus h = elim (Bool-cases (is_valid_on mdi 15)) [
        | inl t ↦ absurd (true≢false (sym (negative_lem t) ∙ h))
        | inr f ↦ f
      ]

      same : is_valid_on mdi 15 ≡ false → sign_extend mdi.valid ≡ mdi.valid
      same p = let t : ltb mdi.valid (2 ^ 15) ≡ true = valid_on_last ∙ rw p refl in rw t refl

      there :
          is_valid_excepton mdi lid ≡ false
          → is_valid_on mdi 15 ≡ false
          → (i : ℕ) → IsLid i
          → i ≢ lid
          → is_valid_on mdi i ≡ false
      there h p i hi ne =
          let h' = (rw (same p) at h) in
          let z : bit_and mdi.valid mask ≡ 0 = ground arith in
          let d = ap (digit i) z ∙ digit-zero i in
          let e = digit-bit_and i mdi.valid mask in
          let o = digit-wide_hole i lid (omega arith) hl in
          let f : i == lid ≡ false = ground arith in
          let o' = (rw f at o) in
          bit_is_set-digit mdi.valid i hv hi ∙ ground (arith, digit-lt i mdi.valid)

      back :
          ((i : ℕ) → IsLid i → i ≢ lid → is_valid_on mdi i ≡ false)
          → is_valid_on mdi 15 ≡ false
          → is_valid_excepton mdi lid ≡ false
      back h p =
          let z =
            digits_determine 16 (bit_and mdi.valid mask) (bit_and-lt 16 mdi.valid _ hv)
              (λ i hi. none_left i hi) in
          rw (same p, z) refl
        where
          none_left : (i : ℕ) → IsLid i → digit i (bit_and mdi.valid mask) ≡ 0
          none_left i hi = elim (Bool-cases (i == lid)) [
            | inl q ↦
                let hole = digit-wide_hole i lid (omega arith) hl in
                let o = (rw q at hole) in omega (arith, digit-bit_and i mdi.valid mask)
            | inr q ↦
                let ne : i ≢ lid = ground arith in
                let w = sym (bit_is_set-digit mdi.valid i hv hi) ∙ h i hi ne in
                let clear : digit i mdi.valid ≡ 0 = ground (arith, digit-lt i mdi.valid) in
                omega (arith, digit-bit_and i mdi.valid mask)
          ]
