-- ===== src/Blas/Mapping/Tiles.antt =====
-- The loops over the tiles of a matrix.
use xkblas.Base.{
  ℕ, zero, suc, ◌+◌, ◌*◌, ◌/◌, ◌<◌, ◌≤◌, ◌≡◌, ◌≢◌, ◌⊎◌, inl, inr, Bool-cases, refl, subst, ap, ◌∙◌,
  arith, Bool, ◌||◌, Option, some, List, [], ◌∷◌, length, get_or, ◌==◌, if◌then◌else◌,
}
use native.Mathlib.Nat.{mul-le-mul_right, mul-add-div_right, div-eq_of_lt}
use xkblas.Blas.Descr.{MatrixDescr, no_ldid, get_ldid}
use xkblas.Blas.Mapping.{set_at, set_ldid, map_tile, map_columns, map_rows}

length-set_at : (xs : List ℕ) (i v : ℕ) → length (set_at xs i v) ≡ length xs
length-set_at [] i v = refl
length-set_at (x ∷ xs) zero v = refl
length-set_at (x ∷ xs) (suc i) v = ap suc (length-set_at xs i v)

get_or-set_at_here : (xs : List ℕ) (i v d : ℕ) → i < length xs → get_or (set_at xs i v) i d ≡ v
get_or-set_at_here [] i v d h = absurd (omega arith)
get_or-set_at_here (x ∷ xs) zero v d h = refl
get_or-set_at_here (x ∷ xs) (suc i) v d h = get_or-set_at_here xs i v d (omega arith)

get_or-set_at_other :
    (xs : List ℕ) (i k v d : ℕ) → k ≢ i → get_or (set_at xs i v) k d ≡ get_or xs k d
get_or-set_at_other [] i k v d ne = refl
get_or-set_at_other (x ∷ xs) zero zero v d ne = absurd (ne refl)
get_or-set_at_other (x ∷ xs) zero (suc k) v d ne = refl
get_or-set_at_other (x ∷ xs) (suc i) zero v d ne = refl
get_or-set_at_other (x ∷ xs) (suc i) (suc k) v d ne =
    get_or-set_at_other xs i k v d (λ e. ne (ap suc e))

-- a place in the row-major array is the one of one tile only
same_row : (nt x y i j : ℕ) → y < nt → j < nt → x * nt + y ≡ i * nt + j → x ≡ i
same_row nt x y i j hy hj e =
    let row = λ (k l : ℕ) (h : l < nt).
      (mul-add-div_right {m = nt} (omega (arith, h)) k l
        ∙ ap (λ (t : ℕ). k + t) (div-eq_of_lt h)) in
    let a = row x y hy in
    let b = row i j hj in
    let c : (x * nt + y) / nt ≡ (i * nt + j) / nt = ap (λ (t : ℕ). t / nt) e in
    omega (arith, a, b, c)

same_place : (nt x y i j : ℕ) → y < nt → j < nt → x * nt + y ≡ i * nt + j → (x ≡ i) × (y ≡ j)
same_place nt x y i j hy hj e =
    let r = same_row nt x y i j hy hj e in
    let m : x * nt ≡ i * nt = ap (λ (t : ℕ). t * nt) r in (r, omega (arith, e, m))

pub place-bound : (mt nt i j : ℕ) → i < mt → j < nt → i * nt + j < mt * nt
place-bound mt nt i j hi hj =
    let le : suc i * nt ≤ mt * nt = mul-le-mul_right nt hi in
    let s : suc i * nt ≡ i * nt + nt = omega arith in omega (arith, le, s)

-- what the array holds for a tile, in rows of `nt`
abbrev pub ldid_at : ℕ → List ℕ → ℕ → ℕ → ℕ
ldid_at nt l x y = get_or l (x * nt + y) no_ldid

-- the `ldid` that a tile has at the end: a new one where it has none or `force` is set
abbrev pub chosen : (ℕ → ℕ → ℕ) → Bool → ℕ → List ℕ → ℕ → ℕ → ℕ
chosen owner force nt l x y =
    if (ldid_at nt l x y == no_ldid) || force then owner x y else ldid_at nt l x y

chosen_congr :
    (owner : ℕ → ℕ → ℕ) (force : Bool) (nt : ℕ) (k l : List ℕ) (x y : ℕ)
    → ldid_at nt k x y ≡ ldid_at nt l x y
    → chosen owner force nt k x y ≡ chosen owner force nt l x y
chosen_congr owner force nt k l x y e =
    ap (λ (v : ℕ). if (v == no_ldid) || force then owner x y else v) e

module _ (place : ℕ → ℕ → Option ℕ) (owner : ℕ → ℕ → ℕ) (force : Bool) (h : MatrixDescr)
    (placed : (x y : ℕ) → x < h.mt → y < h.nt → place x y ≡ some (owner x y)) where
  abbrev with_ldid : List ℕ → MatrixDescr
  with_ldid l = record h { ldid = l }

  record OneTile (l : List ℕ) (i j : ℕ) (l' : List ℕ) : Type 0 where
    sized : length l' ≡ h.mt * h.nt
    here : ldid_at h.nt l' i j ≡ chosen owner force h.nt l i j
    other : (x y : ℕ) → y < h.nt → (x ≢ i) ⊎ (y ≢ j) → ldid_at h.nt l' x y ≡ ldid_at h.nt l x y

  other_place :
      (x y i j : ℕ) → y < h.nt → j < h.nt → (x ≢ i) ⊎ (y ≢ j) → x * h.nt + y ≢ i * h.nt + j
  other_place x y i j hy hj (inl ne) e = ne (same_place h.nt x y i j hy hj e).0
  other_place x y i j hy hj (inr ne) e = ne (same_place h.nt x y i j hy hj e).1

  tile_lem :
      (l : List ℕ) (i j : ℕ)
      → length l ≡ h.mt * h.nt
      → i < h.mt
      → j < h.nt
      → (l' : List ℕ) × (map_tile place force (with_ldid l) i j ≡ some (with_ldid l'))
        × OneTile l i j l'
  unfolding map_tile set_ldid get_ldid
  tile_lem l i j sized hi hj = elim (Bool-cases ((ldid_at h.nt l i j == no_ldid) || force)) [
    | inl t ↦
        let at = i * h.nt + j in
        let inside = place-bound h.mt h.nt i j hi hj in
        (
          set_at l at (owner i j),
          rw (map_tile, t, placed i j hi hj) refl,
          record {
            sized = length-set_at l at (owner i j) ∙ sized;
            here =
                get_or-set_at_here l at (owner i j) no_ldid (omega (arith, inside, sized))
                ∙ (rw t refl);
            other = λ x y hy ne.
                get_or-set_at_other l at (x * h.nt + y) (owner i j) no_ldid
                  (other_place x y i j hy hj ne);
          },
        )
    | inr f ↦ (
      l,
      rw (map_tile, f) refl,
      record { sized = sized; here = rw f refl; other = λ x y hy ne. refl },
    )
  ]

  record Row (l : List ℕ) (i j : ℕ) (l' : List ℕ) : Type 0 where
    sized : length l' ≡ h.mt * h.nt
    here : (y : ℕ) → j ≤ y → y < h.nt → ldid_at h.nt l' i y ≡ chosen owner force h.nt l i y
    other : (x y : ℕ) → y < h.nt → (x ≢ i) ⊎ (y < j) → ldid_at h.nt l' x y ≡ ldid_at h.nt l x y

  weaker : (x i y j : ℕ) → (x ≢ i) ⊎ (y < j) → (x ≢ i) ⊎ (y < suc j)
  weaker x i y j (inl ne) = inl ne
  weaker x i y j (inr lt) = inr (omega (arith, lt))

  weaker_ne : (x i y j : ℕ) → (x ≢ i) ⊎ (y < j) → (x ≢ i) ⊎ (y ≢ j)
  weaker_ne x i y j (inl ne) = inl ne
  weaker_ne x i y j (inr lt) = inr (omega (arith, lt))

  columns_lem :
      (l : List ℕ) (i j left : ℕ)
      → length l ≡ h.mt * h.nt
      → i < h.mt
      → j + left ≡ h.nt
      → (l' : List ℕ) × (map_columns place force (with_ldid l) i j left ≡ some (with_ldid l'))
        × Row l i j l'
  unfolding map_columns
  columns_lem l i j zero sized hi e = (
    l,
    refl,
    record {
      sized = sized;
      here = λ y lo hy. absurd (omega (arith, e, lo, hy));
      other = λ x y hy ne. refl;
    },
  )
  columns_lem l i j (suc left) sized hi e =
      let (l₁, run₁, one) = tile_lem l i j sized hi (omega (arith, e)) in
      let (l₂, run₂, row) = columns_lem l₁ i (suc j) left one.sized hi (omega (arith, e)) in
      (
        l₂,
        rw (map_columns, run₁) run₂,
        record {
          sized = row.sized;
          here = λ y lo hy. elim (Bool-cases (y == j)) [
            | inl t ↦
                let same : j ≡ y = ground arith in
                subst (λ (z : ℕ). ldid_at h.nt l₂ i z ≡ chosen owner force h.nt l i z) same
                  (row.other i j (omega (arith, e)) (inr (omega arith)) ∙ one.here)
            | inr f ↦
                row.here y (ground (arith, lo)) hy
                ∙ chosen_congr owner force h.nt l₁ l i y (one.other i y hy (inr (ground arith)))
          ];
          other = λ x y hy ne.
              row.other x y hy (weaker x i y j ne) ∙ one.other x y hy (weaker_ne x i y j ne);
        },
      )

  -- Every tile from the row `i` on has its `ldid`; the others keep theirs.
  pub record Rows (l : List ℕ) (i : ℕ) (l' : List ℕ) : Type 0 where
    pub sized : length l' ≡ h.mt * h.nt
    pub here :
        (x y : ℕ)
        → i ≤ x
        → x < h.mt
        → y < h.nt
        → ldid_at h.nt l' x y ≡ chosen owner force h.nt l x y
    pub other : (x y : ℕ) → y < h.nt → x < i → ldid_at h.nt l' x y ≡ ldid_at h.nt l x y

  pub rows_lem :
      (l : List ℕ) (i left : ℕ)
      → length l ≡ h.mt * h.nt
      → i + left ≡ h.mt
      → (l' : List ℕ) × (map_rows place force (record h { ldid = l }) i left
          ≡ some (record h { ldid = l' }))
        × Rows l i l'
  unfolding map_rows
  rows_lem l i zero sized e = (
    l,
    refl,
    record {
      sized = sized;
      here = λ x y lo hx hy. absurd (omega (arith, e, lo, hx));
      other = λ x y hy lt. refl;
    },
  )
  rows_lem l i (suc left) sized e =
      let (l₁, run₁, row) = columns_lem l i 0 h.nt sized (omega (arith, e)) (omega arith) in
      let (l₂, run₂, rows) = rows_lem l₁ (suc i) left row.sized (omega (arith, e)) in
      (
        l₂,
        rw (map_rows, run₁) run₂,
        record {
          sized = rows.sized;
          here = λ x y lo hx hy. elim (Bool-cases (x == i)) [
            | inl t ↦
                let same : i ≡ x = ground arith in
                subst (λ (z : ℕ). ldid_at h.nt l₂ z y ≡ chosen owner force h.nt l z y) same
                  (rows.other i y hy (omega arith) ∙ row.here y (omega arith) hy)
            | inr f ↦
                rows.here x y (ground (arith, lo)) hx hy
                ∙ chosen_congr owner force h.nt l₁ l x y (row.other x y hy (inl (ground arith)))
          ];
          other = λ x y hy lt.
              rows.other x y hy (omega (arith, lt)) ∙ row.other x y hy (inl (omega (arith, lt)));
        },
      )
