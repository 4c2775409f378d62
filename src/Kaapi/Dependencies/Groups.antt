-- ===== src/Kaapi/Dependencies/Groups.antt =====
-- What the dependencies of one data mean: the accesses fall into groups, in the order in which they are
-- submitted. The accesses of a group may run together, and those of the next group wait for all of
-- them. The lists have the newest first.
use xkblas.Base.{
  ℕ, ◌<◌, ◌≡◌, ◌≢◌, ◌⊎◌, inl, inr, refl, ap, ◌∙◌, arith, Bool, true, ◌||◌, List, [], ◌∷◌, ◌++◌,
  ◌==◌, if◌then◌else◌, Bool-cases, All, All-weaken,
}
use xkblas.Kaapi.Dependencies.Modes.{
  access_mode_void, access_mode_r, access_mode_cw, access_is_concurrent, concurrent_same,
}

-- an access, its task and its mode
pub record Member : Type 0 where
  pub access : ℕ
  pub task : ℕ
  pub mode : ℕ

-- `before` is the synchronisation point that releases the group, `sync` the one that it counts down.
pub record Group : Type 0 where
  pub before : ℕ
  pub recent : Member
  pub older : List Member
  pub sync : ℕ

abbrev pub members : Group → List Member
members g = g.recent ∷ g.older

abbrev pub joins : ℕ → ℕ → Bool
joins mode last_mode = (last_mode == access_mode_void) || access_is_concurrent mode last_mode

abbrev pub first_group : ℕ → Member → ℕ → Group
first_group before m fresh = record { before = before; recent = m; older = []; sync = fresh }

abbrev pub extend : Group → Member → Group
extend g m = record g { recent = m; older = g.recent ∷ g.older }

unfoldable pub add : ℕ → List Group → Member → ℕ → List Group
add sync0 [] m fresh = first_group sync0 m fresh ∷ []
add sync0 (g ∷ gs) m fresh =
    if joins m.mode g.recent.mode then extend g m ∷ gs else first_group g.sync m fresh ∷ g ∷ gs

-- the accesses of all groups
unfoldable pub flatten : List Group → List Member
flatten [] = []
flatten (g ∷ gs) = members g ++ flatten gs

-- a mode of the user, not void, and without the bits P and IP
unfoldable pub IsPlain : Member → Type 0
IsPlain m = (m.mode < 64) × (m.mode ≢ access_mode_void)

abbrev pub IsShared : ℕ → Type 0
IsShared mode = (mode ≡ access_mode_r) ⊎ (mode ≡ access_mode_cw)

-- All accesses of the group read, or all cumulate, or there is one only.
unfoldable pub IsHomogeneous : Group → Type 0
IsHomogeneous g = All (λ m. (m.mode ≡ g.recent.mode) × IsShared g.recent.mode) g.older

pub add-flatten :
    (sync0 : ℕ) (gs : List Group) (m : Member) (fresh : ℕ)
    → flatten (add sync0 gs m fresh) ≡ m ∷ flatten gs
unfolding add flatten
add-flatten sync0 [] m fresh = refl
add-flatten sync0 (g ∷ gs) m fresh = elim (Bool-cases (joins m.mode g.recent.mode)) [
  | inl t ↦ rw t refl
  | inr f ↦ rw f refl
]

shared :
    (a b : ℕ) → a < 64 → b < 64 → b ≢ access_mode_void → joins a b ≡ true → (b ≡ a) × IsShared a
shared a b ha hb ne h =
    let c = concurrent_same a b ha hb in
    let e : b ≡ a = ground arith in
    (
      e,
      elim (Bool-cases (b == access_mode_r)) [
        | inl t ↦ inl (ground arith)
        | inr f ↦ inr (ground arith)
      ],
    )

pub add-IsHomogeneous :
    (sync0 : ℕ) (gs : List Group) (m : Member) (fresh : ℕ)
    → IsPlain m
    → All IsPlain (flatten gs)
    → All IsHomogeneous gs
    → All IsHomogeneous (add sync0 gs m fresh)
unfolding add flatten All IsHomogeneous IsPlain
add-IsHomogeneous sync0 [] m fresh p ps h = (tt, tt)
add-IsHomogeneous sync0 (g ∷ gs) m fresh p ps h = elim (Bool-cases (joins m.mode g.recent.mode)) [
  | inl t ↦
      let s = shared m.mode g.recent.mode p.0 ps.0.0 ps.0.1 t in
      rw t ((s, All-weaken _ _ (λ m' q. (q.0 ∙ s.0, s.1)) g.older h.0), h.1)
  | inr f ↦ rw f (tt, h)
]

-- The accesses that are submitted, each with the address for a new synchronisation point.
unfoldable pub build : ℕ → List (Member × ℕ) → List Group
build sync0 [] = []
build sync0 (s ∷ submitted) = add sync0 (build sync0 submitted) s.0 s.1

unfoldable pub accesses_of : List (Member × ℕ) → List Member
accesses_of [] = []
accesses_of (s ∷ submitted) = s.0 ∷ accesses_of submitted

-- The groups hold the submitted accesses in the order of their submission, and two accesses stand in one
-- group only if both read or both cumulate, for modes without the bits of postponed and in-place
-- accesses.
pub groups_ordered :
    (sync0 : ℕ) (submitted : List (Member × ℕ))
    → All IsPlain (accesses_of submitted)
    → (flatten (build sync0 submitted) ≡ accesses_of submitted)
      × All IsHomogeneous (build sync0 submitted)
unfolding build accesses_of All flatten
groups_ordered sync0 [] plain = (refl, tt)
groups_ordered sync0 (s ∷ submitted) plain =
    let before = groups_ordered sync0 submitted plain.1 in
    let groups = build sync0 submitted in
    (
      add-flatten sync0 groups s.0 s.1 ∙ ap (λ ms. s.0 ∷ ms) before.0,
      add-IsHomogeneous sync0 groups s.0 s.1 plain.0 (rw before.0 plain.1) before.1,
    )
