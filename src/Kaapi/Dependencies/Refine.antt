-- ===== src/Kaapi/Dependencies/Refine.antt =====
-- kaapi_update_dependencies against the groups of accesses.
use xkblas.Base.{
  ℕ, ◌≡◌, ◌≢◌, refl, arith, Bool, true, false, not, ◌&&◌, ◌||◌, List, [], ◌∷◌, ◌==◌, if◌then◌else◌,
  update, All, All-weaken₂, Distinct,
}
use xkblas.Kaapi.Dependencies.{
  Dfg, Handle, init_access, swap_sync, new_sync, link_access, kaapi_access_sync_init,
  kaapi_update_dependencies,
}
use xkblas.Kaapi.Dependencies.Modes.{access_mode_void, access_sync, access_is_concurrent}
use xkblas.Kaapi.Dependencies.Groups.{Member, Group, members, joins, first_group, extend}
use xkblas.Kaapi.Dependencies.Links.{
  pred, Linked, Holds, IsGroup, newest_sync, AreGroups, addresses, inner, owned, Same, SameNext,
  Linked-frame, Holds-frame, All-addresses, AreGroups-frame,
}

-- the fields `last` and `sync` of a handle with these groups
unfoldable pub last_of : ℕ → List Group → ℕ
last_of sync0 [] = sync0
last_of sync0 (g ∷ gs) = g.recent.access

unfoldable pub sync_of : List Group → ℕ
sync_of [] = 0
sync_of (g ∷ gs) = g.sync

-- The memory and the handle represent the groups, at addresses that differ.
unfoldable pub Represents : Dfg → Handle → List Group → Type 0
Represents dfg h gs =
    AreGroups dfg h.sync0 gs
    × (h.last ≡ last_of h.sync0 gs)
    × (h.sync ≡ sync_of gs)
    × (dfg.mode h.sync0 ≡ access_sync)
    × Distinct (owned h.sync0 gs)
    × All (λ x. x ≢ 0) (owned h.sync0 gs)

-- The addresses of the access and of a new synchronisation point are not in use.
unfoldable pub AreNew : ℕ → ℕ → List ℕ → Type 0
AreNew a fresh used =
    (a ≢ 0) × (fresh ≢ 0) × (a ≢ fresh) × All (λ x. x ≢ a) used × All (λ x. x ≢ fresh) used

-- A new group after the newest synchronisation point.
module _ (dfg : Dfg) (sync0 : ℕ) (gs : List Group) (m : Member) (fresh : ℕ)
    (are : AreGroups dfg sync0 gs) (distinct : Distinct (owned sync0 gs))
    (new : AreNew m.access fresh (owned sync0 gs)) where
  abbrev pub last_sync : ℕ
  last_sync = newest_sync sync0 gs

  unfoldable pub started : Dfg
  started =
      (link_access (kaapi_access_sync_init (init_access dfg m.access m.task m.mode) fresh)
        (record { sync0 = sync0; last = last_sync; sync = fresh }) m.access m.task).0

  pub started-Same : (x : ℕ) → x ≢ m.access → x ≢ fresh → Same dfg started x
  unfolding started link_access kaapi_access_sync_init init_access Same
  started-Same x p q = (ground arith, ground arith, ground arith, ground arith)

  started-SameNext : (x : ℕ) → x ≢ m.access → x ≢ fresh → x ≢ last_sync → SameNext dfg started x
  unfolding started link_access kaapi_access_sync_init init_access
  started-SameNext x p q r = ground arith

  started-IsGroup : last_sync ≢ 0 → IsGroup started (first_group last_sync m fresh)
  unfolding started link_access kaapi_access_sync_init init_access IsGroup Linked pred All owned
      AreNew
  started-IsGroup nz =
      let af = new.2 in
      let sa = new.3.0 in
      let sf = new.4.0 in
      (
        (ground arith, tt),
        ground arith,
        ((ground arith, ground arith, ground arith), tt),
        ground arith,
      )

  -- The groups before it are as they were.
  pub started-AreGroups :
      last_sync ≢ 0 → AreGroups started sync0 (first_group last_sync m fresh ∷ gs)
  unfolding AreGroups owned Distinct AreNew All
  started-AreGroups nz = (
    started-IsGroup nz,
    refl,
    AreGroups-frame dfg started sync0 gs
        (All-weaken₂ _ _ _ started-Same (owned sync0 gs) new.3 new.4)
        (All-weaken₂ (λ x. (x ≢ m.access) × (x ≢ fresh)) (λ x. x ≢ last_sync) _
          (λ x p q. started-SameNext x p.0 p.1 q) (inner sync0 gs)
          (All-weaken₂ _ _ _ (λ x p q. (p, q)) (inner sync0 gs) new.3.1 new.4.1) distinct.0)
        are,
  )

-- A further access in the newest group.
module _ (dfg : Dfg) (sync0 : ℕ) (g : Group) (gs : List Group) (m : Member) (fresh : ℕ)
    (are : AreGroups dfg sync0 (g ∷ gs)) (distinct : Distinct (owned sync0 (g ∷ gs)))
    (new : AreNew m.access fresh (owned sync0 (g ∷ gs))) where
  unfoldable pub extended : Dfg
  extended =
      (link_access (init_access dfg m.access m.task m.mode)
        (record { sync0 = sync0; last = g.recent.access; sync = g.sync }) m.access m.task).0

  pub extended-Same : (x : ℕ) → x ≢ m.access → x ≢ g.sync → Same dfg extended x
  unfolding extended link_access init_access Same
  extended-Same x p q = (ground arith, ground arith, ground arith, ground arith)

  extended-SameNext : (x : ℕ) → x ≢ m.access → x ≢ g.recent.access → SameNext dfg extended x
  unfolding extended link_access init_access
  extended-SameNext x p r = ground arith

  -- The other accesses of the group and the older addresses are neither the new access, nor the
  -- synchronisation point of the group, nor the access that was the newest.
  abbrev pub Apart : ℕ → Type 0
  Apart x = All (λ (m' : Member). m'.access ≢ x) g.older × All (λ y. y ≢ x) (owned sync0 gs)

  pub apart : Apart m.access × Apart g.sync × Apart g.recent.access
  unfolding owned inner newest_sync addresses AreNew Distinct All
  apart = (
    All-addresses (λ y. y ≢ m.access) g.older (owned sync0 gs) new.3.1.1,
    All-addresses (λ y. y ≢ g.sync) g.older (owned sync0 gs) distinct.0.1,
    All-addresses (λ y. y ≢ g.recent.access) g.older (owned sync0 gs) distinct.1.0,
  )

  extended-Linked : Linked extended.next g.before (members g)
  unfolding AreGroups owned All IsGroup
  extended-Linked =
      Linked-frame dfg extended g.before g.recent g.older
        (rw are.1 (extended-SameNext (newest_sync sync0 gs) apart.0.1.0 apart.2.1.0))
        (All-weaken₂ _ _ _ (λ (x : Member) p q. extended-SameNext x.access p q) g.older apart.0.0
          apart.2.0)
        are.0.0

  extended-Holds : All (Holds extended g.sync) (members g)
  unfolding AreGroups owned inner newest_sync addresses AreNew All IsGroup Distinct
  extended-Holds =
      Holds-frame dfg extended g.sync (members g)
        (
          extended-Same g.recent.access new.3.1.0 distinct.0.0,
          All-weaken₂ _ _ _ (λ (x : Member) p q. extended-Same x.access p q) g.older apart.0.0
              apart.1.0,
        )
        are.0.2

  extended-IsGroup : g.recent.access ≢ 0 → IsGroup extended (extend g m)
  unfolding IsGroup AreGroups Linked pred All owned inner addresses AreNew newest_sync extended
      link_access init_access
  extended-IsGroup nz =
      let ra = new.3.1.0 in
      let sa = new.3.0 in
      let counted = are.0.3 in
      (
        (ground arith, extended-Linked),
        ground arith,
        ((ground arith, ground arith, ground arith), extended-Holds),
        ground arith,
      )

  pub extended-AreGroups : g.recent.access ≢ 0 → AreGroups extended sync0 (extend g m ∷ gs)
  unfolding AreGroups owned All
  extended-AreGroups nz = (
    extended-IsGroup nz,
    are.1,
    AreGroups-frame dfg extended sync0 gs
        (All-weaken₂ _ _ _ extended-Same (owned sync0 gs) apart.0.1 apart.1.1)
        (All-weaken₂ _ _ _ extended-SameNext (inner sync0 gs) apart.0.1.1 apart.2.1.1) are.2,
  )

-- the memory with the fields of the access and a new synchronisation point
abbrev pub fresh_sync : Dfg → ℕ → ℕ → ℕ → ℕ → Dfg
fresh_sync dfg a task mode fresh = kaapi_access_sync_init (init_access dfg a task mode) fresh

-- Which of the two a call does.
module _ (dfg : Dfg) (a task mode sync0 last sync fresh : ℕ) (other : last ≢ a) where
  abbrev pub handle : Handle
  handle = record { sync0 = sync0; last = last; sync = sync }

  swap_sync-joins :
      swap_sync (init_access dfg a task mode) handle mode
      ≡ (if joins mode (dfg.mode last) then handle else record handle { last = sync; sync = 0 })
  unfolding swap_sync init_access
  swap_sync-joins =
      let same : update dfg.mode a mode last ≡ dfg.mode last = ground arith in
      rw same (swap (dfg.mode last == access_mode_void) (access_is_concurrent mode (dfg.mode last)))
    where
      swap :
          (b c : Bool)
          → (if not b && not c then record handle { last = sync; sync = 0 } else handle)
            ≡ (if b || c then handle else record handle { last = sync; sync = 0 })
      swap true c = refl
      swap false true = refl
      swap false false = refl

  pub join_first :
      joins mode (dfg.mode last) ≡ true
      → sync ≡ 0
      → kaapi_update_dependencies dfg a task mode handle fresh
        ≡ link_access (fresh_sync dfg a task mode fresh) (record handle { sync = fresh }) a task
  unfolding kaapi_update_dependencies new_sync
  join_first j e = rw (swap_sync-joins, j, e) refl

  pub join_newest :
      joins mode (dfg.mode last) ≡ true
      → sync ≢ 0
      → kaapi_update_dependencies dfg a task mode handle fresh
        ≡ link_access (init_access dfg a task mode) handle a task
  unfolding kaapi_update_dependencies new_sync
  join_newest j ne = let f : sync == 0 ≡ false = ground arith in rw (swap_sync-joins, j, f) refl

  pub start_next :
      joins mode (dfg.mode last) ≡ false
      → kaapi_update_dependencies dfg a task mode handle fresh
        ≡ link_access
            (fresh_sync dfg a task mode fresh)
            (record handle { last = sync; sync = fresh })
            a
            task
  unfolding kaapi_update_dependencies new_sync
  start_next j = rw (swap_sync-joins, j) refl
