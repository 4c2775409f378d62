-- ===== src/Kaapi/Dependencies/Links.antt =====
-- How the accesses of the memory are linked into groups, and which writes leave the links alone.
use xkblas.Base.{ℕ, ◌≡◌, ◌∙◌, List, [], ◌∷◌, length, All}
use xkblas.Kaapi.Dependencies.{Dfg}
use xkblas.Kaapi.Dependencies.Groups.{Member, Group, members}

-- the address whose `next` leads to the newest access
unfoldable pub pred : ℕ → List Member → ℕ
pred before [] = before
pred before (m ∷ ms) = m.access

-- From `before`, the fields `next` lead through the accesses, the newest last.
unfoldable pub Linked : (ℕ → ℕ) → ℕ → List Member → Type 0
Linked next before [] = Unit {0}
Linked next before (m ∷ ms) = (next (pred before ms) ≡ m.access) × Linked next before ms

abbrev pub Holds : Dfg → ℕ → Member → Type 0
Holds dfg sync m =
    (dfg.sync m.access ≡ sync) × (dfg.mode m.access ≡ m.mode) × (dfg.task m.access ≡ m.task)

-- The accesses of the group are linked from `before`, the newest being the end, and the counter of
-- `sync` is their number.
unfoldable pub IsGroup : Dfg → Group → Type 0
IsGroup dfg g =
    Linked dfg.next g.before (members g)
    × (dfg.next g.recent.access ≡ 0)
    × All (Holds dfg g.sync) (members g)
    × (dfg.wc g.sync ≡ length (members g))

unfoldable pub newest_sync : ℕ → List Group → ℕ
newest_sync sync0 [] = sync0
newest_sync sync0 (g ∷ gs) = g.sync

-- Each group waits for the synchronisation point of the one before it.
unfoldable pub AreGroups : Dfg → ℕ → List Group → Type 0
AreGroups dfg sync0 [] = Unit {0}
AreGroups dfg sync0 (g ∷ gs) =
    IsGroup dfg g × (g.before ≡ newest_sync sync0 gs) × AreGroups dfg sync0 gs

unfoldable pub addresses : List Member → List ℕ → List ℕ
addresses [] rest = rest
addresses (m ∷ ms) rest = m.access ∷ addresses ms rest

-- the addresses that the groups use, without the newest synchronisation point
unfoldable pub inner : ℕ → List Group → List ℕ
inner sync0 [] = []
inner sync0 (g ∷ gs) = addresses (members g) (newest_sync sync0 gs ∷ inner sync0 gs)

unfoldable pub owned : ℕ → List Group → List ℕ
owned sync0 gs = newest_sync sync0 gs ∷ inner sync0 gs

module _ (dfg dfg' : Dfg) where
  -- The access has the same fields, up to `next`.
  unfoldable pub Same : ℕ → Type 0
  Same x =
      (dfg'.sync x ≡ dfg.sync x)
      × (dfg'.mode x ≡ dfg.mode x)
      × (dfg'.task x ≡ dfg.task x)
      × (dfg'.wc x ≡ dfg.wc x)

  abbrev pub SameNext : ℕ → Type 0
  SameNext x = dfg'.next x ≡ dfg.next x

  abbrev SameLinks : List Member → Type 0
  SameLinks ms = All (λ (m : Member). SameNext m.access) ms

  -- The link to the newest access does not depend on its own field `next`.
  pub Linked-frame :
      (before : ℕ) (m : Member) (ms : List Member)
      → SameNext before
      → SameLinks ms
      → Linked dfg.next before (m ∷ ms)
      → Linked dfg'.next before (m ∷ ms)
  unfolding Linked pred All
  Linked-frame before m [] sb same l = (sb ∙ l.0, tt)
  Linked-frame before m (m' ∷ ms) sb same l =
      (same.0 ∙ l.0, Linked-frame before m' ms sb same.1 l.1)

  pub Holds-frame :
      (sync : ℕ) (ms : List Member)
      → All (λ (m : Member). Same m.access) ms
      → All (Holds dfg sync) ms
      → All (Holds dfg' sync) ms
  unfolding All Same
  Holds-frame sync [] same h = tt
  Holds-frame sync (m ∷ ms) same h =
      ((same.0.0 ∙ h.0.0, same.0.1 ∙ h.0.1, same.0.2 ∙ h.0.2), Holds-frame sync ms same.1 h.1)

-- What holds of addresses, of the members and of the rest
pub All-addresses :
    (P : ℕ → Type 0) (ms : List Member) (rest : List ℕ)
    → All P (addresses ms rest)
    → All (λ (m : Member). P m.access) ms × All P rest
unfolding All addresses
All-addresses P [] rest h = (tt, h)
All-addresses P (m ∷ ms) rest h = let r = All-addresses P ms rest h.1 in ((h.0, r.0), r.1)

-- Writes outside the addresses of the groups leave them as they are.
pub AreGroups-frame :
    (dfg dfg' : Dfg) (sync0 : ℕ) (gs : List Group)
    → All (Same dfg dfg') (owned sync0 gs)
    → All (SameNext dfg dfg') (inner sync0 gs)
    → AreGroups dfg sync0 gs
    → AreGroups dfg' sync0 gs
unfolding AreGroups All owned inner IsGroup newest_sync Same
AreGroups-frame dfg dfg' sync0 [] same next h = tt
AreGroups-frame dfg dfg' sync0 (g ∷ gs) same next h =
    let s = All-addresses (Same dfg dfg') (members g) _ same.1 in
    let n = All-addresses (SameNext dfg dfg') (members g) _ next in
    (
      (
        Linked-frame dfg dfg' g.before g.recent g.older (rw h.1 n.1.0) n.0.1 h.0.0,
        n.0.0 ∙ h.0.1,
        Holds-frame dfg dfg' g.sync (members g) s.0 h.0.2,
        same.0.3 ∙ h.0.3,
      ),
      h.1,
      AreGroups-frame dfg dfg' sync0 gs s.1 n.1.1 h.2,
    )
