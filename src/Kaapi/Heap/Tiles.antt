-- ===== src/Kaapi/Heap/Tiles.antt =====
-- The chunks tile the memory of the device: each starts where the one before it ends.
use xkblas.Base.{
  ℕ, zero, suc, ◌+◌, ◌-◌, ◌≤◌, ◌≡◌, refl, ap, arith, Option, none, some, List, [], ◌∷◌, ◌++◌,
  Bool-cases, inl, inr,
}
use xkblas.Kaapi.Heap.{
  Strategy, Chunk, Place, Heap, zip_up, split, splits, merge_next, merge_prev, take, free_at,
  alloc_in, locate, kaapi_memory_free,
}
use xkblas.Kaapi.Heap.Places.{locate-zip_up, alloc_in-some}

unfoldable pub Tile : ℕ → List Chunk → ℕ → Type 0
Tile base [] end = base ≡ end
Tile base (c ∷ cs) end = (c.device_ptr ≡ base) × Tile (base + c.size) cs end

-- the same for the chunks before a place
unfoldable pub TileBack : ℕ → List Chunk → ℕ → Type 0
TileBack base [] mid = base ≡ mid
TileBack base (p ∷ ps) mid = TileBack base ps p.device_ptr × (p.device_ptr + p.size ≡ mid)

pub zip_up-Tile :
    (base mid end : ℕ) (ps cs : List Chunk)
    → TileBack base ps mid
    → Tile mid cs end
    → Tile base (zip_up ps cs) end
unfolding Tile TileBack zip_up
zip_up-Tile base mid end [] cs b t = rw b t
zip_up-Tile base mid end (p ∷ ps) cs b t =
    zip_up-Tile base p.device_ptr end ps (p ∷ cs) b.0 (refl, rw b.1 t)

pub zip_up-Tile_back :
    (base end : ℕ) (ps cs : List Chunk)
    → Tile base (zip_up ps cs) end
    → (mid : ℕ) × TileBack base ps mid × Tile mid cs end
unfolding Tile TileBack zip_up
zip_up-Tile_back base end [] cs t = (base, refl, t)
zip_up-Tile_back base end (p ∷ ps) cs t =
    let r = zip_up-Tile_back base end ps (p ∷ cs) t in
    (r.0 + p.size, ((rw r.2.0 r.1), ap (λ (x : ℕ). x + p.size) r.2.0), r.2.1)

split-Tile :
    (strategy : Strategy) (mid end size remainder : ℕ) (c : Chunk) (ns : List Chunk)
    → size ≤ c.size
    → Tile mid (c ∷ ns) end
    → Tile mid (split strategy c size remainder ++ ns) end
unfolding Tile split
split-Tile strategy mid end size remainder c ns h t = elim (Bool-cases (splits strategy c size)) [
  | inl s ↦
      let whole : mid + size + (c.size - size) ≡ mid + c.size = omega arith in
      rw s (t.0, (omega (arith, t.0), rw whole t.1))
  | inr s ↦ rw s t
]

merge_next-Tile :
    (mid end : ℕ) (c : Chunk) (ns : List Chunk)
    → Tile mid (c ∷ ns) end
    → Tile mid (merge_next c ns) end
unfolding Tile merge_next
merge_next-Tile mid end c [] t = t
merge_next-Tile mid end c (n ∷ ns) t = elim (Bool-cases n.is_free) [
  | inl f ↦
      let whole : mid + (n.size + c.size) ≡ mid + c.size + n.size = omega arith in
      rw f (t.0, rw whole t.1.1)
  | inr f ↦ rw f t
]

merge_prev-Tile :
    (base mid end : ℕ) (ps ms : List Chunk)
    → TileBack base ps mid
    → Tile mid ms end
    → Tile base (merge_prev ps ms) end
unfolding Tile TileBack merge_prev
merge_prev-Tile base mid end [] ms b t = rw b t
merge_prev-Tile base mid end (p ∷ ps) [] b t = zip_up-Tile base mid end (p ∷ ps) [] b t
merge_prev-Tile base mid end (p ∷ ps) (m ∷ ms) b t = elim (Bool-cases p.is_free) [
  | inl f ↦ rw f (zip_up-Tile base p.device_ptr end ps _ b.0 (refl, rw (whole b.1) t.1))
  | inr f ↦ simp f (zip_up-Tile base mid end (p ∷ ps) (m ∷ ms) b t)
]
  where
    whole : p.device_ptr + p.size ≡ mid → p.device_ptr + (p.size + m.size) ≡ mid + m.size
    whole e = omega arith

-- A chunk that is found has at least the size that is asked for, and afterwards the chunks tile the memory
-- again.
pub alloc-Tile :
    (strategy : Strategy) (heap : Heap) (base end size remainder : ℕ) (at : Place)
    → Tile base heap.chunks end
    → (alloc_in strategy heap size remainder).0 ≡ some at
    → (size ≤ at.chunk.size) × Tile base (alloc_in strategy heap size remainder).1.chunks end
unfolding take
alloc-Tile strategy heap base end size remainder at t h =
    let known = alloc_in-some strategy heap size remainder at h in
    let z = zip_up-Tile_back base end at.prev (at.chunk ∷ at.next) (rw known.1 t) in
    (
      known.2,
      rw known.3 (
          zip_up-Tile base z.0 end at.prev _ z.1
            (split-Tile strategy z.0 end size remainder at.chunk at.next known.2 z.2)),
    )

pub free_at-Tile :
    (heap : Heap) (base end : ℕ) (at : Place)
    → zip_up at.prev (at.chunk ∷ at.next) ≡ heap.chunks
    → Tile base heap.chunks end
    → Tile base (free_at heap at).chunks end
unfolding free_at
free_at-Tile heap base end at e t =
    let z = zip_up-Tile_back base end at.prev (at.chunk ∷ at.next) (rw e t) in
    merge_prev-Tile base z.0 end at.prev (merge_next at.chunk at.next) z.1
      (merge_next-Tile z.0 end at.chunk at.next z.2)

free-Tile :
    (heap : Heap) (base end ptr : ℕ)
    → Tile base heap.chunks end
    → Tile base (kaapi_memory_free heap ptr).chunks end
unfolding kaapi_memory_free zip_up
free-Tile heap base end zero t = t
free-Tile heap base end (suc i) t = by_case (locate [] heap.chunks (suc i)) refl
  where
    by_case :
        (o : Option Place)
        → locate [] heap.chunks (suc i) ≡ o
        → Tile base (kaapi_memory_free heap (suc i)).chunks end
    by_case none l = rw (kaapi_memory_free, l) t
    by_case (some at) l =
        rw (kaapi_memory_free, l)
          (free_at-Tile heap base end at (locate-zip_up [] heap.chunks (suc i) at l).0 t)
