-- ===== src/Kaapi/Heap/Correct.antt =====
-- The heap of a device keeps its shape, allocation by allocation and release by release.
use xkblas.Base.{
  ◌+◌, ◌^◌, ◌<◌, arith, ◌++◌, Bool-cases, inl, inr, ℕ, suc, ◌≤◌, ◌≡◌, ◌≢◌, refl, sym, ap, subst,
  ◌∙◌, true, false, some, List, [], ◌∷◌,
}
use xkblas.Kaapi.Heap.{
  Strategy, Chunk, Place, Heap, Fresh, zip_up, locate, take, free_at, alloc_in, alloc_size, split,
  splits, reserve, kaapi_memory_alloc, kaapi_memory_free,
}
use xkblas.Kaapi.Heap.Places.{locate-zip_up, alloc_in-some}
use xkblas.Kaapi.Heap.Tiles.{Tile, alloc-Tile, free_at-Tile}
use xkblas.Kaapi.Heap.FreeList.{free_ids, AreNamed, alloc-free_ids, All-zip_up}
use xkblas.Kaapi.Heap.FreeList.Release.{release_lem}
use xkblas.Kaapi.Heap.Names.{Others, split-AreNamed, free-AreNamed}

-- The chunks tile the memory from `base` to `end`, they have different names, and the free list holds
-- the free ones in the order of their addresses.
unfoldable pub IsHeap : ℕ → ℕ → Heap → Type 0
IsHeap base end heap =
    Tile base heap.chunks end × AreNamed heap.chunks × (free_ids heap.chunks ≡ heap.free_chunk_list)

-- A device whose memory is reserved is left alone.
pub reserved : (heap : Heap) (fresh : Fresh) → heap.main_chunk ≡ true → reserve heap fresh ≡ heap
unfolding reserve
reserved heap fresh main = by_case heap.free_chunk_list refl
  where
    by_case : (l : List ℕ) → heap.free_chunk_list ≡ l → reserve heap fresh ≡ heap
    by_case [] e = simp (reserve, e, main) refl
    by_case (x ∷ xs) e = simp (reserve, e) refl

alloc_size-le : (size : ℕ) → size + 7 < 2 ^ 64 → size ≤ alloc_size size
unfolding alloc_size
alloc_size-le size h = ground arith

-- The chunk that is handed out stands where the free one stood: among the chunks, at the same address, it
-- is in use and has at least a number of bytes.
unfoldable pub HandedOut : List Chunk → Place → ℕ → Type 0
HandedOut chunks at size =
    (got : Chunk) × (rest : List Chunk) × (chunks ≡ zip_up at.prev (got ∷ rest))
    × (got.device_ptr ≡ at.chunk.device_ptr)
    × (got.is_free ≡ false)
    × (size ≤ got.size)

split-HandedOut :
    (strategy : Strategy) (at : Place) (size aligned remainder : ℕ)
    → size ≤ aligned
    → aligned ≤ at.chunk.size
    → HandedOut (zip_up at.prev (split strategy at.chunk aligned remainder ++ at.next)) at size
unfolding split HandedOut
split-HandedOut strategy at size aligned remainder le fits =
    elim (Bool-cases (splits strategy at.chunk aligned)) [
      | inl t ↦ rw (split, t) (_, _, refl, refl, refl, le)
      | inr f ↦ rw (split, f) (_, _, refl, refl, refl, omega arith)
    ]

-- In a heap whose memory is reserved, if kaapi_memory_alloc returns a chunk, this chunk was free and is in
-- use now, at the same address and with at least the size that is asked for; and the heap keeps its
-- shape: the chunks tile the memory of the device, they have different names, and the free list holds the
-- free ones in the order of their addresses. It is for a size that does not wrap around when it is rounded
-- up, and a name of the remainder that no chunk has.
pub alloc-IsHeap :
    (strategy : Strategy) (base end : ℕ) (heap : Heap) (size : ℕ) (fresh : Fresh) (at : Place)
    → IsHeap base end heap
    → heap.main_chunk ≡ true
    → Others fresh.remainder heap.chunks
    → size + 7 < 2 ^ 64
    → (kaapi_memory_alloc strategy heap size fresh).0 ≡ some at
    → (at.chunk.is_free ≡ true)
      × HandedOut (kaapi_memory_alloc strategy heap size fresh).1.chunks at size
      × IsHeap base end (kaapi_memory_alloc strategy heap size fresh).1
unfolding kaapi_memory_alloc IsHeap take
alloc-IsHeap strategy base end heap size fresh at is main new small h =
    let same = reserved heap fresh main in
    let h' = (rw same at h) in
    let tile = alloc-Tile strategy heap base end (alloc_size size) fresh.remainder at is.0 h' in
    let list = alloc-free_ids strategy heap (alloc_size size) fresh.remainder at is.1 is.2 h' in
    rw same (list.0, got h' tile.0, (tile.1, names h', list.1))
  where
    got :
        (alloc_in strategy heap (alloc_size size) fresh.remainder).0 ≡ some at
        → alloc_size size ≤ at.chunk.size
        → HandedOut (alloc_in strategy heap (alloc_size size) fresh.remainder).1.chunks at size
    got h' fits =
        let known = alloc_in-some strategy heap (alloc_size size) fresh.remainder at h' in
        rw known.3 (
          split-HandedOut strategy at size (alloc_size size) fresh.remainder
            (alloc_size-le size small) fits)

    names :
        (alloc_in strategy heap (alloc_size size) fresh.remainder).0 ≡ some at
        → AreNamed (alloc_in strategy heap (alloc_size size) fresh.remainder).1.chunks
    names h' =
        let known = alloc_in-some strategy heap (alloc_size size) fresh.remainder at h' in
        let others =
          All-zip_up (λ (c : Chunk). c.id ≢ fresh.remainder) at.prev (at.chunk ∷ at.next)
            (subst (Others fresh.remainder) (sym known.1) new) in
        rw known.3 (
          split-AreNamed strategy at.chunk (alloc_size size) fresh.remainder at.prev at.next
            others.0 others.1 (subst AreNamed (sym known.1) is.1))

-- kaapi_memory_free of a chunk that is allocated keeps the shape of the heap.
pub free-IsHeap :
    (base end : ℕ) (heap : Heap) (ptr : ℕ) (at : Place)
    → IsHeap base end heap
    → locate [] heap.chunks (suc ptr) ≡ some at
    → at.chunk.is_free ≡ false
    → IsHeap base end (kaapi_memory_free heap (suc ptr))
unfolding kaapi_memory_free IsHeap free_at zip_up
free-IsHeap base end heap ptr at is l used =
    let z = (locate-zip_up [] heap.chunks (suc ptr) at l).0 in
    let named : AreNamed (zip_up at.prev (at.chunk ∷ at.next)) = subst AreNamed (sym z) is.1 in
    rw (kaapi_memory_free, l)
      (
        free_at-Tile heap base end at z is.0,
        free-AreNamed at.chunk at.prev at.next named,
        release_lem at.chunk heap.free_chunk_list used at.prev at.next named (ap free_ids z ∙ is.2),
      )
