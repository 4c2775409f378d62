-- ===== src/Kaapi/Heap/Coalesce.antt =====
-- No two free chunks are neighbours.
use xkblas.Base.{
  ℕ, suc, ◌≡◌, refl, sym, subst, Bool, true, false, ◌&&◌, Option, none, some, List, [], ◌∷◌, ◌++◌,
  Bool-cases, inl, inr,
}
use mathlib.Core.Bool.{false≢true}
use xkblas.Kaapi.Heap.{
  Strategy, Chunk, Place, Heap, Fresh, zip_up, locate, split, splits, merge_next, merge_prev,
  starts_free, take, free_at, alloc_size, kaapi_memory_alloc, kaapi_memory_free,
}
use xkblas.Kaapi.Heap.Places.{locate-zip_up, alloc_in-some}
use xkblas.Kaapi.Heap.FreeList.{alloc-free_ids}
use xkblas.Kaapi.Heap.Correct.{IsHeap, reserved}

unfoldable pub AreApart : List Chunk → Type 0
AreApart [] = Unit {0}
AreApart (c ∷ cs) = (c.is_free && starts_free cs ≡ false) × AreApart cs

-- the same for the chunks before a place, where `next` says whether the chunk there is free
unfoldable ApartBack : List Chunk → Bool → Type 0
ApartBack [] next = Unit {0}
ApartBack (p ∷ ps) next = (p.is_free && next ≡ false) × ApartBack ps p.is_free

zip_up-AreApart :
    (ps cs : List Chunk) → ApartBack ps (starts_free cs) → AreApart cs → AreApart (zip_up ps cs)
unfolding zip_up AreApart ApartBack starts_free
zip_up-AreApart [] cs b a = a
zip_up-AreApart (p ∷ ps) cs b a = zip_up-AreApart ps (p ∷ cs) b.1 (b.0, a)

zip_up-AreApart_back :
    (ps cs : List Chunk) → AreApart (zip_up ps cs) → ApartBack ps (starts_free cs) × AreApart cs
unfolding zip_up AreApart ApartBack starts_free
zip_up-AreApart_back [] cs a = (tt, a)
zip_up-AreApart_back (p ∷ ps) cs a =
    let r = zip_up-AreApart_back ps (p ∷ cs) a in ((r.1.0, r.0), r.1.1)

and_false : (b : Bool) → b && false ≡ false
and_false true = refl
and_false false = refl

ApartBack-false : (ps : List Chunk) (next : Bool) → ApartBack ps next → ApartBack ps false
unfolding ApartBack
ApartBack-false [] next b = tt
ApartBack-false (p ∷ ps) next b = (and_false p.is_free, b.1)

split-AreApart :
    (strategy : Strategy) (c : Chunk) (size remainder : ℕ) (ps ns : List Chunk)
    → c.is_free ≡ true
    → AreApart (zip_up ps (c ∷ ns))
    → AreApart (zip_up ps (split strategy c size remainder ++ ns))
unfolding split AreApart starts_free
split-AreApart strategy c size remainder ps ns f a =
    let r = zip_up-AreApart_back ps (c ∷ ns) a in
    let next : starts_free ns ≡ false = rw f at r.1.0 in
    elim (Bool-cases (splits strategy c size)) [
      | inl s ↦ rw s (zip_up-AreApart ps _ (ApartBack-false ps _ r.0) (refl, (next, r.1.1)))
      | inr s ↦ rw s (zip_up-AreApart ps _ (ApartBack-false ps _ r.0) (refl, r.1.1))
    ]

merge_next-AreApart :
    (c : Chunk) (ns : List Chunk)
    → AreApart ns
    → (starts_free (merge_next c ns) ≡ true) × AreApart (merge_next c ns)
unfolding merge_next AreApart starts_free
merge_next-AreApart c [] a = (refl, (refl, tt))
merge_next-AreApart c (n ∷ ns) a = elim (Bool-cases n.is_free) [
  | inl f ↦ let next : starts_free ns ≡ false = rw f at a.0 in simp f (refl, (next, a.1))
  | inr f ↦ simp f (refl, (refl, (refl, a.1)))
]

merge_prev-AreApart :
    (ps ms : List Chunk) (next : Bool)
    → ApartBack ps next
    → starts_free ms ≡ true
    → AreApart ms
    → AreApart (merge_prev ps ms)
unfolding merge_prev AreApart ApartBack starts_free
merge_prev-AreApart [] ms next b f a = a
merge_prev-AreApart (p ∷ ps) [] next b f a = absurd (false≢true f)
merge_prev-AreApart (p ∷ ps) (m ∷ ms) next b f a = elim (Bool-cases p.is_free) [
  | inl g ↦
      let after : starts_free ms ≡ false = rw f at a.0 in
      simp g (zip_up-AreApart ps _ (rw g at b.1) (rw after refl, a.1))
  | inr g ↦ simp g (zip_up-AreApart (p ∷ ps) (m ∷ ms) (rw g refl, b.1) a)
]

-- In a heap of the shape `IsHeap`, whose memory is reserved and in which no free chunks are neighbours,
-- none are after a call of kaapi_memory_alloc that returns a chunk.
pub alloc-AreApart :
    (strategy : Strategy) (base end : ℕ) (heap : Heap) (size : ℕ) (fresh : Fresh) (at : Place)
    → IsHeap base end heap
    → heap.main_chunk ≡ true
    → AreApart heap.chunks
    → (kaapi_memory_alloc strategy heap size fresh).0 ≡ some at
    → AreApart (kaapi_memory_alloc strategy heap size fresh).1.chunks
unfolding kaapi_memory_alloc IsHeap take
alloc-AreApart strategy base end heap size fresh at is main a h =
    let same = reserved heap fresh main in
    let h' = (rw same at h) in
    let known = alloc_in-some strategy heap (alloc_size size) fresh.remainder at h' in
    let free = (alloc-free_ids strategy heap (alloc_size size) fresh.remainder at is.1 is.2 h').0 in
    rw (same, known.3)
      (split-AreApart strategy at.chunk (alloc_size size) fresh.remainder at.prev at.next free
        (subst AreApart (sym known.1) a))

-- kaapi_memory_free merges the chunk that it frees with its free neighbours: in a heap without
-- neighbouring free chunks, there are none afterwards, whatever the pointer.
pub free-AreApart :
    (heap : Heap) (ptr : ℕ)
    → AreApart heap.chunks
    → AreApart (kaapi_memory_free heap (suc ptr)).chunks
unfolding kaapi_memory_free free_at zip_up AreApart starts_free
free-AreApart heap ptr a = by_case (locate [] heap.chunks (suc ptr)) refl
  where
    by_case :
        (o : Option Place)
        → locate [] heap.chunks (suc ptr) ≡ o
        → AreApart (kaapi_memory_free heap (suc ptr)).chunks
    by_case none l = rw (kaapi_memory_free, l) a
    by_case (some at) l =
        let z = (locate-zip_up [] heap.chunks (suc ptr) at l).0 in
        let r = zip_up-AreApart_back at.prev (at.chunk ∷ at.next) (subst AreApart (sym z) a) in
        let m = merge_next-AreApart at.chunk at.next r.1.1 in
        rw (kaapi_memory_free, l)
          (merge_prev-AreApart at.prev (merge_next at.chunk at.next) at.chunk.is_free r.0 m.0 m.1)
