-- ===== src/Kaapi/Heap/Fit.antt =====
-- kaapi_memory_alloc returns the null pointer only if it must.
use xkblas.Base.{
  ℕ, ◌<◌, ◌≡◌, ◌≢◌, refl, sym, arith, Bool, true, false, Option, none, some, List, [], ◌∷◌, ◌==◌,
  leb, if◌then◌else◌, Bool-cases, inl, inr, All, All-weaken₂,
}
use mathlib.Core.Option.{none-ne-some}
use mathlib.Core.Bool.{false≢true}
use xkblas.Kaapi.Heap.{
  Strategy, heap_first_fit, heap_best_fit, Chunk, Place, Heap, Fresh, locate, size_at, first_fit,
  best_fit, fit, alloc_in, alloc_size, kaapi_memory_alloc,
}
use xkblas.Kaapi.Heap.FreeList.{free_ids, AreNamed, fit-All, free_ids-All}
use xkblas.Kaapi.Heap.Correct.{IsHeap, reserved}

some-ne-none : (x : ℕ) → some x ≢ none
some-ne-none x e = none-ne-some x (sym e)

abbrev TooSmall : List Chunk → ℕ → List ℕ → Type 0
TooSmall chunks size list = All (λ x. size_at chunks x < size) list

first_fit-none :
    (chunks : List Chunk) (size : ℕ) (list : List ℕ)
    → first_fit chunks size list ≡ none
    → TooSmall chunks size list
unfolding first_fit All
first_fit-none chunks size [] h = tt
first_fit-none chunks size (x ∷ xs) h = elim (Bool-cases (leb size (size_at chunks x))) [
  | inl t ↦ absurd (some-ne-none x (rw t at h))
  | inr f ↦ (ground arith, first_fit-none chunks size xs (rw f at h))
]

best_fit-none :
    (chunks : List Chunk) (size : ℕ) (winner : Option ℕ) (list : List ℕ)
    → best_fit chunks size winner list ≡ none
    → (winner ≡ none) × TooSmall chunks size list
unfolding best_fit All
best_fit-none chunks size winner [] h = (h, tt)
best_fit-none chunks size winner (x ∷ xs) h = elim (Bool-cases (leb size (size_at chunks x))) [
  | inl t ↦ absurd (some-ne-none x (best_fit-none chunks size (some x) xs (rw t at h)).0)
  | inr f ↦ let r = best_fit-none chunks size winner xs (rw f at h) in (r.0, (ground arith, r.1))
]

fit-none :
    (strategy : Strategy) (chunks : List Chunk) (size : ℕ) (list : List ℕ)
    → fit strategy chunks size list ≡ none
    → TooSmall chunks size list
unfolding fit
fit-none heap_first_fit chunks size list h = first_fit-none chunks size list h
fit-none heap_best_fit chunks size list h = (best_fit-none chunks size none list h).1

-- A chunk that is not located is not there.
locate-none :
    (prev cs : List Chunk) (id : ℕ) → locate prev cs id ≡ none → All (λ (c : Chunk). c.id ≢ id) cs
unfolding locate All
locate-none prev [] id h = tt
locate-none prev (c ∷ cs) id h = elim (Bool-cases (c.id == id)) [
  | inl t ↦ absurd (none-ne-some _ (sym (rw t at h)))
  | inr f ↦ ((λ e. ground arith), locate-none (c ∷ prev) cs id (rw f at h))
]

peel :
    (P : ℕ → Type 0) (b : Bool) (x : ℕ) (xs : List ℕ)
    → All P (if b then x ∷ xs else xs)
    → (b ≡ true → P x) × All P xs
unfolding All
peel P true x xs h = (λ e. h.0, h.1)
peel P false x xs h = (λ e. absurd (false≢true e), h)

-- The sizes behind the names of the free list are those of the free chunks.
TooSmall-chunks :
    (size : ℕ) (cs : List Chunk)
    → AreNamed cs
    → TooSmall cs size (free_ids cs)
    → All (λ (c : Chunk). c.is_free ≡ true → c.size < size) cs
unfolding AreNamed free_ids All size_at
TooSmall-chunks size [] names h = tt
TooSmall-chunks size (c ∷ cs) names h =
    let here = peel (λ x. size_at (c ∷ cs) x < size) c.is_free c.id (free_ids cs) h in
    let same : c.id == c.id ≡ true = ground arith in
    (
      λ e. rw same at here.0 e,
      TooSmall-chunks size cs names.1 (
          All-weaken₂ (λ x. size_at (c ∷ cs) x < size) (λ x. x ≢ c.id) (λ x. size_at cs x < size)
            skip (free_ids cs) here.1 (free_ids-All (λ y. y ≢ c.id) cs names.0)),
    )
  where
    skip : (x : ℕ) → size_at (c ∷ cs) x < size → x ≢ c.id → size_at cs x < size
    skip x p q = let f : c.id == x ≡ false = ground arith in rw f at p

-- In a heap of the shape `IsHeap` whose memory is reserved, kaapi_memory_alloc returns the null pointer only if every free
-- chunk is smaller than the size that is asked for, rounded up.
pub alloc_fails :
    (strategy : Strategy) (base end : ℕ) (heap : Heap) (size : ℕ) (fresh : Fresh)
    → IsHeap base end heap
    → heap.main_chunk ≡ true
    → (kaapi_memory_alloc strategy heap size fresh).0 ≡ none
    → All (λ (c : Chunk). c.is_free ≡ true → c.size < alloc_size size) heap.chunks
unfolding kaapi_memory_alloc IsHeap alloc_in
alloc_fails strategy base end heap size fresh is main h =
    by_case (fit strategy heap.chunks (alloc_size size) heap.free_chunk_list) refl
  where
    alloc_none : (alloc_in strategy heap (alloc_size size) fresh.remainder).0 ≡ none
    alloc_none = rw (reserved heap fresh main) at h

    placed :
        (curr : ℕ)
        → fit strategy heap.chunks (alloc_size size) heap.free_chunk_list ≡ some curr
        → (o : Option Place) → locate [] heap.chunks curr ≡ o
        → All (λ (c : Chunk). c.is_free ≡ true → c.size < alloc_size size) heap.chunks
    placed curr e none l =
        let absent = free_ids-All (λ y. y ≢ curr) heap.chunks (locate-none [] heap.chunks curr l) in
        absurd (
          fit-All (λ y. y ≢ curr) strategy heap.chunks (alloc_size size) curr heap.free_chunk_list
            (rw⁻¹ is.2 absent) e refl)
    placed curr e (some at) l = absurd (none-ne-some at (sym (rw (alloc_in, e, l) at alloc_none)))

    by_case :
        (o : Option ℕ)
        → fit strategy heap.chunks (alloc_size size) heap.free_chunk_list ≡ o
        → All (λ (c : Chunk). c.is_free ≡ true → c.size < alloc_size size) heap.chunks
    by_case none e =
        TooSmall-chunks (alloc_size size) heap.chunks is.1
          (rw is.2 (fit-none strategy heap.chunks (alloc_size size) heap.free_chunk_list e))
    by_case (some curr) e = placed curr e (locate [] heap.chunks curr) refl
