-- ===== src/Kaapi/Heap/Places.antt =====
-- Following pointers in the list of chunks.
use xkblas.Base.{
  ℕ, ◌≤◌, ◌≡◌, refl, sym, ap, ◌∙◌, arith, Option, none, some, List, [], ◌∷◌, ◌==◌, ==_iff, leb,
  Bool-cases, inl, inr,
}
use mathlib.Core.Option.{some-injective, none-ne-some}
use xkblas.Kaapi.Heap.{
  Strategy, Heap, take, alloc_in, Chunk, Place, zip_up, locate, size_at, first_fit, best_fit, fit,
  heap_first_fit, heap_best_fit,
}

-- The place that is located is one of the list, and of the chunk that is looked for.
pub locate-zip_up :
    (prev cs : List Chunk) (id : ℕ) (at : Place)
    → locate prev cs id ≡ some at
    → (zip_up at.prev (at.chunk ∷ at.next) ≡ zip_up prev cs)
      × (at.chunk.id ≡ id)
      × (size_at cs id ≡ at.chunk.size)
unfolding locate zip_up size_at
locate-zip_up prev [] id at h = absurd (none-ne-some at h)
locate-zip_up prev (c ∷ cs) id at h = elim (Bool-cases (c.id == id)) [
  | inl t ↦
      let e = some-injective (record { prev = prev; chunk = c; next = cs }) at (rw t at h) in
      let same = (==_iff c.id id).0 t in rw⁻¹ e (refl, same, rw t refl)
  | inr f ↦ rw f (locate-zip_up (c ∷ prev) cs id at (rw f at h))
]

-- The first fit is large enough.
first_fit-le :
    (chunks : List Chunk) (size : ℕ) (list : List ℕ) (curr : ℕ)
    → first_fit chunks size list ≡ some curr
    → size ≤ size_at chunks curr
unfolding first_fit
first_fit-le chunks size [] curr h = absurd (none-ne-some curr h)
first_fit-le chunks size (x ∷ xs) curr h = elim (Bool-cases (leb size (size_at chunks x))) [
  | inl t ↦ rw⁻¹ (some-injective x curr (rw t at h)) (ground arith)
  | inr f ↦ first_fit-le chunks size xs curr (rw f at h)
]

best_fit-le :
    (chunks : List Chunk) (size : ℕ) (winner : Option ℕ) (list : List ℕ) (curr : ℕ)
    → ((x : ℕ) → winner ≡ some x → size ≤ size_at chunks x)
    → best_fit chunks size winner list ≡ some curr
    → size ≤ size_at chunks curr
unfolding best_fit
best_fit-le chunks size winner [] curr w h = w curr h
best_fit-le chunks size winner (x ∷ xs) curr w h = elim (Bool-cases (leb size (size_at chunks x))) [
  | inl t ↦
      best_fit-le chunks size (some x) xs curr (λ y e. rw⁻¹ (some-injective x y e) (ground arith))
        (rw t at h)
  | inr f ↦ best_fit-le chunks size winner xs curr w (rw f at h)
]

fit-le :
    (strategy : Strategy) (chunks : List Chunk) (size : ℕ) (list : List ℕ) (curr : ℕ)
    → fit strategy chunks size list ≡ some curr
    → size ≤ size_at chunks curr
unfolding fit
fit-le heap_first_fit chunks size list curr h = first_fit-le chunks size list curr h
fit-le heap_best_fit chunks size list curr h =
    best_fit-le chunks size none list curr (λ x e. absurd (none-ne-some x e)) h

-- What is known when a chunk has been found.
pub alloc_in-some :
    (strategy : Strategy) (heap : Heap) (size remainder : ℕ) (at : Place)
    → (alloc_in strategy heap size remainder).0 ≡ some at
    → (fit strategy heap.chunks size heap.free_chunk_list ≡ some at.chunk.id)
      × (zip_up at.prev (at.chunk ∷ at.next) ≡ heap.chunks)
      × (size ≤ at.chunk.size)
      × ((alloc_in strategy heap size remainder).1 ≡ take strategy heap at size remainder)
unfolding alloc_in zip_up
alloc_in-some strategy heap size remainder at h =
    found (fit strategy heap.chunks size heap.free_chunk_list) refl
  where
    Known : Type 0
    Known =
        (fit strategy heap.chunks size heap.free_chunk_list ≡ some at.chunk.id)
        × (zip_up at.prev (at.chunk ∷ at.next) ≡ heap.chunks)
        × (size ≤ at.chunk.size)
        × ((alloc_in strategy heap size remainder).1 ≡ take strategy heap at size remainder)

    placed :
        (curr : ℕ) (o : Option Place)
        → fit strategy heap.chunks size heap.free_chunk_list ≡ some curr
        → locate [] heap.chunks curr ≡ o
        → Known
    placed curr none e l = absurd (none-ne-some at (rw (alloc_in, e, l) at h))
    placed curr (some at') e l =
        let same = some-injective at' at (rw (alloc_in, e, l) at h) in
        let l' = l ∙ ap some same in
        let z = locate-zip_up [] heap.chunks curr at l' in
        (
          e ∙ ap some (sym z.1),
          z.0,
          omega (arith, fit-le strategy heap.chunks size heap.free_chunk_list curr e, z.2),
          rw (alloc_in, e, l') refl,
        )

    found : (o : Option ℕ) → fit strategy heap.chunks size heap.free_chunk_list ≡ o → Known
    found none e = absurd (none-ne-some at (rw (alloc_in, e) at h))
    found (some curr) e = placed curr (locate [] heap.chunks curr) e refl
