-- ===== src/Kaapi/Heap/FreeList/Release.antt =====
-- kaapi_memory_free and the free list.
use xkblas.Base.{
  ℕ, ◌+◌, ◌≡◌, ◌≢◌, refl, sym, ap, ◌∙◌, ◌⊎◌, true, false, none, some, List, [], ◌∷◌, ◌++◌,
  Bool-cases, inl, inr, All,
}
use mathlib.Core.List.{append_assoc, append-nil}
use mathlib.Core.Bool.{false≢true}
use xkblas.Kaapi.Heap.{
  Chunk, Place, zip_up, merge_next, merge_prev, insert_free, drop_after, nearest_free, starts_free,
  free_list_after,
}
use xkblas.Kaapi.Heap.FreeList.{
  free_ids, front, AreNamed, free_ids-zip_up, names_before, insert_after-append, drop_after-append,
}

-- The nearest free chunk before a place is the last of the free chunks there, and no other has its name.
nearest_free-front :
    (ps cs : List Chunk)
    → AreNamed (zip_up ps cs)
    → ((nearest_free ps ≡ none) × (front ps ≡ []))
      ⊎ ((x : ℕ) × (xs : List ℕ) × (nearest_free ps ≡ some x)
          × (front ps ≡ xs ++ x ∷ [])
          × All (λ y. y ≢ x) xs)
unfolding nearest_free front zip_up
nearest_free-front [] cs names = inl (refl, refl)
nearest_free-front (p ∷ ps) cs names = elim (Bool-cases p.is_free) [
  | inl f ↦ inr (p.id, front ps, rw f refl, rw f refl, names_before p ps cs names)
  | inr f ↦ elim (nearest_free-front ps (p ∷ cs) names) [
    | inl n ↦ inl (rw f n.0, rw f (append-nil (front ps) ∙ n.1))
    | inr s ↦ inr (s.0, s.1, rw f s.2, rw f (append-nil (front ps) ∙ s.3), s.4)
  ]
]

insert_free-front :
    (ps cs : List Chunk) (rest : List ℕ) (new : ℕ)
    → AreNamed (zip_up ps cs)
    → insert_free (front ps ++ rest) (nearest_free ps) new ≡ front ps ++ new ∷ rest
unfolding insert_free
insert_free-front ps cs rest new names = elim (nearest_free-front ps cs names) [
  | inl n ↦ rw (n.0, n.1) refl
  | inr s ↦
      rw (s.2, s.3, append_assoc s.1 (s.0 ∷ []) rest, append_assoc s.1 (s.0 ∷ []) (new ∷ rest))
        (insert_after-append s.1 rest s.0 new s.4)
]

front_free :
    (p : Chunk) (ps : List Chunk) (ys : List ℕ)
    → p.is_free ≡ true
    → front (p ∷ ps) ++ ys ≡ front ps ++ p.id ∷ ys
unfolding front
front_free p ps ys f = simp f (append_assoc (front ps) (p.id ∷ []) ys)

merge_prev-free :
    (ps : List Chunk) (m : Chunk) (ms : List Chunk)
    → starts_free ps ≡ true
    → free_ids (merge_prev ps (m ∷ ms)) ≡ front ps ++ free_ids ms
unfolding merge_prev starts_free front free_ids
merge_prev-free [] m ms f = absurd (false≢true f)
merge_prev-free (p ∷ ps) m ms f =
    let grown : Chunk = record p { size = p.size + m.size; is_free = true } in
    simp f
      (free_ids-zip_up ps (grown ∷ ms) ∙ sym (append_assoc (front ps) (p.id ∷ []) (free_ids ms)))

merge_prev-used :
    (ps : List Chunk) (m : Chunk) (ms : List Chunk)
    → starts_free ps ≡ false
    → free_ids (merge_prev ps (m ∷ ms)) ≡ front ps ++ free_ids (m ∷ ms)
unfolding merge_prev starts_free zip_up
merge_prev-used [] m ms f = free_ids-zip_up [] (m ∷ ms)
merge_prev-used (p ∷ ps) m ms f = simp f (free_ids-zip_up (p ∷ ps) (m ∷ ms))

module _ (chunk : Chunk) (list : List ℕ) (used : chunk.is_free ≡ false) where
  abbrev pub place : List Chunk → List Chunk → Place
  place prev ns = record { prev = prev; chunk = chunk; next = ns }

  -- the free list before the release
  list_before :
      (prev ns : List Chunk)
      → free_ids (zip_up prev (chunk ∷ ns)) ≡ list
      → list ≡ front prev ++ free_ids ns
  unfolding free_ids
  list_before prev ns e = sym e ∙ free_ids-zip_up prev (chunk ∷ ns) ∙ simp used refl

  abbrev released : Chunk
  released = record chunk { is_free = true }

  merge_next-used : (ns : List Chunk) → starts_free ns ≡ false → merge_next chunk ns ≡ released ∷ ns
  unfolding merge_next starts_free
  merge_next-used [] f = refl
  merge_next-used (n ∷ ns) f = simp f refl

  abbrev grown_next : Chunk → Chunk
  grown_next n = record n {
    size = n.size + chunk.size;
    is_free = true;
    device_ptr = chunk.device_ptr;
  }

  merge_next-free :
      (n : Chunk) (ns : List Chunk)
      → n.is_free ≡ true
      → merge_next chunk (n ∷ ns) ≡ grown_next n ∷ ns
  unfolding merge_next
  merge_next-free n ns f = rw f refl

  same_ids :
      (n : Chunk) (ns : List Chunk)
      → n.is_free ≡ true
      → free_ids (grown_next n ∷ ns) ≡ free_ids (n ∷ ns)
  unfolding free_ids
  same_ids n ns f = simp f refl

  free_ids-next :
      (n : Chunk) (ns : List Chunk) → n.is_free ≡ true → free_ids (n ∷ ns) ≡ n.id ∷ free_ids ns
  unfolding free_ids
  free_ids-next n ns f = simp f refl

  -- The chunk and the next one merge.
  next_free :
      (prev : List Chunk) (n : Chunk) (ns : List Chunk)
      → AreNamed (zip_up prev (chunk ∷ n ∷ ns))
      → free_ids (zip_up prev (chunk ∷ n ∷ ns)) ≡ list
      → n.is_free ≡ true
      → free_ids (merge_prev prev (merge_next chunk (n ∷ ns)))
        ≡ free_list_after list (place prev (n ∷ ns))
  unfolding free_list_after starts_free front zip_up
  next_free [] n ns names e f =
      let both = merge_next-free n ns f in
      simp (f, both)
        (merge_prev-used [] (grown_next n) ns refl
          ∙ same_ids n ns f
          ∙ sym (list_before [] (n ∷ ns) e))
  next_free (p ∷ ps) n ns names e f =
      let both = merge_next-free n ns f in
      let before = list_before (p ∷ ps) (n ∷ ns) e in
      let ids = free_ids-next n ns f in
      elim (Bool-cases p.is_free) [
        | inl g ↦
            simp (f, g, both)
              (merge_prev-free (p ∷ ps) (grown_next n) ns g
                ∙ front_free p ps (free_ids ns) g
                ∙ sym (
                    ap (λ l. drop_after l p.id)
                      (before
                        ∙ front_free p ps (free_ids (n ∷ ns)) g
                        ∙ ap (λ l. front ps ++ p.id ∷ l) ids)
                    ∙ drop_after-append (front ps) (free_ids ns) p.id n.id
                        (names_before p ps (chunk ∷ n ∷ ns) names)))
        | inr g ↦
            simp (f, g, both)
              (merge_prev-used (p ∷ ps) (grown_next n) ns g
                ∙ ap (λ l. front (p ∷ ps) ++ l) (same_ids n ns f)
                ∙ sym before)
      ]

  -- The chunk stays.
  next_used :
      (prev ns : List Chunk)
      → AreNamed (zip_up prev (chunk ∷ ns))
      → free_ids (zip_up prev (chunk ∷ ns)) ≡ list
      → starts_free ns ≡ false
      → free_ids (merge_prev prev (merge_next chunk ns)) ≡ free_list_after list (place prev ns)
  unfolding free_list_after free_ids
  next_used prev ns names e f =
      let stays = merge_next-used ns f in
      elim (Bool-cases (starts_free prev)) [
        | inl g ↦ simp (f, g, stays) (merge_prev-free prev _ ns g ∙ sym (list_before prev ns e))
        | inr g ↦
            simp (f, g, stays)
              (merge_prev-used prev _ ns g
                ∙ ap (λ l. front prev ++ l) same_released
                ∙ sym (
                    ap (λ l. insert_free l (nearest_free prev) chunk.id) (list_before prev ns e)
                    ∙ insert_free-front prev (chunk ∷ ns) (free_ids ns) chunk.id names))
      ]
    where
      same_released : free_ids (released ∷ ns) ≡ chunk.id ∷ free_ids ns
      same_released = refl

  -- The free list after the release of a chunk holds the free chunks of the list of chunks.
  pub release_lem :
      (prev ns : List Chunk)
      → AreNamed (zip_up prev (chunk ∷ ns))
      → free_ids (zip_up prev (chunk ∷ ns)) ≡ list
      → free_ids (merge_prev prev (merge_next chunk ns)) ≡ free_list_after list (place prev ns)
  unfolding starts_free
  release_lem prev [] names e = next_used prev [] names e refl
  release_lem prev (n ∷ ns) names e = elim (Bool-cases n.is_free) [
    | inl f ↦ next_free prev n ns names e f
    | inr f ↦ next_used prev (n ∷ ns) names e f
  ]
