-- ===== src/Kaapi/Heap/FreeList.antt =====
-- The free list holds the free chunks in the order of their addresses.
pub mod Release
use xkblas.Base.{
  ℕ, zero, suc, ◌+◌, ◌-◌, ◌≡◌, ◌≢◌, refl, sym, ap, ◌∙◌, arith, Bool, true, false, Option, none,
  some, List, [], ◌∷◌, ◌++◌, ◌==◌, leb, subst, if◌then◌else◌, Bool-cases, ◌⊎◌, inl, inr, All,
  All-weaken, All-append, Distinct,
}
use mathlib.Core.Option.{some-injective, none-ne-some}
use mathlib.Core.List.{append_assoc, append-nil}
use xkblas.Kaapi.Heap.{
  Strategy, heap_first_fit, heap_best_fit, best_fit, fit, Chunk, Place, Heap, zip_up, split, splits,
  merge_next, merge_prev, take, free_at, alloc_in, locate, first_fit, relink, insert_after,
  insert_free, drop_after, nearest_free, starts_free, free_list_after, size_at,
}
use xkblas.Kaapi.Heap.Places.{locate-zip_up, alloc_in-some}

unfoldable pub free_ids : List Chunk → List ℕ
free_ids [] = []
free_ids (c ∷ cs) = if c.is_free then c.id ∷ free_ids cs else free_ids cs

-- the free chunks before a place
unfoldable pub front : List Chunk → List ℕ
front [] = []
front (p ∷ ps) = front ps ++ (if p.is_free then p.id ∷ [] else [])

-- No two chunks have one name.
unfoldable pub AreNamed : List Chunk → Type 0
AreNamed [] = Unit {0}
AreNamed (c ∷ cs) = All (λ (c' : Chunk). c'.id ≢ c.id) cs × AreNamed cs

pub free_ids-zip_up : (ps cs : List Chunk) → free_ids (zip_up ps cs) ≡ front ps ++ free_ids cs
unfolding free_ids zip_up front
free_ids-zip_up [] cs = refl
free_ids-zip_up (p ∷ ps) cs = elim (Bool-cases p.is_free) [
  | inl f ↦
      free_ids-zip_up ps (p ∷ cs) ∙ rw f (sym (append_assoc (front ps) (p.id ∷ []) (free_ids cs)))
  | inr f ↦ free_ids-zip_up ps (p ∷ cs) ∙ rw f (sym (append_assoc (front ps) [] (free_ids cs)))
]

pub All-zip_up :
    (P : Chunk → Type 0) (ps cs : List Chunk) → All P (zip_up ps cs) → All P ps × All P cs
unfolding All zip_up
All-zip_up P [] cs h = (tt, h)
All-zip_up P (p ∷ ps) cs h = let r = All-zip_up P ps (p ∷ cs) h in ((r.1.0, r.0), r.1.1)

-- The chunks before a place have other names than those from there on.
pub AreNamed-zip_up :
    (ps cs : List Chunk)
    → AreNamed (zip_up ps cs)
    → All (λ (p : Chunk). All (λ (c : Chunk). c.id ≢ p.id) cs) ps × AreNamed cs
unfolding AreNamed zip_up All
AreNamed-zip_up [] cs h = (tt, h)
AreNamed-zip_up (p ∷ ps) cs h =
    let r = AreNamed-zip_up ps (p ∷ cs) h in ((r.1.0, All-weaken _ _ (λ x q. q.1) ps r.0), r.1.1)

front-All : (P : ℕ → Type 0) (ps : List Chunk) → All (λ (p : Chunk). P p.id) ps → All P (front ps)
unfolding front All
front-All P [] h = tt
front-All P (p ∷ ps) h = elim (Bool-cases p.is_free) [
  | inl f ↦ rw f (All-append P (front ps) (p.id ∷ []) (front-All P ps h.1) (h.0, tt))
  | inr f ↦ rw f (All-append P (front ps) [] (front-All P ps h.1) tt)
]

pub free_ids-All :
    (P : ℕ → Type 0) (cs : List Chunk) → All (λ (c : Chunk). P c.id) cs → All P (free_ids cs)
unfolding free_ids All
free_ids-All P [] h = tt
free_ids-All P (c ∷ cs) h = elim (Bool-cases c.is_free) [
  | inl f ↦ rw f (h.0, free_ids-All P cs h.1)
  | inr f ↦ rw f (free_ids-All P cs h.1)
]

-- The three changes of the free list, behind elements that differ from the one looked for.
relink-append :
    (xs ys parts : List ℕ) (x : ℕ)
    → All (λ y. y ≢ x) xs
    → relink (xs ++ x ∷ ys) x parts ≡ xs ++ (parts ++ ys)
unfolding relink All
relink-append [] ys parts x h = let t : x == x ≡ true = ground arith in rw t refl
relink-append (y ∷ xs) ys parts x h =
    let f : y == x ≡ false = let d = h.0 in ground arith in
    rw (f, relink-append xs ys parts x h.1) refl

pub insert_after-append :
    (xs ys : List ℕ) (x new : ℕ)
    → All (λ y. y ≢ x) xs
    → insert_after (xs ++ x ∷ ys) x new ≡ xs ++ x ∷ new ∷ ys
unfolding insert_after All
insert_after-append [] ys x new h = let t : x == x ≡ true = ground arith in rw t refl
insert_after-append (y ∷ xs) ys x new h =
    let f : y == x ≡ false = let d = h.0 in ground arith in
    rw (f, insert_after-append xs ys x new h.1) refl

pub drop_after-append :
    (xs ys : List ℕ) (x next : ℕ)
    → All (λ y. y ≢ x) xs
    → drop_after (xs ++ x ∷ next ∷ ys) x ≡ xs ++ x ∷ ys
unfolding drop_after All
drop_after-append [] ys x next h = let t : x == x ≡ true = ground arith in rw t refl
drop_after-append (y ∷ []) ys x next h =
    let f : y == x ≡ false = let d = h.0 in ground arith in
    rw (f, drop_after-append [] ys x next tt) refl
drop_after-append (y ∷ z ∷ xs) ys x next h =
    let f : y == x ≡ false = let d = h.0 in ground arith in
    rw (f, drop_after-append (z ∷ xs) ys x next h.1) refl

-- What is found first has what all members have.
first_fit-All :
    (P : ℕ → Type 0) (chunks : List Chunk) (size curr : ℕ) (list : List ℕ)
    → All P list
    → first_fit chunks size list ≡ some curr
    → P curr
unfolding first_fit All
first_fit-All P chunks size curr [] a h = absurd (none-ne-some curr h)
first_fit-All P chunks size curr (x ∷ xs) a h = elim (Bool-cases (leb size (size_at chunks x))) [
  | inl t ↦ subst P (some-injective x curr (rw t at h)) a.0
  | inr f ↦ first_fit-All P chunks size curr xs a.1 (rw f at h)
]

best_fit-All :
    (P : ℕ → Type 0) (chunks : List Chunk) (size curr : ℕ) (winner : Option ℕ) (list : List ℕ)
    → All P list
    → ((x : ℕ) → winner ≡ some x → P x)
    → best_fit chunks size winner list ≡ some curr
    → P curr
unfolding best_fit All
best_fit-All P chunks size curr winner [] a w h = w curr h
best_fit-All P chunks size curr winner (x ∷ xs) a w h =
    elim (Bool-cases (leb size (size_at chunks x))) [
      | inl t ↦
          best_fit-All P chunks size curr (some x) xs a.1
            (λ y e. subst P (some-injective x y e) a.0) (rw t at h)
      | inr f ↦ best_fit-All P chunks size curr winner xs a.1 w (rw f at h)
    ]

pub fit-All :
    (P : ℕ → Type 0) (strategy : Strategy) (chunks : List Chunk) (size curr : ℕ) (list : List ℕ)
    → All P list
    → fit strategy chunks size list ≡ some curr
    → P curr
unfolding fit
fit-All P heap_first_fit chunks size curr list a h = first_fit-All P chunks size curr list a h
fit-All P heap_best_fit chunks size curr list a h =
    best_fit-All P chunks size curr none list a (λ x e. absurd (none-ne-some x e)) h

-- The names at a place: the chunk differs from those before it and after it, and the previous chunk from
-- those before that one.
abbrev AreNamedAt : Place → Type 0
AreNamedAt at = AreNamed (zip_up at.prev (at.chunk ∷ at.next))

pub names_before :
    (x : Chunk) (ps cs : List Chunk)
    → AreNamed (zip_up ps (x ∷ cs))
    → All (λ y. y ≢ x.id) (front ps)
unfolding All
names_before x ps cs h =
    front-All (λ y. y ≢ x.id) ps
      (All-weaken (λ (p : Chunk). All (λ (c : Chunk). c.id ≢ p.id) (x ∷ cs))
        (λ (p : Chunk). p.id ≢ x.id) (λ (p : Chunk) q e. q.0 (sym e)) ps
        (AreNamed-zip_up ps (x ∷ cs) h).0)

names_after :
    (x : Chunk) (ps cs : List Chunk)
    → AreNamed (zip_up ps (x ∷ cs))
    → All (λ y. y ≢ x.id) (free_ids cs)
unfolding AreNamed
names_after x ps cs h = free_ids-All (λ y. y ≢ x.id) cs (AreNamed-zip_up ps (x ∷ cs) h).1.0

-- A chunk whose name is found in the free list is free.
fit-is_free :
    (strategy : Strategy) (chunks : List Chunk) (size : ℕ) (x : Chunk) (ps cs : List Chunk)
    → AreNamed (zip_up ps (x ∷ cs))
    → fit strategy chunks size (free_ids (zip_up ps (x ∷ cs))) ≡ some x.id
    → x.is_free ≡ true
unfolding free_ids
fit-is_free strategy chunks size x ps cs names h = elim (Bool-cases x.is_free) [
  | inl f ↦ f
  | inr f ↦ absurd (fit-All (λ y. y ≢ x.id) strategy chunks size x.id _ (others f) h refl)
]
  where
    others : x.is_free ≡ false → All (λ y. y ≢ x.id) (free_ids (zip_up ps (x ∷ cs)))
    others f =
        rw (free_ids-zip_up ps (x ∷ cs), f)
          (All-append (λ y. y ≢ x.id) (front ps) (free_ids cs) (names_before x ps cs names)
            (names_after x ps cs names))

split-free_ids :
    (strategy : Strategy) (c : Chunk) (size remainder : ℕ) (ns : List Chunk)
    → free_ids (split strategy c size remainder ++ ns)
      ≡ (if splits strategy c size then remainder ∷ [] else []) ++ free_ids ns
unfolding free_ids split
split-free_ids strategy c size remainder ns = elim (Bool-cases (splits strategy c size)) [
  | inl s ↦ rw s refl
  | inr s ↦ rw s refl
]

list_at :
    (at : Place) (chunks : List Chunk)
    → zip_up at.prev (at.chunk ∷ at.next) ≡ chunks
    → at.chunk.is_free ≡ true
    → free_ids chunks ≡ front at.prev ++ at.chunk.id ∷ free_ids at.next
unfolding free_ids
list_at at chunks e f =
    ap free_ids (sym e) ∙ free_ids-zip_up at.prev (at.chunk ∷ at.next) ∙ simp f refl

-- In a heap whose chunks have different names and whose free list is the list of the free chunks in the
-- order of their addresses, this is so after an allocation.
pub alloc-free_ids :
    (strategy : Strategy) (heap : Heap) (size remainder : ℕ) (at : Place)
    → AreNamed heap.chunks
    → free_ids heap.chunks ≡ heap.free_chunk_list
    → (alloc_in strategy heap size remainder).0 ≡ some at
    → (at.chunk.is_free ≡ true)
      × (free_ids (alloc_in strategy heap size remainder).1.chunks
          ≡ (alloc_in strategy heap size remainder).1.free_chunk_list)
unfolding take
alloc-free_ids strategy heap size remainder at names e h =
    let known = alloc_in-some strategy heap size remainder at h in
    let named : AreNamedAt at = subst AreNamed (sym known.1) names in
    let free =
      fit-is_free strategy heap.chunks size at.chunk at.prev at.next named
        (rw (known.1, e) known.0) in
    let parts : List ℕ = if splits strategy at.chunk size then remainder ∷ [] else [] in
    let before = list_at at heap.chunks known.1 free in
    let relinked =
      relink-append (front at.prev) (free_ids at.next) parts at.chunk.id
        (names_before at.chunk at.prev at.next named) in
    let after =
      free_ids-zip_up at.prev (split strategy at.chunk size remainder ++ at.next)
      ∙ ap (λ l. front at.prev ++ l) (split-free_ids strategy at.chunk size remainder at.next) in
    (
      free,
      rw known.3 (after ∙ sym (ap (λ l. relink l at.chunk.id parts) (sym e ∙ before) ∙ relinked)),
    )
