-- ===== src/Kaapi/HashMap/Valid.antt =====
-- The blocs and the entries of the hash map, in every state that the operations reach.
use xkblas.Base.{
  ℕ, suc, ◌/◌, ◌%◌, ◌<◌, ◌≡◌, ◌≢◌, ◌∙◌, sym, ◌==◌, if◌then◌else◌, Bool-cases, inl, inr, refl, arith,
  Option, none, some, List, [], ◌∷◌, All, Distinct, All-weaken,
}
use mathlib.Core.Option.{some-injective, none-ne-some}
use xkblas.Kaapi.HashMap.{
  HashMap, kaapi_hashmap_init, kaapi_hashmap_clear, kaapi_hashmap_insert, kaapi_hashmap_findinsert,
  kaapi_hashentries_set, insert_hkey, find_hkey, hkey_of, reset_pos, kaapi_blocentries_size,
  current_bloc, kaapi_hashmap_allocate_bloc, insert_in, entry_at, set_hashmap_entry,
  get_hashmap_entry,
}

-- The entry lies in a bloc that is not free, and below `pos` if the bloc is the current one.
unfoldable pub InUse : HashMap → ℕ → Type 0
InUse khm e =
    All (λ bloc. bloc ≢ e / kaapi_blocentries_size) khm.freebloc
    × ((bloc : ℕ)
        → khm.currentbloc ≡ some bloc
        → bloc ≡ e / kaapi_blocentries_size
        → e % kaapi_blocentries_size < khm.pos bloc)

unfoldable pub IsValid : HashMap → Type 0
IsValid khm =
    ((k : ℕ) → All (InUse khm) (khm.entries k))
    × ((bloc : ℕ)
        → khm.currentbloc ≡ some bloc
        → (khm.pos bloc < kaapi_blocentries_size) × All (λ b. b ≢ bloc) khm.freebloc)
    × Distinct khm.freebloc
    × Distinct khm.allallocatedbloc

-- The address is none of a bloc that the map holds.
unfoldable pub IsFresh : HashMap → ℕ → Type 0
IsFresh khm fresh =
    All (λ bloc. bloc ≢ fresh) khm.allallocatedbloc
    × ((k : ℕ) → All (λ e. e / kaapi_blocentries_size ≢ fresh) (khm.entries k))

module _ (khm : HashMap) (fresh : ℕ) (valid : IsValid khm) (new : IsFresh khm fresh) where
  -- The bloc is the current one of the state that comes with it.
  pub current_bloc-currentbloc :
      (current_bloc khm fresh).1.currentbloc ≡ some (current_bloc khm fresh).0
  unfolding current_bloc kaapi_hashmap_allocate_bloc
  current_bloc-currentbloc = by_case khm.currentbloc khm.freebloc refl refl
    where
      by_case :
          (c : Option ℕ) (f : List ℕ)
          → khm.currentbloc ≡ c
          → khm.freebloc ≡ f
          → (current_bloc khm fresh).1.currentbloc ≡ some (current_bloc khm fresh).0
      by_case none [] hc hf = rw (hc, hf) refl
      by_case none (b ∷ bs) hc hf = rw (hc, hf) refl
      by_case (some b) f hc hf = rw hc refl

  pub current_bloc-IsValid : IsValid (current_bloc khm fresh).1
  unfolding current_bloc kaapi_hashmap_allocate_bloc IsValid InUse IsFresh All Distinct
  current_bloc-IsValid = by_case khm.currentbloc khm.freebloc refl refl
    where
      by_case :
          (c : Option ℕ) (f : List ℕ)
          → khm.currentbloc ≡ c
          → khm.freebloc ≡ f
          → IsValid (current_bloc khm fresh).1
      by_case none [] hc hf =
          let v = (rw (hc, hf) at valid) in
          rw (hc, hf)
            (
              λ k.
                  All-weaken _ _ (λ e q. (tt, λ bloc h d. absurd (grind arith))) (khm.entries k)
                    (new.1 k),
              λ bloc h. (grind arith, tt),
              tt,
              (new.0, v.3),
            )
      by_case none (b ∷ bs) hc hf =
          let v = (rw (hc, hf) at valid) in
          rw (hc, hf)
            (
              λ k.
                  All-weaken _ _ (λ e q. (q.0.1, λ bloc h d. absurd (grind arith))) (khm.entries k)
                    (v.0 k),
              λ bloc h. (grind arith, let e = some-injective b bloc h in rw⁻¹ e v.2.0),
              v.2.1,
              v.3,
            )
      by_case (some b) f hc hf = rw hc (rw hc at valid)

module _ (khm : HashMap) (bloc : ℕ) (current : khm.currentbloc ≡ some bloc)
    (valid : IsValid khm) where
  unfoldable pub next_entry : ℕ
  next_entry = entry_at bloc (khm.pos bloc)

  -- The next entry of the current bloc is in no chain.
  pub next_entry_unused : (k : ℕ) → All (λ e. e ≢ next_entry) (khm.entries k)
  unfolding next_entry IsValid InUse entry_at
  next_entry_unused k =
      All-weaken (InUse khm) _ (λ e q h. absurd (grind arith)) (khm.entries k) (valid.0 k)

  -- The bloc stays the current one as long as it has a free entry.
  still_current :
      (b : ℕ)
      → (if suc (khm.pos bloc) == kaapi_blocentries_size then none else khm.currentbloc) ≡ some b
      → (b ≡ bloc) × (suc (khm.pos bloc) ≢ kaapi_blocentries_size)
  still_current b h = elim (Bool-cases (suc (khm.pos bloc) == kaapi_blocentries_size)) [
    | inl e ↦ absurd (none-ne-some b (rw e at h))
    | inr e ↦ let h' = (rw e at h) in (some-injective b bloc (sym h' ∙ current), ground arith)
  ]

  module _ (ptr hkey : ℕ) where
    unfoldable after : HashMap
    after = (insert_in khm bloc ptr hkey).1

    kept : (e : ℕ) → InUse khm e → InUse after e
    unfolding after insert_in InUse set_hashmap_entry
    kept e q = (
      q.0,
      λ b h d.
          let c = still_current b h in
          let below = q.1 bloc current (sym c.0 ∙ d) in rw c.0 (ground arith),
    )

    newest : InUse after next_entry
    unfolding after insert_in InUse set_hashmap_entry next_entry entry_at IsValid
    newest =
        let here = valid.1 bloc current in
        let home : next_entry / kaapi_blocentries_size ≡ bloc = omega arith in
        let index : next_entry % kaapi_blocentries_size ≡ khm.pos bloc = omega arith in
        (rw home here.1, λ b h d. rw (index, (still_current b h).0) (ground arith))

    pub insert_in-IsValid : IsValid (insert_in khm bloc ptr hkey).1
    unfolding insert_in IsValid All set_hashmap_entry get_hashmap_entry next_entry after
    insert_in-IsValid = (
      λ k. chain k,
      λ b h.
          let c = still_current b h in
          let here = valid.1 bloc current in (rw c.0 (ground arith), rw c.0 here.1),
      valid.2,
      valid.3,
    )
      where
        chain : (k : ℕ) → All (InUse after) (after.entries k)
        chain k = elim (Bool-cases (k == hkey)) [
          | inl e ↦ rw e (newest, All-weaken _ _ kept (khm.entries hkey) (valid.0 hkey))
          | inr e ↦ rw e (All-weaken _ _ kept (khm.entries k) (valid.0 k))
        ]

reset_pos_lem : (pos : ℕ → ℕ) (bloc : ℕ) → reset_pos pos (some bloc) bloc < kaapi_blocentries_size
unfolding reset_pos
reset_pos_lem pos bloc = ground arith

init-IsValid :
    (khm : HashMap) (powsize : ℕ) (initbloc : Option ℕ)
    → IsValid (kaapi_hashmap_init khm powsize initbloc)
unfolding kaapi_hashmap_init IsValid InUse All Distinct
init-IsValid khm powsize none = (λ k. tt, λ b h. absurd (none-ne-some b h), tt, tt)
init-IsValid khm powsize (some bloc) = (
  λ k. tt,
  λ b h. let e = some-injective bloc b h in (rw⁻¹ e (reset_pos_lem khm.pos bloc), tt),
  tt,
  tt,
)

clear-IsValid : (khm : HashMap) → IsValid khm → IsValid (kaapi_hashmap_clear khm)
unfolding kaapi_hashmap_clear IsValid InUse All Distinct
clear-IsValid khm valid =
    (λ k. tt, λ b h. absurd (none-ne-some b h), kept khm.allallocatedbloc refl, tt)
  where
    kept : (bs : List ℕ) → khm.allallocatedbloc ≡ bs → Distinct (kaapi_hashmap_clear khm).freebloc
    kept [] e = rw e valid.2
    kept (b ∷ bs) e = rw e (rw e at valid.3)

insert-IsValid :
    (khm : HashMap) (ptr fresh : ℕ)
    → IsValid khm
    → IsFresh khm fresh
    → IsValid (kaapi_hashmap_insert khm ptr fresh).1
unfolding kaapi_hashmap_insert insert_hkey
insert-IsValid khm ptr fresh valid new =
    insert_in-IsValid (current_bloc khm fresh).1 (current_bloc khm fresh).0
      (current_bloc-currentbloc khm fresh valid new) (current_bloc-IsValid khm fresh valid new) ptr
      (hkey_of khm ptr)

findinsert-IsValid :
    (khm : HashMap) (ptr fresh : ℕ)
    → IsValid khm
    → IsFresh khm fresh
    → IsValid (kaapi_hashmap_findinsert khm ptr fresh).1
unfolding kaapi_hashmap_findinsert insert_hkey kaapi_hashmap_insert
findinsert-IsValid khm ptr fresh valid new = by_case (find_hkey khm ptr (hkey_of khm ptr)) refl
  where
    by_case :
        (o : Option ℕ)
        → find_hkey khm ptr (hkey_of khm ptr) ≡ o
        → IsValid (kaapi_hashmap_findinsert khm ptr fresh).1
    by_case none e = rw (kaapi_hashmap_findinsert, e) (insert-IsValid khm ptr fresh valid new)
    by_case (some entry) e = rw (kaapi_hashmap_findinsert, e) valid

set-IsValid :
    (khm : HashMap)
    → IsValid khm
    → (entry value : ℕ) → IsValid (kaapi_hashentries_set khm entry value)
unfolding kaapi_hashentries_set IsValid InUse
set-IsValid khm valid entry value = valid

-- Every operation of the hash map keeps its invariant: each entry of a chain lies in a bloc that is not
-- free and, if that is the current bloc, below the position of the next entry; the current bloc has room
-- and is not free; no bloc stands twice in a list. The state after kaapi_hashmap_init and
-- kaapi_hashmap_clear has it, and kaapi_hashmap_insert, kaapi_hashmap_findinsert and the
-- assignment of an entry's value keep it, when malloc returns a bloc that the map does not hold.
pub operations-IsValid :
    (khm : HashMap) (ptr fresh : ℕ)
    → IsValid khm
    → IsFresh khm fresh
    → ((before : HashMap) (powsize : ℕ) (initbloc : Option ℕ)
        → IsValid (kaapi_hashmap_init before powsize initbloc))
      × IsValid (kaapi_hashmap_clear khm)
      × IsValid (kaapi_hashmap_insert khm ptr fresh).1
      × IsValid (kaapi_hashmap_findinsert khm ptr fresh).1
      × ((entry value : ℕ) → IsValid (kaapi_hashentries_set khm entry value))
operations-IsValid khm ptr fresh valid new = (
  init-IsValid,
  clear-IsValid khm valid,
  insert-IsValid khm ptr fresh valid new,
  findinsert-IsValid khm ptr fresh valid new,
  set-IsValid khm valid,
)
