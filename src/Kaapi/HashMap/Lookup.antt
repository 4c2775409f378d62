-- ===== src/Kaapi/HashMap/Lookup.antt =====
-- The hash map as a finite map from pointers to the words of their entries.
use xkblas.Base.{
  sym, update, ℕ, ◌≡◌, ◌≢◌, ◌∙◌, ap, subst, ◌==◌, ==_iff, if◌then◌else◌, Bool-cases, inl, inr, refl,
  arith, true, false, Option, none, some, List, [], ◌∷◌,
}
use mathlib.Core.Option.{map as map_option}
use xkblas.Kaapi.HashMap.{
  HashMap, Words, no_words, find_hkey, hkey_of, get_hashmap_entry, set_hashmap_entry, insert_in,
  insert_hkey, current_bloc, kaapi_hashmap_allocate_bloc, kaapi_hashmap_find, kaapi_hashmap_insert,
  kaapi_hashmap_findinsert, kaapi_hashentries_set,
}
use xkblas.Kaapi.HashMap.Valid.{
  IsValid, IsFresh, next_entry, next_entry_unused, current_bloc-currentbloc, current_bloc-IsValid,
}
use xkblas.Kaapi.HashMap.Chains.{find_list-key, find_list-All, find_list-push}

-- What the map says of a pointer: the words of its entry, if there is one.
unfoldable pub lookup : HashMap → ℕ → Option Words
lookup khm ptr = map_option khm.u (kaapi_hashmap_find khm ptr)

update-same : (u : ℕ → Words) (e : ℕ) (words : Words) → update u e words e ≡ words
update-same u e words = let h : e == e ≡ true = ground arith in rw h refl

map_option-update :
    (u : ℕ → Words) (e : ℕ) (words : Words) (o : Option ℕ)
    → ((x : ℕ) → o ≡ some x → x ≢ e)
    → map_option (update u e words) o ≡ map_option u o
map_option-update u e words none h = refl
map_option-update u e words (some x) h =
    let f : x == e ≡ false = let d = h x refl in ground arith in rw f refl

module _ (khm : HashMap) (bloc : ℕ) (current : khm.currentbloc ≡ some bloc) (valid : IsValid khm)
    (ptr : ℕ) where
  abbrev after : ℕ × HashMap
  after = insert_in khm bloc ptr (hkey_of khm ptr)

  entry : ℕ
  entry = next_entry khm bloc current valid

  find-insert_in :
      (q : ℕ)
      → kaapi_hashmap_find after.1 q ≡ (if q == ptr then some after.0 else kaapi_hashmap_find khm q)
  unfolding insert_in kaapi_hashmap_find find_hkey get_hashmap_entry set_hashmap_entry hkey_of entry
      next_entry
  find-insert_in q =
      find_list-push khm.key khm.entries entry ptr q (hkey_of khm q) (hkey_of khm ptr)
        (next_entry_unused khm bloc current valid (hkey_of khm q)) (ap (hkey_of khm))

  entries_differ : (q e : ℕ) → kaapi_hashmap_find khm q ≡ some e → e ≢ entry
  unfolding entry kaapi_hashmap_find find_hkey get_hashmap_entry
  entries_differ q e h =
      find_list-All (λ e. e ≢ entry) khm.key q e (khm.entries (hkey_of khm q))
        (next_entry_unused khm bloc current valid (hkey_of khm q)) h

  lookup-insert_in : (q : ℕ) → lookup after.1 q ≡ (if q == ptr then some no_words else lookup khm q)
  unfolding lookup insert_in set_hashmap_entry entry next_entry
  lookup-insert_in q =
      ap (map_option (update khm.u entry no_words)) (find-insert_in q)
      ∙ elim (Bool-cases (q == ptr)) [
        | inl t ↦ rw t (ap some (update-same khm.u entry no_words))
        | inr f ↦
            rw f
              (map_option-update khm.u entry no_words (kaapi_hashmap_find khm q) (entries_differ q))
      ]

module _ (khm : HashMap) (fresh : ℕ) where
  abbrev got : HashMap
  got = (current_bloc khm fresh).1

  -- Taking a bloc changes neither the chains nor the values.
  bloc_keeps :
      (q : ℕ)
      → (hkey_of got q ≡ hkey_of khm q)
        × (kaapi_hashmap_find got q ≡ kaapi_hashmap_find khm q)
        × (lookup got q ≡ lookup khm q)
  unfolding current_bloc kaapi_hashmap_allocate_bloc lookup kaapi_hashmap_find find_hkey hkey_of
      get_hashmap_entry
  bloc_keeps q = by_case khm.currentbloc khm.freebloc refl refl
    where
      by_case :
          (c : Option ℕ) (f : List ℕ)
          → khm.currentbloc ≡ c
          → khm.freebloc ≡ f
          → (hkey_of got q ≡ hkey_of khm q)
            × (kaapi_hashmap_find got q ≡ kaapi_hashmap_find khm q)
            × (lookup got q ≡ lookup khm q)
      by_case none [] c f = rw (c, f) (refl, refl, refl)
      by_case none (b ∷ bs) c f = rw (c, f) (refl, refl, refl)
      by_case (some b) f c h = rw c (refl, refl, refl)

-- The finite map that the hash map stands for, with the entry of a pointer created on demand.
unfoldable pub map_findinsert : (ℕ → Option Words) → ℕ → ℕ → Option Words
map_findinsert m ptr q =
    if q == ptr then elim (m ptr) [ none ↦ some no_words | some words ↦ some words ] else m q

map_findinsert_absent :
    (m : ℕ → Option Words) (ptr q : ℕ)
    → m ptr ≡ none
    → (if q == ptr then some no_words else m q) ≡ map_findinsert m ptr q
unfolding map_findinsert
map_findinsert_absent m ptr q h = rw h refl

map_findinsert_present :
    (m : ℕ → Option Words) (ptr q : ℕ) (words : Words)
    → m ptr ≡ some words
    → m q ≡ map_findinsert m ptr q
unfolding map_findinsert
map_findinsert_present m ptr q words h = elim (Bool-cases (q == ptr)) [
  | inl t ↦ rw (t, h) (ap m ((==_iff q ptr).0 t) ∙ h)
  | inr f ↦ rw f refl
]

-- the first word
abbrev pub set_first : ℕ → Words → Words
set_first value words = record words { u0 = value }

-- and with the first word of a pointer that has words set
unfoldable pub map_set : (ℕ → Option Words) → ℕ → ℕ → ℕ → Option Words
map_set m ptr value q = if q == ptr then map_option (set_first value) (m ptr) else m q

module _ (khm : HashMap) (ptr fresh : ℕ) (valid : IsValid khm) (new : IsFresh khm fresh) where
  lookup_found :
      (o : Option ℕ) → kaapi_hashmap_find khm ptr ≡ o → lookup khm ptr ≡ map_option khm.u o
  unfolding lookup
  lookup_found o h = ap (map_option khm.u) h

  -- The insertion of a pointer, present or not.
  insert_lem :
      (q : ℕ)
      → (kaapi_hashmap_find (kaapi_hashmap_insert khm ptr fresh).1 q ≡ (
          if q == ptr
          then some (kaapi_hashmap_insert khm ptr fresh).0
          else kaapi_hashmap_find khm q))
        × (lookup (kaapi_hashmap_insert khm ptr fresh).1 q
            ≡ (if q == ptr then some no_words else lookup khm q))
  unfolding kaapi_hashmap_insert insert_hkey
  insert_lem q = subst Inserted (bloc_keeps khm fresh ptr).0 (
    find-insert_in (current_bloc khm fresh).1 (current_bloc khm fresh).0
          (current_bloc-currentbloc khm fresh valid new) (current_bloc-IsValid khm fresh valid new)
          ptr q
        ∙ ap
            (λ o.
              if q == ptr
              then some
                  (insert_in (current_bloc khm fresh).1 (current_bloc khm fresh).0 ptr
                    (hkey_of (got khm fresh) ptr)).0
              else o)
            (bloc_keeps khm fresh q).1,
    lookup-insert_in (current_bloc khm fresh).1 (current_bloc khm fresh).0
          (current_bloc-currentbloc khm fresh valid new) (current_bloc-IsValid khm fresh valid new)
          ptr q
        ∙ ap (λ o. if q == ptr then some no_words else o) (bloc_keeps khm fresh q).2,
  )
    where
      Inserted : ℕ → Type 0
      Inserted hkey =
          let s = insert_in (current_bloc khm fresh).1 (current_bloc khm fresh).0 ptr hkey in
          (kaapi_hashmap_find s.1 q ≡ (if q == ptr then some s.0 else kaapi_hashmap_find khm q))
          × (lookup s.1 q ≡ (if q == ptr then some no_words else lookup khm q))

  -- In a valid state and with a fresh bloc, kaapi_hashmap_findinsert implements the creation on demand
  -- of an entry in a finite map: afterwards a pointer has the words that it had, and the given pointer,
  -- if it had no entry, has one whose words are zero; kaapi_hashmap_find then returns the very entry that
  -- kaapi_hashmap_findinsert has returned.
  pub findinsert-refines :
      ((q : ℕ)
        → lookup (kaapi_hashmap_findinsert khm ptr fresh).1 q ≡ map_findinsert (lookup khm) ptr q)
      × (kaapi_hashmap_find (kaapi_hashmap_findinsert khm ptr fresh).1 ptr
          ≡ some (kaapi_hashmap_findinsert khm ptr fresh).0)
  unfolding kaapi_hashmap_findinsert kaapi_hashmap_insert insert_hkey kaapi_hashmap_find
  findinsert-refines = by_case (kaapi_hashmap_find khm ptr) refl
    where
      same :
          (if ptr == ptr
            then some (kaapi_hashmap_insert khm ptr fresh).0
            else kaapi_hashmap_find khm ptr)
          ≡ some (kaapi_hashmap_insert khm ptr fresh).0
      same = let t : ptr == ptr ≡ true = ground arith in rw t refl

      Refines : Type 0
      Refines =
          ((q : ℕ)
            → lookup (kaapi_hashmap_findinsert khm ptr fresh).1 q
              ≡ map_findinsert (lookup khm) ptr q)
          × (kaapi_hashmap_find (kaapi_hashmap_findinsert khm ptr fresh).1 ptr
              ≡ some (kaapi_hashmap_findinsert khm ptr fresh).0)

      by_case : (o : Option ℕ) → kaapi_hashmap_find khm ptr ≡ o → Refines
      by_case none h =
          rw (kaapi_hashmap_findinsert, h)
            (
              λ q.
                  (insert_lem q).1 ∙ map_findinsert_absent (lookup khm) ptr q (lookup_found none h),
              (insert_lem ptr).0 ∙ same,
            )
      by_case (some e) h =
          rw (kaapi_hashmap_findinsert, h)
            (λ q. map_findinsert_present (lookup khm) ptr q (khm.u e) (lookup_found (some e) h), h)

-- The assignment of a value to the entry that kaapi_hashmap_find returns for a pointer implements the
-- update of a finite map: afterwards the first word of this pointer is the value, its second word
-- is as it was, and every other pointer has the words that it had.
pub set-refines :
    (khm : HashMap) (ptr entry value : ℕ)
    → kaapi_hashmap_find khm ptr ≡ some entry
    → (q : ℕ) → lookup (kaapi_hashentries_set khm entry value) q ≡ map_set (lookup khm) ptr value q
unfolding lookup kaapi_hashentries_set map_set kaapi_hashmap_find find_hkey hkey_of
    get_hashmap_entry
set-refines khm ptr entry value h q =
    let words = record (khm.u entry) { u0 = value } in
    elim (Bool-cases (q == ptr)) [
      | inl t ↦ rw t (
          ap (λ p. lookup (kaapi_hashentries_set khm entry value) p) ((==_iff q ptr).0 t)
          ∙ ap (map_option (update khm.u entry words)) h
          ∙ ap some (update-same khm.u entry words)
          ∙ sym (ap (map_option (set_first value)) (ap (map_option khm.u) h)))
      | inr f ↦ rw f (
          map_option-update khm.u entry words (kaapi_hashmap_find khm q) λ x hx e.
            let kx = find_list-key khm.key q x (khm.entries (hkey_of khm q)) hx in
            let ke = find_list-key khm.key ptr entry (khm.entries (hkey_of khm ptr)) h in
            let d = ap khm.key e in ground arith)
    ]
