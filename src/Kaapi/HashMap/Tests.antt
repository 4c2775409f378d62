-- ===== src/Kaapi/HashMap/Tests.antt =====
-- A map with four chains and an initial bloc, at a bloc's last entry.
use xkblas.Base.{ℕ, ◌≡◌, refl, Option, none, some, [], All, Distinct}
use mathlib.Core.Option.{none-ne-some}
use xkblas.Kaapi.HashMap.{
  HashMap, no_words, kaapi_hashmap_init, kaapi_hashmap_clear, kaapi_hashmap_insert,
  kaapi_hashmap_findinsert, kaapi_hashmap_find, insert_hkey, insert_in, current_bloc,
  kaapi_hashmap_allocate_bloc, find_hkey, find_list, get_hashmap_entry, set_hashmap_entry, entry_at,
  reset_pos, kaapi_hashentries_set, hkey_of,
}
use xkblas.Kaapi.HashMap.Hash.{kaapi_hash_ulong}
use xkblas.Kaapi.HashMap.Valid.{IsValid, InUse, IsFresh, operations-IsValid}
use xkblas.Kaapi.HashMap.Lookup.{lookup, map_findinsert, map_set, findinsert-refines, set-refines}

abbrev memory : HashMap
memory = record {
  entries = λ k. [];
  mask = 0;
  currentbloc = none;
  freebloc = [];
  allallocatedbloc = [];
  pos = λ bloc. 0;
  key = λ entry. 0;
  u = λ entry. no_words;
}

unfoldable start : HashMap
start = kaapi_hashmap_init memory 2 none

unfoldable one : HashMap
one = (kaapi_hashmap_insert start 0x1040 7).1

memory-IsValid : IsValid memory
unfolding IsValid InUse All Distinct
memory-IsValid = (λ k. tt, λ b h. absurd (none-ne-some b h), tt, tt)

no_bloc : (k : ℕ) → IsFresh memory k
unfolding IsFresh All
no_bloc k = (tt, λ i. tt)

start-IsValid : IsValid start
unfolding start
start-IsValid = (operations-IsValid memory 0x1040 7 memory-IsValid (no_bloc 7)).0 memory 2 none

start-IsFresh : IsFresh start 7
unfolding start IsFresh All kaapi_hashmap_init
start-IsFresh = (tt, λ i. tt)

operations-IsValid_example :
    ((before : HashMap) (powsize : ℕ) (initbloc : Option ℕ)
      → IsValid (kaapi_hashmap_init before powsize initbloc))
    × IsValid (kaapi_hashmap_clear start)
    × IsValid (kaapi_hashmap_insert start 0x1040 7).1
    × IsValid (kaapi_hashmap_findinsert start 0x1040 7).1
    × ((entry value : ℕ) → IsValid (kaapi_hashentries_set start entry value))
operations-IsValid_example = operations-IsValid start 0x1040 7 start-IsValid start-IsFresh

findinsert-refines_example :
    ((q : ℕ)
      → lookup (kaapi_hashmap_findinsert start 0x1040 7).1 q
        ≡ map_findinsert (lookup start) 0x1040 q)
    × (kaapi_hashmap_find (kaapi_hashmap_findinsert start 0x1040 7).1 0x1040
        ≡ some (kaapi_hashmap_findinsert start 0x1040 7).0)
findinsert-refines_example = findinsert-refines start 0x1040 7 start-IsValid start-IsFresh

found : kaapi_hashmap_find one 0x1040 ≡ some 14336
unfolding one start kaapi_hashmap_init kaapi_hashmap_insert kaapi_hashmap_find insert_hkey insert_in
    current_bloc kaapi_hashmap_allocate_bloc find_hkey find_list get_hashmap_entry set_hashmap_entry
    hkey_of kaapi_hash_ulong entry_at reset_pos
found = refl

set-refines_example :
    lookup (kaapi_hashentries_set one 14336 5) 0x1040 ≡ map_set (lookup one) 0x1040 5 0x1040
set-refines_example = set-refines one 0x1040 14336 5 found 0x1040
