-- ===== src/Kaapi/Heap/Tests.antt =====
-- A device with 1000 bytes at the address 4096, of which 100 are asked for.
use xkblas.Base.{◌<◌, ◌≡◌, refl, arith, true, false, none, some, [], ◌∷◌, All}
use xkblas.Kaapi.Heap.{
  Chunk, Place, Heap, Fresh, zip_up, locate, take, alloc_in, alloc_size, reserve,
  kaapi_memory_alloc, kaapi_memory_free, starts_free, heap_best_fit, fit, best_fit, size_at, split,
}
use xkblas.Kaapi.Heap.Tiles.{Tile}
use xkblas.Kaapi.Heap.FreeList.{free_ids, AreNamed}
use xkblas.Kaapi.Heap.Names.{Others}
use xkblas.Kaapi.Heap.Fit.{alloc_fails}
use xkblas.Kaapi.Heap.Coalesce.{AreApart, alloc-AreApart, free-AreApart}
use xkblas.Kaapi.Heap.Correct.{IsHeap, HandedOut, alloc-IsHeap, free-IsHeap}

abbrev device : Fresh
device = record { memory = 4096; memory_size = 1000; chunk0 = 1; remainder = 2 }

abbrev whole : Chunk
whole = record { id = 1; size = 1000; is_free = true; device_ptr = 4096 }

abbrev reserved : Heap
reserved = record { main_chunk = true; chunks = whole ∷ []; free_chunk_list = 1 ∷ [] }

abbrev found : Place
found = record { prev = []; chunk = whole; next = [] }

reserve_lem :
    reserve (record { main_chunk = false; chunks = []; free_chunk_list = [] }) device ≡ reserved
unfolding reserve
reserve_lem = refl

reserved-IsHeap : IsHeap 4096 5096 reserved
unfolding IsHeap Tile AreNamed All free_ids
reserved-IsHeap = ((refl, refl), (tt, tt), refl)

new_remainder : Others 2 (whole ∷ [])
unfolding All
new_remainder = (omega arith, tt)

unfoldable allocated : Heap
allocated = (kaapi_memory_alloc heap_best_fit reserved 100 device).1

is_found : (kaapi_memory_alloc heap_best_fit reserved 100 device).0 ≡ some found
unfolding kaapi_memory_alloc alloc_in alloc_size reserve fit best_fit size_at locate
is_found = refl

alloc-IsHeap_example :
    (whole.is_free ≡ true)
    × HandedOut (kaapi_memory_alloc heap_best_fit reserved 100 device).1.chunks found 100
    × IsHeap 4096 5096 (kaapi_memory_alloc heap_best_fit reserved 100 device).1
alloc-IsHeap_example =
    alloc-IsHeap heap_best_fit 4096 5096 reserved 100 device found reserved-IsHeap refl
      new_remainder (omega arith) is_found

allocated-IsHeap : IsHeap 4096 5096 allocated
unfolding allocated
allocated-IsHeap =
    (alloc-IsHeap heap_best_fit 4096 5096 reserved 100 device found reserved-IsHeap refl
      new_remainder (omega arith) is_found).2

abbrev used : Place
used = record {
  prev = [];
  chunk = record { id = 1; size = 104; is_free = false; device_ptr = 4096 };
  next = record { id = 2; size = 896; is_free = true; device_ptr = 4200 } ∷ [];
}

is_used : locate [] allocated.chunks 1 ≡ some used
unfolding allocated kaapi_memory_alloc alloc_in alloc_size reserve fit best_fit size_at locate take
    zip_up split
is_used = refl

free-IsHeap_example : IsHeap 4096 5096 (kaapi_memory_free allocated 1)
free-IsHeap_example = free-IsHeap 4096 5096 allocated 0 used allocated-IsHeap is_used refl

refused : (kaapi_memory_alloc heap_best_fit reserved 1001 device).0 ≡ none
unfolding kaapi_memory_alloc alloc_in alloc_size reserve fit best_fit size_at locate
refused = refl

alloc_fails_example :
    All (λ (c : Chunk). c.is_free ≡ true → c.size < alloc_size 1001) reserved.chunks
alloc_fails_example =
    alloc_fails heap_best_fit 4096 5096 reserved 1001 device reserved-IsHeap refl refused

reserved-AreApart : AreApart reserved.chunks
unfolding AreApart starts_free
reserved-AreApart = (refl, tt)

alloc-AreApart_example : AreApart (kaapi_memory_alloc heap_best_fit reserved 100 device).1.chunks
alloc-AreApart_example =
    alloc-AreApart heap_best_fit 4096 5096 reserved 100 device found reserved-IsHeap refl
      reserved-AreApart is_found

free-AreApart_example : AreApart (kaapi_memory_free reserved 1).chunks
free-AreApart_example = free-AreApart reserved 0 reserved-AreApart
