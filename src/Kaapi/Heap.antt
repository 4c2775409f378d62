-- ===== src/Kaapi/Heap.antt =====
-- The allocator of device memory: kaapi_memory_alloc, with the two strategies
-- that it may be compiled with (KAAPI_HEAP_BEST_FIT by default), and kaapi_memory_free of
-- kaapi/kaapi_memory.c. `chunks` are the chunks that `next` links, and `prev` links back, from the one
-- at the lowest address on; `free_chunk_list` are the numbers of the chunks that `freelink` links. A
-- chunk is named by the address of its record, which never is the null pointer. What `malloc` returns
-- for a new record is an argument, as is what the device has: its memory (`f_alloc`) and its size
-- (kaapi_offload_get_mem_info). The lock makes each call one step; the counters of performance are
-- left out.
pub mod Places
pub mod Tiles
pub mod FreeList
pub mod Names
pub mod Correct
pub mod Fit
pub mod Coalesce
mod Tests
use xkblas.Base.{
  ℕ, zero, suc, ◌+◌, ◌-◌, ◌*◌, ◌/◌, ◌%◌, ◌^◌, Bool, true, false, not, Option, none, some, List, [],
  ◌∷◌, ◌++◌, ◌==◌, ltb, leb, if◌then◌else◌,
}

-- the values of KAAPI_HEAP_STRATEGY
pub data Strategy : Type 0 where
  heap_first_fit : Strategy
  heap_best_fit : Strategy

pub record Chunk : Type 0 where
  pub id : ℕ
  pub size : ℕ
  pub is_free : Bool
  pub device_ptr : ℕ

-- `main_chunk` is set when the memory of the device has been reserved.
pub record Heap : Type 0 where
  pub main_chunk : Bool
  pub chunks : List Chunk
  pub free_chunk_list : List ℕ

-- the memory of the device, and the records that `malloc` returns for the first chunk and for a
-- remainder
pub record Fresh : Type 0 where
  pub memory : ℕ
  pub memory_size : ℕ
  pub chunk0 : ℕ
  pub remainder : ℕ

-- A chunk with the chunks that `prev` leads to, the nearest first, and those that `next` leads to.
pub record Place : Type 0 where
  pub prev : List Chunk
  pub chunk : Chunk
  pub next : List Chunk

abbrev pub sizeof_chunk : ℕ
sizeof_chunk = 48

unfoldable pub alloc_size : ℕ → ℕ
alloc_size size =
    let aligned = (size + 7) % 2 ^ 64 / 8 * 8 in
    if ltb aligned sizeof_chunk then sizeof_chunk else aligned

-- the whole list again
unfoldable pub zip_up : List Chunk → List Chunk → List Chunk
zip_up [] rest = rest
zip_up (p ∷ ps) rest = zip_up ps (p ∷ rest)

-- following a pointer to a chunk
unfoldable pub locate : List Chunk → List Chunk → ℕ → Option Place
locate prev [] id = none
locate prev (c ∷ cs) id =
    if c.id == id
    then some (record { prev = prev; chunk = c; next = cs })
    else locate (c ∷ prev) cs id

unfoldable pub size_at : List Chunk → ℕ → ℕ
size_at [] id = 0
size_at (c ∷ cs) id = if c.id == id then c.size else size_at cs id

-- The loop of the first fit over the free list.
unfoldable pub first_fit : List Chunk → ℕ → List ℕ → Option ℕ
first_fit chunks size [] = none
first_fit chunks size (curr ∷ freelink) =
    if leb size (size_at chunks curr) then some curr else first_fit chunks size freelink

-- The loop of the other strategy: each chunk that is large enough takes the place of the one before.
unfoldable pub best_fit : List Chunk → ℕ → Option ℕ → List ℕ → Option ℕ
best_fit chunks size min_size_curr [] = min_size_curr
best_fit chunks size min_size_curr (curr ∷ freelink) =
    best_fit chunks size (if leb size (size_at chunks curr) then some curr else min_size_curr)
      freelink

unfoldable pub fit : Strategy → List Chunk → ℕ → List ℕ → Option ℕ
fit heap_first_fit chunks size list = first_fit chunks size list
fit heap_best_fit chunks size list = best_fit chunks size none list

-- the first use of the device
unfoldable pub reserve : Heap → Fresh → Heap
reserve heap fresh = elim heap.free_chunk_list [
  | [] ↦ if heap.main_chunk then heap else record {
    main_chunk = true;
    chunks =
        record {
          id = fresh.chunk0;
          size = fresh.memory_size / 8 * 8;
          is_free = true;
          device_ptr = fresh.memory;
        }
        ∷ [];
    free_chunk_list = fresh.chunk0 ∷ [];
  }
  | x ∷ xs ↦ heap
]

-- `min_size - size >= 0.5*size` in the second strategy
abbrev pub splits : Strategy → Chunk → ℕ → Bool
splits heap_first_fit curr size = ltb sizeof_chunk (curr.size - size)
splits heap_best_fit curr size = leb size (2 * (curr.size - size))

-- the chunk that is found, or its two parts
unfoldable pub split : Strategy → Chunk → ℕ → ℕ → List Chunk
split strategy curr size remainder =
    if splits strategy curr size
    then record curr { size = size; is_free = false }
      ∷ record {
        id = remainder;
        size = curr.size - size;
        is_free = true;
        device_ptr = size + curr.device_ptr;
      }
      ∷ []
    else record curr { is_free = false } ∷ []

-- the remainder in place of the chunk in the free list, or nothing
unfoldable pub relink : List ℕ → ℕ → List ℕ → List ℕ
relink [] curr parts = []
relink (x ∷ xs) curr parts = if x == curr then parts ++ xs else x ∷ relink xs curr parts

unfoldable pub take : Strategy → Heap → Place → ℕ → ℕ → Heap
take strategy heap at size remainder = record heap {
  chunks = zip_up at.prev (split strategy at.chunk size remainder ++ at.next);
  free_chunk_list =
      relink heap.free_chunk_list at.chunk.id
        (if splits strategy at.chunk size then remainder ∷ [] else []);
}

unfoldable pub alloc_in : Strategy → Heap → ℕ → ℕ → Option Place × Heap
alloc_in strategy heap size remainder = elim (fit strategy heap.chunks size heap.free_chunk_list) [
  | none ↦ (none, heap)
  | some curr ↦ elim (locate [] heap.chunks curr) [
    | none ↦ (none, heap)
    | some at ↦ (some at, take strategy heap at size remainder)
  ]
]

-- The place of the chunk whose start is returned, if there is one, and the heap.
unfoldable pub kaapi_memory_alloc : Strategy → Heap → ℕ → Fresh → Option Place × Heap
kaapi_memory_alloc strategy heap size fresh =
    alloc_in strategy (reserve heap fresh) (alloc_size size) fresh.remainder

-- `next_chunk && (next_chunk->state & FREE_STATE)`, and likewise of the previous chunk
unfoldable pub starts_free : List Chunk → Bool
starts_free [] = false
starts_free (c ∷ cs) = c.is_free

-- The chunk, now free, merged into the next one if this is free too.
unfoldable pub merge_next : Chunk → List Chunk → List Chunk
merge_next c [] = record c { is_free = true } ∷ []
merge_next c (n ∷ ns) =
    if n.is_free
    then record n { size = n.size + c.size; device_ptr = c.device_ptr } ∷ ns
    else record c { is_free = true } ∷ n ∷ ns

-- and what is left of it merged into the previous one
unfoldable pub merge_prev : List Chunk → List Chunk → List Chunk
merge_prev (p ∷ ps) (m ∷ ms) =
    if p.is_free
    then zip_up ps (record p { size = p.size + m.size } ∷ ms)
    else zip_up (p ∷ ps) (m ∷ ms)
merge_prev [] ms = ms
merge_prev (p ∷ ps) [] = zip_up (p ∷ ps) []

-- the search backwards for a free chunk
unfoldable pub nearest_free : List Chunk → Option ℕ
nearest_free [] = none
nearest_free (p ∷ ps) = if p.is_free then some p.id else nearest_free ps

-- `chunk->freelink = prev->freelink; prev->freelink = chunk`, or at the head of the list
unfoldable pub insert_after : List ℕ → ℕ → ℕ → List ℕ
insert_after [] prev chunk = []
insert_after (x ∷ xs) prev chunk =
    if x == prev then x ∷ chunk ∷ xs else x ∷ insert_after xs prev chunk

unfoldable pub insert_free : List ℕ → Option ℕ → ℕ → List ℕ
insert_free list none chunk = chunk ∷ list
insert_free list (some prev) chunk = insert_after list prev chunk

-- `prev->freelink = next->freelink`
unfoldable pub drop_after : List ℕ → ℕ → List ℕ
drop_after [] prev = []
drop_after (x ∷ []) prev = x ∷ []
drop_after (x ∷ y ∷ xs) prev = if x == prev then x ∷ xs else x ∷ drop_after (y ∷ xs) prev

unfoldable pub free_list_after : List ℕ → Place → List ℕ
free_list_after list at =
    if starts_free at.next
    then elim at.prev [ [] ↦ list | p ∷ ps ↦ if p.is_free then drop_after list p.id else list ]
    else if starts_free at.prev
    then list
    else insert_free list (nearest_free at.prev) at.chunk.id

unfoldable pub free_at : Heap → Place → Heap
free_at heap at = record heap {
  chunks = merge_prev at.prev (merge_next at.chunk at.next);
  free_chunk_list = free_list_after heap.free_chunk_list at;
}

-- The null pointer is left alone; another one is the address of a chunk.
unfoldable pub kaapi_memory_free : Heap → ℕ → Heap
kaapi_memory_free heap zero = heap
kaapi_memory_free heap (suc i) = elim (locate [] heap.chunks (suc i)) [
  | none ↦ heap
  | some at ↦ free_at heap at
]
