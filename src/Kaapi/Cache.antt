-- ===== src/Kaapi/Cache.antt =====
-- The lists of the software cache of a device, kaapi_cache_list_t: kaapi_memory_cache_remove_from_list,
-- kaapi_memory_cache_push_front and kaapi_memory_cache_touch of kaapi/kaapi_memory.c, each as one step, as under its lock.
-- An entry is the number of its address, 0 the null pointer. The counters of performance are left out.
pub mod Chain
pub mod Remove
pub mod Lists
pub mod Allocator
pub mod Touch
mod Tests
use xkblas.Base.{
  ◌+◌, ℕ, zero, suc, Bool, true, false, not, ◌&&◌, Option, none, some, ◌==◌, if◌then◌else◌, update,
}

-- the fields `next` and `prev` of the entries
pub record Links : Type 0 where
  pub next : ℕ → ℕ
  pub prev : ℕ → ℕ

-- the fields `beg` and `end`
pub record CacheList : Type 0 where
  pub first : ℕ
  pub last : ℕ

unfoldable pub kaapi_memory_cache_remove_from_list : Links → CacheList → ℕ → Links × CacheList
kaapi_memory_cache_remove_from_list links list entry =
    let n = links.next entry in
    let p = links.prev entry in
    let prev = if n == 0 then links.prev else update links.prev n p in
    let next = if p == 0 then links.next else update links.next p n in
    (
      record { next = update next entry 0; prev = update prev entry 0 },
      record { first = if p == 0 then n else list.first; last = if n == 0 then p else list.last },
    )

unfoldable pub kaapi_memory_cache_push_front : Links → CacheList → ℕ → Links × CacheList
kaapi_memory_cache_push_front links list entry =
    let prev = update links.prev entry 0 in
    (
      record {
        next = update links.next entry list.first;
        prev = if list.first == 0 then prev else update prev list.first entry;
      },
      record { first = entry; last = if list.first == 0 then entry else list.last },
    )

-- `&cache->ro` and `&cache->rw`
pub data Which : Type 0 where
  ro_list rw_list : Which

unfoldable pub is_rw : Which → Bool
is_rw ro_list = false
is_rw rw_list = true

-- an assignment to one of two
unfoldable pub set {ℓ} : {A : Type ℓ} → (Which → A) → Which → A → Which → A
set f ro_list x ro_list = x
set f ro_list x rw_list = f rw_list
set f rw_list x ro_list = f ro_list
set f rw_list x rw_list = x

-- the bloc that new entries are taken from, and the next free one
pub record Bloc : Type 0 where
  pub base : ℕ
  pub pos : ℕ

-- `mdi` is the field of each entry
pub record Cache : Type 0 where
  pub links : Links
  pub lists : Which → CacheList
  pub mdi : ℕ → ℕ
  pub freelist : ℕ
  pub bloc : Option Bloc

-- the fields of a replica that name its entry, and the list that it stands in
pub record DataReplica : Type 0 where
  pub cacheentry : ℕ
  pub cachelist : Option Which

unfoldable pub remove_entry : Cache → Which → ℕ → Cache
remove_entry cache w entry =
    let r = kaapi_memory_cache_remove_from_list cache.links (cache.lists w) entry in
    record cache { links = r.0; lists = set cache.lists w r.1 }

unfoldable pub push_entry : Cache → Which → ℕ → Cache
push_entry cache w entry =
    let r = kaapi_memory_cache_push_front cache.links (cache.lists w) entry in
    record cache { links = r.0; lists = set cache.lists w r.1 }

abbrev pub cacheentry_blocsize : ℕ
cacheentry_blocsize = 1024

-- the first free entry of the bloc, or of a new bloc at `fresh`, which counts from 1
unfoldable pub bloc_entry : Option Bloc → ℕ → ℕ × Bloc
bloc_entry none fresh = (fresh + 1, record { base = fresh; pos = 2 })
bloc_entry (some b) fresh =
    if b.pos == cacheentry_blocsize
    then (fresh + 1, record { base = fresh; pos = 2 })
    else (b.base + b.pos, record { base = b.base; pos = suc b.pos })

-- the list of all blocs, which only the destruction reads, is left out
unfoldable pub kaapi_memory_cache_allocate_entry : Cache → ℕ → ℕ × Cache
kaapi_memory_cache_allocate_entry cache fresh =
    if cache.freelist == 0
    then (let r = bloc_entry cache.bloc fresh in (r.0, record cache { bloc = some r.1 }))
    else (cache.freelist, record cache { freelist = cache.links.next cache.freelist })

-- the list that the entry goes to
unfoldable pub target_list : Bool → Bool → Option Which → Which
target_list write valid_on_host none = if write then rw_list else ro_list
target_list write valid_on_host (some old) =
    if is_rw old && not valid_on_host then rw_list else (if write then rw_list else ro_list)

-- none where the replica has an entry but no list, whose null pointer is read; `lid` is 0 for the host
unfoldable pub kaapi_memory_cache_touch :
    ℕ → Bool → Bool → ℕ → ℕ → Cache → DataReplica → Option (Cache × DataReplica)
kaapi_memory_cache_touch lid write valid_on_host mdi fresh cache kdr =
    let w = target_list write valid_on_host kdr.cachelist in
    if lid == 0
    then some (cache, kdr)
    else if kdr.cacheentry == 0
    then (let r = kaapi_memory_cache_allocate_entry cache fresh in
        some (
          push_entry (record (r.1) { mdi = update cache.mdi r.0 mdi }) w r.0,
          record { cacheentry = r.0; cachelist = some w },
        ))
    else elim kdr.cachelist [
      | none ↦ none
      | some old ↦ some (
        push_entry (remove_entry cache old kdr.cacheentry) w kdr.cacheentry,
        record { cacheentry = kdr.cacheentry; cachelist = some w },
      )
    ]
