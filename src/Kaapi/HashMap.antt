-- ===== src/Kaapi/HashMap.antt =====
-- The hash map of kaapi/kaapi_hashmap.h and kaapi/kaapi_hashmap.c, which finds the metadata of a
-- pointer. Chain `i` is the list of the entries that `entries[i]` reaches through `next`. A pointer to
-- an entry, `&bloc->data[j]`, is the number `entry_at bloc j`; the lists that start at `freebloc` and
-- `allallocatedbloc` are the lists of their blocs. The memory outlives the map: `pos` of a bloc, and
-- `key` and `u` of an entry. What `malloc` returns is an argument.
pub mod Hash
pub mod Valid
pub mod Chains
pub mod Lookup
mod Tests
use xkblas.Base.{
  ℕ, suc, ◌+◌, ◌-◌, ◌*◌, ◌^◌, ◌<◌, Bool, Option, none, some, List, [], ◌∷◌, ◌++◌, ◌==◌,
  if◌then◌else◌, bit_and, update,
}
use xkblas.Kaapi.HashMap.Hash.{kaapi_hash_ulong}

abbrev pub kaapi_blocentries_size : ℕ
kaapi_blocentries_size = 2048

unfoldable pub entry_at : ℕ → ℕ → ℕ
entry_at bloc index = bloc * kaapi_blocentries_size + index

-- the words `u[0]` and `u[1]` of an entry
pub record Words : Type 0 where
  pub u0 : ℕ
  pub u1 : ℕ

abbrev pub no_words : Words
no_words = record { u0 = 0; u1 = 0 }

pub record HashMap : Type 0 where
  pub entries : ℕ → List ℕ
  pub mask : ℕ
  pub currentbloc : Option ℕ
  pub freebloc : List ℕ
  pub allallocatedbloc : List ℕ
  pub pos : ℕ → ℕ
  pub key : ℕ → ℕ
  pub u : ℕ → Words

unfoldable pub kaapi_hashmap_sizeentries : HashMap → ℕ
kaapi_hashmap_sizeentries khm = khm.mask + 1

unfoldable pub get_hashmap_entry : HashMap → ℕ → List ℕ
get_hashmap_entry khm k = khm.entries k

unfoldable pub set_hashmap_entry : HashMap → ℕ → List ℕ → HashMap
set_hashmap_entry khm k chain = record khm { entries = update khm.entries k chain }

unfoldable pub pop_hashmap_entry : HashMap → ℕ → Option ℕ × HashMap
pop_hashmap_entry khm k = elim (khm.entries k) [
  | [] ↦ (none, set_hashmap_entry khm k [])
  | e ∷ rest ↦ (some e, set_hashmap_entry khm k rest)
]

-- `if (bloc !=0) bloc->pos = 0`
unfoldable pub reset_pos : (ℕ → ℕ) → Option ℕ → ℕ → ℕ
reset_pos pos none = pos
reset_pos pos (some bloc) = update pos bloc 0

-- `before` is the memory that the map finds
unfoldable pub kaapi_hashmap_init : HashMap → ℕ → Option ℕ → HashMap
kaapi_hashmap_init before powsize initbloc = record before {
  entries = λ k. [];
  mask = 2 ^ powsize - 1;
  currentbloc = initbloc;
  freebloc = [];
  allallocatedbloc = [];
  pos = reset_pos before.pos initbloc;
}

unfoldable pub kaapi_hashmap_clear : HashMap → HashMap
kaapi_hashmap_clear khm = record khm {
  entries = λ k. [];
  currentbloc = none;
  freebloc = elim khm.allallocatedbloc [ [] ↦ khm.freebloc | b ∷ bs ↦ b ∷ bs ];
  allallocatedbloc = [];
  pos = reset_pos khm.pos khm.currentbloc;
}

-- `destroy_list` frees each bloc once: the blocs that it passes to `free`.
unfoldable pub hashmap_destroy_list : List ℕ → List ℕ
hashmap_destroy_list [] = []
hashmap_destroy_list (curr ∷ list) = curr ∷ hashmap_destroy_list list

unfoldable pub kaapi_hashmap_destroy : HashMap → List ℕ × HashMap
kaapi_hashmap_destroy khm = (
  hashmap_destroy_list khm.allallocatedbloc ++ hashmap_destroy_list khm.freebloc,
  record khm { currentbloc = none; freebloc = []; allallocatedbloc = [] },
)

-- the bloc, and the map in which it is current; `fresh` is what `malloc` returns
unfoldable pub kaapi_hashmap_allocate_bloc : HashMap → ℕ → ℕ × HashMap
kaapi_hashmap_allocate_bloc khm fresh = elim khm.freebloc [
  | [] ↦ (
    fresh,
    record khm {
      currentbloc = some fresh;
      allallocatedbloc = fresh ∷ khm.allallocatedbloc;
      pos = update khm.pos fresh 0;
    },
  )
  | bloc ∷ rest ↦
      (bloc, record khm { currentbloc = some bloc; freebloc = rest; pos = update khm.pos bloc 0 })
]

unfoldable pub find_list : (ℕ → ℕ) → ℕ → List ℕ → Option ℕ
find_list key ptr [] = none
find_list key ptr (entry ∷ next) = if key entry == ptr then some entry else find_list key ptr next

unfoldable pub find_hkey : HashMap → ℕ → ℕ → Option ℕ
find_hkey khm ptr hkey = find_list khm.key ptr (get_hashmap_entry khm hkey)

unfoldable pub hkey_of : HashMap → ℕ → ℕ
hkey_of khm ptr = bit_and (kaapi_hash_ulong ptr) khm.mask

unfoldable pub kaapi_hashmap_find : HashMap → ℕ → Option ℕ
kaapi_hashmap_find khm ptr = find_hkey khm ptr (hkey_of khm ptr)

unfoldable pub current_bloc : HashMap → ℕ → ℕ × HashMap
current_bloc khm fresh = elim khm.currentbloc [
  | none ↦ kaapi_hashmap_allocate_bloc khm fresh
  | some bloc ↦ (bloc, khm)
]

-- the rest of the insertion, in the bloc that `current_bloc` gives
unfoldable pub insert_in : HashMap → ℕ → ℕ → ℕ → ℕ × HashMap
insert_in khm bloc ptr hkey =
    let index = khm.pos bloc in
    let entry = entry_at bloc index in
    let filled = record khm {
      pos = update khm.pos bloc (suc index);
      key = update khm.key entry ptr;
      u = update khm.u entry no_words;
      currentbloc = if suc index == kaapi_blocentries_size then none else khm.currentbloc;
    } in
    (entry, set_hashmap_entry filled hkey (entry ∷ get_hashmap_entry khm hkey))

unfoldable pub insert_hkey : HashMap → ℕ → ℕ → ℕ → ℕ × HashMap
insert_hkey khm ptr hkey fresh = let got = current_bloc khm fresh in insert_in got.1 got.0 ptr hkey

unfoldable pub kaapi_hashmap_insert : HashMap → ℕ → ℕ → ℕ × HashMap
kaapi_hashmap_insert khm ptr fresh = insert_hkey khm ptr (hkey_of khm ptr) fresh

unfoldable pub kaapi_hashmap_findinsert : HashMap → ℕ → ℕ → ℕ × HashMap
kaapi_hashmap_findinsert khm ptr fresh = elim (find_hkey khm ptr (hkey_of khm ptr)) [
  | some entry ↦ (entry, khm)
  | none ↦ insert_hkey khm ptr (hkey_of khm ptr) fresh
]

-- KAAPI_HASHENTRIES_SET on the entry, with a pointer type, as at each of its calls: it writes the
-- first of the two words
unfoldable pub kaapi_hashentries_set : HashMap → ℕ → ℕ → HashMap
kaapi_hashentries_set khm entry value = record khm {
  u = update khm.u entry (record (khm.u entry) { u0 = value });
}
