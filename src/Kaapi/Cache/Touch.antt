-- ===== src/Kaapi/Cache/Touch.antt =====
-- kaapi_memory_cache_touch against both lists of a cache.
use xkblas.Base.{
  ◌<◌, ℕ, ◌≡◌, ◌≢◌, refl, sym, subst, arith, Bool, true, false, not, ◌&&◌, ◌||◌, none, some, List,
  ◌∷◌, ◌++◌, ◌==◌, if◌then◌else◌, update, All, All-append, All-weaken, All-weaken₂, Distinct,
}
use mathlib.Core.Option.{some-injective}
use xkblas.Kaapi.Cache.{
  Bloc, bloc_entry, Links, CacheList, Which, ro_list, rw_list, is_rw, set, Cache,
  kaapi_memory_cache_remove_from_list, kaapi_memory_cache_push_front, remove_entry, push_entry,
  kaapi_memory_cache_allocate_entry, target_list, kaapi_memory_cache_touch,
}
use xkblas.Kaapi.Cache.Allocator.{HasRest, IsAllocator, IsNewBloc, bloc_entry_lem}
use xkblas.Kaapi.Cache.Chain.{Avoids, IsList, push_front-IsList}
use xkblas.Kaapi.Cache.Remove.{All-split, cross, Distinct-append_back, remove-IsList}
use xkblas.Kaapi.Cache.Lists.{AreApart, removal_frames, insertion_frames}

unfoldable pub other : Which → Which
other ro_list = rw_list
other rw_list = ro_list

-- A cache whose list `w` has the entries `xs` and the other one `ys`, no entry in both.
pub record HasLists (cache : Cache) (w : Which) (xs ys : List ℕ) : Type 0 where
  pub this : IsList cache.links (cache.lists w) xs
  pub that : IsList cache.links (cache.lists (other w)) ys
  pub apart : AreApart xs ys
  pub apart_back : AreApart ys xs

swap :
    (cache : Cache) (w : Which) (xs ys : List ℕ)
    → HasLists cache w xs ys
    → HasLists cache (other w) ys xs
unfolding other
swap cache ro_list xs ys h = record {
  this = h.that;
  that = h.this;
  apart = h.apart_back;
  apart_back = h.apart;
}
swap cache rw_list xs ys h = record {
  this = h.that;
  that = h.this;
  apart = h.apart_back;
  apart_back = h.apart;
}

set_here : {A : Type 0} (f : Which → A) (w : Which) (x : A) → set f w x w ≡ x
unfolding set
set_here f ro_list x = refl
set_here f rw_list x = refl

set_there : {A : Type 0} (f : Which → A) (w : Which) (x : A) → set f w x (other w) ≡ f (other w)
unfolding set other
set_there f ro_list x = refl
set_there f rw_list x = refl

fewer : (e : ℕ) (ls rs : List ℕ) (P : ℕ → Type 0) → All P (ls ++ e ∷ rs) → All P (ls ++ rs)
unfolding All
fewer e ls rs P h = let (a, b) = All-split P ls (e ∷ rs) h in All-append P ls rs a b.1

gone : (ls rs : List ℕ) (e : ℕ) → Distinct (ls ++ e ∷ rs) → Avoids e (ls ++ rs)
unfolding Avoids Distinct
gone ls rs e d =
    All-append (λ (x : ℕ). x ≢ e) ls rs (cross ls rs e d) (Distinct-append_back ls (e ∷ rs) d).1.0

of_entry : (ls rs ys : List ℕ) (e : ℕ) → AreApart (ls ++ e ∷ rs) ys → Avoids e ys
unfolding AreApart All
of_entry ls rs ys e h = (All-split (λ (x : ℕ). Avoids x ys) ls (e ∷ rs) h).1.0

remove-HasLists :
    (cache : Cache) (w : Which) (ls rs ys : List ℕ) (e : ℕ)
    → HasLists cache w (ls ++ e ∷ rs) ys
    → HasLists (remove_entry cache w e) w (ls ++ rs) ys
unfolding remove_entry AreApart Avoids
remove-HasLists cache w ls rs ys e h =
    let r = kaapi_memory_cache_remove_from_list cache.links (cache.lists w) e in
    record {
      this =
          subst (λ (l : CacheList). IsList r.0 l (ls ++ rs)) (sym (set_here cache.lists w r.1))
            (remove-IsList cache.links (cache.lists w) ls rs e h.this);
      that =
          subst (λ (l : CacheList). IsList r.0 l ys) (sym (set_there cache.lists w r.1))
            (removal_frames cache.links (cache.lists w) (cache.lists (other w)) ls rs ys e h.this
              h.that h.apart);
      apart = fewer e ls rs (λ (x : ℕ). Avoids x ys) h.apart;
      apart_back =
          All-weaken (λ (y : ℕ). Avoids y (ls ++ e ∷ rs)) (λ (y : ℕ). Avoids y (ls ++ rs))
            (λ (y : ℕ) a. fewer e ls rs (λ (x : ℕ). x ≢ y) a) ys h.apart_back;
    }

push-HasLists :
    (cache : Cache) (w : Which) (xs ys : List ℕ) (e : ℕ)
    → HasLists cache w xs ys
    → Avoids e xs
    → Avoids e ys
    → e ≢ 0
    → HasLists (push_entry cache w e) w (e ∷ xs) ys
unfolding push_entry AreApart Avoids All
push-HasLists cache w xs ys e h fresh fresh' real =
    let r = kaapi_memory_cache_push_front cache.links (cache.lists w) e in
    record {
      this =
          subst (λ (l : CacheList). IsList r.0 l (e ∷ xs)) (sym (set_here cache.lists w r.1))
            (push_front-IsList cache.links (cache.lists w) xs e h.this fresh real);
      that =
          subst (λ (l : CacheList). IsList r.0 l ys) (sym (set_there cache.lists w r.1))
            (insertion_frames cache.links (cache.lists w) (cache.lists (other w)) xs ys e h.this
              h.that h.apart fresh');
      apart = (fresh', h.apart);
      apart_back =
          All-weaken₂ (λ (y : ℕ). y ≢ e) (λ (y : ℕ). Avoids y xs) (λ (y : ℕ). Avoids y (e ∷ xs))
            (λ (y : ℕ) a b. ((λ same. a (sym same)), b)) ys fresh' h.apart_back;
    }

-- What the list `w` holds, and what the other one, of a cache in which `old` holds `xs` and its other list `ys`.
abbrev pub of_list : Bool → List ℕ → List ℕ → List ℕ
of_list same xs ys = if same then xs else ys

unfoldable pub is_same : Which → Which → Bool
is_same ro_list ro_list = true
is_same ro_list rw_list = false
is_same rw_list ro_list = false
is_same rw_list rw_list = true

seen_from :
    (cache : Cache) (old w : Which) (xs ys : List ℕ)
    → HasLists cache old xs ys
    → HasLists cache w (of_list (is_same w old) xs ys) (of_list (is_same w old) ys xs)
unfolding is_same other
seen_from cache ro_list ro_list xs ys h = h
seen_from cache ro_list rw_list xs ys h = swap cache ro_list xs ys h
seen_from cache rw_list ro_list xs ys h = swap cache rw_list xs ys h
seen_from cache rw_list rw_list xs ys h = h

of_list-Avoids :
    (e : ℕ) (b : Bool) (xs ys : List ℕ) → Avoids e xs → Avoids e ys → Avoids e (of_list b xs ys)
of_list-Avoids e true xs ys h k = h
of_list-Avoids e false xs ys h k = k

touch_known :
    (lid : ℕ) (write valid_on_host : Bool) (mdi fresh : ℕ) (cache : Cache) (old : Which) (e : ℕ)
    → lid ≢ 0
    → e ≢ 0
    → kaapi_memory_cache_touch lid write valid_on_host mdi fresh cache
        (record { cacheentry = e; cachelist = some old })
      ≡ some (
        push_entry (remove_entry cache old e) (target_list write valid_on_host (some old)) e,
        record { cacheentry = e; cachelist = some (target_list write valid_on_host (some old)) },
      )
unfolding kaapi_memory_cache_touch
touch_known lid write valid_on_host mdi fresh cache old e device real =
    let f : lid == 0 ≡ false = ground arith in
    let f' : e == 0 ≡ false = ground arith in rw (kaapi_memory_cache_touch, f, f') refl

-- the list of written data, if the access writes, or if the entry was there and the host has no valid copy
abbrev pub hot_list : Bool → Bool → Which → Which
hot_list write valid_on_host old =
    if write || (is_rw old && not valid_on_host) then rw_list else ro_list

-- On a device, kaapi_memory_cache_touch of a replica whose entry is in a list of the cache takes the entry out, and puts
-- it first in the list of written data if the access writes, or if it was there and the data is not
-- valid on the host, and else first in the list of read data; all other entries stay in their lists in
-- their order, and no entry is in both.
pub touch_moves :
    (lid : ℕ) (write valid_on_host : Bool) (mdi fresh : ℕ) (cache : Cache) (old : Which) (e : ℕ)
    (ls rs ys : List ℕ)
    → lid ≢ 0
    → HasLists cache old (ls ++ e ∷ rs) ys
    → (next : Cache) × (kaapi_memory_cache_touch lid write valid_on_host mdi fresh cache
          (record { cacheentry = e; cachelist = some old })
        ≡ some
            (next, record { cacheentry = e; cachelist = some (hot_list write valid_on_host old) }))
      × HasLists next
          (hot_list write valid_on_host old)
          (e ∷ of_list (is_same (hot_list write valid_on_host old) old) (ls ++ rs) ys)
          (of_list (is_same (hot_list write valid_on_host old) old) ys (ls ++ rs))
unfolding AreApart Avoids All target_list
touch_moves lid write valid_on_host mdi fresh cache old e ls rs ys device h =
    let w = target_list write valid_on_host (some old) in
    let real = (All-split (λ (x : ℕ). x ≢ 0) ls (e ∷ rs) h.this.no_null).1.0 in
    let taken = remove-HasLists cache old ls rs ys e h in
    let here = gone ls rs e h.this.distinct in
    let there = of_entry ls rs ys e h.apart in
    let put =
      push-HasLists (remove_entry cache old e) w (of_list (is_same w old) (ls ++ rs) ys)
        (of_list (is_same w old) ys (ls ++ rs)) e
        (seen_from (remove_entry cache old e) old w (ls ++ rs) ys taken)
        (of_list-Avoids e (is_same w old) (ls ++ rs) ys here there)
        (of_list-Avoids e (is_same w old) ys (ls ++ rs) there here) real in
    subst
      (λ (v : Which).
        (next : Cache) × (kaapi_memory_cache_touch lid write valid_on_host mdi fresh cache
            (record { cacheentry = e; cachelist = some old })
          ≡ some (next, record { cacheentry = e; cachelist = some v }))
        × HasLists next v (e ∷ of_list (is_same v old) (ls ++ rs) ys)
            (of_list (is_same v old) ys (ls ++ rs)))
      (goal write (is_rw old && not valid_on_host))
      (
        push_entry (remove_entry cache old e) w e,
        touch_known lid write valid_on_host mdi fresh cache old e device real,
        put,
      )
  where
    goal :
        (a b : Bool)
        → (if b then rw_list else (if a then rw_list else ro_list))
          ≡ (if a || b then rw_list else ro_list)
    goal true true = refl
    goal true false = refl
    goal false true = refl
    goal false false = refl

same_lists :
    (cache next : Cache) (w : Which) (xs ys : List ℕ)
    → next.links ≡ cache.links
    → next.lists ≡ cache.lists
    → HasLists cache w xs ys
    → HasLists next w xs ys
same_lists cache next w xs ys e e' h =
    let moved = λ (v : Which) (zs : List ℕ) (is : IsList cache.links (cache.lists v) zs).
      (subst (λ (l : Links). IsList l (next.lists v) zs) (sym e)
        (subst (λ (f : Which → CacheList). IsList cache.links (f v) zs) (sym e') is)) in
    record {
      this = moved w xs h.this;
      that = moved (other w) ys h.that;
      apart = h.apart;
      apart_back = h.apart_back;
    }

-- On a device, kaapi_memory_cache_touch of a replica without an entry or a list takes an entry for it
-- that is not null and was in no list, sets its `mdi`, and puts it first in the list of written data if
-- the access writes, and else of read data; all other entries stay in their lists in their order, and
-- the allocator has another entry for the next time. No entry was given back to the allocator, and a
-- bloc that malloc returns lies apart from the entries there are.
pub touch_inserts :
    (lid : ℕ) (write valid_on_host : Bool) (mdi fresh : ℕ) (cache : Cache) (xs ys : List ℕ)
    → lid ≢ 0
    → HasLists cache (if write then rw_list else ro_list) xs ys
    → IsAllocator cache (xs ++ ys)
    → IsNewBloc fresh (xs ++ ys)
    → (e : ℕ) × (next : Cache) × (kaapi_memory_cache_touch lid write valid_on_host mdi fresh cache
          (record { cacheentry = 0; cachelist = none })
        ≡ some (
          next,
          record { cacheentry = e; cachelist = some (if write then rw_list else ro_list) },
        ))
      × (0 < e)
      × HasLists next (if write then rw_list else ro_list) (e ∷ xs) ys
      × IsAllocator next (e ∷ xs ++ ys)
      × (next.mdi e ≡ mdi)
unfolding kaapi_memory_cache_touch target_list Avoids kaapi_memory_cache_allocate_entry push_entry
touch_inserts lid write valid_on_host mdi fresh cache xs ys device h allocator new =
    let w = if write then rw_list else ro_list in
    let r = bloc_entry cache.bloc fresh in
    let next = record cache { bloc = some r.1; mdi = update cache.mdi r.0 mdi } in
    let lem = bloc_entry_lem cache.bloc fresh (xs ++ ys) allocator.rest new in
    let (a, b) = All-split (λ (x : ℕ). x ≢ r.0) xs ys lem.1 in
    let f : lid == 0 ≡ false = ground arith in
    let empty : cache.freelist == 0 ≡ true = let z = allocator.none_back in ground arith in
    let mine : r.0 == r.0 ≡ true = ground arith in
    (
      r.0,
      push_entry next w r.0,
      rw (kaapi_memory_cache_touch, f, empty) refl,
      lem.0,
      push-HasLists next w xs ys r.0 (same_lists cache next w xs ys refl refl h) a b
          (λ z. let p = lem.0 in omega arith),
      record {
        none_back = allocator.none_back;
        rest =
            λ c e. subst (λ (d : Bloc). HasRest d (r.0 ∷ xs ++ ys)) (some-injective r.1 c e) lem.2;
      },
      rw mine refl,
    )
