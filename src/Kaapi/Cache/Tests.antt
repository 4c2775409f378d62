-- ===== src/Kaapi/Cache/Tests.antt =====
-- A cache with the read entries 1 and 2 and the written entry 3.
use mathlib.Core.Option.{some-injective}
use xkblas.Base.{
  ℕ, ◌<◌, subst, inl, none, ◌≡◌, refl, arith, true, false, some, [], ◌∷◌, ◌==◌, if◌then◌else◌, All,
  Distinct,
}
use xkblas.Kaapi.Cache.{CacheList, Which, ro_list, rw_list, Cache, Bloc, kaapi_memory_cache_touch}
use xkblas.Kaapi.Cache.Allocator.{HasRest, IsAllocator, IsNewBloc}
use xkblas.Kaapi.Cache.Chain.{Chain, Avoids}
use xkblas.Kaapi.Cache.Lists.{AreApart}
use xkblas.Kaapi.Cache.Touch.{
  touch_inserts, HasLists, other, is_same, of_list, hot_list, touch_moves,
}

abbrev both : Which → CacheList
both ro_list = record { first = 1; last = 2 }
both rw_list = record { first = 3; last = 3 }

abbrev cache : Cache
cache = record {
  links = record { next = λ x. if x == 1 then 2 else 0; prev = λ x. if x == 2 then 1 else 0 };
  lists = both;
  mdi = λ x. x;
  freelist = 0;
  bloc = some (record { base = 10; pos = 5 });
}

cache-HasLists : HasLists cache ro_list (1 ∷ 2 ∷ []) (3 ∷ [])
unfolding other Chain Distinct Avoids All AreApart
cache-HasLists = record {
  this = record {
    linked = (refl, (refl, (refl, (refl, tt))));
    at_first = refl;
    at_last = refl;
    distinct = ((omega arith, tt), (tt, tt));
    no_null = (omega arith, (omega arith, tt));
  };
  that = record {
    linked = (refl, (refl, tt));
    at_first = refl;
    at_last = refl;
    distinct = (tt, tt);
    no_null = (omega arith, tt);
  };
  apart = ((omega arith, tt), ((omega arith, tt), tt));
  apart_back = ((omega arith, (omega arith, tt)), tt);
}

touch_moves_example :
    (next : Cache) × (kaapi_memory_cache_touch 1 true false 9 99 cache
        (record { cacheentry = 2; cachelist = some ro_list })
      ≡ some (next, record { cacheentry = 2; cachelist = some (hot_list true false ro_list) }))
    × HasLists next
        (hot_list true false ro_list)
        (2 ∷ of_list (is_same (hot_list true false ro_list) ro_list) (1 ∷ []) (3 ∷ []))
        (of_list (is_same (hot_list true false ro_list) ro_list) (3 ∷ []) (1 ∷ []))
touch_moves_example =
    touch_moves 1 true false 9 99 cache ro_list 2 (1 ∷ []) [] (3 ∷ []) (omega arith) cache-HasLists

cache-IsAllocator : IsAllocator cache (1 ∷ 2 ∷ 3 ∷ [])
unfolding All
cache-IsAllocator = record {
  none_back = refl;
  rest = λ b e.
      subst (λ (c : Bloc). HasRest c (1 ∷ 2 ∷ 3 ∷ []))
        (some-injective (record { base = 10; pos = 5 }) b e)
        (record {
          real = omega arith;
          counted = omega arith;
          within = omega arith;
          unused = (inl (omega arith), (inl (omega arith), (inl (omega arith), tt)));
        });
}

bloc-IsNewBloc : IsNewBloc 4096 (1 ∷ 2 ∷ 3 ∷ [])
unfolding All
bloc-IsNewBloc = record {
  real = omega arith;
  apart = (inl (omega arith), (inl (omega arith), (inl (omega arith), tt)));
}

touch_inserts_example :
    (e : ℕ) × (next : Cache) × (kaapi_memory_cache_touch 1 false true 9 4096 cache
        (record { cacheentry = 0; cachelist = none })
      ≡ some (next, record { cacheentry = e; cachelist = some ro_list }))
    × (0 < e)
    × HasLists next ro_list (e ∷ 1 ∷ 2 ∷ []) (3 ∷ [])
    × IsAllocator next (e ∷ 1 ∷ 2 ∷ 3 ∷ [])
    × (next.mdi e ≡ 9)
touch_inserts_example =
    touch_inserts 1 false true 9 4096 cache (1 ∷ 2 ∷ []) (3 ∷ []) (omega arith) cache-HasLists
      cache-IsAllocator bloc-IsNewBloc
