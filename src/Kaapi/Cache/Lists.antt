-- ===== src/Kaapi/Cache/Lists.antt =====
-- Both lists of a cache.
use xkblas.Base.{ℕ, sym, subst, List, [], ◌∷◌, ◌++◌, ◌==◌, if◌then◌else◌, update, All}
use xkblas.Kaapi.Cache.{
  Links, CacheList, kaapi_memory_cache_remove_from_list, kaapi_memory_cache_push_front,
}
use xkblas.Kaapi.Cache.Chain.{
  head_or, last_or, Chain, Avoids, frame_next, frame_prev, chain_split, IsList, pushed_first,
  pushed_before,
}
use xkblas.Kaapi.Cache.Remove.{next_of, prev_of, frame_if_next, frame_if_prev, All-split, removed}

framed-IsList :
    (links links' : Links) (list : CacheList) (xs : List ℕ)
    → IsList links list xs
    → Chain links'.next links'.prev 0 xs 0
    → IsList links' list xs
framed-IsList links links' list xs is c = record {
  linked = c;
  at_first = is.at_first;
  at_last = is.at_last;
  distinct = is.distinct;
  no_null = is.no_null;
}

-- No entry of the one list is in the other.
unfoldable pub AreApart : List ℕ → List ℕ → Type 0
AreApart xs ys = All (λ x. Avoids x ys) xs

apart_head : (xs ys : List ℕ) → Avoids 0 ys → AreApart xs ys → Avoids (head_or xs 0) ys
unfolding AreApart All
apart_head [] ys z h = z
apart_head (x ∷ xs) ys z h = h.0

apart_last : (xs ys : List ℕ) (d : ℕ) → Avoids d ys → AreApart xs ys → Avoids (last_or xs d) ys
unfolding AreApart All
apart_last [] ys d z h = z
apart_last (x ∷ xs) ys d z h = apart_last xs ys x h.0 h.1

-- a removal from the one list leaves the other
pub removal_frames :
    (links : Links) (list other : CacheList) (ls rs ys : List ℕ) (entry : ℕ)
    → IsList links list (ls ++ entry ∷ rs)
    → IsList links other ys
    → AreApart (ls ++ entry ∷ rs) ys
    → IsList (kaapi_memory_cache_remove_from_list links list entry).0 other ys
unfolding Chain AreApart All
removal_frames links list other ls rs ys entry is os apart =
    let p = last_or ls 0 in
    let n = head_or rs 0 in
    let middle = (chain_split links.next links.prev 0 ls (entry ∷ rs) 0 is.linked).1 in
    let (al, ar) = All-split (λ (x : ℕ). Avoids x ys) ls (entry ∷ rs) apart in
    let ap' = apart_last ls ys 0 os.no_null al in
    let an = apart_head rs ys os.no_null ar.1 in
    let one = frame_if_next (p == 0) links.next links.prev 0 ys 0 p n ap' os.linked in
    let next' = if p == 0 then links.next else update links.next p n in
    let two = frame_if_prev (n == 0) next' links.prev 0 ys 0 n p an one in
    let prev' = if n == 0 then links.prev else update links.prev n p in
    let three =
      frame_prev (update next' entry 0) prev' 0 ys 0 entry 0 ar.0
        (frame_next next' prev' 0 ys 0 entry 0 ar.0 two) in
    subst (λ (r : Links × CacheList). IsList r.0 other ys)
      (sym (removed links list entry p n middle.1.0 middle.0))
      (framed-IsList links
        (record { next = next_of links.next entry p n; prev = prev_of links.prev entry p n }) other
        ys os three)

-- as does an insertion into the one list
pub insertion_frames :
    (links : Links) (list other : CacheList) (xs ys : List ℕ) (entry : ℕ)
    → IsList links list xs
    → IsList links other ys
    → AreApart xs ys
    → Avoids entry ys
    → IsList (kaapi_memory_cache_push_front links list entry).0 other ys
unfolding AreApart All Avoids
insertion_frames links list other [] ys entry is os apart fresh =
    subst (λ (r : Links × CacheList). IsList r.0 other ys)
      (sym (pushed_first links list entry is.at_first))
      (framed-IsList links
        (record { next = update links.next entry 0; prev = update links.prev entry 0 }) other ys os
        (frame_prev (update links.next entry 0) links.prev 0 ys 0 entry 0 fresh
          (frame_next links.next links.prev 0 ys 0 entry 0 fresh os.linked)))
insertion_frames links list other (x ∷ xs) ys entry is os apart fresh =
    let one =
      frame_prev (update links.next entry x) links.prev 0 ys 0 entry 0 fresh
        (frame_next links.next links.prev 0 ys 0 entry x fresh os.linked) in
    subst (λ (r : Links × CacheList). IsList r.0 other ys)
      (sym (pushed_before links list entry x is.at_first is.no_null.0))
      (framed-IsList links
        (record {
          next = update links.next entry x;
          prev = update (update links.prev entry 0) x entry;
        })
        other ys os
        (frame_prev (update links.next entry x) (update links.prev entry 0) 0 ys 0 x entry apart.0
          one))
