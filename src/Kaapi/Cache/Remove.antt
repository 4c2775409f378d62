-- ===== src/Kaapi/Cache/Remove.antt =====
-- The removal of an entry from a list.
use xkblas.Base.{
  ℕ, ◌≡◌, ◌≢◌, refl, sym, subst, ◌∙◌, arith, Bool, true, false, List, [], ◌∷◌, ◌++◌, ◌==◌,
  if◌then◌else◌, update, All, All-append, Distinct,
}
use xkblas.Kaapi.Cache.{Links, CacheList, kaapi_memory_cache_remove_from_list}
use xkblas.Kaapi.Cache.Chain.{
  head_or, last_or, last_or-append, Chain, Avoids, frame_next, frame_prev, relink_first,
  relink_last, last-Avoids, chain_split, chain_join, IsList,
}

-- the new `next` and `prev` around the gap
abbrev pub next_of : (ℕ → ℕ) → ℕ → ℕ → ℕ → ℕ → ℕ
next_of next entry p n = update (if p == 0 then next else update next p n) entry 0

abbrev pub prev_of : (ℕ → ℕ) → ℕ → ℕ → ℕ → ℕ → ℕ
prev_of prev entry p n = update (if n == 0 then prev else update prev n p) entry 0

pub frame_if_prev :
    (b : Bool) (next prev : ℕ → ℕ) (p : ℕ) (xs : List ℕ) (q a v : ℕ)
    → Avoids a xs
    → Chain next prev p xs q
    → Chain next (if b then prev else update prev a v) p xs q
frame_if_prev true next prev p xs q a v h c = c
frame_if_prev false next prev p xs q a v h c = frame_prev next prev p xs q a v h c

pub frame_if_next :
    (b : Bool) (next prev : ℕ → ℕ) (p : ℕ) (xs : List ℕ) (q a v : ℕ)
    → Avoids a xs
    → Chain next prev p xs q
    → Chain (if b then next else update next a v) prev p xs q
frame_if_next true next prev p xs q a v h c = c
frame_if_next false next prev p xs q a v h c = frame_next next prev p xs q a v h c

-- the entries before the gap
pub left_part :
    (next prev : ℕ → ℕ) (entry n : ℕ) (ls : List ℕ)
    → Distinct ls
    → Avoids 0 ls
    → Avoids entry ls
    → Avoids n ls
    → Chain next prev 0 ls entry
    → Chain (next_of next entry (last_or ls 0) n) (prev_of prev entry (last_or ls 0) n) 0 ls n
unfolding Chain
left_part next prev entry n [] d z e o c = tt
left_part next prev entry n (a ∷ ls) d z e o c =
    let p = last_or ls a in
    let f : p == 0 ≡ false = ground (arith, last-Avoids 0 a ls z) in
    let one = relink_last next prev 0 a ls entry n d c in
    let two = frame_if_prev (n == 0) (update next p n) prev 0 (a ∷ ls) n n p o one in
    subst
      (λ (b : Bool).
        Chain (update (if b then next else update next p n) entry 0) (prev_of prev entry p n) 0
          (a ∷ ls) n)
      (sym f)
      (frame_prev (update (update next p n) entry 0) (if n == 0 then prev else update prev n p) 0
        (a ∷ ls) n entry 0 e
        (frame_next (update next p n) (if n == 0 then prev else update prev n p) 0 (a ∷ ls) n entry
          0 e two))

-- the entries behind the gap
right_part :
    (next prev : ℕ → ℕ) (entry p : ℕ) (rs : List ℕ)
    → Distinct rs
    → Avoids 0 rs
    → Avoids entry rs
    → Avoids p rs
    → Chain next prev entry rs 0
    → Chain (next_of next entry p (head_or rs 0)) (prev_of prev entry p (head_or rs 0)) p rs 0
unfolding Chain Distinct Avoids All
right_part next prev entry p [] d z e o c = tt
right_part next prev entry p (b ∷ rs) d z e o c =
    let f : b == 0 ≡ false = ground (arith, z.0) in
    let one = relink_first next prev entry p b rs 0 d.0 c in
    let two = frame_if_next (p == 0) next (update prev b p) p (b ∷ rs) 0 p b o one in
    let next' = if p == 0 then next else update next p b in
    let three = frame_next next' (update prev b p) p (b ∷ rs) 0 entry 0 e two in
    subst
      (λ (c : Bool).
        Chain (next_of next entry p b) (update (if c then prev else update prev b p) entry 0) p
          (b ∷ rs) 0)
      (sym f) (frame_prev (update next' entry 0) (update prev b p) p (b ∷ rs) 0 entry 0 e three)

pub All-split : (P : ℕ → Type 0) (xs ys : List ℕ) → All P (xs ++ ys) → All P xs × All P ys
unfolding All
All-split P [] ys h = (tt, h)
All-split P (x ∷ xs) ys h = let (a, b) = All-split P xs ys h.1 in ((h.0, a), b)

pub Distinct-append_back : (xs ys : List ℕ) → Distinct (xs ++ ys) → Distinct xs × Distinct ys
unfolding Distinct
Distinct-append_back [] ys d = (tt, d)
Distinct-append_back (x ∷ xs) ys d =
    let (a, b) = Distinct-append_back xs ys d.1 in
    (((All-split (λ (z : ℕ). z ≢ x) xs ys d.0).0, a), b)

-- an entry of the second list is none of the first
pub cross : (xs ys : List ℕ) (y : ℕ) → Distinct (xs ++ y ∷ ys) → Avoids y xs
unfolding Distinct Avoids All
cross [] ys y d = tt
cross (x ∷ xs) ys y d =
    ((λ e. (All-split (λ (z : ℕ). z ≢ x) xs (y ∷ ys) d.0).1.0 (sym e)), cross xs ys y d.1)

-- the list without its entry in the middle
pub without : (xs ys : List ℕ) (y : ℕ) → Distinct (xs ++ y ∷ ys) → Distinct (xs ++ ys)
unfolding Distinct All
without [] ys y d = d.1
without (x ∷ xs) ys y d =
    let (a, b) = All-split (λ (z : ℕ). z ≢ x) xs (y ∷ ys) d.0 in
    (All-append (λ (z : ℕ). z ≢ x) xs ys a b.1, without xs ys y d.1)

head-Avoids : (ls rs : List ℕ) → Avoids 0 ls → Distinct (ls ++ rs) → Avoids (head_or rs 0) ls
head-Avoids ls [] z d = z
head-Avoids ls (r ∷ rs) z d = cross ls rs r d

-- the last entry of the first list is none of the second
last-Avoids_right : (l : ℕ) (ls rs : List ℕ) → Distinct (l ∷ ls ++ rs) → Avoids (last_or ls l) rs
unfolding Distinct Avoids All
last-Avoids_right l [] rs d = d.0
last-Avoids_right l (m ∷ ls) rs d = last-Avoids_right m ls rs d.1

behind-Avoids : (ls rs : List ℕ) → Avoids 0 rs → Distinct (ls ++ rs) → Avoids (last_or ls 0) rs
behind-Avoids [] rs z d = z
behind-Avoids (l ∷ ls) rs z d = last-Avoids_right l ls rs d

pub removed :
    (links : Links) (list : CacheList) (entry p n : ℕ)
    → links.next entry ≡ n
    → links.prev entry ≡ p
    → kaapi_memory_cache_remove_from_list links list entry ≡ (
      record { next = next_of links.next entry p n; prev = prev_of links.prev entry p n },
      record { first = if p == 0 then n else list.first; last = if n == 0 then p else list.last },
    )
unfolding kaapi_memory_cache_remove_from_list
removed links list entry p n en ep = rw (kaapi_memory_cache_remove_from_list, en, ep) refl

new_first :
    (ls rs : List ℕ) (entry first : ℕ)
    → Avoids 0 ls
    → first ≡ head_or (ls ++ entry ∷ rs) 0
    → (if last_or ls 0 == 0 then head_or rs 0 else first) ≡ head_or (ls ++ rs) 0
new_first [] rs entry first z e = refl
new_first (l ∷ ls) rs entry first z e =
    let f : last_or ls l == 0 ≡ false = ground (arith, last-Avoids 0 l ls z) in rw f e

new_last :
    (ls rs : List ℕ) (entry last : ℕ)
    → Avoids 0 rs
    → last ≡ last_or (ls ++ entry ∷ rs) 0
    → (if head_or rs 0 == 0 then last_or ls 0 else last) ≡ last_or (ls ++ rs) 0
unfolding Avoids All
new_last ls [] entry last z e = sym (last_or-append ls [] 0)
new_last ls (r ∷ rs) entry last z e =
    let f : r == 0 ≡ false = ground (arith, z.0) in
    rw f (e ∙ last_or-append ls (entry ∷ r ∷ rs) 0 ∙ sym (last_or-append ls (r ∷ rs) 0))

-- kaapi_memory_cache_remove_from_list of an entry of a list leaves the others in their order.
pub remove-IsList :
    (links : Links) (list : CacheList) (ls rs : List ℕ) (entry : ℕ)
    → IsList links list (ls ++ entry ∷ rs)
    → IsList
        (kaapi_memory_cache_remove_from_list links list entry).0
        (kaapi_memory_cache_remove_from_list links list entry).1
        (ls ++ rs)
unfolding Chain Avoids All Distinct
remove-IsList links list ls rs entry is =
    let p = last_or ls 0 in
    let n = head_or rs 0 in
    let (left, middle) = chain_split links.next links.prev 0 ls (entry ∷ rs) 0 is.linked in
    let (zl, zr) = All-split (λ (x : ℕ). x ≢ 0) ls (entry ∷ rs) is.no_null in
    let (dl, dr) = Distinct-append_back ls (entry ∷ rs) is.distinct in
    let all = without ls rs entry is.distinct in
    subst (λ (r : Links × CacheList). IsList r.0 r.1 (ls ++ rs))
      (sym (removed links list entry p n middle.1.0 middle.0))
      (record {
        linked =
            chain_join (next_of links.next entry p n) (prev_of links.prev entry p n) 0 ls rs 0
              (left_part links.next links.prev entry n ls dl zl (cross ls rs entry is.distinct)
                (head-Avoids ls rs zl all) left)
              (right_part links.next links.prev entry p rs dr.1 zr.1 dr.0
                (behind-Avoids ls rs zr.1 all) middle.1.1);
        at_first = new_first ls rs entry list.first zl is.at_first;
        at_last = new_last ls rs entry list.last zr.1 is.at_last;
        distinct = all;
        no_null = All-append (λ (x : ℕ). x ≢ 0) ls rs zl zr.1;
      })
