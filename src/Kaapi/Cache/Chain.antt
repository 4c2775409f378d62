-- ===== src/Kaapi/Cache/Chain.antt =====
-- A list of entries in memory.
use xkblas.Base.{
  ℕ, ◌≡◌, ◌≢◌, refl, sym, subst, ◌∙◌, arith, true, false, List, [], ◌∷◌, ◌++◌, ◌==◌, update, All,
  Distinct,
}
use xkblas.Kaapi.Cache.{Links, CacheList, kaapi_memory_cache_push_front}

abbrev pub head_or : List ℕ → ℕ → ℕ
head_or [] d = d
head_or (x ∷ xs) d = x

abbrev pub last_or : List ℕ → ℕ → ℕ
last_or [] d = d
last_or (x ∷ xs) d = last_or xs x

-- The entries are linked one to the next, the first one back to `p` and the last one on to `q`.
unfoldable pub Chain : (ℕ → ℕ) → (ℕ → ℕ) → ℕ → List ℕ → ℕ → Type 0
Chain next prev p [] q = Unit {0}
Chain next prev p (x ∷ xs) q = (prev x ≡ p) × ((next x ≡ head_or xs q) × Chain next prev x xs q)

unfoldable pub Avoids : ℕ → List ℕ → Type 0
Avoids a xs = All (λ x. x ≢ a) xs

missed : (f : ℕ → ℕ) (a v x : ℕ) → x ≢ a → update f a v x ≡ f x
missed f a v x ne = let f' : x == a ≡ false = ground arith in rw f' refl

hit : (f : ℕ → ℕ) (a v : ℕ) → update f a v a ≡ v
hit f a v = let t : a == a ≡ true = ground arith in rw t refl

pub frame_next :
    (next prev : ℕ → ℕ) (p : ℕ) (xs : List ℕ) (q a v : ℕ)
    → Avoids a xs
    → Chain next prev p xs q
    → Chain (update next a v) prev p xs q
unfolding Chain Avoids All
frame_next next prev p [] q a v h c = tt
frame_next next prev p (x ∷ xs) q a v h c =
    (c.0, (missed next a v x h.0 ∙ c.1.0, frame_next next prev x xs q a v h.1 c.1.1))

pub frame_prev :
    (next prev : ℕ → ℕ) (p : ℕ) (xs : List ℕ) (q a v : ℕ)
    → Avoids a xs
    → Chain next prev p xs q
    → Chain next (update prev a v) p xs q
unfolding Chain Avoids All
frame_prev next prev p [] q a v h c = tt
frame_prev next prev p (x ∷ xs) q a v h c =
    (missed prev a v x h.0 ∙ c.0, (c.1.0, frame_prev next prev x xs q a v h.1 c.1.1))

-- the first entry linked back to another
pub relink_first :
    (next prev : ℕ → ℕ) (p r x : ℕ) (xs : List ℕ) (q : ℕ)
    → Avoids x xs
    → Chain next prev p (x ∷ xs) q
    → Chain next (update prev x r) r (x ∷ xs) q
unfolding Chain
relink_first next prev p r x xs q h c =
    (hit prev x r, (c.1.0, frame_prev next prev x xs q x r h c.1.1))

pub last-Avoids : (a x : ℕ) (xs : List ℕ) → Avoids a (x ∷ xs) → last_or xs x ≢ a
unfolding Avoids All
last-Avoids a x [] h = h.0
last-Avoids a x (y ∷ ys) h = last-Avoids a y ys h.1

-- the last entry linked on to another
pub relink_last :
    (next prev : ℕ → ℕ) (p x : ℕ) (xs : List ℕ) (q r : ℕ)
    → Distinct (x ∷ xs)
    → Chain next prev p (x ∷ xs) q
    → Chain (update next (last_or xs x) r) prev p (x ∷ xs) r
unfolding Chain Distinct Avoids All
relink_last next prev p x [] q r d c = (c.0, (hit next x r, tt))
relink_last next prev p x (y ∷ ys) q r d c =
    let other = last-Avoids x y ys d.0 in
    (
      c.0,
      (
        missed next (last_or ys y) r x (λ e. other (sym e)) ∙ c.1.0,
        relink_last next prev x y ys q r d.1 c.1.1,
      ),
    )

pub head_or-append : (xs ys : List ℕ) (q : ℕ) → head_or (xs ++ ys) q ≡ head_or xs (head_or ys q)
head_or-append [] ys q = refl
head_or-append (x ∷ xs) ys q = refl

pub chain_split :
    (next prev : ℕ → ℕ) (p : ℕ) (xs ys : List ℕ) (q : ℕ)
    → Chain next prev p (xs ++ ys) q
    → Chain next prev p xs (head_or ys q) × Chain next prev (last_or xs p) ys q
unfolding Chain
chain_split next prev p [] ys q c = (tt, c)
chain_split next prev p (x ∷ xs) ys q c =
    let (a, b) = chain_split next prev x xs ys q c.1.1 in
    ((c.0, (c.1.0 ∙ head_or-append xs ys q, a)), b)

pub chain_join :
    (next prev : ℕ → ℕ) (p : ℕ) (xs ys : List ℕ) (q : ℕ)
    → Chain next prev p xs (head_or ys q)
    → Chain next prev (last_or xs p) ys q
    → Chain next prev p (xs ++ ys) q
unfolding Chain
chain_join next prev p [] ys q a b = b
chain_join next prev p (x ∷ xs) ys q a b =
    (a.0, (a.1.0 ∙ sym (head_or-append xs ys q), chain_join next prev x xs ys q a.1.1 b))

pub last_or-append : (xs ys : List ℕ) (d : ℕ) → last_or (xs ++ ys) d ≡ last_or ys (last_or xs d)
last_or-append [] ys d = refl
last_or-append (x ∷ xs) ys d = last_or-append xs ys x

-- The fields of a list in memory, whose entries are these.
pub record IsList (links : Links) (list : CacheList) (xs : List ℕ) : Type 0 where
  pub linked : Chain links.next links.prev 0 xs 0
  pub at_first : list.first ≡ head_or xs 0
  pub at_last : list.last ≡ last_or xs 0
  pub distinct : Distinct xs
  pub no_null : Avoids 0 xs

pub pushed_first :
    (links : Links) (list : CacheList) (entry : ℕ)
    → list.first ≡ 0
    → kaapi_memory_cache_push_front links list entry ≡ (
      record { next = update links.next entry 0; prev = update links.prev entry 0 },
      record { first = entry; last = entry },
    )
unfolding kaapi_memory_cache_push_front
pushed_first links list entry e =
    let t : list.first == 0 ≡ true = ground (arith, e) in
    rw (kaapi_memory_cache_push_front, t, e) refl

pub pushed_before :
    (links : Links) (list : CacheList) (entry y : ℕ)
    → list.first ≡ y
    → y ≢ 0
    → kaapi_memory_cache_push_front links list entry ≡ (
      record {
        next = update links.next entry y;
        prev = update (update links.prev entry 0) y entry;
      },
      record { first = entry; last = list.last },
    )
unfolding kaapi_memory_cache_push_front
pushed_before links list entry y e real =
    let f : list.first == 0 ≡ false = ground (arith, e) in
    rw (kaapi_memory_cache_push_front, f, e) refl

-- kaapi_memory_cache_push_front of an entry that is not in a list puts it before the others.
pub push_front-IsList :
    (links : Links) (list : CacheList) (xs : List ℕ) (entry : ℕ)
    → IsList links list xs
    → Avoids entry xs
    → entry ≢ 0
    → IsList
        (kaapi_memory_cache_push_front links list entry).0
        (kaapi_memory_cache_push_front links list entry).1
        (entry ∷ xs)
unfolding Chain Distinct Avoids All
push_front-IsList links list [] entry is fresh real =
    subst (λ (r : Links × CacheList). IsList r.0 r.1 (entry ∷ []))
      (sym (pushed_first links list entry is.at_first))
      (record {
        linked = (hit links.prev entry 0, (hit links.next entry 0, tt));
        at_first = refl;
        at_last = refl;
        distinct = (tt, tt);
        no_null = (real, tt);
      })
push_front-IsList links list (y ∷ ys) entry is fresh real =
    let framed =
      frame_prev (update links.next entry y) links.prev 0 (y ∷ ys) 0 entry 0 fresh
        (frame_next links.next links.prev 0 (y ∷ ys) 0 entry y fresh is.linked) in
    subst (λ (r : Links × CacheList). IsList r.0 r.1 (entry ∷ y ∷ ys))
      (sym (pushed_before links list entry y is.at_first is.no_null.0))
      (record {
        linked = (
          missed (update links.prev entry 0) y entry entry (λ e. fresh.0 (sym e))
              ∙ hit links.prev entry 0,
          (
            hit links.next entry y,
            relink_first (update links.next entry y) (update links.prev entry 0) 0 entry y ys 0
                is.distinct.0 framed,
          ),
        );
        at_first = refl;
        at_last = is.at_last;
        distinct = (fresh, is.distinct);
        no_null = (real, is.no_null);
      })
