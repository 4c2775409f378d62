-- ===== src/Kaapi/Cache/Allocator.antt =====
-- kaapi_memory_cache_allocate_entry: the entries that it takes from its blocs.
use xkblas.Base.{
  ℕ, suc, ◌+◌, ◌≤◌, ◌<◌, ◌≡◌, ◌⊎◌, inl, inr, refl, subst, arith, Option, none, some, List, [], ◌∷◌,
  ◌==◌, All, Bool-cases,
}
use xkblas.Kaapi.Cache.{Bloc, Cache, cacheentry_blocsize, bloc_entry}
use xkblas.Kaapi.Cache.Chain.{Avoids}

-- A bloc of entries at an address lies apart from the entries of a list.
abbrev pub IsOutside : ℕ → ℕ → List ℕ → Type 0
IsOutside lo hi xs = All (λ (x : ℕ). (x < lo) ⊎ (hi ≤ x)) xs

-- What is left of the current bloc: a bloc at an address that is not null, with the entries from `pos` on
-- in no list.
pub record HasRest (b : Bloc) (xs : List ℕ) : Type 0 where
  pub real : 0 < b.base
  pub counted : 0 < b.pos
  pub within : b.pos ≤ cacheentry_blocsize
  pub unused : IsOutside (b.base + b.pos) (b.base + cacheentry_blocsize) xs

-- The allocator of a cache whose lists have the entries `xs`, without entries that were given back.
pub record IsAllocator (cache : Cache) (xs : List ℕ) : Type 0 where
  pub none_back : cache.freelist ≡ 0
  pub rest : (b : Bloc) → cache.bloc ≡ some b → HasRest b xs

-- A bloc that `malloc` returns: not at the address 0, and apart from the entries there are.
pub record IsNewBloc (fresh : ℕ) (xs : List ℕ) : Type 0 where
  pub real : 0 < fresh
  pub apart : IsOutside fresh (fresh + cacheentry_blocsize) xs

-- An entry of a part of memory that is taken, and what is left behind it.
taken :
    (lo hi : ℕ) (xs : List ℕ)
    → lo < hi
    → IsOutside lo hi xs
    → Avoids lo xs × IsOutside (suc lo) hi (lo ∷ xs)
unfolding All Avoids
taken lo hi [] h o = (tt, (inl (omega arith), tt))
taken lo hi (x ∷ xs) h o =
    let r = taken lo hi xs h o.1 in
    let here : (x < lo) ⊎ (hi ≤ x) = o.0 in
    ((ground (arith, here), r.0), (inl (omega arith), (ground (arith, here), r.1.1)))

narrower : (lo lo' hi : ℕ) (xs : List ℕ) → lo ≤ lo' → IsOutside lo hi xs → IsOutside lo' hi xs
unfolding All
narrower lo lo' hi [] h o = tt
narrower lo lo' hi (x ∷ xs) h o =
    let here : (x < lo) ⊎ (hi ≤ x) = o.0 in (ground (arith, here), narrower lo lo' hi xs h o.1)

-- The entry that the allocator gives is not null and in no list, and it has another one next time.
first_of_bloc :
    (fresh : ℕ) (xs : List ℕ)
    → IsNewBloc fresh xs
    → (0 < fresh + 1)
      × Avoids (fresh + 1) xs
      × HasRest (record { base = fresh; pos = 2 }) ((fresh + 1) ∷ xs)
first_of_bloc fresh xs new =
    let t =
      taken (fresh + 1) (fresh + cacheentry_blocsize) xs (omega arith)
        (narrower fresh (fresh + 1) (fresh + cacheentry_blocsize) xs (omega arith) new.apart) in
    let next : suc (fresh + 1) ≡ fresh + 2 = omega arith in
    (
      omega arith,
      t.0,
      record {
        real = new.real;
        counted = omega arith;
        within = omega arith;
        unused =
            subst (λ (lo : ℕ). IsOutside lo (fresh + cacheentry_blocsize) ((fresh + 1) ∷ xs)) next
              t.1;
      },
    )

pub bloc_entry_lem :
    (bloc : Option Bloc) (fresh : ℕ) (xs : List ℕ)
    → ((b : Bloc) → bloc ≡ some b → HasRest b xs)
    → IsNewBloc fresh xs
    → (0 < (bloc_entry bloc fresh).0)
      × Avoids (bloc_entry bloc fresh).0 xs
      × HasRest (bloc_entry bloc fresh).1 ((bloc_entry bloc fresh).0 ∷ xs)
unfolding bloc_entry
bloc_entry_lem none fresh xs rest new = first_of_bloc fresh xs new
bloc_entry_lem (some b) fresh xs rest new = elim (Bool-cases (b.pos == cacheentry_blocsize)) [
  | inl t ↦ rw t (first_of_bloc fresh xs new)
  | inr f ↦
      let r = rest b refl in
      let w = r.within in
      let inside : b.base + b.pos < b.base + cacheentry_blocsize = ground arith in
      let t = taken (b.base + b.pos) (b.base + cacheentry_blocsize) xs inside r.unused in
      let next : suc (b.base + b.pos) ≡ b.base + suc b.pos = omega arith in
      rw f (
        omega (arith, r.real),
        t.0,
        record {
          real = r.real;
          counted = omega arith;
          within = ground arith;
          unused =
              subst
                (λ (lo : ℕ). IsOutside lo (b.base + cacheentry_blocsize) ((b.base + b.pos) ∷ xs))
                next t.1;
        },
      )
]
