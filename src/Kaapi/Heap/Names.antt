-- ===== src/Kaapi/Heap/Names.antt =====
-- The chunks keep different names.
use xkblas.Base.{ℕ, ◌≢◌, sym, List, [], ◌∷◌, ◌++◌, Bool-cases, inl, inr, All}
use xkblas.Kaapi.Heap.{Strategy, Chunk, zip_up, split, splits, merge_next, merge_prev}
use xkblas.Kaapi.Heap.FreeList.{AreNamed, AreNamed-zip_up}

abbrev pub Others : ℕ → List Chunk → Type 0
Others x cs = All (λ (c : Chunk). c.id ≢ x) cs

-- The chunks from a place on may be replaced by others with the same names or new ones.
AreNamed-replace :
    (Q : ℕ → Type 0) (ps cs cs' : List Chunk)
    → All (λ (p : Chunk). Q p.id) ps
    → ((x : ℕ) → Q x → Others x cs → Others x cs')
    → AreNamed cs'
    → AreNamed (zip_up ps cs)
    → AreNamed (zip_up ps cs')
unfolding zip_up AreNamed All
AreNamed-replace Q [] cs cs' q f a h = a
AreNamed-replace Q (p ∷ ps) cs cs' q f a h =
    let named = (AreNamed-zip_up ps (p ∷ cs) h).1 in
    AreNamed-replace Q ps (p ∷ cs) (p ∷ cs') q.1 (λ x qx o. (o.0, f x qx o.1))
      (f p.id q.0 named.0, a) h

unconditional : (ps : List Chunk) → All (λ (p : Chunk). Unit {0}) ps
unfolding All
unconditional [] = tt
unconditional (p ∷ ps) = (tt, unconditional ps)

pub split-AreNamed :
    (strategy : Strategy) (c : Chunk) (size remainder : ℕ) (ps ns : List Chunk)
    → Others remainder ps
    → Others remainder (c ∷ ns)
    → AreNamed (zip_up ps (c ∷ ns))
    → AreNamed (zip_up ps (split strategy c size remainder ++ ns))
unfolding split All AreNamed
split-AreNamed strategy c size remainder ps ns before after h =
    let named = (AreNamed-zip_up ps (c ∷ ns) h).1 in
    elim (Bool-cases (splits strategy c size)) [
      | inl s ↦ rw s (
          AreNamed-replace (λ x. x ≢ remainder) ps (c ∷ ns) _ before
            (λ x q o. (o.0, ((λ e. q (sym e)), o.1)))
            (((λ e. after.0 (sym e)), named.0), (after.1, named.1)) h)
      | inr s ↦
          rw s
            (AreNamed-replace (λ x. Unit {0}) ps (c ∷ ns) _ (unconditional ps) (λ x q o. o) named h)
    ]

merge_next-AreNamed :
    (c : Chunk) (ps ns : List Chunk)
    → AreNamed (zip_up ps (c ∷ ns))
    → AreNamed (zip_up ps (merge_next c ns))
unfolding merge_next All AreNamed
merge_next-AreNamed c ps [] h =
    AreNamed-replace (λ x. Unit {0}) ps (c ∷ []) _ (unconditional ps) (λ x q o. o) (tt, tt) h
merge_next-AreNamed c ps (n ∷ ns) h =
    let named = (AreNamed-zip_up ps (c ∷ n ∷ ns) h).1 in
    elim (Bool-cases n.is_free) [
      | inl f ↦ simp f (
          AreNamed-replace (λ x. Unit {0}) ps (c ∷ n ∷ ns) _ (unconditional ps) (λ x q o. o.1)
            named.1 h)
      | inr f ↦ simp f (
          AreNamed-replace (λ x. Unit {0}) ps (c ∷ n ∷ ns) _ (unconditional ps) (λ x q o. o) named
            h)
    ]

merge_prev-AreNamed : (ps ms : List Chunk) → AreNamed (zip_up ps ms) → AreNamed (merge_prev ps ms)
unfolding merge_prev All AreNamed zip_up
merge_prev-AreNamed [] ms h = h
merge_prev-AreNamed (p ∷ ps) [] h = h
merge_prev-AreNamed (p ∷ ps) (m ∷ ms) h =
    let named = (AreNamed-zip_up ps (p ∷ m ∷ ms) h).1 in
    elim (Bool-cases p.is_free) [
      | inl f ↦ simp f (
          AreNamed-replace (λ x. Unit {0}) ps (p ∷ m ∷ ms) _ (unconditional ps)
            (λ x q o. (o.0, o.1.1)) (named.0.1, named.1.1) h)
      | inr f ↦ simp f h
    ]

pub free-AreNamed :
    (c : Chunk) (ps ns : List Chunk)
    → AreNamed (zip_up ps (c ∷ ns))
    → AreNamed (merge_prev ps (merge_next c ns))
free-AreNamed c ps ns h = merge_prev-AreNamed ps (merge_next c ns) (merge_next-AreNamed c ps ns h)
