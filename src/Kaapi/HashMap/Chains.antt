-- ===== src/Kaapi/HashMap/Chains.antt =====
-- Looking for a pointer in a chain of entries.
use xkblas.Base.{
  update, ℕ, ◌≡◌, ◌≢◌, subst, ◌==◌, ==_iff, if◌then◌else◌, Bool-cases, inl, inr, refl, arith, some,
  List, [], ◌∷◌, All,
}
use mathlib.Core.Option.{some-injective, none-ne-some}
use xkblas.Kaapi.HashMap.{find_list}

-- A write to an entry that is not in a chain does not change what is found there.
pub find_list-update :
    (key : ℕ → ℕ) (e p ptr : ℕ) (chain : List ℕ)
    → All (λ e'. e' ≢ e) chain
    → find_list (update key e p) ptr chain ≡ find_list key ptr chain
unfolding find_list All
find_list-update key e p ptr [] h = refl
find_list-update key e p ptr (x ∷ xs) h =
    let rest = find_list-update key e p ptr xs h.1 in ground arith

-- The entry that is found is of the pointer.
pub find_list-key :
    (key : ℕ → ℕ) (ptr e : ℕ) (chain : List ℕ) → find_list key ptr chain ≡ some e → key e ≡ ptr
unfolding find_list
find_list-key key ptr e [] h = absurd (none-ne-some e h)
find_list-key key ptr e (x ∷ xs) h =
    let rest = find_list-key key ptr e xs in
    elim (Bool-cases (key x == ptr)) [
      | inl t ↦ rw⁻¹ (some-injective x e (rw t at h)) ((==_iff _ _).0 t)
      | inr f ↦ rest (rw f at h)
    ]

-- The entry that is found is in the chain.
pub find_list-All :
    (P : ℕ → Type 0) (key : ℕ → ℕ) (ptr e : ℕ) (chain : List ℕ)
    → All P chain
    → find_list key ptr chain ≡ some e
    → P e
unfolding find_list All
find_list-All P key ptr e [] a h = absurd (none-ne-some e h)
find_list-All P key ptr e (x ∷ xs) a h = elim (Bool-cases (key x == ptr)) [
  | inl t ↦ subst P (some-injective x e (rw t at h)) a.0
  | inr f ↦ find_list-All P key ptr e xs a.1 (rw f at h)
]

-- What is found after an entry has been pushed on the chain of its pointer.
pub find_list-push :
    (key : ℕ → ℕ) (entries : ℕ → List ℕ) (e ptr q hq hp : ℕ)
    → All (λ e'. e' ≢ e) (entries hq)
    → (q ≡ ptr → hq ≡ hp)
    → find_list (update key e ptr) q (update entries hp (e ∷ entries hp) hq)
      ≡ (if q == ptr then some e else find_list key q (entries hq))
unfolding find_list
find_list-push key entries e ptr q hq hp unused same =
    let old = find_list-update key e ptr q (entries hq) unused in
    elim (Bool-cases (hq == hp)) [
      | inl h ↦ let h' = (==_iff hq hp).0 h in (rw⁻¹ h' (ground arith))
      | inr h ↦ rw h (ground arith)
    ]
