-- ===== src/Kaapi/Queue/Deque.antt =====
-- The tasks of a priority as a list, the oldest first.
use xkblas.Base.{
  ℕ, zero, suc, ◌+◌, ◌-◌, ◌≤◌, ◌<◌, ◌≡◌, refl, sym, ap, ap₂, ◌∙◌, arith, true, false, some, List,
  [], ◌∷◌, ◌++◌, ◌==◌, ltb, leb, update, Bool-cases, inl, inr, ◌⊎◌, none, emit, emit_congr,
}
use mathlib.Core.List.{append_assoc, append-nil}
use mathlib.Core.Option.{some-injective, none-ne-some}
use xkblas.Kaapi.Queue.{Level, push_level, pop_level, steal_level}

unfoldable pub contents : Level → List ℕ
contents l = emit l.h (l.t - l.h) (λ i. l.array.cells i ∷ [])

emit_snoc : (lo n : ℕ) (body : ℕ → List ℕ) → emit lo (suc n) body ≡ emit lo n body ++ body (lo + n)
unfolding emit
emit_snoc lo zero body = let e : lo + 0 ≡ lo = omega arith in rw e (append-nil (body lo))
emit_snoc lo (suc n) body =
    let e : lo + suc n ≡ suc lo + n = omega arith in
    rw e (
      ap (λ xs. body lo ++ xs) (emit_snoc (suc lo) n body)
      ∙ sym (append_assoc (body lo) (emit (suc lo) n body) (body (suc lo + n))))

push_lem :
    (l : Level) (task : ℕ) → l.h ≤ l.t → contents (push_level l task) ≡ contents l ++ task ∷ []
unfolding contents push_level
push_lem l task h =
    let n : suc l.t - l.h ≡ suc (l.t - l.h) = omega arith in
    let last : l.h + (l.t - l.h) ≡ l.t = omega arith in
    let new = update l.array.cells l.t task in
    let same : l.t == l.t ≡ true = ground arith in
    rw n (
      emit_snoc l.h (l.t - l.h) (λ i. new i ∷ [])
      ∙ ap₂ ◌++◌
          (emit_congr l.h (l.t - l.h) (λ i. new i ∷ []) (λ i. l.array.cells i ∷ [])
            (λ i lo hi. old i hi))
          (rw (last, same) refl))
  where
    old :
        (i : ℕ)
        → i < l.h + (l.t - l.h)
        → (update l.array.cells l.t task i ∷ []) ≡ l.array.cells i ∷ []
    old i hi = let f : i == l.t ≡ false = ground arith in rw f refl

pop_lem : (l : Level) (r : ℕ × Level) → pop_level l ≡ some r → contents l ≡ contents r.1 ++ r.0 ∷ []
unfolding contents pop_level
pop_lem l r e = elim (Bool-cases (ltb l.h l.t)) [
  | inl t ↦
      let n : l.t - l.h ≡ suc (l.t - 1 - l.h) = ground arith in
      let last : l.h + (l.t - 1 - l.h) ≡ l.t - 1 = ground arith in
      rw⁻¹ (some-injective (l.array.cells (l.t - 1), record l { t = l.t - 1 }) r (rw t at e)) (
        ap (λ (k : ℕ). emit l.h k (λ i. l.array.cells i ∷ [])) n
        ∙ emit_snoc l.h (l.t - 1 - l.h) (λ i. l.array.cells i ∷ [])
        ∙ ap
            (λ (x : ℕ).
              emit l.h (l.t - 1 - l.h) (λ i. l.array.cells i ∷ []) ++ l.array.cells x ∷ [])
            last)
  | inr f ↦ absurd (none-ne-some r (rw f at e))
]

steal_lem : (l : Level) (r : ℕ × Level) → steal_level l ≡ some r → contents l ≡ r.0 ∷ contents r.1
unfolding contents steal_level emit
steal_lem l r e = elim (Bool-cases (leb l.t (suc l.h))) [
  | inl t ↦ absurd (none-ne-some r (rw t at e))
  | inr f ↦
      let n : l.t - l.h ≡ suc (l.t - suc l.h) = ground arith in
      rw⁻¹ (some-injective (l.array.cells l.h, record l { h = suc l.h }) r (rw f at e)) (rw n refl)
]

-- With the tasks of a priority as a list, the oldest first, if `H` is at most `T` and `T` below the size
-- of the array: a task that is pushed is added at the end; a pop takes the task at the end if there is
-- one, and none otherwise; a steal takes the task at the front if there are two or more, and none
-- otherwise.
pub deque_ends :
    (l : Level) (task : ℕ)
    → l.h ≤ l.t
    → l.t < l.size
    → (contents (push_level l task) ≡ contents l ++ task ∷ [])
      × (((l.h < l.t)
            × (r : ℕ × Level) × (pop_level l ≡ some r)
            × (contents l ≡ contents r.1 ++ r.0 ∷ []))
          ⊎ ((l.t ≤ l.h) × (pop_level l ≡ none)))
      × (((suc l.h < l.t)
            × (r : ℕ × Level) × (steal_level l ≡ some r)
            × (contents l ≡ r.0 ∷ contents r.1))
          ⊎ ((l.t ≤ suc l.h) × (steal_level l ≡ none)))
unfolding pop_level steal_level
deque_ends l task h room = (
  push_lem l task h,
  elim (Bool-cases (ltb l.h l.t)) [
    | inl t ↦ inl (
      ground arith,
      (l.array.cells (l.t - 1), record l { t = l.t - 1 }),
      rw t refl,
      pop_lem l (l.array.cells (l.t - 1), record l { t = l.t - 1 }) (rw t refl),
    )
    | inr f ↦ inr (ground arith, rw f refl)
  ],
  elim (Bool-cases (leb l.t (suc l.h))) [
    | inl t ↦ inr (ground arith, rw t refl)
    | inr f ↦ inl (
      ground arith,
      (l.array.cells l.h, record l { h = suc l.h }),
      rw f refl,
      steal_lem l (l.array.cells l.h, record l { h = suc l.h }) (rw f refl),
    )
  ],
)
