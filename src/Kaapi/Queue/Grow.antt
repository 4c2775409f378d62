-- ===== src/Kaapi/Queue/Grow.antt =====
-- kaapi_queue_push with room, and when the array is full.
use xkblas.Base.{
  ℕ, zero, suc, ◌-◌, ◌≤◌, ◌<◌, ◌≡◌, refl, sym, ap, ◌∙◌, arith, true, false, none, some, ◌==◌, ltb,
  ◌*◌, if◌then◌else◌, update,
}
use mathlib.Core.Option.{some-injective}
use xkblas.Kaapi.Queue.{
  Level, Queue, kaapi_queue_realloc, new_size, push_level, pop_level, pop_below, kaapi_queue_push,
  kaapi_queue_pop,
}

pop-push_level :
    (l : Level) (task : ℕ)
    → l.h ≤ l.t
    → pop_level (push_level l task) ≡ some (task, record (push_level l task) { t = suc l.t - 1 })
unfolding pop_level push_level
pop-push_level l task h =
    let some_left : ltb l.h (suc l.t) ≡ true = ground arith in
    let last : suc l.t - 1 == l.t ≡ true = ground arith in rw (some_left, last) refl

abbrev pushed : Queue → ℕ → ℕ → Queue
pushed rd p task = record {
  level = update rd.level p (push_level (rd.level p) task);
  bitmap = update rd.bitmap p true;
}

push_lem :
    (rd : Queue) (p task : ℕ) (fresh : ℕ → ℕ)
    → (rd.level p).t < (rd.level p).size
    → kaapi_queue_push rd p task fresh ≡ some ((rd.level p).t, pushed rd p task)
unfolding kaapi_queue_push
push_lem rd p task fresh room =
    let f : (rd.level p).t == (rd.level p).size ≡ false = ground arith in
    rw (kaapi_queue_push, f) refl

pop_lem :
    (rd : Queue) (p task : ℕ)
    → p ≤ 1
    → (p ≡ 0 → rd.bitmap 1 ≡ false)
    → (rd.level p).h ≤ (rd.level p).t
    → (kaapi_queue_pop (pushed rd p task) none).0 ≡ some task
unfolding kaapi_queue_pop pop_below
pop_lem rd zero task small above h =
    let b = above refl in let one = pop-push_level (rd.level 0) task h in rw (b, one) refl
pop_lem rd (suc zero) task small above h =
    let one = pop-push_level (rd.level 1) task h in rw one refl
pop_lem rd (suc (suc p)) task small above h = absurd (omega arith)

-- A task that kaapi_queue_push puts where there is room is the one that the next kaapi_queue_pop without
-- limits returns, if no higher priority is marked in the bitmap and `H` is at most `T`.
pub push-pop :
    (rd : Queue) (p task : ℕ) (fresh : ℕ → ℕ) (r : ℕ × Queue)
    → p ≤ 1
    → (p ≡ 0 → rd.bitmap 1 ≡ false)
    → (rd.level p).h ≤ (rd.level p).t
    → (rd.level p).t < (rd.level p).size
    → kaapi_queue_push rd p task fresh ≡ some r
    → (kaapi_queue_pop r.1 none).0 ≡ some task
push-pop rd p task fresh r small above h room e =
    let same =
      some-injective ((rd.level p).t, pushed rd p task) r
        (sym (push_lem rd p task fresh room) ∙ e) in
    rw⁻¹ same (pop_lem rd p task small above h)

realloc_full :
    (rd : Queue) (p task : ℕ) (fresh : ℕ → ℕ)
    → (rd.level p).t ≡ (rd.level p).size
    → (rd.level p).array0.len < (rd.level p).size
    → kaapi_queue_push rd p task fresh ≡ none
unfolding kaapi_queue_push kaapi_queue_realloc
realloc_full rd p task fresh full grown =
    let t : (rd.level p).t == (rd.level p).size ≡ true = ground arith in
    let f : ltb (rd.level p).array0.len (rd.level p).size ≡ true = ground arith in
    rw (kaapi_queue_push, t, kaapi_queue_realloc, f) refl

abbrev twice : Level → (ℕ → ℕ) → Level
twice l fresh = record l {
  size = 2 * l.size;
  array = record {
    len = 2 * l.size;
    cells = λ i. if ltb i l.size then l.array0.cells i else fresh i;
  };
}

realloc_lem :
    (l : Level) (fresh : ℕ → ℕ)
    → l.array0.len ≡ l.size
    → 0 < l.size
    → kaapi_queue_realloc l fresh ≡ some (twice l fresh)
unfolding kaapi_queue_realloc new_size
realloc_lem l fresh first positive =
    let f : ltb l.array0.len l.size ≡ false = ground arith in
    let z : 2 * l.size == 0 ≡ false = ground arith in rw (f, z) refl

-- An array that is not empty and is still the first one can be grown: kaapi_queue_realloc gives one of
-- twice the size with the same tasks. When the tasks fill that one, the next kaapi_queue_push is
-- undefined behaviour, because it copies from the first array again and reads past its end.
pub grows_once :
    (l : Level) (fresh fresh' : ℕ → ℕ)
    → l.array0.len ≡ l.size
    → 0 < l.size
    → (l' : Level) × (kaapi_queue_realloc l fresh ≡ some l')
      × (l'.size ≡ 2 * l.size)
      × ((i : ℕ) (hi : i < l.size) → l'.array.cells i ≡ l.array0.cells i)
      × ((rd : Queue) (p task : ℕ)
          → rd.level p ≡ record l' { t = l'.size }
          → kaapi_queue_push rd p task fresh' ≡ none)
grows_once l fresh fresh' first positive = (
  twice l fresh,
  realloc_lem l fresh first positive,
  refl,
  λ i hi. let b : ltb i l.size ≡ true = ground arith in rw b refl,
  λ rd p task e.
      let t = ap (λ (x : Level). x.t) e in
      let n = ap (λ (x : Level). x.size) e in
      let a = ap (λ (x : Level). x.array0.len) e in
      realloc_full rd p task fresh' (t ∙ sym n) (omega (arith, n, a, first, positive)),
)
