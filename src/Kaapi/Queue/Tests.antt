-- ===== src/Kaapi/Queue/Tests.antt =====
-- A queue whose first array has room for two tasks.
use xkblas.Base.{
  ℕ, ◌+◌, ◌<◌, ◌≤◌, ◌≡◌, refl, arith, true, false, none, some, [], ◌∷◌, ◌++◌, update, ltb, ◌⊎◌,
  if◌then◌else◌,
}
use xkblas.Kaapi.Queue.{
  Block, Level, Queue, kaapi_queue_init, kaapi_queue_push, kaapi_queue_pop, kaapi_queue_realloc,
  push_level, pop_level, steal_level, new_size,
}
use xkblas.Kaapi.Queue.Deque.{contents, deque_ends}
use xkblas.Kaapi.Queue.Grow.{push-pop, grows_once}

abbrev bloc0 : Block
bloc0 = record { len = 2; cells = λ i. i + 70 }

-- with the tasks 70 and 71
abbrev full : Level
full = record { t = 2; h = 0; size = 2; array = bloc0; array0 = bloc0 }

abbrev grown : Level
grown = record {
  t = 3;
  h = 0;
  size = 4;
  array = record { len = 4; cells = λ i. i + 70 };
  array0 = bloc0;
}

unfoldable start : Queue
start = kaapi_queue_init bloc0 2

deque_ends_example :
    (contents (push_level grown 9) ≡ contents grown ++ 9 ∷ [])
    × (((0 < 3)
          × (r : ℕ × Level) × (pop_level grown ≡ some r)
          × (contents grown ≡ contents r.1 ++ r.0 ∷ []))
        ⊎ ((3 ≤ 0) × (pop_level grown ≡ none)))
    × (((1 < 3)
          × (r : ℕ × Level) × (steal_level grown ≡ some r)
          × (contents grown ≡ r.0 ∷ contents r.1))
        ⊎ ((3 ≤ 1) × (steal_level grown ≡ none)))
deque_ends_example = deque_ends grown 9 (omega arith) (omega arith)

no_higher : ◌≡◌ {A = ℕ} 0 0 → start.bitmap 1 ≡ false
unfolding start kaapi_queue_init
no_higher e = refl

ordered : (start.level 0).h ≤ (start.level 0).t
unfolding start kaapi_queue_init
ordered = omega arith

room : (start.level 0).t < (start.level 0).size
unfolding start kaapi_queue_init
room = omega arith

abbrev fresh : ℕ → ℕ
fresh i = 0

abbrev with_task : Queue
with_task = record {
  level = update start.level 0 (push_level (start.level 0) 9);
  bitmap = update start.bitmap 0 true;
}

is_pushed : kaapi_queue_push start 0 9 fresh ≡ some (0, with_task)
unfolding start kaapi_queue_init kaapi_queue_push
is_pushed = refl

push-pop_example : (kaapi_queue_pop with_task none).0 ≡ some 9
push-pop_example =
    push-pop start 0 9 fresh (0, with_task) (omega arith) no_higher ordered room is_pushed

-- when the tasks fill the second array as well
grows_once_example :
    (l' : Level) × (kaapi_queue_realloc full fresh ≡ some l')
    × (l'.size ≡ 4)
    × ((i : ℕ) (hi : i < 2) → l'.array.cells i ≡ i + 70)
    × ((rd : Queue) (p task : ℕ)
        → rd.level p ≡ record l' { t = l'.size }
        → kaapi_queue_push rd p task fresh ≡ none)
grows_once_example = grows_once full fresh fresh refl (omega arith)

abbrev larger : Level
larger = record full {
  size = 4;
  array = record { len = 4; cells = λ i. if ltb i 2 then i + 70 else 0 };
}

is_larger : kaapi_queue_realloc full fresh ≡ some larger
unfolding kaapi_queue_realloc new_size
is_larger = refl
