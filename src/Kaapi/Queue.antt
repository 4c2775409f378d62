-- ===== src/Kaapi/Queue.antt =====
-- The queue of ready tasks of a worker: kaapi_queue_init, kaapi_queue_realloc, kaapi_queue_push,
-- kaapi_queue_pop and kaapi_queue_steal of kaapi/kaapi_task.c, each call as one step, as under the lock
-- of the queue. A priority has an array with the positions `T` and `H`; a task is a number. An array
-- is its length and its cells, and the null pointer the array of length 0. `T - 1 >= H` on the signed
-- positions of the source is `H < T` here. `none` stands for undefined behaviour, where an
-- array is read past its end. The fields `data` and `data0` are `array` and `array0`.
pub mod Deque
pub mod Grow
mod Tests
use xkblas.Base.{
  ℕ, zero, suc, ◌+◌, ◌-◌, ◌*◌, Bool, true, false, not, ◌&&◌, Option, none, some, ◌==◌, ltb, leb,
  if◌then◌else◌, update,
}

pub record Block : Type 0 where
  pub len : ℕ
  pub cells : ℕ → ℕ

abbrev pub null : Block
null = record { len = 0; cells = λ i. 0 }

pub record Level : Type 0 where
  pub t : ℕ
  pub h : ℕ
  pub size : ℕ
  pub array : Block
  pub array0 : Block

-- `bitmap` by its bits
pub record Queue : Type 0 where
  pub level : ℕ → Level
  pub bitmap : ℕ → Bool

abbrev pub task_max_priority : ℕ
task_max_priority = 1

abbrev pub queue_default_size : ℕ
queue_default_size = 16384

unfoldable pub kaapi_queue_init : Block → ℕ → Queue
kaapi_queue_init bloc0 size = record {
  level = λ p.
      if p == 0
      then record { t = 0; h = 0; size = size; array = bloc0; array0 = bloc0 }
      else record { t = 0; h = 0; size = 0; array = null; array0 = null };
  bitmap = λ p. false;
}

unfoldable pub new_size : ℕ → ℕ
new_size size = if 2 * size == 0 then queue_default_size else 2 * size

-- The copy reads `size` cells of `data0`; the new array is as `malloc` gives it, `fresh`, behind them.
unfoldable pub kaapi_queue_realloc : Level → (ℕ → ℕ) → Option Level
kaapi_queue_realloc l fresh =
    if ltb l.array0.len l.size
    then none
    else some (record l {
      size = new_size l.size;
      array = record {
        len = new_size l.size;
        cells = λ i. if ltb i l.size then l.array0.cells i else fresh i;
      };
    })

unfoldable pub push_level : Level → ℕ → Level
push_level l task = record l {
  t = suc l.t;
  array = record { len = l.array.len; cells = update l.array.cells l.t task };
}

-- the index of the task and the queue
unfoldable pub kaapi_queue_push : Queue → ℕ → ℕ → (ℕ → ℕ) → Option (ℕ × Queue)
kaapi_queue_push rd p task fresh =
    let l = rd.level p in
    elim (if l.t == l.size then kaapi_queue_realloc l fresh else some l) [
      | none ↦ none
      | some l' ↦ some (
        l.t,
        record { level = update rd.level p (push_level l' task); bitmap = update rd.bitmap p true },
      )
    ]

-- the task at the position before `T`; a task is not null, and so no cell that was filled is
unfoldable pub pop_level : Level → Option (ℕ × Level)
pop_level l = if ltb l.h l.t then some (l.array.cells (l.t - 1), record l { t = l.t - 1 }) else none

-- `T0 && (T == T0[p])`
abbrev pub at_limit : Option (ℕ → ℕ) → ℕ → ℕ → Bool
at_limit none top p = false
at_limit (some limits) top p = top == limits p

-- the priorities below `n`, from the highest, with the limits `T0` if there are any
unfoldable pub pop_below : ℕ → Queue → Option (ℕ → ℕ) → Option ℕ × Queue
pop_below zero rd limit = (none, rd)
pop_below (suc p) rd limit =
    let empty = pop_below p (record rd { bitmap = update rd.bitmap p false }) limit in
    let skipped = pop_below p rd limit in
    if rd.bitmap p
    then if at_limit limit (rd.level p).t p then (none, rd) else elim (pop_level (rd.level p)) [
      | none ↦ empty
      | some r ↦ (some r.0, record rd { level = update rd.level p r.1 })
    ]
    else skipped

unfoldable pub kaapi_queue_pop : Queue → Option (ℕ → ℕ) → Option ℕ × Queue
kaapi_queue_pop rd limit = pop_below (suc task_max_priority) rd limit

-- the oldest task, never the last one that is left
unfoldable pub steal_level : Level → Option (ℕ × Level)
steal_level l =
    if leb l.t (suc l.h) then none else some (l.array.cells l.h, record l { h = suc l.h })

-- the task, its index and its priority; `bitmap` is a copy
unfoldable pub steal_below : ℕ → Queue → Option (ℕ × ℕ × ℕ) × Queue
steal_below zero rd = (none, rd)
steal_below (suc p) rd =
    let rest = steal_below p rd in
    if rd.bitmap p
    then elim (steal_level (rd.level p)) [
      | none ↦ rest
      | some r ↦ (some (r.0, (rd.level p).h, p), record rd { level = update rd.level p r.1 })
    ]
    else rest

unfoldable pub kaapi_queue_steal : Queue → Option (ℕ × ℕ × ℕ) × Queue
kaapi_queue_steal rd = steal_below (suc task_max_priority) rd
