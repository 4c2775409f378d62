-- ===== src/Kaapi/Dependencies.antt =====
-- The dependencies between tasks, from the modes in which they access data: kaapi_handle_init,
-- kaapi_update_dependencies and kaapi_sched_activate_syncpoint of kaapi/kaapi_task.c, over the accesses of
-- kaapi/kaapi.h. An access is a number, its address, and 0 is the null pointer; `Dfg` has a field for
-- each field of `kaapi_access_t`, and for the counter `wc` of a task and the tasks that are pushed on the
-- ready list. The fields `data`, `gen`, `kind` and `mdi` are left out, since nothing is computed from
-- them; `mdi` shares its place with `wc`, and is written as `wc`. The address that `kaapi_data_push`
-- returns is an argument.
pub mod Modes
pub mod Groups
pub mod Links
pub mod Refine
pub mod Update
pub mod Activate
pub mod Complete
mod Tests
use xkblas.Base.{
  update, ℕ, zero, suc, ◌+◌, ◌-◌, ◌^◌, Bool, true, false, not, ◌&&◌, List, [], ◌∷◌, ◌++◌, ◌==◌,
  if◌then◌else◌,
}
use xkblas.Kaapi.Dependencies.Modes.{access_mode_void, access_sync, access_is_concurrent}

pub record Dfg : Type 0 where
  pub mode : ℕ → ℕ
  pub ready : ℕ → Bool
  pub next : ℕ → ℕ
  pub sync : ℕ → ℕ
  pub task : ℕ → ℕ
  pub wc : ℕ → ℕ
  pub task_wc : ℕ → ℕ
  pub pushed : List ℕ

-- `sync0` is the address of the access that the handle embeds.
pub record Handle : Type 0 where
  pub sync0 : ℕ
  pub last : ℕ
  pub sync : ℕ

unfoldable pub kaapi_access_sync_init : Dfg → ℕ → Dfg
kaapi_access_sync_init dfg a = record dfg {
  mode = update dfg.mode a access_sync;
  ready = update dfg.ready a false;
  next = update dfg.next a 0;
  sync = update dfg.sync a 0;
  task = update dfg.task a 0;
  wc = update dfg.wc a 0;
}

unfoldable pub kaapi_handle_init : Dfg → ℕ → Dfg × Handle
kaapi_handle_init dfg sync0 =
    let init = kaapi_access_sync_init dfg sync0 in
    (record init { wc = update init.wc sync0 1 }, record { sync0 = sync0; last = sync0; sync = 0 })

-- the fields of the access
unfoldable pub init_access : Dfg → ℕ → ℕ → ℕ → Dfg
init_access dfg a task mode = record dfg {
  next = update dfg.next a 0;
  task = update dfg.task a task;
  mode = update dfg.mode a mode;
  wc = update dfg.wc a 0;
}

-- A non concurrent access turns to a new synchronisation point.
unfoldable pub swap_sync : Dfg → Handle → ℕ → Handle
swap_sync dfg h mode =
    if not (dfg.mode h.last == access_mode_void)
      && not (access_is_concurrent mode (dfg.mode h.last))
    then record h { last = h.sync; sync = 0 }
    else h

-- `if (h->sync ==0)` with the access that `kaapi_data_push` returns
unfoldable pub new_sync : Dfg → Handle → ℕ → Dfg × Handle
new_sync dfg h fresh =
    if h.sync == 0 then (kaapi_access_sync_init dfg fresh, record h { sync = fresh }) else (dfg, h)

unfoldable pub link_access : Dfg → Handle → ℕ → ℕ → Dfg × Handle
link_access dfg h a task = (
  record dfg {
    next = if h.last == 0 then dfg.next else update dfg.next h.last a;
    sync = update dfg.sync a h.sync;
    ready = update dfg.ready a false;
    wc = update dfg.wc h.sync (suc (dfg.wc h.sync));
    task_wc = update dfg.task_wc task (suc (dfg.task_wc task));
  },
  record h { last = a },
)

unfoldable pub kaapi_update_dependencies : Dfg → ℕ → ℕ → ℕ → Handle → ℕ → Dfg × Handle
kaapi_update_dependencies dfg a task mode h fresh =
    let init = init_access dfg a task mode in
    let synced = new_sync init (swap_sync init h mode) fresh in link_access synced.0 synced.1 a task

-- KAAPI_ATOMIC_DECR on a counter of 32 bits, which wraps around at 0
unfoldable pub atomic_decr : ℕ → ℕ
atomic_decr n = if n == 0 then 2 ^ 32 - 1 else n - 1

-- one round of the loop over the accesses of a version: the access becomes ready, and its task is
-- pushed when it waits for no other access
unfoldable pub activate_access : Dfg → ℕ → Dfg × ℕ
activate_access dfg a =
    let task = dfg.task a in
    let wc = atomic_decr (dfg.task_wc task) in
    let counted = record dfg {
      ready = update dfg.ready a true;
      task_wc = update dfg.task_wc task wc;
    } in
    if wc == 0 then (record counted { pushed = task ∷ dfg.pushed }, 1) else (counted, 0)

-- the loop, on fuel
unfoldable pub activate_accesses : ℕ → Dfg → ℕ → Dfg × ℕ
activate_accesses zero dfg a = (dfg, 0)
activate_accesses (suc fuel) dfg a = elim (a == 0) [
  | true ↦ (dfg, 0)
  | false ↦
      let one = activate_access dfg a in
      let rest = activate_accesses fuel one.0 (one.0.next a) in (rest.0, one.1 + rest.1)
]

-- The counter is at least 1 whenever it is decremented; at 0 the source would wrap around.
unfoldable pub kaapi_sched_activate_syncpoint : ℕ → Dfg → ℕ → Dfg × ℕ
kaapi_sched_activate_syncpoint fuel dfg sync =
    let wc = dfg.wc sync - 1 in
    let counted = record dfg { wc = update dfg.wc sync wc } in
    if wc == 0 then activate_accesses fuel counted (counted.next sync) else (counted, 0)
