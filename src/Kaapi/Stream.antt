-- ===== src/Kaapi/Stream.antt =====
-- One stream of instructions of a device, struct kaapi_io_stream: kaapi/kaapi_offload_stream.h and
-- kaapi/kaapi_offload_stream.c, each call as one step, as under the mutex of the stream. The positions
-- are 64-bit counters that wrap; a position stands for the cell at its rest by `count`. An
-- instruction is its type, its callback with the arguments (`fnc`, none for the null pointer), and a
-- number for the rest of the union. `none` stands for an assertion that fails.

pub mod Ring
pub mod Process
pub mod Fifo
pub mod Refine
pub mod Insert
pub mod Cuda
pub mod Signed
pub mod Advance
pub mod Complete
pub mod Order
pub mod Run
pub mod Invariant
pub mod Drain
pub mod Overflow
pub mod Offload
pub mod Select
pub mod Wait
pub mod WaitAll
mod Tests
use xkblas.Base.{
  ℕ, zero, suc, ◌+◌, ◌%◌, ◌^◌, ◌-◌, Bool, true, false, not, Option, none, some, List, [], ◌∷◌, ◌++◌,
  ◌==◌, ◌≡◌, refl, leb, ltb, if◌then◌else◌, update, add_size, sub_size,
}

-- the error codes of errno.h
abbrev pub enomem : ℕ
enomem = 12

abbrev pub ebusy : ℕ
ebusy = 16

abbrev pub einprogress : ℕ
einprogress = 115

pub data IoType : Type 0 where
  io_nop io_begin io_end io_copy_h2h io_copy_h2d io_copy_d2h io_copy_d2d io_barrier io_kern : IoType

pub record Instruction : Type 0 where
  pub type : IoType
  pub fnc : Option ℕ
  pub rest : ℕ

pub record IoStream : Type 0 where
  pub count : ℕ
  pub smax : ℕ
  pub smax_p : ℕ
  pub max_p : ℕ
  pub pos_r : ℕ
  pub pos_w : ℕ
  pub pos_rp : ℕ
  pub pos_wp : ℕ
  pub instr : ℕ → Instruction
  pub pending : ℕ → Instruction
  pub ok_p : ℕ

-- the two arrays are what `malloc` gives, none for the null pointer; `io` comes back unchanged in
-- its `count` and arrays where there is no memory
unfoldable pub iostream_init :
    IoStream → ℕ → Option (ℕ → Instruction) → Option (ℕ → Instruction) → Option (ℕ × IoStream)
iostream_init io capacity instr pending =
    let cleared = record io {
      smax = 0;
      smax_p = 0;
      max_p = 2 ^ 64 - 1;
      pos_r = 0;
      pos_rp = 0;
      pos_w = 0;
      pos_wp = 0;
      ok_p = 0;
    } in
    if ltb capacity 2 then none else elim instr [
      | none ↦ some (enomem, cleared)
      | some is ↦ elim pending [
        | none ↦ some (enomem, cleared)
        | some ps ↦ some (0, record cleared { instr = is; pending = ps; count = capacity })
      ]
    ]

abbrev pub inc : ℕ → ℕ
inc p = add_size p 1

abbrev pub sizeinstr : IoStream → ℕ
sizeinstr ios = sub_size ios.pos_w ios.pos_r

abbrev pub sizepending : IoStream → ℕ
sizepending ios = sub_size ios.pos_wp ios.pos_rp

unfoldable pub fullinstr : IoStream → Bool
fullinstr ios = leb ios.count (sizeinstr ios)

unfoldable pub fullpending : IoStream → Bool
fullpending ios = leb ios.count (sizepending ios)

unfoldable pub emptyinstr : IoStream → Bool
emptyinstr ios = ios.pos_r == ios.pos_w

unfoldable pub emptypending : IoStream → Bool
emptypending ios = ios.pos_rp == ios.pos_wp

-- what is freed is left out
unfoldable pub iostream_destroy : IoStream → ℕ
iostream_destroy io =
    let err = if not (emptyinstr io) then ebusy else 0 in
    if not (emptypending io) then ebusy else err

-- the cell of the new instruction; none while the call waits for room
unfoldable pub kaapi_offload_stream_push : IoStream → Option ℕ
kaapi_offload_stream_push ios = if fullinstr ios then none else some (ios.pos_w % ios.count)

unfoldable pub is_known : IoType → Bool
is_known io_nop = false
is_known io_begin = true
is_known io_end = true
is_known io_copy_h2h = true
is_known io_copy_h2d = true
is_known io_copy_d2h = true
is_known io_copy_d2d = true
is_known io_barrier = true
is_known io_kern = true

unfoldable pub kaapi_offload_stream_commit : IoStream → Option IoStream
kaapi_offload_stream_commit ios =
    if is_known (ios.instr (ios.pos_w % ios.count)).type
    then some (record ios { pos_w = inc ios.pos_w })
    else none

-- The inserting calls: push, the fields of the new instruction, commit. The outer none is a failed
-- assertion, the inner one that the call waits.
unfoldable pub insert_instruction : IoStream → Instruction → Option (Option IoStream)
insert_instruction ios i = elim (kaapi_offload_stream_push ios) [
  | none ↦ some none
  | some slot ↦
      elim (kaapi_offload_stream_commit (record ios { instr = update ios.instr slot i })) [
        | none ↦ none
        | some next ↦ some (some next)
      ]
]

unfoldable pub kaapi_stream_insert_io_begin_inst : IoStream → Option (Option IoStream)
kaapi_stream_insert_io_begin_inst ios =
    insert_instruction ios (record { type = io_begin; fnc = none; rest = ios.pos_w % ios.count })

unfoldable pub kaapi_stream_insert_io_end_inst : IoStream → Option ℕ → Option (Option IoStream)
kaapi_stream_insert_io_end_inst ios fnc =
    insert_instruction ios (record { type = io_end; fnc = fnc; rest = ios.pos_w % ios.count })

-- for a task
unfoldable pub kaapi_stream_insert_io_task_inst : IoStream → ℕ → Option ℕ → Option (Option IoStream)
kaapi_stream_insert_io_task_inst ios task fnc =
    insert_instruction ios (record { type = io_kern; fnc = fnc; rest = task })

-- for a copy from a view of `size_src` elements to one of `size_dest`; the device and the addresses are `op`
unfoldable pub kaapi_stream_insert_io_copy_inst :
    IoStream → IoType → ℕ → ℕ → ℕ → Option ℕ → Option (Option IoStream)
kaapi_stream_insert_io_copy_inst ios io_type size_src size_dest op fnc =
    let inserted = insert_instruction ios (record { type = io_type; fnc = fnc; rest = op }) in
    if size_src == size_dest then inserted else none

-- What a device's function does with an instruction that it is given: whether it is then in progress
-- (EINPROGRESS) or done (0), whether `ok_p` is counted up, and the callbacks that are called.
pub record Reply : Type 0 where
  pub in_progress : Bool
  pub count_ok : Bool
  pub called : List ℕ

unfoldable pub calls : Option ℕ → List ℕ
calls none = []
calls (some f) = f ∷ []

-- The device of a stream: the function at `f_stream_decode_ioinstruction`. An instruction counts
-- `ok_p` up only if it is in progress.
pub record Device : Type 0 where
  pub decode : Instruction → Reply
  pub counted : (i : Instruction) → (decode i).count_ok ≡ true → (decode i).in_progress ≡ true
