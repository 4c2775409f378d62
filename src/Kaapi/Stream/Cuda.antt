-- ===== src/Kaapi/Stream/Cuda.antt =====
-- cuda_stream_advance_pending and cuda_stream_process_pending of kaapi/kaapi_plugin_cuda.c, in the
-- configuration with events: which of the instructions in progress are finished, and their callbacks.
-- `query` is what cudaEventQuery answers for the end event of a cell, true for cudaSuccess. `none`
-- stands for an assertion that fails, or the overflow of an `int`. What a callback does to the stream is left out.
use xkblas.Base.{
  ℕ, zero, suc, ◌-◌, ◌%◌, ◌^◌, Bool, Option, none, some, List, [], ◌++◌, ◌==◌, ltb, if◌then◌else◌,
  update, ℤ, pos, negsuc, to_size, sub_size,
}
use xkblas.Kaapi.Stream.{
  IoType, io_nop, io_begin, io_end, io_barrier, IoStream, calls, inc, emptypending, einprogress,
}

-- the conversion of an unsigned number to `int`
unfoldable pub to_int : ℕ → ℤ
to_int n = if ltb (n % 2 ^ 32) (2 ^ 31) then pos (n % 2 ^ 32) else negsuc (2 ^ 32 - 1 - n % 2 ^ 32)

unfoldable pub int_suc : ℤ → Option ℤ
int_suc (pos n) = if ltb n (2 ^ 31 - 1) then some (pos (suc n)) else none
int_suc (negsuc zero) = some (pos 0)
int_suc (negsuc (suc n)) = some (negsuc n)

-- `if (prev_iosokp+1 == ios_okp) ++prev_iosokp;`
unfoldable pub count_finished : ℤ → ℕ → Option ℤ
count_finished prev ios_okp = elim (int_suc prev) [
  | none ↦ none
  | some p ↦ some (if to_size p == ios_okp then p else prev)
]

-- one instruction of the loop
unfoldable pub test_instruction : (ℕ → Bool) → ℕ → IoType → ℤ → ℕ → Option ℤ
test_instruction query idx io_nop prev ios_okp = some prev
test_instruction query idx io_begin prev ios_okp = none
test_instruction query idx io_end prev ios_okp = some prev
test_instruction query idx io_barrier prev ios_okp = some prev
test_instruction query idx _ prev ios_okp =
    if query idx then count_finished prev ios_okp else some prev

-- the loop over the positions from `ios_okp` on
unfoldable pub test_pending : (ℕ → Bool) → IoStream → ℕ → ℕ → ℤ → Option ℤ
test_pending query ios zero ios_okp prev = some prev
test_pending query ios (suc left) ios_okp prev =
    let idx = ios_okp % ios.count in
    elim (test_instruction query idx (ios.pending idx).type prev ios_okp) [
      | none ↦ none
      | some next ↦ test_pending query ios left (suc ios_okp) next
    ]

unfoldable pub cuda_stream_advance_pending : (ℕ → Bool) → IoStream → Bool → Option (ℕ × IoStream)
cuda_stream_advance_pending query ios blocking =
    if emptypending ios
    then some (0, ios)
    else if blocking
    then some (0, record ios { ok_p = ios.pos_wp })
    else elim (test_pending query ios (ios.pos_wp - ios.ok_p) ios.ok_p
        (to_int (sub_size ios.ok_p 1))) [
          | none ↦ none
          | some prev ↦
              if to_size prev == sub_size ios.ok_p 1
              then some (einprogress, ios)
              else elim (int_suc prev) [
                | none ↦ none
                | some p ↦ some (0, record ios { ok_p = to_size p })
              ]
        ]

-- the callback of the instruction in the cell `idx`, whose type becomes KAAPI_IO_NOP
unfoldable pub call_back : IoStream → ℕ → List ℕ × IoStream
call_back ios idx =
    let op = ios.pending idx in
    (calls op.fnc, record ios { pending = update ios.pending idx (record op { type = io_nop }) })

unfoldable pub complete_instruction : IoStream → ℕ → IoType → Option (List ℕ × IoStream)
complete_instruction ios idx io_nop = some ([], ios)
complete_instruction ios idx io_begin = none
complete_instruction ios idx _ = some (call_back ios idx)

unfoldable pub complete_pending : ℕ → ℕ → IoStream → Option (List ℕ × IoStream)
complete_pending zero at ios = some ([], ios)
complete_pending (suc left) at ios =
    let idx = at % ios.count in
    elim (complete_instruction ios idx (ios.pending idx).type) [
      | none ↦ none
      | some one ↦
          elim (complete_pending left (suc at) (record (one.1) { pos_rp = inc ios.pos_rp })) [
            | none ↦ none
            | some r ↦ some (one.0 ++ r.0, r.1)
          ]
    ]

-- the callbacks that were called, and the stream
unfoldable pub cuda_stream_process_pending :
    (ℕ → Bool) → IoStream → Bool → Option (List ℕ × IoStream)
cuda_stream_process_pending query ios blocking =
    elim (cuda_stream_advance_pending query ios blocking) [
      | none ↦ none
      | some r ↦ complete_pending (r.1.ok_p - r.1.pos_rp) r.1.pos_rp r.1
    ]
