-- ===== src/Kaapi/Stream/Process.antt =====
-- kaapi_offload_onestream_process_instruction of kaapi/kaapi_offload_stream.c, and what a device's decode
-- function tells it: the ones of kaapi/kaapi_plugin_host.c and kaapi/kaapi_plugin_cuda.c.
use xkblas.Base.{
  ℕ, zero, suc, ◌%◌, ◌≡◌, refl, true, false, Option, none, some, List, [], ◌++◌, ltb, if◌then◌else◌,
  update,
}
use mathlib.Core.Bool.{false≢true}
use xkblas.Kaapi.Stream.{
  IoType, io_nop, io_begin, io_end, io_copy_h2h, io_copy_h2d, io_copy_d2h, io_copy_d2d, io_barrier,
  io_kern, Instruction, IoStream, Reply, Device, calls, inc, sizeinstr, emptyinstr, einprogress,
}

-- The host is synchronous and calls the callback itself; the copy or kernel is left out.
abbrev pub host_stream_decode_ioinstruction : Instruction → Reply
host_stream_decode_ioinstruction i = record {
  in_progress = false;
  count_ok = false;
  called = calls i.fnc;
}

abbrev pub host_device : Device
host_device = record {
  decode = host_stream_decode_ioinstruction;
  counted = λ i e. absurd (false≢true e);
}

abbrev pub finished : Reply
finished = record { in_progress = false; count_ok = false; called = [] }

abbrev pub started : Reply
started = record { in_progress = true; count_ok = false; called = [] }

abbrev pub synchronised : Reply
synchronised = record { in_progress = true; count_ok = true; called = [] }

-- with events, and neither synchronous copies nor synchronous kernels; the copy or kernel that is
-- started is left out
unfoldable pub cuda_reply : IoType → Reply
cuda_reply io_nop = finished
cuda_reply io_begin = finished
cuda_reply io_end = finished
cuda_reply io_copy_h2h = started
cuda_reply io_copy_h2d = started
cuda_reply io_copy_d2h = started
cuda_reply io_copy_d2d = started
cuda_reply io_barrier = synchronised
cuda_reply io_kern = started

abbrev pub cuda_stream_decode_ioinstruction : Instruction → Reply
cuda_stream_decode_ioinstruction i = cuda_reply i.type

pub cuda_counted : (t : IoType) → (cuda_reply t).count_ok ≡ true → (cuda_reply t).in_progress ≡ true
unfolding cuda_reply
cuda_counted io_nop e = absurd (false≢true e)
cuda_counted io_begin e = absurd (false≢true e)
cuda_counted io_end e = absurd (false≢true e)
cuda_counted io_copy_h2h e = absurd (false≢true e)
cuda_counted io_copy_h2d e = absurd (false≢true e)
cuda_counted io_copy_d2h e = absurd (false≢true e)
cuda_counted io_copy_d2d e = absurd (false≢true e)
cuda_counted io_barrier e = refl
cuda_counted io_kern e = absurd (false≢true e)

abbrev pub cuda_device : Device
cuda_device = record {
  decode = cuda_stream_decode_ioinstruction;
  counted = λ i e. cuda_counted i.type e;
}

-- the copy of an instruction into the pending ones
unfoldable pub recopy : IoStream → Instruction → IoStream
recopy ios i = record ios {
  pending = update ios.pending (ios.pos_wp % ios.count) i;
  pos_wp = inc ios.pos_wp;
}

-- what a call leaves: its error code, the callbacks that were called, and the stream
pub record Outcome : Type 0 where
  pub err : ℕ
  pub called : List ℕ
  pub ios : IoStream

unfoldable pub take_instruction : Device → IoStream → Outcome
take_instruction device ios =
    let i = ios.instr (ios.pos_r % ios.count) in
    let r = device.decode i in
    let taken = record ios {
      ok_p = if r.count_ok then inc ios.ok_p else ios.ok_p;
      pos_r = inc ios.pos_r;
    } in
    record {
      err = if r.in_progress then einprogress else 0;
      called = r.called;
      ios = if r.in_progress then recopy taken i else taken;
    }

abbrev pub after : List ℕ → Option Outcome → Option Outcome
after called none = none
after called (some o) = some (record o { called = called ++ o.called })

-- the loop; none where the fuel is spent
unfoldable pub process_loop : ℕ → Device → ℕ → IoStream → Option Outcome
process_loop zero device err ios = none
process_loop (suc fuel) device err ios =
    let one = take_instruction device ios in
    let rest = process_loop fuel device one.err one.ios in
    if emptyinstr ios
    then some (record { err = err; called = []; ios = ios })
    else after one.called rest

unfoldable pub process_instruction : ℕ → Device → IoStream → Option Outcome
process_instruction fuel device ios =
    process_loop fuel device 0
      (record ios { smax = if ltb ios.smax (sizeinstr ios) then sizeinstr ios else ios.smax })
