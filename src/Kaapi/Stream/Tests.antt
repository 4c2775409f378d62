-- ===== src/Kaapi/Stream/Tests.antt =====
-- Streams of two cells.
use xkblas.Base.{
  ℕ, ◌+◌, ◌-◌, ◌^◌, ◌%◌, ◌≤◌, ◌<◌, ◌≡◌, ◌⊎◌, refl, arith, Bool, true, false, none, some, List, [],
  ◌∷◌, ◌++◌, length, update, All,
}
use xkblas.Kaapi.Stream.{
  io_kern, Instruction, IoStream, iostream_init, iostream_destroy, ebusy, fullpending, emptyinstr,
  emptypending, fullinstr, is_known, insert_instruction, kaapi_offload_stream_push,
  kaapi_offload_stream_commit,
}
use xkblas.Kaapi.Stream.Ring.{ring}
use xkblas.Kaapi.Stream.Order.{due}
use xkblas.Kaapi.Stream.Process.{Outcome, cuda_device, cuda_reply, host_device, process_instruction}
use xkblas.Kaapi.Stream.Fifo.{IsValid, waiting, in_flight, first}
use xkblas.Kaapi.Stream.Refine.{Processed, process-refines}
use xkblas.Kaapi.Stream.Insert.{Inserted, insert-refines}
use xkblas.Kaapi.Stream.Cuda.{cuda_stream_advance_pending, cuda_stream_process_pending}
use xkblas.Kaapi.Stream.Advance.{ArePending}
use xkblas.Kaapi.Stream.Complete.{callbacks, all_pending, completed, Back, pending-refines}
use xkblas.Kaapi.Stream.Run.{Run, Reach, start, later, insert}
use xkblas.Kaapi.Stream.Invariant.{callbacks_in_order}
use xkblas.Kaapi.Stream.Drain.{drain}
use xkblas.Kaapi.Stream.Overflow.{pending_overwritten, advance_passes_end}
use xkblas.Kaapi.Stream.Offload.{
  Streams, Through, stream_kern, kaapi_offload_select_io_stream, kaapi_offload_wait_stream,
  kaapi_offload_test_stream, kaapi_offload_stream_isempty, einval,
}
use xkblas.Kaapi.Stream.Select.{select_round_robin}
use xkblas.Kaapi.Stream.WaitAll.{AreProcessed, flying_all, wait_stream-completes}

abbrev kernel : ℕ → Instruction
kernel n = record { type = io_kern; fnc = some n; rest = n }

-- a stream at these positions, with a kernel in each cell
abbrev stream : ℕ → ℕ → ℕ → ℕ → ℕ → IoStream
stream rp ok wp r w = record {
  count = 2;
  smax = 0;
  smax_p = 0;
  max_p = 2 ^ 64 - 1;
  pos_r = r;
  pos_w = w;
  pos_rp = rp;
  pos_wp = wp;
  instr = kernel;
  pending = kernel;
  ok_p = ok;
}

stream-IsValid :
    (rp ok wp r w : ℕ)
    → rp ≤ ok
    → ok ≤ wp
    → wp ≤ r
    → r ≤ w
    → w ≤ r + 2
    → wp ≤ rp + 2
    → w < 2 ^ 64
    → IsValid (stream rp ok wp r w)
stream-IsValid rp ok wp r w a b c d e f g = record {
  some_count = omega arith;
  narrow = omega arith;
  called-notified = a;
  notified-pending = b;
  pending-read = c;
  read-written = d;
  instr_fits = e;
  pending_fits = f;
  in_range = g;
}

stream-ArePending : (rp ok wp r w : ℕ) → ArePending (stream rp ok wp r w)
unfolding ArePending cuda_reply
stream-ArePending rp ok wp r w k lo hi = refl

abbrev all_finished : ℕ → Bool
all_finished idx = true

abbrev empty : IoStream
empty = stream 0 0 0 0 0

init_test : iostream_init (stream 3 3 3 3 3) 2 (some kernel) (some kernel) ≡ some (0, empty)
unfolding iostream_init
init_test = refl

destroy_test : iostream_destroy (stream 0 0 0 0 1) ≡ ebusy
unfolding iostream_destroy emptypending emptyinstr
destroy_test = refl

insert-refines_example :
    ((length (waiting empty) ≡ 2) × (insert_instruction empty (kernel 7) ≡ some none))
    ⊎ ((length (waiting empty) < 2)
        × ((next : IoStream) × (insert_instruction empty (kernel 7) ≡ some (some next))
            × Inserted (kernel 7) empty next))
unfolding is_known
insert-refines_example =
    insert-refines empty (kernel 7)
      (stream-IsValid 0 0 0 0 0 (omega arith) (omega arith) (omega arith) (omega arith)
        (omega arith) (omega arith) (omega arith))
      (omega arith) refl

abbrev two_waiting : IoStream
two_waiting = stream 1 1 1 2 4

process-refines_example :
    (o : Outcome) × (process_instruction 3 host_device two_waiting ≡ some o)
    × Processed host_device two_waiting o
unfolding ring
process-refines_example =
    process-refines 3 host_device two_waiting
      (stream-IsValid 1 1 1 2 4 (omega arith) (omega arith) (omega arith) (omega arith)
        (omega arith) (omega arith) (omega arith))
      (omega arith) (omega arith)

-- one of two kernels in progress has been notified
abbrev two_pending : IoStream
two_pending = stream 1 2 3 3 4

pending-refines_example :
    (next : IoStream) × (cuda_stream_process_pending all_finished two_pending false
      ≡ some (callbacks (all_pending two_pending (completed all_finished two_pending false)), next))
    × Back two_pending (completed all_finished two_pending false) next
pending-refines_example =
    pending-refines all_finished two_pending false
      (stream-IsValid 1 2 3 3 4 (omega arith) (omega arith) (omega arith) (omega arith)
        (omega arith) (omega arith) (omega arith))
      (stream-ArePending 1 2 3 3 4) (omega arith)

abbrev one_inserted : Run
one_inserted = record {
  ios = record empty { instr = update empty.instr 0 (kernel 7); pos_w = 1 };
  inserted = kernel 7 ∷ [];
  called = [];
}

one_inserted_reach : Reach one_inserted
unfolding iostream_init insert_instruction kaapi_offload_stream_push kaapi_offload_stream_commit
    fullinstr is_known
one_inserted_reach =
    later (record { ios = empty; inserted = []; called = [] }) one_inserted
      (start empty empty 2 kernel kernel (omega arith) refl)
      (insert (kernel 7) one_inserted.ios (omega arith) refl refl)

callbacks_in_order_example :
    callbacks (due one_inserted.inserted)
    ≡ one_inserted.called
      ++ (callbacks (in_flight one_inserted.ios) ++ callbacks (due (waiting one_inserted.ios)))
callbacks_in_order_example = callbacks_in_order one_inserted one_inserted_reach

drain_example :
    (o : Outcome) × (process_instruction 2 cuda_device one_inserted.ios ≡ some o)
    × (called : List ℕ) × (next : IoStream) × (cuda_stream_process_pending all_finished o.ios true
        ≡ some (called, next))
    × ((one_inserted.called ++ o.called) ++ called ≡ callbacks (due one_inserted.inserted))
unfolding ring cuda_reply
drain_example =
    drain one_inserted 2 all_finished one_inserted_reach (omega arith) (omega arith) (omega arith)

abbrev full : IoStream
full = stream 1 1 3 3 4

pending_overwritten_example :
    (o : Outcome) × (process_instruction 2 cuda_device full ≡ some o)
    × (o.ios.pos_rp ≡ 1)
    × (o.ios.pending (1 % 2) ≡ first full)
unfolding fullpending cuda_reply
pending_overwritten_example =
    pending_overwritten cuda_device full
      (stream-IsValid 1 1 3 3 4 (omega arith) (omega arith) (omega arith) (omega arith)
        (omega arith) (omega arith) (omega arith))
      refl refl refl

abbrev old : ℕ
old = 2147483649

abbrev long_running : IoStream
long_running = stream old old (old + 1) (old + 1) (old + 1)

advance_passes_end_example :
    (next : IoStream) × (cuda_stream_advance_pending (λ idx. false) long_running false
      ≡ some (0, next))
    × (next.pos_wp < next.ok_p)
advance_passes_end_example =
    advance_passes_end (λ idx. false) long_running
      (stream-IsValid old old (old + 1) (old + 1) (old + 1) (omega arith) (omega arith)
        (omega arith) (omega arith) (omega arith) (omega arith) (omega arith))
      (stream-ArePending old old (old + 1) (old + 1) (old + 1)) (omega arith) (omega arith)
      (omega arith) (omega arith)

-- the second of two kernel streams is chosen, though the first is idle
abbrev kernel_streams : Streams
kernel_streams = record {
  type = stream_kern;
  next = 3;
  ios = stream 1 1 1 1 1 ∷ stream 1 1 3 3 3 ∷ [];
}

select_round_robin_example :
    kaapi_offload_select_io_stream kernel_streams ≡ some (3 % 2, record kernel_streams { next = 4 })
select_round_robin_example = select_round_robin kernel_streams (omega arith) (omega arith)

kernel_streams-AreProcessed : AreProcessed kernel_streams
unfolding All ring
kernel_streams-AreProcessed = (
  (
    record {
      valid =
          stream-IsValid 1 1 1 1 1 (omega arith) (omega arith) (omega arith) (omega arith)
            (omega arith) (omega arith) (omega arith);
      started = stream-ArePending 1 1 1 1 1;
      early = omega arith;
    },
    refl,
  ),
  (
    (
      record {
        valid =
            stream-IsValid 1 1 3 3 3 (omega arith) (omega arith) (omega arith) (omega arith)
              (omega arith) (omega arith) (omega arith);
        started = stream-ArePending 1 1 3 3 3;
        early = omega arith;
      },
      refl,
    ),
    tt,
  ),
)

wait_stream-completes_example :
    (t : Through Streams) × (kaapi_offload_wait_stream 2 1
        (λ s i round idx. true)
        (some (kernel_streams ∷ []))
      ≡ some t)
    × (t.err ≡ 0)
    × (t.called ≡ flying_all (kernel_streams ∷ []))
    × (kaapi_offload_stream_isempty t.left ≡ true)
unfolding All
wait_stream-completes_example =
    wait_stream-completes 0 1 (λ s i round idx. true) (kernel_streams ∷ [])
      (kernel_streams-AreProcessed, tt)

null_test :
    kaapi_offload_test_stream 2 1 (λ s i round idx. true) none
    ≡ some (record { err = einval; called = []; left = [] })
unfolding kaapi_offload_test_stream
null_test = refl
