-- ===== src/Kaapi/Stream/Drain.antt =====
-- A CUDA stream processed and then waited for.
use xkblas.Base.{
  ℕ, ◌+◌, ◌-◌, ◌^◌, ◌≤◌, ◌<◌, ◌≡◌, sym, ap, ◌∙◌, arith, Bool, true, some, List, ◌++◌, length,
}
use mathlib.Core.List.{append-nil}
use xkblas.Kaapi.Stream.{Instruction, IoStream}
use xkblas.Kaapi.Stream.Process.{Outcome, cuda_device, process_instruction}
use xkblas.Kaapi.Stream.Fifo.{waiting, in_flight, started_all}
use xkblas.Kaapi.Stream.Refine.{process-refines}
use xkblas.Kaapi.Stream.Cuda.{cuda_stream_process_pending}
use xkblas.Kaapi.Stream.Order.{due, started_all-due}
use xkblas.Kaapi.Stream.Complete.{callbacks, all_pending, completed, pending-refines}
use xkblas.Kaapi.Stream.Run.{Run, Reach, later, process}
use xkblas.Kaapi.Stream.Invariant.{Reach-Inv, started_list}

-- In a state that a CUDA stream reaches by insertions, processings for which the ring of pending
-- instructions has room, and completions: whenever fewer than 2 ^ 31 instructions were inserted and
-- that ring has room for those that wait, the processing, on fuel above their number, and then a
-- blocking call for the pending ones both return, and with the second the callbacks of all the
-- copies, kernels and barriers inserted have been called: each once, in the order of the insertions.
pub drain :
    (r : Run) (fuel : ℕ) (query : ℕ → Bool)
    → Reach r
    → r.ios.pos_w < 2 ^ 31
    → r.ios.pos_wp + length (started_all cuda_device (waiting r.ios)) ≤ r.ios.pos_rp + r.ios.count
    → r.ios.pos_w - r.ios.pos_r < fuel
    → (o : Outcome) × (process_instruction fuel cuda_device r.ios ≡ some o)
      × (called : List ℕ) × (next : IoStream) × (cuda_stream_process_pending query o.ios true
          ≡ some (called, next))
      × ((r.called ++ o.called) ++ called ≡ callbacks (due r.inserted))
drain r fuel query reach small room enough =
    let inv = Reach-Inv r reach in
    let (o, e, done) = process-refines fuel cuda_device r.ios inv.valid room enough in
    let inv' = Reach-Inv _ (later r _ reach (process fuel o room enough e)) in
    let v = inv'.valid in
    let (next, e', back) =
      pending-refines query o.ios true v (started_list o.ios v inv'.all_started)
        (omega (arith, small, done.written, v.read-written, v.pending-read)) in
    let all : completed query o.ios true ≡ o.ios.pos_wp - o.ios.pos_rp =
      omega (arith, v.notified-pending) in
    let none_left =
      ap (λ (w : List Instruction). callbacks (started_all cuda_device w)) done.all_read in
    (
      o,
      e,
      callbacks (all_pending o.ios (completed query o.ios true)),
      next,
      e',
      ap (λ (n : ℕ). (r.called ++ o.called) ++ callbacks (all_pending o.ios n)) all
          ∙ sym (
              inv'.ordered
              ∙ ap (λ (t : List ℕ). (r.called ++ o.called) ++ (callbacks (in_flight o.ios) ++ t))
                  none_left
              ∙ ap (λ (t : List ℕ). (r.called ++ o.called) ++ t)
                  (append-nil (callbacks (in_flight o.ios))))
          ∙ ap callbacks (started_all-due r.inserted),
    )
