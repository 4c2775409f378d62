-- ===== src/Kaapi/Stream/Run.antt =====
-- A CUDA stream in use: insertions, processing and completions in any order, each call as one step.
use xkblas.Base.{
  ℕ, suc, ◌+◌, ◌-◌, ◌^◌, ◌≤◌, ◌<◌, ◌≡◌, Bool, true, some, List, [], ◌∷◌, ◌++◌, length,
}
use xkblas.Kaapi.Stream.{Instruction, IoStream, iostream_init, is_known, insert_instruction}
use xkblas.Kaapi.Stream.Process.{Outcome, cuda_device, process_instruction}
use xkblas.Kaapi.Stream.Fifo.{waiting, started_all}
use xkblas.Kaapi.Stream.Cuda.{cuda_stream_process_pending}

-- the stream, the instructions that were inserted, and the callbacks that were called, each in its order
pub record Run : Type 0 where
  pub ios : IoStream
  pub inserted : List Instruction
  pub called : List ℕ

-- The instructions are processed when the pending ones have room, and completed before 2 ^ 31 of them.
pub data Step (r : Run) : Run → Type 0 where
  insert :
      (i : Instruction) (next : IoStream)
      → suc r.ios.pos_w < 2 ^ 64
      → is_known i.type ≡ true
      → insert_instruction r.ios i ≡ some (some next)
      → Step r (record { ios = next; inserted = r.inserted ++ i ∷ []; called = r.called })
  process :
      (fuel : ℕ) (o : Outcome)
      → r.ios.pos_wp + length (started_all cuda_device (waiting r.ios)) ≤ r.ios.pos_rp + r.ios.count
      → r.ios.pos_w - r.ios.pos_r < fuel
      → process_instruction fuel cuda_device r.ios ≡ some o
      → Step r (record { ios = o.ios; inserted = r.inserted; called = r.called ++ o.called })
  complete :
      (query : ℕ → Bool) (blocking : Bool) (called : List ℕ) (next : IoStream)
      → r.ios.pos_wp < 2 ^ 31
      → cuda_stream_process_pending query r.ios blocking ≡ some (called, next)
      → Step r (record { ios = next; inserted = r.inserted; called = r.called ++ called })

-- the states of a stream that starts empty
pub data Reach : Run → Type 0 where
  start :
      (io ios : IoStream) (capacity : ℕ) (instr pending : ℕ → Instruction)
      → capacity < 2 ^ 32
      → iostream_init io capacity (some instr) (some pending) ≡ some (0, ios)
      → Reach (record { ios = ios; inserted = []; called = [] })
  later : (r s : Run) → Reach r → Step r s → Reach s
