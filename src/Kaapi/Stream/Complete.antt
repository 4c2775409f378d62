-- ===== src/Kaapi/Stream/Complete.antt =====
-- cuda_stream_process_pending against the list of the instructions in progress.
use xkblas.Base.{
  ℕ, zero, suc, ◌+◌, ◌-◌, ◌^◌, ◌%◌, ◌≤◌, ◌<◌, ◌≡◌, ◌≢◌, refl, sym, ap, ◌∙◌, arith, Bool, true,
  false, Option, some, List, [], ◌∷◌, ◌++◌, ◌==◌, update,
}
use mathlib.Core.Bool.{false≢true}
use xkblas.Kaapi.Stream.{
  IoType, io_nop, io_begin, io_end, io_copy_h2h, io_copy_h2d, io_copy_d2h, io_copy_d2d, io_barrier,
  io_kern, Instruction, IoStream, calls,
}
use xkblas.Kaapi.Stream.Ring.{ring, ring_congr, other_rest}
use xkblas.Kaapi.Stream.Process.{cuda_reply}
use xkblas.Kaapi.Stream.Fifo.{IsValid, waiting, in_flight, inc_lem}
use xkblas.Kaapi.Stream.Cuda.{
  call_back, complete_instruction, complete_pending, cuda_stream_process_pending,
}
use xkblas.Kaapi.Stream.Advance.{ArePending, found, found-le, notified, advance-counts}

-- the callbacks of instructions
abbrev pub callbacks : List Instruction → List ℕ
callbacks [] = []
callbacks (i ∷ is) = calls i.fnc ++ callbacks is

abbrev pub all_pending : IoStream → ℕ → List Instruction
all_pending ios n = ring ios.pending ios.count ios.pos_rp n

ring-append :
    {A : Type 0} (f : ℕ → A) (c a n m : ℕ) → ring f c a (n + m) ≡ ring f c a n ++ ring f c (a + n) m
unfolding ring
ring-append {A} f c a zero m =
    let e : a + 0 ≡ a = omega arith in let z : 0 + m ≡ m = omega arith in rw (e, z) refl
ring-append {A} f c a (suc n) m =
    let e : a + suc n ≡ suc a + n = omega arith in
    let n' : suc n + m ≡ suc (n + m) = omega arith in
    rw (e, n') (ap (λ (t : List A). f (a % c) ∷ t) (ring-append f c (suc a) n m))

complete_instruction_lem :
    (ios : IoStream) (idx : ℕ) (t : IoType)
    → (cuda_reply t).in_progress ≡ true
    → complete_instruction ios idx t ≡ some (call_back ios idx)
unfolding cuda_reply complete_instruction
complete_instruction_lem ios idx io_nop e = absurd (false≢true e)
complete_instruction_lem ios idx io_begin e = absurd (false≢true e)
complete_instruction_lem ios idx io_end e = absurd (false≢true e)
complete_instruction_lem ios idx io_copy_h2h e = refl
complete_instruction_lem ios idx io_copy_h2d e = refl
complete_instruction_lem ios idx io_copy_d2h e = refl
complete_instruction_lem ios idx io_copy_d2d e = refl
complete_instruction_lem ios idx io_barrier e = refl
complete_instruction_lem ios idx io_kern e = refl

-- the first pending instruction called back
abbrev one_back : IoStream → IoStream
one_back ios = record ios {
  pending =
      update ios.pending (ios.pos_rp % ios.count)
        (record (ios.pending (ios.pos_rp % ios.count)) { type = io_nop });
  pos_rp = suc ios.pos_rp;
}

-- the other positions keep their instructions
kept :
    (ios : IoStream) (k : ℕ)
    → ios.pos_rp < k
    → k < ios.pos_rp + ios.count
    → (one_back ios).pending (k % ios.count) ≡ ios.pending (k % ios.count)
kept ios k lo hi =
    let e : (ios.pos_rp + (k - ios.pos_rp)) % ios.count ≡ k % ios.count =
      ap (λ (t : ℕ). t % ios.count) (omega arith) in
    let apart : k % ios.count ≢ ios.pos_rp % ios.count = λ same.
      other_rest ios.count ios.pos_rp (k - ios.pos_rp) (omega arith) (omega arith) (e ∙ same) in
    let f : k % ios.count == ios.pos_rp % ios.count ≡ false = ground arith in rw f refl

-- What the callbacks of the first `n` pending instructions leave.
pub record Back (ios : IoStream) (n : ℕ) (next : IoStream) : Type 0 where
  pub valid : IsValid next
  pub started : ArePending next
  pub rest : in_flight ios ≡ all_pending ios n ++ in_flight next
  pub same_waiting : waiting next ≡ waiting ios
  pub same_wp : next.pos_wp ≡ ios.pos_wp
  pub called_back : next.pos_rp ≡ ios.pos_rp + n

Completed : IoStream → ℕ → Option (List ℕ × IoStream) → Type 0
Completed ios n result =
    (next : IoStream) × (result ≡ some (callbacks (all_pending ios n), next)) × Back ios n next

one_back-IsValid : (ios : IoStream) → IsValid ios → ios.pos_rp < ios.ok_p → IsValid (one_back ios)
one_back-IsValid ios v some_left = record {
  some_count = v.some_count;
  narrow = v.narrow;
  called-notified = some_left;
  notified-pending = v.notified-pending;
  pending-read = v.pending-read;
  read-written = v.read-written;
  instr_fits = v.instr_fits;
  pending_fits = omega (arith, v.pending_fits);
  in_range = v.in_range;
}

one_back-ArePending : (ios : IoStream) → IsValid ios → ArePending ios → ArePending (one_back ios)
unfolding ArePending
one_back-ArePending ios v started k lo hi =
    let e = kept ios k lo (omega (arith, v.pending_fits)) in
    ap (λ (i : Instruction). (cuda_reply i.type).in_progress) e ∙ started k (omega arith) hi

one_back-ring :
    (ios : IoStream) (n : ℕ)
    → IsValid ios
    → suc ios.pos_rp + n ≤ ios.pos_wp
    → ring ios.pending ios.count ios.pos_rp (suc n)
      ≡ ios.pending (ios.pos_rp % ios.count) ∷ all_pending (one_back ios) n
unfolding ring
one_back-ring ios n v fits =
    ap (λ (t : List Instruction). ios.pending (ios.pos_rp % ios.count) ∷ t)
      (ring_congr ios.pending (one_back ios).pending ios.count (suc ios.pos_rp) n
        (λ k lo hi. sym (kept ios k lo (omega (arith, v.pending_fits)))))

complete_next :
    (ios : IoStream) (n : ℕ) (next : IoStream)
    → IsValid ios
    → ArePending ios
    → suc ios.pos_rp + n ≤ ios.pos_wp
    → complete_pending n (suc ios.pos_rp) (one_back ios)
      ≡ some (callbacks (all_pending (one_back ios) n), next)
    → complete_pending (suc n) ios.pos_rp ios ≡ some (callbacks (all_pending ios (suc n)), next)
unfolding complete_pending call_back ArePending
complete_next ios n next v started wp run =
    let one =
      complete_instruction_lem ios (ios.pos_rp % ios.count)
        (ios.pending (ios.pos_rp % ios.count)).type
        (started ios.pos_rp (omega arith) (omega (arith, wp))) in
    let r = inc_lem ios.pos_rp (omega (arith, wp, v.in_range, v.pending-read, v.read-written)) in
    rw (complete_pending, one, r, run)
      (ap (λ (t : List Instruction). some (callbacks t, next)) (sym (one_back-ring ios n v wp)))

complete_rest :
    (ios : IoStream) (n : ℕ) (next : IoStream)
    → IsValid ios
    → suc ios.pos_rp + n ≤ ios.pos_wp
    → in_flight (one_back ios) ≡ all_pending (one_back ios) n ++ in_flight next
    → in_flight ios ≡ all_pending ios (suc n) ++ in_flight next
complete_rest ios n next v wp rest =
    let m : ios.pos_wp - ios.pos_rp ≡ suc (ios.pos_wp - suc ios.pos_rp) = omega (arith, wp) in
    ap (all_pending ios) m
    ∙ one_back-ring ios (ios.pos_wp - suc ios.pos_rp) v (omega (arith, wp))
    ∙ ap (λ (t : List Instruction). ios.pending (ios.pos_rp % ios.count) ∷ t) rest
    ∙ sym (ap (λ (t : List Instruction). t ++ in_flight next) (one_back-ring ios n v wp))

complete_lem :
    (ios : IoStream) (n : ℕ)
    → IsValid ios
    → ArePending ios
    → ios.pos_rp + n ≡ ios.ok_p
    → Completed ios n (complete_pending n ios.pos_rp ios)
unfolding complete_pending Completed ring
complete_lem ios zero v started e = (
  ios,
  refl,
  record {
    valid = v;
    started = started;
    rest = refl;
    same_waiting = refl;
    same_wp = refl;
    called_back = omega arith;
  },
)
complete_lem ios (suc n) v started e =
    let wp : suc ios.pos_rp + n ≤ ios.pos_wp = omega (arith, e, v.notified-pending) in
    let (next, run, back) =
      complete_lem (one_back ios) n (one_back-IsValid ios v (omega (arith, e)))
        (one_back-ArePending ios v started) (omega (arith, e)) in
    (
      next,
      complete_next ios n next v started wp run,
      record {
        valid = back.valid;
        started = back.started;
        rest = complete_rest ios n next v wp back.rest;
        same_waiting = back.same_waiting;
        same_wp = back.same_wp;
        called_back = omega (arith, back.called_back);
      },
    )

notified-IsValid :
    (ios : IoStream) (n : ℕ) → IsValid ios → n ≤ ios.pos_wp - ios.ok_p → IsValid (notified ios n)
notified-IsValid ios n v le = record {
  some_count = v.some_count;
  narrow = v.narrow;
  called-notified = omega (arith, v.called-notified);
  notified-pending = omega (arith, le, v.notified-pending);
  pending-read = v.pending-read;
  read-written = v.read-written;
  instr_fits = v.instr_fits;
  pending_fits = v.pending_fits;
  in_range = v.in_range;
}

-- how many instructions a call completes: those notified before, and those found now
abbrev pub completed : (ℕ → Bool) → IoStream → Bool → ℕ
completed query ios blocking = (ios.ok_p + found query ios blocking) - ios.pos_rp

-- cuda_stream_process_pending calls the callbacks of the first instructions in progress, in the order in
-- which they were put in progress: those notified earlier and those found finished now, which are those
-- before the first barrier or instruction whose event has not happened, and all in a blocking call. The others stay in progress in their order, no waiting instruction is touched, and the
-- stream stays valid. The stream is valid, the device has started its pending instructions, and there were fewer than 2 ^ 31.
pub pending-refines :
    (query : ℕ → Bool) (ios : IoStream) (blocking : Bool)
    → IsValid ios
    → ArePending ios
    → ios.pos_wp < 2 ^ 31
    → (next : IoStream) × (cuda_stream_process_pending query ios blocking
        ≡ some (callbacks (all_pending ios (completed query ios blocking)), next))
      × Back ios (completed query ios blocking) next
unfolding cuda_stream_process_pending Completed ArePending
pending-refines query ios blocking v started small =
    let n = found query ios blocking in
    let run = advance-counts query ios blocking v started small in
    let (next, e, back) =
      complete_lem (notified ios n) (completed query ios blocking)
        (notified-IsValid ios n v (found-le query ios blocking)) started
        (omega (arith, v.called-notified)) in
    (
      next,
      rw (cuda_stream_process_pending, run, e) refl,
      record {
        valid = back.valid;
        started = back.started;
        rest = back.rest;
        same_waiting = back.same_waiting;
        same_wp = back.same_wp;
        called_back = back.called_back;
      },
    )
