-- ===== src/Kaapi/Stream/Invariant.antt =====
-- What holds in every state of a CUDA stream in use.
use xkblas.Base.{
  ℕ, suc, ◌+◌, ◌-◌, ◌^◌, ◌≤◌, ◌<◌, ◌≡◌, refl, sym, subst, ap, ap₂, ◌∙◌, arith, Bool, true,
  Bool-cases, inl, inr, none, some, List, [], ◌∷◌, ◌++◌, length, ltb, All, All-append,
}
use mathlib.Core.Option.{some-injective, none-ne-some}
use mathlib.Core.List.{append_assoc, append-nil}
use xkblas.Kaapi.Stream.{Instruction, IoStream, iostream_init, is_known, insert_instruction}
use xkblas.Kaapi.Stream.Ring.{ring}
use xkblas.Kaapi.Stream.Process.{Outcome, cuda_device, process_instruction}
use xkblas.Kaapi.Stream.Fifo.{IsValid, waiting, in_flight, started_all}
use xkblas.Kaapi.Stream.Refine.{Processed, process-refines}
use xkblas.Kaapi.Stream.Insert.{Inserted, insert-refines}
use xkblas.Kaapi.Stream.Cuda.{cuda_stream_process_pending}
use xkblas.Kaapi.Stream.Advance.{ArePending}
use xkblas.Kaapi.Stream.Order.{
  IsStarted, at_each, of_each, callbacks-append, started-append, called-nil, due, started_all-due,
  started_all-All,
}
use xkblas.Kaapi.Stream.Complete.{callbacks, all_pending, completed, Back, pending-refines}
use xkblas.Kaapi.Stream.Run.{Run, insert, process, complete, Reach, start, later}

-- what was inserted is what was called back, is in progress or waits, in this order
abbrev pub InOrder : Run → Type 0
InOrder r =
    callbacks (started_all cuda_device r.inserted)
    ≡ r.called
      ++ (callbacks (in_flight r.ios) ++ callbacks (started_all cuda_device (waiting r.ios)))

pub record Inv (r : Run) : Type 0 where
  pub valid : IsValid r.ios
  pub all_started : All IsStarted (in_flight r.ios)
  pub ordered : InOrder r

pub started_list : (ios : IoStream) → IsValid ios → All IsStarted (in_flight ios) → ArePending ios
unfolding ArePending
started_list ios v all k lo hi =
    at_each IsStarted ios.pending ios.count ios.pos_rp (ios.pos_wp - ios.pos_rp) all k lo
      (omega (arith, hi, lo))

in_flight-IsStarted :
    (ios : IoStream) → IsValid ios → ArePending ios → All IsStarted (in_flight ios)
unfolding ArePending
in_flight-IsStarted ios v each =
    of_each IsStarted ios.pending ios.count ios.pos_rp (ios.pos_wp - ios.pos_rp)
      (λ k lo hi. each k lo (omega (arith, hi, v.called-notified, v.notified-pending)))

insert-InOrder :
    (r : Run) (i : Instruction) (next : IoStream)
    → InOrder r
    → Inserted i r.ios next
    → InOrder (record { ios = next; inserted = r.inserted ++ i ∷ []; called = r.called })
insert-InOrder r i next ordered done =
    let new = callbacks (started_all cuda_device (i ∷ [])) in
    let old = callbacks (started_all cuda_device (waiting r.ios)) in
    let flying = callbacks (in_flight r.ios) in
    ap callbacks (started-append r.inserted (i ∷ []))
    ∙ callbacks-append (started_all cuda_device r.inserted) (started_all cuda_device (i ∷ []))
    ∙ ap (λ (t : List ℕ). t ++ new) ordered
    ∙ append_assoc r.called (flying ++ old) new
    ∙ ap (λ (t : List ℕ). r.called ++ t) (append_assoc flying old new)
    ∙ sym (
        ap₂ (λ (f w : List ℕ). r.called ++ (f ++ w)) (ap callbacks done.same_flight)
          (ap (λ (w : List Instruction). callbacks (started_all cuda_device w)) done.behind
            ∙ ap callbacks (started-append (waiting r.ios) (i ∷ []))
            ∙ callbacks-append (started_all cuda_device (waiting r.ios))
                (started_all cuda_device (i ∷ []))))

process-InOrder :
    (r : Run) (o : Outcome)
    → InOrder r
    → Processed cuda_device r.ios o
    → InOrder (record { ios = o.ios; inserted = r.inserted; called = r.called ++ o.called })
process-InOrder r o ordered done =
    let flying = callbacks (in_flight r.ios) in
    let new = callbacks (started_all cuda_device (waiting r.ios)) in
    let nothing : o.called ≡ [] = done.called_in_order ∙ called-nil (waiting r.ios) in
    let called = ap (λ (t : List ℕ). r.called ++ t) nothing ∙ append-nil r.called in
    let all =
      ap callbacks done.in_order
      ∙ callbacks-append (in_flight r.ios) (started_all cuda_device (waiting r.ios)) in
    let none_left =
      ap (λ (w : List Instruction). callbacks (started_all cuda_device w)) done.all_read in
    let behind : callbacks (in_flight o.ios) ++ callbacks (started_all cuda_device (waiting o.ios))
        ≡ flying ++ new =
      ap₂ ◌++◌ all none_left ∙ append-nil (flying ++ new) in
    ordered ∙ sym (ap₂ ◌++◌ called behind)

complete-InOrder :
    (r : Run) (n : ℕ) (next : IoStream)
    → InOrder r
    → Back r.ios n next
    → InOrder (record {
      ios = next;
      inserted = r.inserted;
      called = r.called ++ callbacks (all_pending r.ios n);
    })
complete-InOrder r n next ordered done =
    let gone = callbacks (all_pending r.ios n) in
    let flying = callbacks (in_flight next) in
    let old = callbacks (started_all cuda_device (waiting r.ios)) in
    let split = ap callbacks done.rest ∙ callbacks-append (all_pending r.ios n) (in_flight next) in
    ordered
    ∙ ap (λ (t : List ℕ). r.called ++ (t ++ old)) split
    ∙ ap (λ (t : List ℕ). r.called ++ t) (append_assoc gone flying old)
    ∙ sym (append_assoc r.called gone (flying ++ old))
    ∙ ap
        (λ (w : List Instruction).
          (r.called ++ gone) ++ (flying ++ callbacks (started_all cuda_device w)))
        (sym done.same_waiting)

insert-Inv :
    (r : Run) (i : Instruction) (next : IoStream)
    → Inv r
    → suc r.ios.pos_w < 2 ^ 64
    → is_known i.type ≡ true
    → insert_instruction r.ios i ≡ some (some next)
    → Inv (record { ios = next; inserted = r.inserted ++ i ∷ []; called = r.called })
insert-Inv r i next inv no_wrap known e = elim (insert-refines r.ios i inv.valid no_wrap known) [
  | inl full ↦ absurd (none-ne-some next (some-injective none (some next) (sym full.1 ∙ e)))
  | inr (room, (next', e', done')) ↦
      let same = some-injective next' next (some-injective (some next') (some next) (sym e' ∙ e)) in
      let done = subst (Inserted i r.ios) same done' in
      record {
        valid = done.valid;
        all_started = subst (All IsStarted) (sym done.same_flight) inv.all_started;
        ordered = insert-InOrder r i next inv.ordered done;
      }
]

process-Inv :
    (r : Run) (fuel : ℕ) (o : Outcome)
    → Inv r
    → r.ios.pos_wp + length (started_all cuda_device (waiting r.ios)) ≤ r.ios.pos_rp + r.ios.count
    → r.ios.pos_w - r.ios.pos_r < fuel
    → process_instruction fuel cuda_device r.ios ≡ some o
    → Inv (record { ios = o.ios; inserted = r.inserted; called = r.called ++ o.called })
process-Inv r fuel o inv room enough e =
    let (o', e', done') = process-refines fuel cuda_device r.ios inv.valid room enough in
    let done = subst (Processed cuda_device r.ios) (some-injective o' o (sym e' ∙ e)) done' in
    record {
      valid = done.valid;
      all_started = subst (All IsStarted) (sym done.in_order) (
          All-append IsStarted (in_flight r.ios) _ inv.all_started
            (started_all-All (waiting r.ios)));
      ordered = process-InOrder r o inv.ordered done;
    }

complete-Inv :
    (r : Run) (query : ℕ → Bool) (blocking : Bool) (called : List ℕ) (next : IoStream)
    → Inv r
    → r.ios.pos_wp < 2 ^ 31
    → cuda_stream_process_pending query r.ios blocking ≡ some (called, next)
    → Inv (record { ios = next; inserted = r.inserted; called = r.called ++ called })
complete-Inv r query blocking called next inv small e =
    let n = completed query r.ios blocking in
    let (next', e', done') =
      pending-refines query r.ios blocking inv.valid (started_list r.ios inv.valid inv.all_started)
        small in
    let same =
      some-injective (callbacks (all_pending r.ios n), next') (called, next) (sym e' ∙ e) in
    let done = subst (Back r.ios n) (ap (λ (p : List ℕ × IoStream). p.1) same) done' in
    record {
      valid = done.valid;
      all_started = in_flight-IsStarted next done.valid done.started;
      ordered =
          subst
            (λ (c : List ℕ).
              InOrder (record { ios = next; inserted = r.inserted; called = r.called ++ c }))
            (ap (λ (p : List ℕ × IoStream). p.0) same) (complete-InOrder r n next inv.ordered done);
    }

start-Inv :
    (io ios : IoStream) (capacity : ℕ) (instr pending : ℕ → Instruction)
    → capacity < 2 ^ 32
    → iostream_init io capacity (some instr) (some pending) ≡ some (0, ios)
    → Inv (record { ios = ios; inserted = []; called = [] })
unfolding iostream_init ring All
start-Inv io ios capacity instr pending small e = elim (Bool-cases (ltb capacity 2)) [
  | inl t ↦ absurd (none-ne-some (0, ios) (rw t at e))
  | inr f ↦
      let same = ap (λ (p : ℕ × IoStream). p.1) (some-injective _ (0, ios) (rw f at e)) in
      subst (λ (s : IoStream). Inv (record { ios = s; inserted = []; called = [] })) same
        (record {
          valid = record {
            some_count = ground arith;
            narrow = small;
            called-notified = omega arith;
            notified-pending = omega arith;
            pending-read = omega arith;
            read-written = omega arith;
            instr_fits = omega arith;
            pending_fits = omega arith;
            in_range = omega arith;
          };
          all_started = tt;
          ordered = refl;
        })
]

pub Reach-Inv : (r : Run) → Reach r → Inv r
Reach-Inv r (start io ios capacity instr pending small e) =
    start-Inv io ios capacity instr pending small e
Reach-Inv s (later r _ reach (insert i next no_wrap known e)) =
    insert-Inv r i next (Reach-Inv r reach) no_wrap known e
Reach-Inv s (later r _ reach (process fuel o room enough e)) =
    process-Inv r fuel o (Reach-Inv r reach) room enough e
Reach-Inv s (later r _ reach (complete query blocking called next small e)) =
    complete-Inv r query blocking called next (Reach-Inv r reach) small e

-- A CUDA stream is started by kaapi_iostream_init, and then gets instructions, is processed while the
-- ring of pending instructions has room for all that wait, and looks for completions while fewer
-- than 2 ^ 31 instructions were ever pending; no position passes 2 ^ 64. In every state that it so
-- reaches, the callbacks of the copies, kernels and barriers inserted are those called so far, then
-- those of the instructions in progress, then those of the copies, kernels and barriers that wait:
-- callbacks come in the order of the insertions, and none is lost or called twice.
pub callbacks_in_order :
    (r : Run)
    → Reach r
    → callbacks (due r.inserted)
      ≡ r.called ++ (callbacks (in_flight r.ios) ++ callbacks (due (waiting r.ios)))
callbacks_in_order r reach =
    let all = started_all-due r.inserted in
    let left = started_all-due (waiting r.ios) in
    ap callbacks (sym all)
    ∙ (Reach-Inv r reach).ordered
    ∙ ap (λ (t : List Instruction). r.called ++ (callbacks (in_flight r.ios) ++ callbacks t)) left
