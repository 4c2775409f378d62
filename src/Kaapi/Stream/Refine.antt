-- ===== src/Kaapi/Stream/Refine.antt =====
-- The processing of the waiting instructions against the lists of a stream.
use xkblas.Base.{
  ℕ, zero, suc, ◌+◌, ◌-◌, ◌≤◌, ◌<◌, ◌≡◌, refl, sym, subst, ap, ◌∙◌, arith, true, false, Bool-cases,
  inl, inr, ltb, some, List, [], ◌∷◌, ◌++◌, ◌==◌, if◌then◌else◌, length, length-append,
}
use mathlib.Core.List.{append_assoc, append-nil}
use xkblas.Kaapi.Stream.{Instruction, IoStream, Device, sizeinstr, emptyinstr}
use xkblas.Kaapi.Stream.Ring.{ring, ring_push}
use xkblas.Kaapi.Stream.Process.{Outcome, take_instruction, process_loop, process_instruction}
use xkblas.Kaapi.Stream.Fifo.{
  IsValid, waiting, in_flight, started, started_all, called_all, first, passed, moved, take_moved,
  take_passed, ok_grows, ok_grows_by_one, moved-IsValid, passed-IsValid,
}

-- What one step of the loop does.
record Taken (device : Device) (ios next : IoStream) : Type 0 where
  valid : IsValid next
  read : next.pos_r ≡ suc ios.pos_r
  written : next.pos_w ≡ ios.pos_w
  rp : next.pos_rp ≡ ios.pos_rp
  same_count : next.count ≡ ios.count
  wp : next.pos_wp ≡ ios.pos_wp + length (started device (first ios))
  left : waiting ios ≡ first ios ∷ waiting next
  flying : in_flight next ≡ in_flight ios ++ started device (first ios)

waiting_cons :
    (ios : IoStream)
    → ios.pos_r < ios.pos_w
    → waiting ios ≡ first ios ∷ ring ios.instr ios.count (suc ios.pos_r) (ios.pos_w - suc ios.pos_r)
unfolding ring
waiting_cons ios some_left =
    let n : ios.pos_w - ios.pos_r ≡ suc (ios.pos_w - suc ios.pos_r) = omega arith in rw n refl

moved-in_flight :
    (ios : IoStream) (ok : ℕ)
    → IsValid ios
    → ios.pos_wp < ios.pos_rp + ios.count
    → in_flight (moved ios ok) ≡ in_flight ios ++ first ios ∷ []
moved-in_flight ios ok v room =
    let n : suc ios.pos_wp - ios.pos_rp ≡ suc (ios.pos_wp - ios.pos_rp) =
      omega (arith, v.called-notified, v.notified-pending) in
    let e : ios.pos_rp + (ios.pos_wp - ios.pos_rp) ≡ ios.pos_wp =
      omega (arith, v.called-notified, v.notified-pending) in
    rw n (
      rw e at (
        ring_push ios.pending ios.count ios.pos_rp (ios.pos_wp - ios.pos_rp) (first ios)
          (omega arith)))

moved-Taken :
    (device : Device) (ios : IoStream) (ok : ℕ)
    → IsValid ios
    → ios.ok_p ≤ ok
    → ok ≤ suc ios.ok_p
    → ios.pos_r < ios.pos_w
    → ios.pos_wp < ios.pos_rp + ios.count
    → started device (first ios) ≡ first ios ∷ []
    → Taken device ios (moved ios ok)
moved-Taken device ios ok v grows by_one some_left room one = record {
  valid = moved-IsValid ios ok v grows by_one some_left room;
  read = refl;
  written = refl;
  rp = refl;
  same_count = refl;
  wp = rw one (omega arith);
  left = waiting_cons ios some_left;
  flying = rw one (moved-in_flight ios ok v room);
}

passed-Taken :
    (device : Device) (ios : IoStream)
    → IsValid ios
    → ios.pos_r < ios.pos_w
    → started device (first ios) ≡ []
    → Taken device ios (passed ios ios.ok_p)
passed-Taken device ios v some_left nothing = record {
  valid = passed-IsValid ios v some_left;
  read = refl;
  written = refl;
  rp = refl;
  same_count = refl;
  wp = rw nothing (omega arith);
  left = waiting_cons ios some_left;
  flying = rw nothing (sym (append-nil (in_flight ios)));
}

step-Taken :
    (device : Device) (ios : IoStream)
    → IsValid ios
    → ios.pos_r < ios.pos_w
    → ios.pos_wp + length (started device (first ios)) ≤ ios.pos_rp + ios.count
    → Taken device ios (take_instruction device ios).ios
step-Taken device ios v some_left room = elim (Bool-cases (device.decode (first ios)).in_progress) [
  | inl on ↦
      let one : started device (first ios) ≡ first ios ∷ [] = rw on refl in
      let short : ios.pos_wp + 1 ≤ ios.pos_rp + ios.count = rw one at room in
      let counted = (device.decode (first ios)).count_ok in
      subst (Taken device ios) (sym (take_moved device ios v some_left on)) (
        moved-Taken device ios _ v (ok_grows ios.ok_p counted) (ok_grows_by_one ios.ok_p counted)
          some_left (omega (arith, short)) one)
  | inr off ↦
      subst (Taken device ios) (sym (take_passed device ios v some_left off))
        (passed-Taken device ios v some_left (rw off refl))
]

-- What the processing leaves: nothing waits, the instructions that the device put in progress are behind
-- the earlier ones in the order of their insertion, and the others are done in this order.
pub record Processed (device : Device) (ios : IoStream) (o : Outcome) : Type 0 where
  pub valid : IsValid o.ios
  pub written : o.ios.pos_w ≡ ios.pos_w
  pub all_read : waiting o.ios ≡ []
  pub in_order : in_flight o.ios ≡ in_flight ios ++ started_all device (waiting ios)
  pub called_in_order : o.called ≡ called_all device (waiting ios)

nothing_waits : (ios : IoStream) → ios.pos_r ≡ ios.pos_w → waiting ios ≡ []
unfolding ring
nothing_waits ios e = let n : ios.pos_w - ios.pos_r ≡ 0 = omega (arith, e) in rw n refl

Result : ℕ → Device → ℕ → IoStream → Type 0
Result fuel device err ios =
    (o : Outcome) × (process_loop fuel device err ios ≡ some o) × Processed device ios o

stop :
    (fuel : ℕ) (device : Device) (err : ℕ) (ios : IoStream)
    → IsValid ios
    → ios.pos_r ≡ ios.pos_w
    → Result (suc fuel) device err ios
unfolding process_loop emptyinstr Result
stop fuel device err ios v e =
    let t : ios.pos_r == ios.pos_w ≡ true = ground arith in
    let nil = nothing_waits ios e in
    (
      record { err = err; called = []; ios = ios },
      rw t refl,
      record {
        valid = v;
        written = refl;
        all_read = nil;
        in_order = rw nil (sym (append-nil (in_flight ios)));
        called_in_order = rw nil refl;
      },
    )

continue :
    (fuel : ℕ) (device : Device) (err : ℕ) (ios : IoStream)
    → ios.pos_r < ios.pos_w
    → Taken device ios (take_instruction device ios).ios
    → Result fuel device (take_instruction device ios).err (take_instruction device ios).ios
    → Result (suc fuel) device err ios
unfolding process_loop emptyinstr Result take_instruction
continue fuel device err ios some_left one (o, e, done) =
    let f : ios.pos_r == ios.pos_w ≡ false = ground arith in
    (
      record o { called = (device.decode (first ios)).called ++ o.called },
      rw (f, e) refl,
      record {
        valid = done.valid;
        written = done.written ∙ one.written;
        all_read = done.all_read;
        in_order =
            done.in_order
            ∙ ap
                (λ (t : List Instruction).
                  t ++ started_all device (waiting (take_instruction device ios).ios))
                one.flying
            ∙ append_assoc (in_flight ios) (started device (first ios))
                (started_all device (waiting (take_instruction device ios).ios))
            ∙ sym (ap (λ (t : List Instruction). in_flight ios ++ started_all device t) one.left);
        called_in_order =
            ap (λ (t : List ℕ). (device.decode (first ios)).called ++ t) done.called_in_order
            ∙ sym (ap (called_all device) one.left);
      },
    )

loop-Result :
    (fuel : ℕ) (device : Device) (err : ℕ) (ios : IoStream)
    → IsValid ios
    → ios.pos_wp + length (started_all device (waiting ios)) ≤ ios.pos_rp + ios.count
    → ios.pos_w - ios.pos_r < fuel
    → Result fuel device err ios
loop-Result zero device err ios v room enough = absurd (omega (arith, enough))
loop-Result (suc fuel) device err ios v room enough = elim (Bool-cases (ios.pos_r == ios.pos_w)) [
  | inl t ↦ stop fuel device err ios v (ground arith)
  | inr f ↦
      let some_left : ios.pos_r < ios.pos_w = ground (arith, v.read-written) in
      let split =
        ap (λ (t : List Instruction). length (started_all device t)) (waiting_cons ios some_left)
        ∙ length-append (started device (first ios)) _ in
      let one = step-Taken device ios v some_left (omega (arith, room, split)) in
      let split' =
        ap (λ (t : List Instruction). length (started_all device t)) one.left
        ∙ length-append (started device (first ios)) _ in
      continue fuel device err ios some_left one (
        loop-Result fuel device _ _ one.valid
          (omega (arith, room, split', one.wp, one.rp, one.same_count))
          (omega (arith, one.read, one.written, enough, some_left)))
]

pub smax-IsValid : (ios : IoStream) (s : ℕ) → IsValid ios → IsValid (record ios { smax = s })
smax-IsValid ios s v = record {
  some_count = v.some_count;
  narrow = v.narrow;
  called-notified = v.called-notified;
  notified-pending = v.notified-pending;
  pending-read = v.pending-read;
  read-written = v.read-written;
  instr_fits = v.instr_fits;
  pending_fits = v.pending_fits;
  in_range = v.in_range;
}

-- With fuel for more rounds than instructions wait, and with room among the pending ones for those that
-- the device puts in progress, the processing of a valid stream ends with a valid stream in which no
-- instruction waits; the instructions in progress stand behind the earlier ones in the order of their
-- insertion, and the callbacks that the device calls itself come in this order too.
pub process-refines :
    (fuel : ℕ) (device : Device) (ios : IoStream)
    → IsValid ios
    → ios.pos_wp + length (started_all device (waiting ios)) ≤ ios.pos_rp + ios.count
    → ios.pos_w - ios.pos_r < fuel
    → (o : Outcome) × (process_instruction fuel device ios ≡ some o) × Processed device ios o
unfolding process_instruction Result
process-refines fuel device ios v room enough =
    let s = if ltb ios.smax (sizeinstr ios) then sizeinstr ios else ios.smax in
    let (o, e, done) =
      loop-Result fuel device 0 (record ios { smax = s }) (smax-IsValid ios s v) room enough in
    (
      o,
      e,
      record {
        valid = done.valid;
        written = done.written;
        all_read = done.all_read;
        in_order = done.in_order;
        called_in_order = done.called_in_order;
      },
    )
