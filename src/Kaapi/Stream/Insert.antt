-- ===== src/Kaapi/Stream/Insert.antt =====
-- The insertion of an instruction into a stream against the lists of the stream.
use xkblas.Base.{
  ℕ, zero, suc, ◌+◌, ◌-◌, ◌^◌, ◌%◌, ◌<◌, ◌≡◌, ◌⊎◌, refl, ap, arith, true, false, Bool-cases, inl,
  inr, none, some, [], ◌∷◌, ◌++◌, ◌==◌, leb, length, update,
}
use xkblas.Kaapi.Stream.{
  Instruction, IoStream, fullinstr, is_known, insert_instruction, kaapi_offload_stream_push,
  kaapi_offload_stream_commit,
}
use xkblas.Kaapi.Stream.Ring.{ring, ring_push}
use xkblas.Kaapi.Stream.Fifo.{IsValid, waiting, in_flight, inc_lem, sub_size_lem}

-- What an insertion does.
pub record Inserted (i : Instruction) (ios next : IoStream) : Type 0 where
  pub valid : IsValid next
  pub behind : waiting next ≡ waiting ios ++ i ∷ []
  pub same_flight : in_flight next ≡ in_flight ios
  pub same_count : next.count ≡ ios.count

pub length-ring : {A : Type 0} (f : ℕ → A) (c a n : ℕ) → length (ring f c a n) ≡ n
unfolding ring
length-ring f c a zero = refl
length-ring f c a (suc n) = ap suc (length-ring f c (suc a) n)

abbrev written : IoStream → Instruction → IoStream
written ios i = record ios {
  instr = update ios.instr (ios.pos_w % ios.count) i;
  pos_w = suc ios.pos_w;
}

written-Inserted :
    (ios : IoStream) (i : Instruction)
    → IsValid ios
    → suc ios.pos_w < 2 ^ 64
    → ios.pos_w < ios.pos_r + ios.count
    → Inserted i ios (written ios i)
written-Inserted ios i v no_wrap room = record {
  valid = record {
    some_count = v.some_count;
    narrow = v.narrow;
    called-notified = v.called-notified;
    notified-pending = v.notified-pending;
    pending-read = v.pending-read;
    read-written = omega (arith, v.read-written);
    instr_fits = room;
    pending_fits = v.pending_fits;
    in_range = no_wrap;
  };
  behind =
      let n : suc ios.pos_w - ios.pos_r ≡ suc (ios.pos_w - ios.pos_r) =
        omega (arith, v.read-written) in
      let e : ios.pos_r + (ios.pos_w - ios.pos_r) ≡ ios.pos_w = omega (arith, v.read-written) in
      rw n (
        rw e at (
          ring_push ios.instr ios.count ios.pos_r (ios.pos_w - ios.pos_r) i
            (omega (arith, v.read-written))));
  same_flight = refl;
  same_count = refl;
}

fullinstr_lem :
    (ios : IoStream) → IsValid ios → fullinstr ios ≡ leb ios.count (ios.pos_w - ios.pos_r)
unfolding fullinstr
fullinstr_lem ios v =
    ap (leb ios.count) (sub_size_lem ios.pos_w ios.pos_r v.read-written v.in_range)

insert_room :
    (ios : IoStream) (i : Instruction)
    → IsValid ios
    → suc ios.pos_w < 2 ^ 64
    → is_known i.type ≡ true
    → ios.pos_w < ios.pos_r + ios.count
    → insert_instruction ios i ≡ some (some (written ios i))
unfolding insert_instruction kaapi_offload_stream_push kaapi_offload_stream_commit
insert_room ios i v no_wrap known room =
    let f : leb ios.count (ios.pos_w - ios.pos_r) ≡ false = ground (arith, v.read-written) in
    let here : ios.pos_w % ios.count == ios.pos_w % ios.count ≡ true = ground arith in
    let w = inc_lem ios.pos_w no_wrap in
    rw
      (
        insert_instruction,
        kaapi_offload_stream_push,
        fullinstr_lem ios v,
        f,
        kaapi_offload_stream_commit,
        here,
        known,
        w,
      )
      refl

insert_full :
    (ios : IoStream) (i : Instruction)
    → IsValid ios
    → ios.pos_w ≡ ios.pos_r + ios.count
    → insert_instruction ios i ≡ some none
unfolding insert_instruction kaapi_offload_stream_push
insert_full ios i v full =
    let t : leb ios.count (ios.pos_w - ios.pos_r) ≡ true = ground (arith, full) in
    rw (insert_instruction, kaapi_offload_stream_push, fullinstr_lem ios v, t) refl

-- An instruction of a known type inserted into a valid stream, before the 64-bit position wraps: either
-- `count` instructions wait and the call waits too, or fewer do, and the call leaves a valid stream in
-- which the instruction is the last that waits, and the instructions in progress are as before.
pub insert-refines :
    (ios : IoStream) (i : Instruction)
    → IsValid ios
    → suc ios.pos_w < 2 ^ 64
    → is_known i.type ≡ true
    → ((length (waiting ios) ≡ ios.count) × (insert_instruction ios i ≡ some none))
      ⊎ ((length (waiting ios) < ios.count)
          × ((next : IoStream) × (insert_instruction ios i ≡ some (some next))
              × Inserted i ios next))
insert-refines ios i v no_wrap known =
    let l = length-ring ios.instr ios.count ios.pos_r (ios.pos_w - ios.pos_r) in
    elim (Bool-cases (ios.pos_w == ios.pos_r + ios.count)) [
      | inl t ↦
          let full : ios.pos_w ≡ ios.pos_r + ios.count = ground arith in
          inl (omega (arith, l, full), insert_full ios i v full)
      | inr f ↦
          let room : ios.pos_w < ios.pos_r + ios.count = ground (arith, v.instr_fits) in
          inr (
            omega (arith, l, room, v.read-written),
            (
              written ios i,
              insert_room ios i v no_wrap known room,
              written-Inserted ios i v no_wrap room,
            ),
          )
    ]
