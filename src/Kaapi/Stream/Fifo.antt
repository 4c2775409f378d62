-- ===== src/Kaapi/Stream/Fifo.antt =====
-- The rings of a stream as lists: the instructions that wait, and those in progress.
use xkblas.Base.{
  ℕ, suc, ◌+◌, ◌-◌, ◌^◌, ◌%◌, ◌≤◌, ◌<◌, ◌≡◌, refl, sym, ◌∙◌, arith, Bool, true, false, Bool-cases,
  inl, inr, List, [], ◌∷◌, ◌++◌, if◌then◌else◌, update, sub_size,
}
use mathlib.Core.Bool.{true≢false}
use xkblas.Kaapi.Stream.{Instruction, IoStream, Device, inc}
use xkblas.Kaapi.Stream.Ring.{ring}
use xkblas.Kaapi.Stream.Process.{recopy, take_instruction}

abbrev pub waiting : IoStream → List Instruction
waiting ios = ring ios.instr ios.count ios.pos_r (ios.pos_w - ios.pos_r)

abbrev pub in_flight : IoStream → List Instruction
in_flight ios = ring ios.pending ios.count ios.pos_rp (ios.pos_wp - ios.pos_rp)

-- The order of the positions, and how far they are apart.
pub record IsValid (ios : IoStream) : Type 0 where
  pub some_count : 0 < ios.count
  pub narrow : ios.count < 2 ^ 32
  pub called-notified : ios.pos_rp ≤ ios.ok_p
  pub notified-pending : ios.ok_p ≤ ios.pos_wp
  pub pending-read : ios.pos_wp ≤ ios.pos_r
  pub read-written : ios.pos_r ≤ ios.pos_w
  pub instr_fits : ios.pos_w ≤ ios.pos_r + ios.count
  pub pending_fits : ios.pos_wp ≤ ios.pos_rp + ios.count
  pub in_range : ios.pos_w < 2 ^ 64

pub inc_lem : (p : ℕ) → suc p < 2 ^ 64 → inc p ≡ suc p
inc_lem p h = omega arith

pub sub_size_lem : (a b : ℕ) → b ≤ a → a < 2 ^ 64 → sub_size a b ≡ a - b
sub_size_lem a b le h = omega arith

-- what the device puts in progress of one instruction, and of several
abbrev pub started : Device → Instruction → List Instruction
started device i = if (device.decode i).in_progress then i ∷ [] else []

abbrev pub started_all : Device → List Instruction → List Instruction
started_all device [] = []
started_all device (i ∷ is) = started device i ++ started_all device is

-- the callbacks that the device calls itself
abbrev pub called_all : Device → List Instruction → List ℕ
called_all device [] = []
called_all device (i ∷ is) = (device.decode i).called ++ called_all device is

abbrev pub first : IoStream → Instruction
first ios = ios.instr (ios.pos_r % ios.count)

-- one instruction read, with a new `ok_p`
abbrev pub passed : IoStream → ℕ → IoStream
passed ios ok = record ios { ok_p = ok; pos_r = suc ios.pos_r }

abbrev pub moved : IoStream → ℕ → IoStream
moved ios ok = record ios {
  ok_p = ok;
  pos_r = suc ios.pos_r;
  pending = update ios.pending (ios.pos_wp % ios.count) (first ios);
  pos_wp = suc ios.pos_wp;
}

ok_of :
    (ios : IoStream)
    → IsValid ios
    → ios.pos_r < ios.pos_w
    → (b : Bool) → (if b then inc ios.ok_p else ios.ok_p) ≡ (if b then suc ios.ok_p else ios.ok_p)
ok_of ios v some_left true =
    inc_lem ios.ok_p (omega (arith, v.notified-pending, v.pending-read, v.in_range))
ok_of ios v some_left false = refl

pub ok_grows : (ok : ℕ) (b : Bool) → ok ≤ (if b then suc ok else ok)
ok_grows ok true = omega arith
ok_grows ok false = omega arith

pub ok_grows_by_one : (ok : ℕ) (b : Bool) → (if b then suc ok else ok) ≤ suc ok
ok_grows_by_one ok true = omega arith
ok_grows_by_one ok false = omega arith

pub take_moved :
    (device : Device) (ios : IoStream)
    → IsValid ios
    → ios.pos_r < ios.pos_w
    → (device.decode (first ios)).in_progress ≡ true
    → (take_instruction device ios).ios
      ≡ moved ios (if (device.decode (first ios)).count_ok then suc ios.ok_p else ios.ok_p)
unfolding take_instruction recopy
take_moved device ios v some_left on =
    let ok = ok_of ios v some_left (device.decode (first ios)).count_ok in
    let r = inc_lem ios.pos_r (omega (arith, v.in_range)) in
    let wp = inc_lem ios.pos_wp (omega (arith, v.in_range, v.pending-read)) in
    rw (on, ok, r, wp) refl

pub take_passed :
    (device : Device) (ios : IoStream)
    → IsValid ios
    → ios.pos_r < ios.pos_w
    → (device.decode (first ios)).in_progress ≡ false
    → (take_instruction device ios).ios ≡ passed ios ios.ok_p
unfolding take_instruction
take_passed device ios v some_left off =
    let r = inc_lem ios.pos_r (omega (arith, v.in_range)) in
    let not_counted : (device.decode (first ios)).count_ok ≡ false =
      elim (Bool-cases (device.decode (first ios)).count_ok) [
        | inl t ↦ absurd (true≢false (sym (device.counted (first ios) t) ∙ off))
        | inr f ↦ f
      ] in
    rw (off, not_counted, r) refl

pub moved-IsValid :
    (ios : IoStream) (ok : ℕ)
    → IsValid ios
    → ios.ok_p ≤ ok
    → ok ≤ suc ios.ok_p
    → ios.pos_r < ios.pos_w
    → ios.pos_wp < ios.pos_rp + ios.count
    → IsValid (moved ios ok)
moved-IsValid ios ok v grows by_one some_left room = record {
  some_count = v.some_count;
  narrow = v.narrow;
  called-notified = omega (arith, v.called-notified);
  notified-pending = omega (arith, v.notified-pending);
  pending-read = omega (arith, v.pending-read);
  read-written = some_left;
  instr_fits = omega (arith, v.instr_fits);
  pending_fits = room;
  in_range = v.in_range;
}

pub passed-IsValid :
    (ios : IoStream) → IsValid ios → ios.pos_r < ios.pos_w → IsValid (passed ios ios.ok_p)
passed-IsValid ios v some_left = record {
  some_count = v.some_count;
  narrow = v.narrow;
  called-notified = v.called-notified;
  notified-pending = v.notified-pending;
  pending-read = omega (arith, v.pending-read);
  read-written = some_left;
  instr_fits = omega (arith, v.instr_fits);
  pending_fits = v.pending_fits;
  in_range = v.in_range;
}
