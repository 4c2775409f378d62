-- ===== src/Kaapi/Stream/Advance.antt =====
-- cuda_stream_advance_pending against the longest run of finished instructions.
use xkblas.Base.{
  ℕ, zero, suc, ◌+◌, ◌-◌, ◌^◌, ◌%◌, ◌≤◌, ◌<◌, ◌≡◌, refl, ◌∙◌, arith, Bool, true, false, Bool-cases,
  inl, inr, ◌&&◌, some, ◌==◌, if◌then◌else◌, ℤ, to_size, sub_size,
}
use mathlib.Core.Bool.{false≢true}
use xkblas.Kaapi.Stream.{
  IoType, io_nop, io_begin, io_end, io_copy_h2h, io_copy_h2d, io_copy_d2h, io_copy_d2d, io_barrier,
  io_kern, IoStream, emptypending, einprogress,
}
use xkblas.Kaapi.Stream.Process.{cuda_reply}
use xkblas.Kaapi.Stream.Fifo.{IsValid}
use xkblas.Kaapi.Stream.Signed.{
  prev_of, int_suc-prev_of, to_int-prev, to_size_small, count_next, count_none, minus_one,
  minus_one_differs,
}
use xkblas.Kaapi.Stream.Cuda.{
  count_finished, test_instruction, test_pending, cuda_stream_advance_pending,
}

-- an instruction whose end is an event
unfoldable pub is_transfer : IoType → Bool
is_transfer io_nop = false
is_transfer io_begin = false
is_transfer io_end = false
is_transfer io_copy_h2h = true
is_transfer io_copy_h2d = true
is_transfer io_copy_d2h = true
is_transfer io_copy_d2d = true
is_transfer io_barrier = false
is_transfer io_kern = true

-- Of the instructions at `left` positions from `at` on, how many are finished before the first that
-- is not.
unfoldable pub finished_run : (ℕ → Bool) → IoStream → ℕ → ℕ → ℕ
finished_run query ios zero at = 0
finished_run query ios (suc left) at =
    let idx = at % ios.count in
    let rest = finished_run query ios left (suc at) in
    if is_transfer (ios.pending idx).type && query idx then suc rest else 0

-- The device has put every pending instruction in progress.
unfoldable pub ArePending : IoStream → Type 0
ArePending ios =
    (k : ℕ)
    → ios.pos_rp ≤ k
    → k < ios.pos_wp
    → (cuda_reply (ios.pending (k % ios.count)).type).in_progress ≡ true

pub test_instruction_lem :
    (query : ℕ → Bool) (idx : ℕ) (t : IoType) (prev : ℤ) (at : ℕ)
    → (cuda_reply t).in_progress ≡ true
    → test_instruction query idx t prev at
      ≡ (if is_transfer t && query idx then count_finished prev at else some prev)
unfolding cuda_reply test_instruction is_transfer
test_instruction_lem query idx io_nop prev at e = absurd (false≢true e)
test_instruction_lem query idx io_begin prev at e = absurd (false≢true e)
test_instruction_lem query idx io_end prev at e = absurd (false≢true e)
test_instruction_lem query idx io_copy_h2h prev at e = refl
test_instruction_lem query idx io_copy_h2d prev at e = refl
test_instruction_lem query idx io_copy_d2h prev at e = refl
test_instruction_lem query idx io_copy_d2d prev at e = refl
test_instruction_lem query idx io_barrier prev at e = refl
test_instruction_lem query idx io_kern prev at e = refl

-- once an instruction is not finished
test_stuck :
    (query : ℕ → Bool) (ios : IoStream) (left at q : ℕ)
    → ArePending ios
    → ios.pos_rp ≤ at
    → at + left ≡ ios.pos_wp
    → q < at
    → ios.pos_wp < 2 ^ 31
    → test_pending query ios left at (prev_of q) ≡ some (prev_of q)
unfolding test_pending ArePending
test_stuck query ios zero at q started lo hi less small = refl
test_stuck query ios (suc left) at q started lo hi less small =
    let idx = at % ios.count in
    let one : test_instruction query idx (ios.pending idx).type (prev_of q) at ≡ some (prev_of q) =
      test_instruction_lem query idx (ios.pending idx).type (prev_of q) at
        (started at lo (omega arith))
      ∙ either (is_transfer (ios.pending idx).type && query idx) in
    rw (test_pending, one)
      (test_stuck query ios left (suc at) q started (omega arith) (omega (arith, hi)) (omega arith)
        small)
  where
    either :
        (b : Bool)
        → (if b then count_finished (prev_of q) at else some (prev_of q)) ≡ some (prev_of q)
    either true = count_none q at less (omega (arith, hi))
    either false = refl

test_run :
    (query : ℕ → Bool) (ios : IoStream) (left at : ℕ)
    → ArePending ios
    → ios.pos_rp ≤ at
    → at + left ≡ ios.pos_wp
    → ios.pos_wp < 2 ^ 31
    → test_pending query ios left at (prev_of at)
      ≡ some (prev_of (at + finished_run query ios left at))
unfolding test_pending finished_run ArePending
test_run query ios zero at started lo hi small = let e : at + 0 ≡ at = omega arith in rw e refl
test_run query ios (suc left) at started lo hi small =
    let idx = at % ios.count in
    let one =
      test_instruction_lem query idx (ios.pending idx).type (prev_of at) at
        (started at lo (omega arith)) in
    elim (Bool-cases (is_transfer (ios.pending idx).type && query idx)) [
      | inl t ↦
          let next : test_instruction query idx (ios.pending idx).type (prev_of at) at
              ≡ some (prev_of (suc at)) =
            one ∙ rw t (count_next at (omega (arith, hi))) in
          let e : at + suc (finished_run query ios left (suc at))
              ≡ suc at + finished_run query ios left (suc at) =
            omega arith in
          rw (test_pending, next, t, e)
            (test_run query ios left (suc at) started (omega arith) (omega (arith, hi)) small)
      | inr f ↦
          let next : test_instruction query idx (ios.pending idx).type (prev_of at) at
              ≡ some (prev_of at) =
            one ∙ rw f refl in
          let e : at + 0 ≡ at = omega arith in
          rw (test_pending, next, f, e)
            (test_stuck query ios left (suc at) at started (omega arith) (omega (arith, hi))
              (omega arith) small)
    ]

finished_run-le :
    (query : ℕ → Bool) (ios : IoStream) (left at : ℕ) → finished_run query ios left at ≤ left
unfolding finished_run
finished_run-le query ios zero at = omega arith
finished_run-le query ios (suc left) at =
    let idx = at % ios.count in
    elim (Bool-cases (is_transfer (ios.pending idx).type && query idx)) [
      | inl t ↦ rw t (omega (arith, finished_run-le query ios left (suc at)))
      | inr f ↦ rw f (omega arith)
    ]

-- how many pending instructions a call finds finished, the blocking call all of them
abbrev pub found : (ℕ → Bool) → IoStream → Bool → ℕ
found query ios blocking =
    if blocking
    then ios.pos_wp - ios.ok_p
    else finished_run query ios (ios.pos_wp - ios.ok_p) ios.ok_p

pub found-le :
    (query : ℕ → Bool) (ios : IoStream) (blocking : Bool)
    → found query ios blocking ≤ ios.pos_wp - ios.ok_p
found-le query ios true = omega arith
found-le query ios false = finished_run-le query ios (ios.pos_wp - ios.ok_p) ios.ok_p

abbrev pub notified : IoStream → ℕ → IoStream
notified ios n = record ios { ok_p = ios.ok_p + n }

abbrev pub answer : IoStream → Bool → ℕ → ℕ
answer ios true n = 0
answer ios false zero = if emptypending ios then 0 else einprogress
answer ios false (suc n) = 0

nothing_pending :
    (query : ℕ → Bool) (ios : IoStream) (blocking : Bool)
    → IsValid ios
    → ios.pos_rp == ios.pos_wp ≡ true
    → cuda_stream_advance_pending query ios blocking
      ≡ some
          (answer ios blocking (found query ios blocking), notified ios (found query ios blocking))
unfolding cuda_stream_advance_pending emptypending finished_run
nothing_pending query ios true v t =
    let left : ios.pos_wp - ios.ok_p ≡ 0 = ground (arith, v.called-notified) in
    let same : ios.ok_p + 0 ≡ ios.ok_p = omega arith in
    rw (cuda_stream_advance_pending, t, left, same) refl
nothing_pending query ios false v t =
    let left : ios.pos_wp - ios.ok_p ≡ 0 = ground (arith, v.called-notified) in
    let same : ios.ok_p + 0 ≡ ios.ok_p = omega arith in
    rw (cuda_stream_advance_pending, t, left, t, same) refl

advance_found :
    (query : ℕ → Bool) (ios : IoStream) (n : ℕ)
    → ios.pos_rp == ios.pos_wp ≡ false
    → ios.ok_p + n < 2 ^ 31
    → test_pending query ios (ios.pos_wp - ios.ok_p) ios.ok_p (prev_of ios.ok_p)
      ≡ some (prev_of (ios.ok_p + n))
    → cuda_stream_advance_pending query ios false ≡ some (answer ios false n, notified ios n)
unfolding cuda_stream_advance_pending emptypending
advance_found query ios zero f small run =
    let same : ios.ok_p + 0 ≡ ios.ok_p = omega arith in
    let t : to_size (prev_of ios.ok_p) == sub_size ios.ok_p 1 ≡ true =
      ground (arith, minus_one ios.ok_p (omega arith)) in
    rw (cuda_stream_advance_pending, f, to_int-prev ios.ok_p (omega arith), run, same, t) refl
advance_found query ios (suc d) f small run =
    let ne : to_size (prev_of (ios.ok_p + suc d)) == sub_size ios.ok_p 1 ≡ false =
      ground (arith, minus_one_differs ios.ok_p d small) in
    rw
      (
        cuda_stream_advance_pending,
        f,
        to_int-prev ios.ok_p (omega arith),
        run,
        ne,
        int_suc-prev_of (ios.ok_p + suc d) small,
        to_size_small (ios.ok_p + suc d) small,
      )
      refl

some_pending :
    (query : ℕ → Bool) (ios : IoStream) (blocking : Bool)
    → IsValid ios
    → ArePending ios
    → ios.pos_wp < 2 ^ 31
    → ios.pos_rp == ios.pos_wp ≡ false
    → cuda_stream_advance_pending query ios blocking
      ≡ some
          (answer ios blocking (found query ios blocking), notified ios (found query ios blocking))
unfolding cuda_stream_advance_pending emptypending
some_pending query ios true v started small f =
    let all : ios.ok_p + (ios.pos_wp - ios.ok_p) ≡ ios.pos_wp = omega (arith, v.notified-pending) in
    rw (cuda_stream_advance_pending, f, all) refl
some_pending query ios false v started small f =
    advance_found query ios (finished_run query ios (ios.pos_wp - ios.ok_p) ios.ok_p) f
      (omega (
        arith,
        small,
        finished_run-le query ios (ios.pos_wp - ios.ok_p) ios.ok_p,
        v.notified-pending,
      ))
      (test_run query ios (ios.pos_wp - ios.ok_p) ios.ok_p started v.called-notified
        (omega (arith, v.notified-pending)) small)

-- Among the pending instructions, cuda_stream_advance_pending counts in `ok_p` exactly those before the
-- first one whose event has not happened, and in a blocking call all; it answers EINPROGRESS where it
-- finds none of a pending one. The stream is valid, the device has started its pending instructions, and there were fewer than 2 ^ 31.
pub advance-counts :
    (query : ℕ → Bool) (ios : IoStream) (blocking : Bool)
    → IsValid ios
    → ArePending ios
    → ios.pos_wp < 2 ^ 31
    → cuda_stream_advance_pending query ios blocking
      ≡ some
          (answer ios blocking (found query ios blocking), notified ios (found query ios blocking))
advance-counts query ios blocking v started small = elim (Bool-cases (ios.pos_rp == ios.pos_wp)) [
  | inl t ↦ nothing_pending query ios blocking v t
  | inr f ↦ some_pending query ios blocking v started small f
]
