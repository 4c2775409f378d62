-- ===== src/Kaapi/Stream/Overflow.antt =====
-- What a full ring of pending instructions and an old stream lead to.
use xkblas.Base.{
  ℕ, zero, suc, ◌+◌, ◌-◌, ◌^◌, ◌%◌, ◌≤◌, ◌<◌, ◌≡◌, refl, sym, subst, ap, ◌∙◌, arith, Bool, true,
  false, ◌&&◌, some, [], ◌++◌, ◌==◌, ltb, leb, if◌then◌else◌, negsuc, to_size, sub_size,
}
use native.Mathlib.Nat.{add-mod_right}
use xkblas.Kaapi.Stream.{IoStream, Device, emptyinstr, emptypending, fullpending, sizeinstr}
use xkblas.Kaapi.Stream.Process.{Outcome, take_instruction, process_loop, process_instruction}
use xkblas.Kaapi.Stream.Fifo.{IsValid, first, take_moved, sub_size_lem}
use xkblas.Kaapi.Stream.Refine.{smax-IsValid}
use xkblas.Kaapi.Stream.Cuda.{
  to_int, int_suc, count_finished, test_instruction, test_pending, cuda_stream_advance_pending,
}
use xkblas.Kaapi.Stream.Advance.{ArePending, is_transfer, test_instruction_lem}

one_round :
    (device : Device) (err : ℕ) (ios : IoStream)
    → IsValid ios
    → ios.pos_w ≡ suc ios.pos_r
    → (device.decode (first ios)).in_progress ≡ true
    → ios.pos_wp ≡ ios.pos_rp + ios.count
    → (o : Outcome) × (process_loop 2 device err ios ≡ some o)
      × (o.ios.pos_rp ≡ ios.pos_rp)
      × (o.ios.pending (ios.pos_rp % ios.count) ≡ first ios)
unfolding process_loop emptyinstr
one_round device err ios v one on full =
    let f : ios.pos_r == ios.pos_w ≡ false = ground (arith, one) in
    let t : suc ios.pos_r == ios.pos_w ≡ true = ground (arith, one) in
    let taken = take_instruction device ios in
    let next = take_moved device ios v (omega (arith, one)) on in
    let stop : taken.ios.pos_r == taken.ios.pos_w ≡ true =
      subst (λ (s : IoStream). s.pos_r == s.pos_w ≡ true) (sym next) t in
    let same : ios.pos_rp % ios.count ≡ ios.pos_wp % ios.count =
      sym (ap (λ (p : ℕ). p % ios.count) full ∙ add-mod_right ios.pos_rp ios.count) in
    let hit : ios.pos_rp % ios.count == ios.pos_wp % ios.count ≡ true = ground (arith, same) in
    (
      record { err = taken.err; called = taken.called ++ []; ios = taken.ios },
      rw (process_loop, f, stop) refl,
      ap (λ (s : IoStream). s.pos_rp) next,
      ap (λ (s : IoStream). s.pending (ios.pos_rp % ios.count)) next ∙ (rw hit refl),
    )

-- When the ring of pending instructions of a valid stream is full, and one instruction waits that the
-- device puts in progress, the processing writes it over the oldest pending instruction, which is
-- the next one to be called back.
pub pending_overwritten :
    (device : Device) (ios : IoStream)
    → IsValid ios
    → fullpending ios ≡ true
    → ios.pos_w ≡ suc ios.pos_r
    → (device.decode (first ios)).in_progress ≡ true
    → (o : Outcome) × (process_instruction 2 device ios ≡ some o)
      × (o.ios.pos_rp ≡ ios.pos_rp)
      × (o.ios.pending (ios.pos_rp % ios.count) ≡ first ios)
unfolding process_instruction fullpending
pending_overwritten device ios v full one on =
    let size =
      sub_size_lem ios.pos_wp ios.pos_rp (omega (arith, v.called-notified, v.notified-pending))
        (omega (arith, v.pending-read, v.read-written, v.in_range)) in
    let le : leb ios.count (ios.pos_wp - ios.pos_rp) ≡ true =
      ap (leb ios.count) (sym size) ∙ full in
    let s = if ltb ios.smax (sizeinstr ios) then sizeinstr ios else ios.smax in
    one_round device 0 (record ios { smax = s }) (smax-IsValid ios s v) one on
      (ground (arith, v.pending_fits, v.some_count))

negative :
    (ok : ℕ) → 2 ^ 31 < ok → ok < 2 ^ 32 → to_int (sub_size ok 1) ≡ negsuc (suc (2 ^ 32 - 1 - ok))
unfolding to_int
negative ok lo hi =
    let e : sub_size ok 1 ≡ ok - 1 = omega arith in
    let s : (ok - 1) % 2 ^ 32 ≡ ok - 1 = omega arith in
    let f : ltb (ok - 1) (2 ^ 31) ≡ false = ground arith in
    let m : 2 ^ 32 - 1 - (ok - 1) ≡ suc (2 ^ 32 - 1 - ok) = omega arith in
    ap to_int e ∙ (rw (to_int, s, f, m) refl)

never_counted :
    (m at : ℕ)
    → m < 2 ^ 31
    → at < 2 ^ 63
    → count_finished (negsuc (suc m)) at ≡ some (negsuc (suc m))
unfolding count_finished int_suc
never_counted m at small short =
    let f : to_size (negsuc m) == at ≡ false = ground arith in rw f refl

never_tested :
    (query : ℕ → Bool) (ios : IoStream) (left at m : ℕ)
    → ArePending ios
    → ios.pos_rp ≤ at
    → at + left ≡ ios.pos_wp
    → ios.pos_wp < 2 ^ 63
    → m < 2 ^ 31
    → test_pending query ios left at (negsuc (suc m)) ≡ some (negsuc (suc m))
unfolding test_pending ArePending
never_tested query ios zero at m started lo hi short small = refl
never_tested query ios (suc left) at m started lo hi short small =
    let idx = at % ios.count in
    let one : test_instruction query idx (ios.pending idx).type (negsuc (suc m)) at
        ≡ some (negsuc (suc m)) =
      test_instruction_lem query idx (ios.pending idx).type (negsuc (suc m)) at
        (started at lo (omega (arith, hi)))
      ∙ either (is_transfer (ios.pending idx).type && query idx) in
    rw (test_pending, one)
      (never_tested query ios left (suc at) m started (omega (arith, lo)) (omega (arith, hi)) short
        small)
  where
    either :
        (b : Bool)
        → (if b then count_finished (negsuc (suc m)) at else some (negsuc (suc m)))
          ≡ some (negsuc (suc m))
    either true = never_counted m at small (omega (arith, hi, short))
    either false = refl

-- Once more than 2 ^ 31, and fewer than 2 ^ 32, instructions were notified, cuda_stream_advance_pending
-- without blocking sets `ok_p` past the last pending instruction of a valid stream that has some, started by the device, whether their
-- events have happened or not.
pub advance_passes_end :
    (query : ℕ → Bool) (ios : IoStream)
    → IsValid ios
    → ArePending ios
    → ios.pos_rp < ios.pos_wp
    → ios.pos_wp < 2 ^ 63
    → 2 ^ 31 < ios.ok_p
    → ios.ok_p < 2 ^ 32
    → (next : IoStream) × (cuda_stream_advance_pending query ios false ≡ some (0, next))
      × (next.pos_wp < next.ok_p)
unfolding cuda_stream_advance_pending emptypending int_suc
advance_passes_end query ios v started some_left short lo hi =
    let m = 2 ^ 32 - 1 - ios.ok_p in
    let f : ios.pos_rp == ios.pos_wp ≡ false = ground arith in
    let prev = negative ios.ok_p lo hi in
    let run =
      never_tested query ios (ios.pos_wp - ios.ok_p) ios.ok_p m started v.called-notified
        (omega (arith, v.notified-pending)) short (omega arith) in
    let ne : to_size (negsuc (suc m)) == sub_size ios.ok_p 1 ≡ false = ground arith in
    (
      record ios { ok_p = to_size (negsuc m) },
      rw (cuda_stream_advance_pending, f, prev, run, ne) refl,
      omega arith,
    )
