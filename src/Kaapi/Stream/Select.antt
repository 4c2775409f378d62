-- ===== src/Kaapi/Stream/Select.antt =====
-- The choice of a stream.
use xkblas.Base.{
  ℕ, zero, suc, ◌+◌, ◌-◌, ◌%◌, ◌^◌, ◌<◌, ◌≡◌, refl, arith, Bool, true, false, some, length, List,
  get_or, ltb, if◌then◌else◌, ℤ, pos, negsuc, lt_int,
}
use xkblas.Kaapi.Stream.{IoStream}
use xkblas.Kaapi.Stream.Cuda.{to_int}
use xkblas.Kaapi.Stream.Offload.{
  is_kern, Streams, rem_int, index, loads, least_loaded, kaapi_offload_select_io_stream,
}

not_less : (x : ℤ) → lt_int x x ≡ false
not_less (pos n) = ground arith
not_less (negsuc n) = ground arith

least_loaded_lem :
    (ios : List IoStream) (left i snext : ℕ)
    → least_loaded ios left i snext (get_or (loads ios) snext (pos 0)) ≡ snext
unfolding least_loaded
least_loaded_lem ios zero i snext = refl
least_loaded_lem ios (suc left) i snext =
    rw (least_loaded, not_less (get_or (loads ios) snext (pos 0)))
      (least_loaded_lem ios left (suc i) snext)

-- With at least two streams of a type, and before the counter has passed 2 ^ 31, the choice is the counter's
-- rest by their number, whatever their loads are, for kernels as for copies.
pub select_round_robin :
    (s : Streams)
    → 1 < length s.ios
    → s.next < 2 ^ 31
    → kaapi_offload_select_io_stream s
      ≡ some (s.next % length s.ios, record s { next = suc s.next })
unfolding kaapi_offload_select_io_stream to_int rem_int index
select_round_robin s several early =
    let t : ltb 1 (length s.ios) ≡ true = ground arith in
    let m : s.next % 2 ^ 32 ≡ s.next = omega arith in
    let small : ltb s.next (2 ^ 31) ≡ true = ground arith in
    let up : (s.next + 1) % 2 ^ 32 ≡ suc s.next = omega arith in
    rw
      (
        kaapi_offload_select_io_stream,
        t,
        m,
        small,
        up,
        least_loaded_lem s.ios (length s.ios - 1) 1 (s.next % length s.ios),
        same (is_kern s.type),
      )
      refl
  where
    same :
        (b : Bool)
        → (if b then s.next % length s.ios else s.next % length s.ios) ≡ s.next % length s.ios
    same true = refl
    same false = refl
