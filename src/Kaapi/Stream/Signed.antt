-- ===== src/Kaapi/Stream/Signed.antt =====
-- The `int` in which cuda_stream_advance_pending keeps a position, less one, of a stream.
use xkblas.Base.{
  ℕ, zero, suc, ◌+◌, ◌-◌, ◌^◌, ◌%◌, ◌<◌, ◌≡◌, ◌≢◌, refl, ap, ◌∙◌, arith, true, false, some, ◌==◌,
  ltb, ℤ, pos, negsuc, to_size, sub_size,
}
use xkblas.Kaapi.Stream.Cuda.{to_int, int_suc, count_finished}

-- the `int` that is one less
abbrev pub prev_of : ℕ → ℤ
prev_of zero = negsuc 0
prev_of (suc n) = pos n

pub int_suc-prev_of : (q : ℕ) → q < 2 ^ 31 → int_suc (prev_of q) ≡ some (pos q)
unfolding int_suc
int_suc-prev_of zero h = refl
int_suc-prev_of (suc n) h = let t : ltb n (2 ^ 31 - 1) ≡ true = ground arith in rw t refl

pub to_int-prev : (q : ℕ) → q < 2 ^ 31 → to_int (sub_size q 1) ≡ prev_of q
unfolding to_int
to_int-prev zero h = refl
to_int-prev (suc n) h =
    let e : sub_size (suc n) 1 ≡ n = omega arith in
    let s : n % 2 ^ 32 ≡ n = omega arith in
    let t : ltb n (2 ^ 31) ≡ true = ground arith in ap to_int e ∙ (rw (to_int, s, t) refl)

pub to_size_small : (q : ℕ) → q < 2 ^ 31 → to_size (pos q) ≡ q
to_size_small q h = omega arith

pub count_next : (at : ℕ) → at < 2 ^ 31 → count_finished (prev_of at) at ≡ some (prev_of (suc at))
unfolding count_finished
count_next at h =
    let t : to_size (pos at) == at ≡ true = ground (arith, to_size_small at h) in
    rw (count_finished, int_suc-prev_of at h, t) refl

pub count_none :
    (q at : ℕ) → q < at → at < 2 ^ 31 → count_finished (prev_of q) at ≡ some (prev_of q)
unfolding count_finished
count_none q at less h =
    let f : to_size (pos q) == at ≡ false = ground (arith, to_size_small q (omega arith)) in
    rw (count_finished, int_suc-prev_of q (omega arith), f) refl

pub minus_one : (q : ℕ) → q < 2 ^ 31 → to_size (prev_of q) ≡ sub_size q 1
minus_one zero h = refl
minus_one (suc n) h = omega arith

pub minus_one_differs :
    (q d : ℕ) → q + suc d < 2 ^ 31 → to_size (prev_of (q + suc d)) ≢ sub_size q 1
minus_one_differs q d h e =
    let s : q + suc d ≡ suc (q + d) = omega arith in
    let e' : to_size (prev_of (suc (q + d))) ≡ sub_size q 1 = rw s at e in omega (arith, e')
