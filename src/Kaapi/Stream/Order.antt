-- ===== src/Kaapi/Stream/Order.antt =====
-- What the lists of a CUDA stream are made of, and their callbacks.
use xkblas.Base.{
  ℕ, zero, suc, ◌+◌, ◌%◌, ◌≤◌, ◌<◌, ◌≡◌, refl, sym, subst, ap, ◌∙◌, arith, Bool, true, false,
  if◌then◌else◌, Bool-cases, inl, inr, List, [], ◌∷◌, ◌++◌, ltb, All,
}
use mathlib.Core.List.{append_assoc}
use xkblas.Kaapi.Stream.{
  IoType, io_nop, io_begin, io_end, io_copy_h2h, io_copy_h2d, io_copy_d2h, io_copy_d2d, io_barrier,
  io_kern, Instruction, calls,
}
use xkblas.Kaapi.Stream.Ring.{ring}
use xkblas.Kaapi.Stream.Process.{cuda_device, cuda_reply}
use xkblas.Kaapi.Stream.Fifo.{started, started_all, called_all}
use xkblas.Kaapi.Stream.Complete.{callbacks}

abbrev pub IsStarted : Instruction → Type 0
IsStarted i = (cuda_reply i.type).in_progress ≡ true

pub at_each :
    {A : Type 0} (P : A → Type 0) (f : ℕ → A) (c a n : ℕ)
    → All P (ring f c a n)
    → (k : ℕ) → a ≤ k
    → k < a + n
    → P (f (k % c))
unfolding All ring
at_each P f c a zero all k lo hi = absurd (omega (arith, lo, hi))
at_each P f c a (suc n) all k lo hi = elim (Bool-cases (ltb a k)) [
  | inl t ↦ at_each P f c (suc a) n all.1 k (ground arith) (omega (arith, hi))
  | inr f' ↦ let e : a ≡ k = ground arith in subst (λ (t : ℕ). P (f (t % c))) e all.0
]

pub of_each :
    {A : Type 0} (P : A → Type 0) (f : ℕ → A) (c a n : ℕ)
    → ((k : ℕ) → a ≤ k → k < a + n → P (f (k % c)))
    → All P (ring f c a n)
unfolding All ring
of_each P f c a zero h = tt
of_each P f c a (suc n) h = (
  h a (omega arith) (omega arith),
  of_each P f c (suc a) n (λ k lo hi. h k (omega arith) (omega arith)),
)

pub callbacks-append :
    (is js : List Instruction) → callbacks (is ++ js) ≡ callbacks is ++ callbacks js
callbacks-append [] js = refl
callbacks-append (i ∷ is) js =
    ap (λ (t : List ℕ). calls i.fnc ++ t) (callbacks-append is js)
    ∙ sym (append_assoc (calls i.fnc) (callbacks is) (callbacks js))

pub started-append :
    (is js : List Instruction)
    → started_all cuda_device (is ++ js) ≡ started_all cuda_device is ++ started_all cuda_device js
started-append [] js = refl
started-append (i ∷ is) js =
    ap (λ (t : List Instruction). started cuda_device i ++ t) (started-append is js)
    ∙ sym (
        append_assoc (started cuda_device i) (started_all cuda_device is)
          (started_all cuda_device js))

called_type : (t : IoType) → (cuda_reply t).called ≡ []
unfolding cuda_reply
called_type io_nop = refl
called_type io_begin = refl
called_type io_end = refl
called_type io_copy_h2h = refl
called_type io_copy_h2d = refl
called_type io_copy_d2h = refl
called_type io_copy_d2d = refl
called_type io_barrier = refl
called_type io_kern = refl

pub called-nil : (is : List Instruction) → called_all cuda_device is ≡ []
called-nil [] = refl
called-nil (i ∷ is) = rw (called_type i.type) (called-nil is)

-- what stands for a copy, a kernel or a barrier, and not only for a marker
unfoldable pub is_operation : IoType → Bool
is_operation io_nop = false
is_operation io_begin = false
is_operation io_end = false
is_operation io_copy_h2h = true
is_operation io_copy_h2d = true
is_operation io_copy_d2h = true
is_operation io_copy_d2d = true
is_operation io_barrier = true
is_operation io_kern = true

-- the operations of a list, the instructions whose callbacks are due
unfoldable pub due : List Instruction → List Instruction
due [] = []
due (i ∷ is) = if is_operation i.type then i ∷ due is else due is

in_progress_lem : (t : IoType) → (cuda_reply t).in_progress ≡ is_operation t
unfolding cuda_reply is_operation
in_progress_lem io_nop = refl
in_progress_lem io_begin = refl
in_progress_lem io_end = refl
in_progress_lem io_copy_h2h = refl
in_progress_lem io_copy_h2d = refl
in_progress_lem io_copy_d2h = refl
in_progress_lem io_copy_d2d = refl
in_progress_lem io_barrier = refl
in_progress_lem io_kern = refl

-- A CUDA device puts exactly the operations in progress.
pub started_all-due : (is : List Instruction) → started_all cuda_device is ≡ due is
unfolding due
started_all-due [] = refl
started_all-due (i ∷ is) =
    let same = in_progress_lem i.type in
    let rest = started_all-due is in
    elim (Bool-cases (is_operation i.type)) [
      | inl t ↦ rw (same, t, rest) refl
      | inr f ↦ rw (same, f, rest) refl
    ]

pub started_all-All : (is : List Instruction) → All IsStarted (started_all cuda_device is)
unfolding All
started_all-All [] = tt
started_all-All (i ∷ is) = elim (Bool-cases (cuda_reply i.type).in_progress) [
  | inl t ↦ rw t (t, started_all-All is)
  | inr f ↦ rw f (started_all-All is)
]
