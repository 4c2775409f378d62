-- ===== src/Kaapi/Stream/Wait.antt =====
-- A blocking call of _kaapi_offload_waittest_stream for one stream.
use xkblas.Base.{
  ℕ, suc, ◌-◌, ◌^◌, ◌<◌, ◌≡◌, refl, ap, ◌∙◌, arith, Bool, true, false, Bool-cases, inl, inr, ◌&&◌,
  Option, some, List, [], ◌==◌, ltb, if◌then◌else◌,
}
use mathlib.Core.List.{append-nil}
use xkblas.Kaapi.Stream.{IoStream, sizepending, emptypending}
use xkblas.Kaapi.Stream.Ring.{ring}
use xkblas.Kaapi.Stream.Fifo.{IsValid, waiting, in_flight}
use xkblas.Kaapi.Stream.Cuda.{cuda_stream_process_pending}
use xkblas.Kaapi.Stream.Advance.{ArePending}
use xkblas.Kaapi.Stream.Complete.{callbacks, all_pending, completed, pending-refines}
use xkblas.Kaapi.Stream.Offload.{waittest_loop, waittest_one}

-- A stream that the device has worked on.
pub record IsReady (ios : IoStream) : Type 0 where
  pub valid : IsValid ios
  pub started : ArePending ios
  pub early : ios.pos_wp < 2 ^ 31

-- A blocking call leaves a valid stream with nothing in progress, and the same waiting instructions.
pub record Done (ios next : IoStream) : Type 0 where
  pub valid : IsValid next
  pub landed : next.pos_rp ≡ next.pos_wp
  pub same_wp : next.pos_wp ≡ ios.pos_wp
  pub started : ArePending next
  pub same_waiting : waiting next ≡ waiting ios

unfoldable pub Waited : IoStream → Option (List ℕ × IoStream) → Type 0
Waited ios result =
    (next : IoStream) × (result ≡ some (callbacks (in_flight ios), next)) × Done ios next

-- one blocking round
round :
    (query : ℕ → Bool) (ios : IoStream)
    → IsReady ios
    → Waited ios (cuda_stream_process_pending query ios true)
unfolding Waited
round query ios ready =
    let v = ready.valid in
    let (next, e, back) = pending-refines query ios true v ready.started ready.early in
    let all : completed query ios true ≡ ios.pos_wp - ios.pos_rp =
      omega (arith, v.notified-pending) in
    (
      next,
      e ∙ ap (λ (n : ℕ). some (callbacks (all_pending ios n), next)) all,
      record {
        valid = back.valid;
        landed =
            omega
              (arith, back.called_back, back.same_wp, all, v.called-notified, v.notified-pending);
        same_wp = back.same_wp;
        started = back.started;
        same_waiting = back.same_waiting;
      },
    )

again-Done : (ios one two : IoStream) → Done ios one → Done one two → Done ios two
again-Done ios one two a b = record {
  valid = b.valid;
  landed = b.landed;
  same_wp = b.same_wp ∙ a.same_wp;
  started = b.started;
  same_waiting = b.same_waiting ∙ a.same_waiting;
}

landed-in_flight : (ios : IoStream) → ios.pos_rp ≡ ios.pos_wp → in_flight ios ≡ []
unfolding ring
landed-in_flight ios e = let n : ios.pos_wp - ios.pos_rp ≡ 0 = omega (arith, e) in rw n refl

-- the second round, where the first was for a kernel stream with many instructions
second :
    (fuel conc : ℕ) (query : ℕ → ℕ → Bool) (kern : Bool) (ios : IoStream)
    → IsReady ios
    → ios.pos_rp ≡ ios.pos_wp
    → (next : IoStream) × (waittest_loop (suc fuel) conc query kern true ios ≡ some ([], next))
      × Done ios next
unfolding waittest_loop Waited
second fuel conc query kern ios ready landed =
    let (next, e, done) = round (query fuel) ios ready in
    let size : sizepending ios ≡ 0 =
      omega
        (arith, landed, ready.valid.in_range, ready.valid.pending-read, ready.valid.read-written) in
    let f : ltb conc 0 ≡ false = ground arith in
    let nothing = ap callbacks (landed-in_flight ios landed) in
    (next, rw (waittest_loop, e, size, f, nothing, and_false kern) refl, done)
  where
    and_false : (b : Bool) → b && false ≡ false
    and_false true = refl
    and_false false = refl

loop-Waited :
    (fuel conc : ℕ) (query : ℕ → ℕ → Bool) (kern : Bool) (ios : IoStream)
    → IsReady ios
    → Waited ios (waittest_loop (suc (suc fuel)) conc query kern true ios)
unfolding waittest_loop Waited
loop-Waited fuel conc query kern ios ready =
    let (one, e, done) = round (query (suc fuel)) ios ready in
    let ready' : IsReady one = record {
      valid = done.valid;
      started = done.started;
      early = omega (arith, done.same_wp, ready.early);
    } in
    let (two, e', done') = second fuel conc query kern one ready' done.landed in
    let calls = callbacks (in_flight ios) in
    elim (Bool-cases (kern && ltb conc (sizepending ios))) [
      | inl t ↦ (
        two,
        rw (waittest_loop, e, t, e') (ap (λ (l : List ℕ). some (l, two)) (append-nil calls)),
        again-Done ios one two done done',
      )
      | inr f ↦ (one, rw (waittest_loop, e, f) refl, done)
    ]

smax_p-IsReady : (ios : IoStream) (s : ℕ) → IsReady ios → IsReady (record ios { smax_p = s })
unfolding ArePending
smax_p-IsReady ios s ready = record {
  valid = record {
    some_count = ready.valid.some_count;
    narrow = ready.valid.narrow;
    called-notified = ready.valid.called-notified;
    notified-pending = ready.valid.notified-pending;
    pending-read = ready.valid.pending-read;
    read-written = ready.valid.read-written;
    instr_fits = ready.valid.instr_fits;
    pending_fits = ready.valid.pending_fits;
    in_range = ready.valid.in_range;
  };
  started = ready.started;
  early = ready.early;
}

pub one-Waited :
    (fuel conc : ℕ) (query : ℕ → ℕ → Bool) (kern : Bool) (ios : IoStream)
    → IsReady ios
    → Waited ios (waittest_one (suc (suc fuel)) conc query kern true ios)
unfolding waittest_one emptypending Waited
one-Waited fuel conc query kern ios ready = elim (Bool-cases (ios.pos_rp == ios.pos_wp)) [
  | inl t ↦
      let landed : ios.pos_rp ≡ ios.pos_wp = ground arith in
      let nothing = ap callbacks (landed-in_flight ios landed) in
      (
        ios,
        rw (waittest_one, t, nothing) refl,
        record {
          valid = ready.valid;
          landed = landed;
          same_wp = refl;
          started = ready.started;
          same_waiting = refl;
        },
      )
  | inr f ↦
      let s = if ltb ios.smax_p (sizepending ios) then sizepending ios else ios.smax_p in
      let (next, e, done) =
        loop-Waited fuel conc query kern (record ios { smax_p = s }) (smax_p-IsReady ios s ready) in
      (
        next,
        rw (waittest_one, f) e,
        record {
          valid = done.valid;
          landed = done.landed;
          same_wp = done.same_wp;
          started = done.started;
          same_waiting = done.same_waiting;
        },
      )
]
