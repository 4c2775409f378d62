-- ===== src/Kaapi/Stream/WaitAll.antt =====
-- kaapi_offload_wait_stream for all streams of a device.
use xkblas.Base.{
  ℕ, suc, ◌-◌, ◌≡◌, refl, ap, ap₂, ◌∙◌, arith, Bool, true, some, List, [], ◌∷◌, ◌++◌, length, All,
}
use xkblas.Kaapi.Stream.{IoStream, emptyinstr, emptypending}
use xkblas.Kaapi.Stream.Fifo.{waiting, in_flight}
use xkblas.Kaapi.Stream.Insert.{length-ring}
use xkblas.Kaapi.Stream.Complete.{callbacks}
use xkblas.Kaapi.Stream.Offload.{
  Streams, Through, is_kern, waittest_each, waittest_types, kaapi_offload_wait_stream, each_isempty,
  kaapi_offload_stream_isempty,
}
use xkblas.Kaapi.Stream.Wait.{IsReady, Done, Waited, one-Waited}

-- A stream that is ready, and whose instructions are all processed.
abbrev pub IsProcessed : IoStream → Type 0
IsProcessed ios = IsReady ios × (waiting ios ≡ [])

abbrev pub AreProcessed : Streams → Type 0
AreProcessed s = All IsProcessed s.ios

-- the callbacks of what is in progress, stream after stream
abbrev pub flying : List IoStream → List ℕ
flying [] = []
flying (ios ∷ rest) = callbacks (in_flight ios) ++ flying rest

abbrev pub flying_all : List Streams → List ℕ
flying_all [] = []
flying_all (s ∷ rest) = flying s.ios ++ flying_all rest

one_isempty :
    (ios next : IoStream)
    → Done ios next
    → waiting ios ≡ []
    → (emptyinstr next ≡ true) × (emptypending next ≡ true)
unfolding emptyinstr emptypending
one_isempty ios next done nothing =
    let n = ap length (done.same_waiting ∙ nothing) in
    let l = length-ring next.instr next.count next.pos_r (next.pos_w - next.pos_r) in
    let read : next.pos_r ≡ next.pos_w = omega (arith, n, l, done.valid.read-written) in
    (ground (arith, read), ground (arith, done.landed))

each_waited :
    (fuel conc : ℕ) (query : ℕ → ℕ → ℕ → Bool) (kern : Bool) (streams : List IoStream)
    → All IsProcessed streams
    → (t : Through IoStream) × (waittest_each (suc (suc fuel)) conc query kern true streams
        ≡ some t)
      × (t.err ≡ 0)
      × (t.called ≡ flying streams)
      × (each_isempty t.left ≡ true)
unfolding waittest_each each_isempty All Waited
each_waited fuel conc query kern [] ready =
    (record { err = 0; called = []; left = [] }, refl, refl, refl, refl)
each_waited fuel conc query kern (ios ∷ rest) ready =
    let (next, e, done) = one-Waited fuel conc (query (length rest)) kern ios ready.0.0 in
    let (t, e', _, called, empty) = each_waited fuel conc query kern rest ready.1 in
    let (instr, pending) = one_isempty ios next done ready.0.1 in
    (
      record { err = 0; called = callbacks (in_flight ios) ++ t.called; left = next ∷ t.left },
      rw (waittest_each, e, e') refl,
      refl,
      ap (λ (c : List ℕ). callbacks (in_flight ios) ++ c) called,
      rw (each_isempty, instr, pending, empty) refl,
    )

-- A call of kaapi_offload_wait_stream for streams whose instructions are all processed, and started by
-- a CUDA device, fewer than 2 ^ 31 in each, returns 0 with two rounds for each stream at most; it has called the callbacks
-- of all instructions in progress, stream after stream in their order, and
-- kaapi_offload_stream_isempty then holds.
pub wait_stream-completes :
    (fuel conc : ℕ) (query : ℕ → ℕ → ℕ → ℕ → Bool) (ss : List Streams)
    → All AreProcessed ss
    → (t : Through Streams) × (kaapi_offload_wait_stream (suc (suc fuel)) conc query (some ss)
        ≡ some t)
      × (t.err ≡ 0)
      × (t.called ≡ flying_all ss)
      × (kaapi_offload_stream_isempty t.left ≡ true)
unfolding kaapi_offload_wait_stream waittest_types kaapi_offload_stream_isempty All
wait_stream-completes fuel conc query [] ready =
    (record { err = 0; called = []; left = [] }, refl, refl, refl, refl)
wait_stream-completes fuel conc query (s ∷ rest) ready =
    let (o, e, _, called, empty) =
      each_waited fuel conc (query (length rest)) (is_kern s.type) s.ios ready.0 in
    let (t, e', _, called', empty') = wait_stream-completes fuel conc query rest ready.1 in
    (
      record { err = 0; called = o.called ++ t.called; left = record s { ios = o.left } ∷ t.left },
      rw (waittest_types, e, e') refl,
      refl,
      ap₂ ◌++◌ called called',
      rw (kaapi_offload_stream_isempty, empty, empty') refl,
    )
