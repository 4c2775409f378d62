-- ===== src/Kaapi/Stream/Offload.antt =====
-- The streams of a device, struct kaapi_offload_stream of kaapi/kaapi_offload_stream.h, and the calls of
-- kaapi/kaapi_offload_stream.c that choose among them or go through them. The streams of one type are a list, and those
-- of the types that a call goes through a list of these. `none` stands for a failed assertion, an access outside of an
-- array, or fuel that is spent; what is printed is left out.
use xkblas.Base.{
  ℕ, zero, suc, ◌+◌, ◌-◌, ◌%◌, ◌^◌, Bool, true, false, not, ◌||◌, ◌&&◌, Option, none, some, List,
  [], ◌∷◌, ◌++◌, length, get_or, ◌==◌, ltb, if◌then◌else◌, ℤ, pos, negsuc, lt_int,
}
use xkblas.Kaapi.Stream.{IoStream, Device, sizepending, emptyinstr, emptypending}
use xkblas.Kaapi.Stream.Process.{process_instruction}
use xkblas.Kaapi.Stream.Cuda.{to_int, cuda_stream_process_pending}

abbrev pub einval : ℕ
einval = 22

pub data IoStreamType : Type 0 where
  stream_h2d stream_d2h stream_d2d stream_kern : IoStreamType

unfoldable pub is_kern : IoStreamType → Bool
is_kern stream_h2d = false
is_kern stream_d2h = false
is_kern stream_d2d = false
is_kern stream_kern = true

-- `next` by the 32 bits of its `int`
pub record Streams : Type 0 where
  pub type : IoStreamType
  pub next : ℕ
  pub ios : List IoStream

-- `%` on `int`
unfoldable pub rem_int : ℤ → ℕ → ℤ
rem_int (pos n) c = pos (n % c)
rem_int (negsuc n) c = let r = suc n % c in if r == 0 then pos 0 else negsuc (r - 1)

unfoldable pub index : ℤ → Option ℕ
index (pos n) = some n
index (negsuc n) = none

abbrev pub loads : List IoStream → List ℤ
loads [] = []
loads (ios ∷ rest) = to_int (sizepending ios) ∷ loads rest

-- the loop, with `snext` and `smin`
unfoldable pub least_loaded : List IoStream → ℕ → ℕ → ℕ → ℤ → ℕ
least_loaded ios zero i snext smin = snext
least_loaded ios (suc left) i snext smin =
    let load = get_or (loads ios) snext (pos 0) in
    let less = lt_int load smin in
    least_loaded ios left (suc i) (if less then i else snext) (if less then load else smin)

-- the index of the stream, and the counter
unfoldable pub kaapi_offload_select_io_stream : Streams → Option (ℕ × Streams)
kaapi_offload_select_io_stream s =
    let count = length s.ios in
    let counted = record s { next = (s.next + 1) % 2 ^ 32 } in
    if ltb 1 count
    then elim (index (rem_int (to_int s.next) count)) [
      | none ↦ none
      | some snext ↦ some (
        if is_kern s.type
            then least_loaded s.ios (count - 1) 1 snext (get_or (loads s.ios) snext (pos 0))
            else snext,
        counted,
      )
    ]
    else elim (index (to_int s.next)) [ none ↦ none | some snext ↦ some (snext, s) ]

unfoldable pub each_isempty : List IoStream → Bool
each_isempty [] = true
each_isempty (ios ∷ rest) =
    if not (emptyinstr ios) || not (emptypending ios) then false else each_isempty rest

unfoldable pub kaapi_offload_stream_isempty : List Streams → Bool
kaapi_offload_stream_isempty [] = true
kaapi_offload_stream_isempty (s ∷ rest) =
    if each_isempty s.ios then kaapi_offload_stream_isempty rest else false

-- what a call that goes through streams leaves: its error code, the callbacks and the streams
pub record Through (A : Type 0) : Type 0 where
  pub err : ℕ
  pub called : List ℕ
  pub left : List A

unfoldable pub process_each : ℕ → Device → ℕ → List IoStream → Option (Through IoStream)
process_each fuel device err [] = some (record { err = err; called = []; left = [] })
process_each fuel device err (ios ∷ rest) = elim (process_instruction fuel device ios) [
  | none ↦ none
  | some o ↦ elim (process_each fuel device o.err rest) [
    | none ↦ none
    | some t ↦ some (record { err = t.err; called = o.called ++ t.called; left = o.ios ∷ t.left })
  ]
]

-- each stream with its own fuel
unfoldable pub process_types : ℕ → Device → ℕ → List Streams → Option (Through Streams)
process_types fuel device err [] = some (record { err = err; called = []; left = [] })
process_types fuel device err (s ∷ rest) = elim (process_each fuel device err s.ios) [
  | none ↦ none
  | some o ↦ elim (process_types fuel device o.err rest) [
    | none ↦ none
    | some t ↦ some (record {
      err = t.err;
      called = o.called ++ t.called;
      left = record s { ios = o.left } ∷ t.left;
    })
  ]
]

unfoldable pub kaapi_offload_stream_process_instruction :
    ℕ → Device → List Streams → Option (Through Streams)
kaapi_offload_stream_process_instruction fuel device ss = process_types fuel device 0 ss

-- The loop of _kaapi_offload_waittest_stream for one stream of a CUDA device: `query` is what the events answer in each
-- round, counted down with the fuel, and `conc` the parameter cuda_conc_kernel.
unfoldable pub waittest_loop :
    ℕ → ℕ → (ℕ → ℕ → Bool) → Bool → Bool → IoStream → Option (List ℕ × IoStream)
waittest_loop zero conc query kern blocking ios = none
waittest_loop (suc fuel) conc query kern blocking ios =
    let s = sizepending ios in
    elim (cuda_stream_process_pending (query fuel) ios blocking) [
      | none ↦ none
      | some r ↦
          let rest = waittest_loop fuel conc query kern blocking r.1 in
          if kern && ltb conc s
          then elim rest [ none ↦ none | some t ↦ some (r.0 ++ t.0, t.1) ]
          else some r
    ]

unfoldable pub waittest_one :
    ℕ → ℕ → (ℕ → ℕ → Bool) → Bool → Bool → IoStream → Option (List ℕ × IoStream)
waittest_one fuel conc query kern blocking ios =
    let s = sizepending ios in
    if emptypending ios
    then some ([], ios)
    else waittest_loop fuel conc query kern blocking
        (record ios { smax_p = if ltb ios.smax_p s then s else ios.smax_p })

-- each stream with its own fuel and its own answers of the events
unfoldable pub waittest_each :
    ℕ → ℕ → (ℕ → ℕ → ℕ → Bool) → Bool → Bool → List IoStream → Option (Through IoStream)
waittest_each fuel conc query kern blocking [] = some (record { err = 0; called = []; left = [] })
waittest_each fuel conc query kern blocking (ios ∷ rest) =
    elim (waittest_one fuel conc (query (length rest)) kern blocking ios) [
      | none ↦ none
      | some o ↦ elim (waittest_each fuel conc query kern blocking rest) [
        | none ↦ none
        | some t ↦ some (record { err = 0; called = o.0 ++ t.called; left = o.1 ∷ t.left })
      ]
    ]

unfoldable pub waittest_types :
    ℕ → ℕ → (ℕ → ℕ → ℕ → ℕ → Bool) → Bool → List Streams → Option (Through Streams)
waittest_types fuel conc query blocking [] = some (record { err = 0; called = []; left = [] })
waittest_types fuel conc query blocking (s ∷ rest) =
    elim (waittest_each fuel conc (query (length rest)) (is_kern s.type) blocking s.ios) [
      | none ↦ none
      | some o ↦ elim (waittest_types fuel conc query blocking rest) [
        | none ↦ none
        | some t ↦ some (record {
          err = 0;
          called = o.called ++ t.called;
          left = record s { ios = o.left } ∷ t.left;
        })
      ]
    ]

-- the stream is none for the null pointer
unfoldable pub kaapi_offload_wait_stream :
    ℕ → ℕ → (ℕ → ℕ → ℕ → ℕ → Bool) → Option (List Streams) → Option (Through Streams)
kaapi_offload_wait_stream fuel conc query none =
    some (record { err = einval; called = []; left = [] })
kaapi_offload_wait_stream fuel conc query (some ss) = waittest_types fuel conc query true ss

unfoldable pub kaapi_offload_test_stream :
    ℕ → ℕ → (ℕ → ℕ → ℕ → ℕ → Bool) → Option (List Streams) → Option (Through Streams)
kaapi_offload_test_stream fuel conc query none =
    some (record { err = einval; called = []; left = [] })
kaapi_offload_test_stream fuel conc query (some ss) = waittest_types fuel conc query false ss
