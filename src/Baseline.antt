-- ===== src/Baseline.antt =====
-- crates/ruvoy-envoy-baseline/src/lib.rs: the filter that answers without Ruby, for measurements.
-- What Envoy answers is an argument; what is done to it is a list of effects. A thread that sleeps
-- and then commits an event stands for itself by its effect.
pub mod Bounds
mod Examples
use ruvoy.Prelude.{
  ℕ, zero, suc, ◌-◌, min, ◌+◌, Bool, true, false, not, ◌&&◌, ◌||◌, Option, none, some, List, [],
  ◌∷◌, ◌++◌, ◌==◌, ltb, length, is_some, is_empty, usize_mod, Bytes, text, bytes_eq, decimal,
  if◌then◌else◌,
}
use ruvoy.Std.Utf8.{from_utf8_lossy}
use ruvoy.Std.Parse.{parse_u64}
use ruvoy.Std.Trim.{split, split_once}
use ruvoy.Serial.Filter.{
  Status, stop_iteration, stop_iteration_no_buffer, stop_iteration_and_buffer, received_body,
  new_size,
}

abbrev pub scheduler_event_id : ℕ
scheduler_event_id = 1

abbrev pub benchmark_event_id : ℕ
benchmark_event_id = 2

abbrev pub max_body_bytes : ℕ
max_body_bytes = 2_097_152

pub record BenchmarkRequest : Type 0 where
  pub wait_ms : ℕ
  pub response_bytes : ℕ
  pub expected_request_bytes : Option ℕ
  pub request_body : Bytes

-- `worker` is whether there is a thread to join.
pub record BaselineFilter : Type 0 where
  pub worker : Bool
  pub benchmark : Option BenchmarkRequest
  pub waiting : Bool
  pub responded : Bool

unfoldable pub new_http_filter : BaselineFilter
new_http_filter = record { worker = false; benchmark = none; waiting = false; responded = false }

pub data Effect : Type 0 where
  -- `send_response`: its status, headers, body and details.
  replies : ℕ → List (Bytes × Bytes) → Bytes → Bytes → Effect
  -- A thread that sleeps so many milliseconds and commits the event.
  spawns : ℕ → ℕ → Effect
  joins : Effect

pub data Parsed (A : Type 0) : Type 0 where
  parsed : A → Parsed A
  refused : Bytes → Parsed A

unfoldable pub no_parameters : BenchmarkRequest
no_parameters = record {
  wait_ms = 0;
  response_bytes = 0;
  expected_request_bytes = none;
  request_body = [];
}

unfoldable pub number : Bytes → Bytes → (ℕ → BenchmarkRequest) → Parsed BenchmarkRequest
number name value set = elim (parse_u64 value) [
  | none ↦ refused (text "invalid " ++ (name ++ (text ": " ++ value)))
  | some n ↦ parsed (set n)
]

unfoldable pub set_parameter : Bytes → Bytes → BenchmarkRequest → Parsed BenchmarkRequest
unfolding number
set_parameter name value r =
    if bytes_eq name (text "wait_ms")
    then number name value (λ n. record r { wait_ms = n })
    else if bytes_eq name (text "response_bytes")
    then number name value (λ n. record r { response_bytes = n })
    else if bytes_eq name (text "expected_request_bytes")
    then number name value (λ n. record r { expected_request_bytes = some n })
    else refused (text "unknown benchmark parameter: " ++ name)

unfoldable pub parameter : Bytes → BenchmarkRequest → Parsed BenchmarkRequest
unfolding set_parameter
parameter given r = elim (split_once b'=' given) [
  | none ↦ refused (text "invalid benchmark parameter: " ++ given)
  | some (name, value) ↦ set_parameter name value r
]

-- The loop over the parameters, without the empty ones.
unfoldable pub parameters : List Bytes → BenchmarkRequest → Parsed BenchmarkRequest
unfolding parameter
parameters [] r = parsed r
parameters (given ∷ rest) r =
    if is_empty given then parameters rest r else elim (parameter given r) [
      | refused message ↦ refused message
      | parsed next ↦ parameters rest next
    ]

unfoldable pub over : ℕ → Option ℕ → Bool
over limit none = false
over limit (some n) = ltb limit n

unfoldable pub check_limits : BenchmarkRequest → Parsed BenchmarkRequest
unfolding over
check_limits r =
    if ltb 1000 r.wait_ms
    then refused (text "wait_ms exceeds the 1000 ms limit")
    else if ltb max_body_bytes r.response_bytes
    then refused (text "response_bytes exceeds the 2 MiB limit")
    else if over max_body_bytes r.expected_request_bytes
    then refused (text "expected_request_bytes exceeds the 2 MiB limit")
    else parsed r

unfoldable pub query_of : Bytes → Bytes
query_of path = elim (split_once b'?' path) [ none ↦ [] | some (before, query) ↦ query ]

unfoldable pub limited : Parsed BenchmarkRequest → Parsed BenchmarkRequest
unfolding check_limits
limited (refused message) = refused message
limited (parsed r) = check_limits r

unfoldable pub parse_benchmark_request : Bytes → Parsed BenchmarkRequest
unfolding limited parameters no_parameters query_of
parse_benchmark_request path = limited (parameters (split b'&' (query_of path)) no_parameters)

unfoldable pub filled : ℕ → ℕ → Bytes
filled zero byte = []
filled (suc n) byte = byte ∷ filled n byte

unfoldable pub send_benchmark_response : BaselineFilter → BaselineFilter × List Effect
unfolding filled
send_benchmark_response f = elim f.benchmark [
  | none ↦ (f, [])
  | some request ↦ (
    record f { benchmark = none; waiting = false; responded = true },
    replies 200
          ((text "content-type", text "application/octet-stream")
            ∷ (text "content-length", decimal request.response_bytes)
            ∷ (text "x-request-bytes", decimal (length request.request_body))
            ∷ [])
          (filled request.response_bytes b'B') (text "ruvoy_baseline_benchmark")
        ∷ [],
  )
]

unfoldable pub send_bad_request : Bytes → BaselineFilter → BaselineFilter × List Effect
send_bad_request message f = (
  record f { responded = true },
  replies 400 ((text "content-type", text "text/plain") ∷ []) message
        (text "ruvoy_baseline_bad_benchmark_request")
      ∷ [],
)

unfoldable pub body_size_mismatch : Option BenchmarkRequest → Bool
body_size_mismatch none = false
body_size_mismatch (some r) = elim r.expected_request_bytes [
  | none ↦ false
  | some expected ↦ not (length r.request_body == expected)
]

unfoldable pub wait_of : Option BenchmarkRequest → ℕ
wait_of none = 0
wait_of (some r) = r.wait_ms

unfoldable pub finish_benchmark : BaselineFilter → BaselineFilter × List Effect
unfolding body_size_mismatch send_bad_request send_benchmark_response wait_of
finish_benchmark f =
    if f.waiting || f.responded
    then (f, [])
    else if body_size_mismatch f.benchmark
    then send_bad_request (text "unexpected request body size") f
    else if wait_of f.benchmark == 0
    then send_benchmark_response f
    else (
      record f { worker = true; waiting = true },
      spawns (wait_of f.benchmark) benchmark_event_id ∷ [],
    )

unfoldable pub benchmark_headers :
    Parsed BenchmarkRequest → Bool → BaselineFilter → BaselineFilter × List Effect
unfolding finish_benchmark send_bad_request
benchmark_headers (refused message) end_of_stream f = send_bad_request message f
benchmark_headers (parsed request) end_of_stream f =
    let asked = record f { benchmark = some request } in
    let finished = finish_benchmark asked in if end_of_stream then finished else (asked, [])

unfoldable pub simple_reply : ℕ → Bytes → Bytes → Bytes → Effect
simple_reply status mode body details =
    replies status ((text "content-type", text "text/plain") ∷ (text "x-ruvoy-mode", mode) ∷ [])
      body details

unfoldable pub path_or : Option Bytes → Bytes
path_or none = text "/"
path_or (some value) = from_utf8_lossy value

unfoldable pub first_part : List Bytes → Bytes
first_part [] = []
first_part (part ∷ parts) = part

-- From the path that Envoy gives, if it gives one. The status is to stop the iteration.
unfoldable pub on_request_headers :
    Option Bytes → Bool → BaselineFilter → BaselineFilter × List Effect
unfolding benchmark_headers parse_benchmark_request simple_reply first_part path_or
on_request_headers given end_of_stream f =
    let path = path_or given in
    if bytes_eq (first_part (split b'?' path)) (text "/benchmark")
    then benchmark_headers (parse_benchmark_request path) end_of_stream f
    else if bytes_eq path (text "/scheduler")
    then (record f { worker = true }, spawns 0 scheduler_event_id ∷ [])
    else (
      f,
      simple_reply 200 (text "direct") (text "rust-baseline") (text "ruvoy_baseline_direct") ∷ [],
    )

unfoldable pub benchmark_body :
    Bytes → Bool → BenchmarkRequest → BaselineFilter → BaselineFilter × List Effect × Status
unfolding new_size send_bad_request finish_benchmark
benchmark_body received end_of_stream request f =
    let (refusing, refusal) = send_bad_request (text "request body exceeds the 2 MiB limit") f in
    let taken = record f {
      benchmark = some (record request { request_body = request.request_body ++ received });
    } in
    let (finished, effects) = finish_benchmark taken in
    if ltb max_body_bytes (new_size request.request_body received)
    then (refusing, refusal, stop_iteration_no_buffer)
    else if end_of_stream
    then (finished, effects, stop_iteration_no_buffer)
    else (taken, [], stop_iteration_and_buffer)

unfoldable pub on_request_body :
    Option (List Bytes) → Bool → BaselineFilter → BaselineFilter × List Effect × Status
unfolding received_body benchmark_body
on_request_body buffers end_of_stream f =
    if f.responded then (f, [], stop_iteration_no_buffer) else elim f.benchmark [
      | none ↦ (f, [], stop_iteration_no_buffer)
      | some request ↦ benchmark_body (received_body buffers) end_of_stream request f
    ]

unfoldable pub on_request_trailers : BaselineFilter → BaselineFilter × List Effect × Status
unfolding finish_benchmark
on_request_trailers f =
    let (after, effects) = finish_benchmark f in (after, effects, stop_iteration)

unfoldable pub on_scheduled : ℕ → BaselineFilter → BaselineFilter × List Effect
unfolding send_benchmark_response simple_reply
on_scheduled event_id f =
    if event_id == benchmark_event_id && f.waiting
    then send_benchmark_response f
    else if event_id == scheduler_event_id
    then (
      f,
      simple_reply 200 (text "scheduler") (text "rust-scheduler") (text "ruvoy_baseline_scheduler")
          ∷ [],
    )
    else (
      f,
      replies 500 ((text "content-type", text "text/plain") ∷ [])
            (text "unexpected scheduler event") (text "ruvoy_baseline_bad_event")
          ∷ [],
    )

-- The drop.
unfoldable pub drop_filter : BaselineFilter → BaselineFilter × List Effect
drop_filter f = (record f { worker = false }, if f.worker then joins ∷ [] else [])
