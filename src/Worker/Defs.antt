-- ===== src/Worker/Defs.antt =====
-- crates/ruvoy-envoy-fiber/src/worker.rs: the state of `FiberRackFilter` and what it does to the
-- world. A shared stream stands in the filter as the worker sees it; a `Metrics` is whether there is
-- one. Effects are listed in the order in which they happen.
use ruvoy.Prelude.{
  ℕ, ◌-◌, Bool, false, Option, none, some, List, [], ◌∷◌, ◌++◌, Bytes, text, if◌then◌else◌,
}
use ruvoy.Stream.Defs.{ResponseStream, writer_owed_wakeup}
use ruvoy.Request.{Request, RequestDiagnostics}
use ruvoy.Upstream.Defs.{UpstreamSettings, Upstreams, StreamChannel}
use ruvoy.Table.{Table}
use ruvoy.EnvoyUpstream.Headers.{CallOutcome}
use ruvoy.EnvoyUpstream.OpenStream.Defs.{OpenStream}
use ruvoy.EnvoyUpstream.Calls.{InFlight}

pub data FilterState : Type 0 where
  collecting waiting streaming responded : FilterState

pub record Filter : Type 0 where
  pub diagnostics_enabled : Bool
  pub runtime_thread_id : Bytes
  pub worker_thread_id : Bytes
  pub request : Option Request
  pub request_body : Option ResponseStream
  pub request_end_pending : Bool
  pub diagnostics : Option RequestDiagnostics
  pub stream : Option ResponseStream
  pub state : FilterState
  pub metrics : Bool
  pub submitted_at : Option ℕ
  pub upstream_settings : Option UpstreamSettings
  pub upstreams : Option Upstreams
  pub upstream_calls : InFlight
  pub upstream_streams : Table OpenStream
  pub trace : Option (List (Bytes × Bytes))

unfoldable pub new_http_filter : Bool → Bytes → Bytes → Bool → Option UpstreamSettings → Filter
new_http_filter diagnostics_enabled runtime_thread_id worker_thread_id metrics settings = record {
  diagnostics_enabled = diagnostics_enabled;
  runtime_thread_id = runtime_thread_id;
  worker_thread_id = worker_thread_id;
  request = none;
  request_body = none;
  request_end_pending = false;
  diagnostics = none;
  stream = none;
  state = collecting;
  metrics = metrics;
  submitted_at = none;
  upstream_settings = settings;
  upstreams = none;
  upstream_calls = [];
  upstream_streams = [];
  trace = none;
}

pub data Outcome : Type 0 where
  completed failed cancelled : Outcome

pub data Rejection : Type 0 where
  admission invalid_request internal : Rejection

pub data Effect : Type 0 where
  -- `send_response`: a whole reply that Envoy makes up, with its status, body and details.
  replies : ℕ → Bytes → Bytes → Effect
  sends_headers : List (Bytes × Bytes) → Effect
  sends_data : Bytes → Bool → Effect
  resets_downstream : Effect
  -- `wake_body`, with the stream as it was then.
  wakes : ResponseStream → Effect
  -- `new_scheduler().commit`.
  commits : ℕ → Effect
  resets_stream : ℕ → Effect
  sends_stream_data : ℕ → Bytes → Bool → Effect
  counts_submitted : Effect
  counts_rejected : Rejection → Effect
  counts_responded : Outcome → ℕ → Effect
  counts_call : Bytes → CallOutcome → Effect
  counts_answered : Bytes → ℕ → Effect

abbrev pub response_event_id : ℕ
response_event_id = 1

abbrev pub request_event_id : ℕ
request_event_id = 2

abbrev pub upstream_event_id : ℕ
upstream_event_id = 3

abbrev pub max_buffered_body_bytes : ℕ
max_buffered_body_bytes = 1048576

-- What only happens where the filter has metrics.
abbrev pub when : Bool → Effect → List Effect
when b e = if b then e ∷ [] else []

unfoldable pub count_call : Filter → Bytes → CallOutcome → List Effect
count_call f cluster outcome = when f.metrics (counts_call cluster outcome)

-- The first call for a request wins; the submission's time is taken also where nothing is counted.
unfoldable pub report_outcome : ℕ → Outcome → Filter → Filter × List Effect
report_outcome now outcome f =
    let effects : List Effect = elim f.submitted_at [
      | none ↦ []
      | some at ↦ when f.metrics (counts_responded outcome (now - at))
    ] in
    (record f { submitted_at = none }, effects)

unfoldable pub report_admission : Filter → Option Rejection → List Effect
report_admission f none = when f.metrics counts_submitted
report_admission f (some reason) = when f.metrics (counts_rejected reason)

unfoldable pub send_bridge_error : ℕ → Bytes → Bytes → Filter → Filter × List Effect
send_bridge_error status body details f = (
  record f { request = none; request_body = none; request_end_pending = false; state = responded },
  replies status body details ∷ [],
)

unfoldable pub send_invalid_request : Bytes → Filter → Filter × List Effect
unfolding send_bridge_error
send_invalid_request message f =
    let (f', effects) = send_bridge_error 400 message (text "ruvoy_fiber_invalid_request") f in
    (f', when f.metrics (counts_rejected invalid_request) ++ effects)

-- Wakes the fiber reading a stream, and the one writing its body if that one may go on.
unfoldable pub wake_stream : StreamChannel → List Effect
wake_stream c =
    wakes c.response ∷ (if writer_owed_wakeup c.request then wakes c.request ∷ [] else [])
