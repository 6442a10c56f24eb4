-- ===== src/Serial/Filter.antt =====
-- crates/ruvoy-envoy-sync/src/worker.rs: the filter over the serial runtime. What Envoy and the
-- runtime's client answer is an argument; what is done to them is a list of effects.
pub mod Once
mod Examples
use ruvoy.Prelude.{
  ℕ, ◌+◌, ◌-◌, min, Bool, true, false, Option, none, some, List, [], ◌∷◌, ◌++◌, ◌==◌, ltb, length,
  usize_mod, Bytes, text, starts_with_byte, if◌then◌else◌,
}
use ruvoy.Error.{BridgeError, to_string}
use ruvoy.Request.{Request, default_metadata}
use ruvoy.Response.{Response}
use ruvoy.Rack.Env.{Result, ok, err}
use ruvoy.Worker.Metadata.{Attributes, lossy, decoded_names}

abbrev pub response_event_id : ℕ
response_event_id = 1

abbrev pub max_request_body_bytes : ℕ
max_request_body_bytes = 2_097_152

pub data FilterState : Type 0 where
  collecting waiting responded : FilterState

-- The client is an argument; the slot that the completion fills stands in the filter.
pub record SyncRackFilter : Type 0 where
  pub diagnostics_enabled : Bool
  pub runtime_thread_id : Bytes
  pub worker_thread_id : Bytes
  pub request : Option Request
  pub result : Option (Result Response)
  pub state : FilterState

unfoldable pub new_http_filter : Bool → Bytes → Bytes → SyncRackFilter
new_http_filter diagnostics_enabled runtime_thread_id worker_thread_id = record {
  diagnostics_enabled = diagnostics_enabled;
  runtime_thread_id = runtime_thread_id;
  worker_thread_id = worker_thread_id;
  request = none;
  result = none;
  state = collecting;
}

pub data Effect : Type 0 where
  -- `send_response`: its status, headers, body and details.
  replies : ℕ → List (Bytes × Bytes) → Bytes → Bytes → Effect
  submits : Request → Effect
  commits : ℕ → Effect

pub data Status : Type 0 where
  stop_iteration stop_iteration_no_buffer stop_iteration_and_buffer : Status

unfoldable pub text_or : Bytes → Option Bytes → Bytes
text_or default none = default
text_or default (some value) = value

unfoldable pub copy_headers : Attributes → Request
unfolding text_or lossy decoded_names default_metadata
copy_headers envoy = record {
  method = text_or (text "GET") (lossy (envoy.header_value (text ":method")));
  path = text_or (text "/") (lossy (envoy.header_value (text ":path")));
  body = [];
  body_stream = none;
  headers = decoded_names envoy.request_headers;
  metadata = default_metadata;
  context = none;
  upstreams = none;
  force_gc = false;
  diagnostics = none;
}

unfoldable pub joined : List Bytes → Bytes
joined [] = []
joined (buffer ∷ buffers) = buffer ++ joined buffers

unfoldable pub received_body : Option (List Bytes) → Bytes
unfolding joined
received_body none = []
received_body (some buffers) = joined buffers

-- `saturating_add`.
unfoldable pub new_size : Bytes → Bytes → ℕ
new_size body received = min (length body + length received) (usize_mod - 1)

-- `none` where the request is missing or would grow too large.
unfoldable pub copy_received_body : Option (List Bytes) → SyncRackFilter → Option SyncRackFilter
unfolding received_body new_size
copy_received_body buffers f = elim f.request [
  | none ↦ none
  | some request ↦
      if ltb max_request_body_bytes (new_size request.body (received_body buffers))
      then none
      else some (record f {
        request = some (record request { body = request.body ++ received_body buffers });
      })
]

unfoldable pub send_bridge_error : ℕ → Bytes → Bytes → SyncRackFilter → SyncRackFilter × List Effect
send_bridge_error status body details f = (
  record f { state = responded },
  replies status
        ((text "content-type", text "text/plain") ∷ (text "x-ruvoy-error", text "true") ∷ []) body
        details
      ∷ [],
)

-- What the client's `submit` gives.
unfoldable pub submitted : Result (Unit {0}) → SyncRackFilter → SyncRackFilter × List Effect
unfolding send_bridge_error
submitted (ok u) f = (record f { state = waiting }, [])
submitted (err error) f =
    send_bridge_error 503 (to_string error) (text "ruvoy_sync_submit_failed") f

unfoldable pub submit : Result (Unit {0}) → SyncRackFilter → SyncRackFilter × List Effect
unfolding submitted send_bridge_error
submit given f = elim f.request [
  | none ↦
      send_bridge_error 500 (text "missing owned request") (text "ruvoy_sync_missing_request") f
  | some request ↦
      let (after, effects) = submitted given (record f { request = none }) in
      (after, submits request ∷ effects)
]

-- The completion, on the owner thread.
unfoldable pub complete : Result Response → SyncRackFilter → SyncRackFilter × List Effect
complete result f = (record f { result = some result }, commits response_event_id ∷ [])

unfoldable pub plain_headers : List (Bytes × Bytes) → List (Bytes × Bytes)
plain_headers [] = []
plain_headers ((name, value) ∷ headers) =
    let rest = plain_headers headers in
    if starts_with_byte b':' name then rest else (name, value) ∷ rest

unfoldable pub response_headers : SyncRackFilter → Response → List (Bytes × Bytes)
unfolding plain_headers
response_headers f response =
    plain_headers response.headers
    ++ (if f.diagnostics_enabled
        then (text "x-ruvoy-runtime-rust-thread-id", f.runtime_thread_id)
          ∷ (text "x-ruvoy-worker-rust-thread-id", f.worker_thread_id)
          ∷ []
        else [])

unfoldable pub send_rack_response : Response → SyncRackFilter → SyncRackFilter × List Effect
unfolding response_headers
send_rack_response response f = (
  record f { state = responded },
  replies response.status (response_headers f response) response.body
        (text "ruvoy_sync_rack_response")
      ∷ [],
)

unfoldable pub on_request_headers :
    Attributes → Result (Unit {0}) → Bool → SyncRackFilter → SyncRackFilter × List Effect × Status
unfolding copy_headers submit
on_request_headers envoy given end_of_stream f =
    let copied = record f { request = some (copy_headers envoy) } in
    let (after, effects) = submit given copied in
    if end_of_stream then (after, effects, stop_iteration) else (copied, [], stop_iteration)

-- A body that was copied, or not.
unfoldable pub with_body :
    Result (Unit {0})
    → Bool
    → Option SyncRackFilter
    → SyncRackFilter
    → SyncRackFilter × List Effect × Status
unfolding send_bridge_error submit
with_body given end_of_stream none f =
    let (after, effects) =
      send_bridge_error 413 (text "request body exceeds the 2 MiB limit")
        (text "ruvoy_sync_body_too_large") f in
    (after, effects, stop_iteration_no_buffer)
with_body given end_of_stream (some copied) f =
    let (after, effects) = submit given copied in
    if end_of_stream
    then (after, effects, stop_iteration_no_buffer)
    else (copied, [], stop_iteration_and_buffer)

unfoldable pub on_request_body :
    Option (List Bytes)
    → Result (Unit {0})
    → Bool
    → SyncRackFilter
    → SyncRackFilter × List Effect × Status
unfolding copy_received_body with_body
on_request_body buffers given end_of_stream f = elim f.state [
  | collecting ↦ with_body given end_of_stream (copy_received_body buffers f) f
  | waiting ↦ (f, [], stop_iteration_no_buffer)
  | responded ↦ (f, [], stop_iteration_no_buffer)
]

unfoldable pub on_request_trailers :
    Result (Unit {0}) → SyncRackFilter → SyncRackFilter × List Effect × Status
unfolding submit
on_request_trailers given f = elim f.state [
  | collecting ↦ (let (after, effects) = submit given f in (after, effects, stop_iteration))
  | waiting ↦ (f, [], stop_iteration)
  | responded ↦ (f, [], stop_iteration)
]

unfoldable pub answered : Option (Result Response) → SyncRackFilter → SyncRackFilter × List Effect
unfolding send_rack_response send_bridge_error
answered (some (ok response)) f = send_rack_response response f
answered (some (err error)) f =
    send_bridge_error 500 (to_string error) (text "ruvoy_sync_ruby_error") f
answered none f =
    send_bridge_error 500 (text "scheduler event arrived without a result")
      (text "ruvoy_sync_missing_result") f

unfoldable pub on_scheduled : ℕ → SyncRackFilter → SyncRackFilter × List Effect
unfolding answered
on_scheduled event_id f = elim f.state [
  | waiting ↦
      if event_id == response_event_id
      then answered f.result (record f { result = none })
      else (f, [])
  | collecting ↦ (f, [])
  | responded ↦ (f, [])
]
