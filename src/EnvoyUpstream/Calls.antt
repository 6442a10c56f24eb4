-- ===== src/EnvoyUpstream/Calls.antt =====
-- crates/ruvoy-envoy-fiber/src/upstream.rs: buffered calls (`send`, `deliver`) and the start of a
-- stream. What Envoy answers to a call of its own is an argument.
pub mod Delivered
mod Examples
use ruvoy.Prelude.{
  ℕ, ◌+◌, ◌-◌, ◌/◌, Bool, true, false, not, Option, none, some, List, [], ◌∷◌, ◌++◌, min, max, ltb,
  ◌==◌, is_empty, length, if◌then◌else◌, Bytes, text, decimal,
}
use ruvoy.Error.{BridgeError, upstream, upstream_too_large}
use ruvoy.Response.{ResponseHead}
use ruvoy.Stream.Defs.{
  StreamItem, chunk, end, ResponseStream, push_head, push_chunk, push_end, push_failure, take_next,
}
use ruvoy.Upstream.Defs.{UpstreamRequest, UpstreamStreamRequest, StreamChannel, fail, wants_reset}
use ruvoy.Table.{Table, insert}
use ruvoy.EnvoyUpstream.Headers.{
  CallOutcome, completed, refused, failed, head_of, concatenate, with_trace,
}
use ruvoy.EnvoyUpstream.OpenStream.Defs.{OpenStream, new, no_status}

pub record PendingCall : Type 0 where
  pub response : ResponseStream
  pub cluster : Bytes
  pub sent_at : ℕ

unfoldable pub waited : ℕ → PendingCall → ℕ
waited now call = now - call.sent_at

abbrev pub InFlight : Type 0
InFlight = Table PendingCall

pub data InitResult : Type 0 where
  success cluster_not_found cannot_create_request : InitResult
  missing_required_headers duplicate_callout_id : InitResult

-- Why Envoy turned a call or stream away, or nothing when it took it.
unfoldable pub refusal : InitResult → Bytes → Option Bytes
refusal success cluster = none
refusal cluster_not_found cluster = some (text "cluster " ++ (cluster ++ text " does not exist"))
refusal cannot_create_request cluster = some (
    text "cluster "
    ++ (cluster
        ++ (text " turned the call away at once, for example because it has no "
            ++ text "healthy host or a circuit breaker is open")))
refusal missing_required_headers cluster = some (text "the call is missing :method, :path or host")
refusal duplicate_callout_id cluster =
    some (text "Envoy handed out a call id that was already in use")

abbrev pub u64_max : ℕ
u64_max = 18446744073709551615

-- Whole milliseconds that fit a `u64`, and never zero, which Envoy reads as no deadline.
unfoldable pub positive_ms : ℕ → ℕ
positive_ms timeout = max (min (timeout / 1_000_000) u64_max) 1

-- What Envoy is asked for.
pub record Callout : Type 0 where
  pub cluster : Bytes
  pub headers : List (Bytes × Bytes)
  pub body : Option Bytes
  pub timeout_ms : ℕ

unfoldable pub callout : UpstreamRequest → List (Bytes × Bytes) → Callout
unfolding positive_ms
callout request trace = record {
  cluster = request.cluster;
  headers = with_trace request.headers trace;
  body = if is_empty request.body then none else some request.body;
  timeout_ms = positive_ms request.timeout;
}

refuse_call :
    Option Bytes → ℕ → ℕ → UpstreamRequest → InFlight → InFlight × Option (ResponseStream × Bytes)
refuse_call none id now r in_flight = (
  insert id (record { response = r.response; cluster = r.cluster; sent_at = now }) in_flight,
  none,
)
refuse_call (some reason) id now r in_flight =
    (in_flight, some ((push_failure (upstream reason) r.response).0, r.cluster))

-- `envoy` is what `send_http_callout` answers: its result and the call's id.
unfoldable pub send :
    (Callout → InitResult × ℕ)
    → ℕ
    → UpstreamRequest
    → List (Bytes × Bytes)
    → InFlight
    → InFlight × Option (ResponseStream × Bytes)
unfolding callout refuse_call
send envoy now request trace in_flight =
    let (result, id) = envoy (callout request trace) in
    refuse_call (refusal result request.cluster) id now request in_flight

pub data CalloutResult : Type 0 where
  success reset exceed_response_buffer_limit : CalloutResult

pub data Answer : Type 0 where
  ok : ResponseHead → Bytes → Answer
  err : BridgeError → Answer

unfoldable pub over_limit : ℕ → ℕ → BridgeError
over_limit size limit = upstream_too_large (
    text "the "
    ++ (decimal size
        ++ (text " byte response body is over the " ++ (decimal limit ++ text " byte limit"))))

unfoldable pub size_of : List Bytes → ℕ
size_of [] = 0
size_of (piece ∷ pieces) = length piece + size_of pieces

with_head : Option ResponseHead → List Bytes → Answer
with_head none body = err no_status
with_head (some head) body = ok head (concatenate body)

unfoldable pub answer : List (Bytes × Bytes) → List Bytes → ℕ → Answer
unfolding with_head
answer headers body limit =
    let size = size_of body in
    if ltb limit size then err (over_limit size limit) else with_head (head_of headers) body

abbrev pub or_empty {ℓ} : {A : Type ℓ} → Option (List A) → List A
or_empty none = []
or_empty (some xs) = xs

abbrev pub was_reset : BridgeError
was_reset = upstream (text "the upstream stream was reset")

abbrev pub too_large_for_envoy : BridgeError
too_large_for_envoy = upstream_too_large (text "the response exceeded Envoy's buffer limit")

unfoldable pub judge :
    CalloutResult → Option (List (Bytes × Bytes)) → Option (List Bytes) → ℕ → Answer
judge success headers body limit = answer (or_empty headers) (or_empty body) limit
judge reset headers body limit = err was_reset
judge exceed_response_buffer_limit headers body limit = err too_large_for_envoy

push_body : Bytes → ResponseStream → ResponseStream
push_body body s = if is_empty body then s else (push_chunk body s).0

unfoldable pub settle : Answer → ResponseStream → ResponseStream × CallOutcome
unfolding push_body
settle (ok head body) s = ((push_end (push_body body (push_head head s).0)).0, completed)
settle (err error) s = ((push_failure error s).0, failed error)

unfoldable pub deliver :
    ResponseStream
    → CalloutResult
    → Option (List (Bytes × Bytes))
    → Option (List Bytes)
    → ℕ
    → ResponseStream × CallOutcome
unfolding judge settle
deliver response result headers body limit = settle (judge result headers body limit) response

pub data Started : Type 0 where
  opened : ℕ → OpenStream → Started
  turned_away : StreamChannel → Bytes → Started
  skipped : Bytes → Started

-- What `start_http_stream` is asked for.
pub record StreamStart : Type 0 where
  pub cluster : Bytes
  pub headers : List (Bytes × Bytes)
  pub body : Option Bytes
  pub end_stream : Bool
  pub timeout_ms : ℕ

first_body : Option StreamItem → Option Bytes × Bool
first_body (some end) = (none, true)
first_body (some (chunk bytes)) = (some bytes, false)
first_body _ = (none, false)

refuse_stream : Option Bytes → ℕ → ℕ → StreamChannel → Bytes → Bool → Started
refuse_stream none handle now channel cluster request_ended =
    opened handle (new now channel cluster request_ended)
refuse_stream (some reason) handle now channel cluster request_ended =
    turned_away (fail (upstream reason) channel) cluster

-- What a stream is started with; `first` is what was taken of its body. No deadline stays none.
unfoldable pub stream_start :
    UpstreamStreamRequest → List (Bytes × Bytes) → Option StreamItem → StreamStart
unfolding first_body positive_ms
stream_start r trace first = record {
  cluster = r.cluster;
  headers = with_trace r.headers trace;
  body = (first_body first).0;
  end_stream = (first_body first).1;
  timeout_ms = if r.timeout == 0 then 0 else positive_ms r.timeout;
}

-- `envoy` is what `start_http_stream` answers: its result and the stream's handle.
unfoldable pub start :
    (StreamStart → InitResult × ℕ) → ℕ → UpstreamStreamRequest → List (Bytes × Bytes) → Started
unfolding refuse_stream
start envoy now r trace =
    if wants_reset r.channel
    then skipped r.cluster
    else let (request, first) = take_next r.channel.request in
      let (result, handle) = envoy (stream_start r trace first) in
      refuse_stream (refusal result r.cluster) handle now (record r.channel { request = request })
        r.cluster (stream_start r trace first).end_stream
