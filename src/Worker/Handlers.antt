-- ===== src/Worker/Handlers.antt =====
-- crates/ruvoy-envoy-fiber/src/worker.rs: the callbacks of the filter, and a request's life as the
-- sequence of them.
pub mod Quiet
pub mod Silent
pub mod Phases
pub mod Reply
pub mod Books
pub mod Counts
use ruvoy.Prelude.{
  ℕ, Bool, true, false, ◌&&◌, ◌||◌, Option, none, some, List, [], ◌∷◌, ◌++◌, ◌==◌, Bytes,
  if◌then◌else◌,
}
use ruvoy.Error.{BridgeError}
use ruvoy.Stream.Defs.{ResponseStream, set_paused}
use ruvoy.Request.{Request, Context}
use ruvoy.Worker.Defs.{
  FilterState, waiting, streaming, Filter, Effect, commits, cancelled, count_call,
  response_event_id, request_event_id, upstream_event_id, report_outcome, send_invalid_request,
}
use ruvoy.Upstream.Defs.{Upstreams}
use ruvoy.EnvoyUpstream.Headers.{CallOutcome}
use ruvoy.EnvoyUpstream.Calls.{CalloutResult}
use ruvoy.Worker.Downstream.{is_waiting, is_streaming, drain_stream}
use ruvoy.Worker.Metadata.{Attributes, Copied, valid, invalid, copy_headers}
use ruvoy.Worker.Submit.{submit, abandon_upstreams}
use ruvoy.Worker.Upload.{BodyBuffers, forward_request_body}
use ruvoy.Worker.Upstreams.{Envoy, Report, report, send_upstream_calls, on_http_callout_done}

unfoldable pub count_all : Filter → List (Bytes × CallOutcome) → List Effect
count_all f [] = []
count_all f ((cluster, outcome) ∷ ended) = count_call f cluster outcome ++ count_all f ended

unfoldable pub on_stream_complete : ℕ → Filter → Filter × List Effect
unfolding count_all
on_stream_complete now f =
    let (f', counted) = report_outcome now cancelled f in
    let (f'', given) = abandon_upstreams f' in (f'', counted ++ (given.1 ++ count_all f'' given.0))

unfoldable pub on_above_high_watermark : Filter → Filter × List Effect
on_above_high_watermark f = elim f.stream [
  | none ↦ (f, [])
  | some s ↦ (record f { stream = some (set_paused true s) }, [])
]

unfoldable pub on_below_low_watermark : Filter → Filter × List Effect
on_below_low_watermark f = elim f.stream [
  | none ↦ (f, [])
  | some s ↦ (record f { stream = some (set_paused false s) }, commits response_event_id ∷ [])
]

module _ (buffers : BodyBuffers) where
  open buffers use {Buffers}

  -- The two readings of the clock that a forward takes, and what Envoy's buffers hold.
  pub record Body : Type 0 where
    pub started : ℕ
    pub now : ℕ
    pub held : Buffers

  unfoldable pub forward : Body → Filter → Filter × List Effect
  forward body f =
      let r = forward_request_body buffers body.started body.now body.held f in (r.1, r.2)

  -- What follows once the headers are copied. The end of the stream is recorded, and what there is
  -- of a body passed on, also where the submission failed.
  unfoldable pub headers_copied :
      (Request → Option BridgeError)
      → ℕ
      → Body
      → Bool
      → Copied Request
      → Filter
      → Filter × List Effect
  unfolding forward
  headers_copied client now body end_of_stream (invalid message) f = send_invalid_request message f
  headers_copied client now body end_of_stream (valid request) f =
      let (f', submitted) = submit client now (record f { request = some request }) in
      let f'' : Filter = record f' { request_end_pending = end_of_stream } in
      let (f₃, forwarded) : Filter × List Effect =
        if end_of_stream then forward body f'' else (f'', []) in
      (f₃, submitted ++ forwarded)

  unfoldable pub on_request_headers :
      (Request → Option BridgeError)
      → Option Context
      → ℕ
      → Attributes
      → Body
      → Bool
      → Filter
      → Filter × List Effect
  on_request_headers client context now attributes body end_of_stream f =
      headers_copied client now body end_of_stream
        (copy_headers f.diagnostics_enabled context now attributes) f

  unfoldable pub on_request_body : Body → Bool → Filter → Filter × List Effect
  unfolding forward
  on_request_body body end_of_stream f =
      forward body (record f { request_end_pending = f.request_end_pending || end_of_stream })

  unfoldable pub on_request_trailers : Body → Filter → Filter × List Effect
  unfolding forward
  on_request_trailers body f = forward body (record f { request_end_pending = true })

  unfoldable pub on_scheduled : Envoy → ℕ → Body → ℕ → Filter → Filter × List Effect
  unfolding forward
  on_scheduled envoy now body event_id f =
      if event_id == request_event_id
      then forward body f
      else if event_id == upstream_event_id
      then send_upstream_calls envoy now f
      else if event_id == response_event_id && (is_waiting f.state || is_streaming f.state)
      then drain_stream now f
      else (f, [])

  -- What is shared, if the filter still has it.
  still : {A : Type 0} → A → Option A → Option A
  still new none = none
  still new (some old) = some new

  -- What Envoy calls the filter for once it has seen the request's headers.
  pub data Callback : Type 0 where
    request_body : Body → Bool → Callback
    request_trailers : Body → Callback
    scheduled : Envoy → ℕ → Body → ℕ → Callback
    callout_done :
        ℕ → ℕ → CalloutResult → Option (List (Bytes × Bytes)) → Option (List Bytes) → Callback
    reported : ℕ → ℕ × Report → Callback
    above_high_watermark below_low_watermark : Callback
    stream_complete : ℕ → Callback
    -- The fiber did something to the response, the upload or the route, which it shares.
    shared : ResponseStream → ResponseStream → Upstreams → Callback

  unfoldable pub callback : Callback → Filter → Filter × List Effect
  unfolding still
  callback (request_body body end_of_stream) f = on_request_body body end_of_stream f
  callback (request_trailers body) f = on_request_trailers body f
  callback (scheduled envoy now body event_id) f = on_scheduled envoy now body event_id f
  callback (callout_done now id result fields pieces) f =
      on_http_callout_done now id result fields pieces f
  callback (reported now r) f = report now r f
  callback above_high_watermark f = on_above_high_watermark f
  callback below_low_watermark f = on_below_low_watermark f
  callback (stream_complete now) f = on_stream_complete now f
  callback (shared response upload route) f = (
    record f {
      stream = still response f.stream;
      request_body = still upload f.request_body;
      upstreams = still route f.upstreams;
    },
    [],
  )

  unfoldable pub run : List Callback → Filter → Filter × List Effect
  run [] f = (f, [])
  run (c ∷ cs) f =
      let (f', effects) = callback c f in let (f'', more) = run cs f' in (f'', effects ++ more)
