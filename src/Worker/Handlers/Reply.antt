-- ===== src/Worker/Handlers/Reply.antt =====
-- crates/ruvoy-envoy-fiber/src/worker.rs: the client gets one well-formed response.
use ruvoy.Prelude.{
  ℕ, ◌≡◌, refl, Bool, true, false, ◌&&◌, ◌||◌, Option, none, some, List, [], ◌∷◌, ◌++◌, ◌==◌,
  if◌then◌else◌, arith,
}
use ruvoy.Error.{BridgeError}
use ruvoy.Request.{Request, Context}
use ruvoy.Worker.Defs.{
  FilterState, collecting, waiting, streaming, responded, Filter, Effect, report_outcome,
  send_bridge_error, send_invalid_request, report_admission, request_event_id, upstream_event_id,
  response_event_id,
}
use ruvoy.Worker.Defs as Defs
use ruvoy.Worker.Downstream.{drain_items, drain_stream, rest_downstream}
use ruvoy.Worker.Metadata.{Attributes, Copied, valid, invalid, copy_headers}
use ruvoy.Worker.Submit.{abandon_upstreams, submit, admitted, submitting}
use ruvoy.Worker.Upload.{BodyBuffers}
use ruvoy.Worker.Upstreams.{Envoy, report, send_upstream_calls, on_http_callout_done}
use ruvoy.Worker.Handlers.{
  count_all, Body, forward, headers_copied, on_request_headers, on_request_body,
  on_request_trailers, on_scheduled, Callback, request_body, request_trailers, scheduled,
  callout_done, reported, above_high_watermark, below_low_watermark, stream_complete, shared,
  callback, run, on_above_high_watermark, on_below_low_watermark, on_stream_complete,
}
use ruvoy.Worker.Handlers.Quiet.{report-IsQuiet}
use ruvoy.Worker.Handlers.Silent.{
  forward-IsQuiet, send_upstream_calls-IsQuiet, on_http_callout_done-IsQuiet, given_up-IsQuiet,
}
use ruvoy.Worker.Handlers.Phases.{
  fresh, Phase, advance, advance_all, fits, fits_after, quiet-fits, then-fits, is_answering,
  drain_items-fits,
}

drain_stream-fits :
    (now : ℕ) (f : Filter) (p : Phase)
    → is_answering f.state ≡ true
    → fits p f.state ≡ true
    → let r = drain_stream now f in fits_after r.0.state (advance_all r.1 p) ≡ true
unfolding drain_stream rest_downstream advance_all advance fits_after
drain_stream-fits now f p answering h =
    elim f.stream
      as (λ stream.
        let r : Filter × List Effect = elim stream [
          | none ↦ (f, [])
          | some s ↦ if s.paused then rest_downstream s f else drain_items now s.items s f
        ] in
        fits_after r.0.state (advance_all r.1 p) ≡ true) [
          | none ↦ h
          | some s ↦ ground (arith, drain_items-fits now s.items s f p answering h)
        ]

on_stream_complete-fits :
    (now : ℕ) (f : Filter) (p : Phase)
    → fits p f.state ≡ true
    → let r = on_stream_complete now f in fits_after r.0.state (advance_all r.1 p) ≡ true
unfolding on_stream_complete report_outcome advance_all advance fits_after
on_stream_complete-fits now f p h =
    let reported = report_outcome now Defs.cancelled f in
    let given = abandon_upstreams reported.0 in
    let rest = given.1.1 ++ count_all given.0 given.1.0 in
    let first : fits_after reported.0.state (advance_all reported.1 p) ≡ true = ground arith in
    then-fits reported.1 rest reported.0.state given.0.state p first
      (λ q. quiet-fits reported.0 (given.0, rest) q (given_up-IsQuiet reported.0))

fits-if :
    (p : Phase) (test : Bool) (x y : Filter × List Effect)
    → (test ≡ true → fits_after x.0.state (advance_all x.1 p) ≡ true)
    → (test ≡ false → fits_after y.0.state (advance_all y.1 p) ≡ true)
    → let r = if test then x else y in fits_after r.0.state (advance_all r.1 p) ≡ true
fits-if p true x y hx hy = hx refl
fits-if p false x y hx hy = hy refl

module _ (buffers : BodyBuffers) where
  forward-fits :
      (body : Body buffers) (f : Filter) (p : Phase)
      → fits p f.state ≡ true
      → let r = forward buffers body f in fits_after r.0.state (advance_all r.1 p) ≡ true
  unfolding forward
  forward-fits body f p h =
      quiet-fits f (forward buffers body f) p
        (forward-IsQuiet buffers body.started body.now body.held f) h

  on_scheduled-fits :
      (envoy : Envoy) (now : ℕ) (body : Body buffers) (event_id : ℕ) (f : Filter) (p : Phase)
      → fits p f.state ≡ true
      → let r = on_scheduled buffers envoy now body event_id f in
        fits_after r.0.state (advance_all r.1 p) ≡ true
  unfolding on_scheduled fits_after advance_all
  on_scheduled-fits envoy now body event_id f p h =
      let answering = event_id == response_event_id && is_answering f.state in
      fits-if p (event_id == request_event_id) (forward buffers body f)
        (if event_id == upstream_event_id
          then send_upstream_calls envoy now f
          else if answering
          then drain_stream now f
          else (f, []))
        (λ e. forward-fits body f p h)
        (λ e.
          fits-if p (event_id == upstream_event_id) (send_upstream_calls envoy now f)
            (if answering then drain_stream now f else (f, []))
            (λ e.
              quiet-fits f (send_upstream_calls envoy now f) p
                (send_upstream_calls-IsQuiet envoy now f) h)
            (λ e.
              fits-if p answering (drain_stream now f) (f, [])
                (λ e. drain_stream-fits now f p (ground arith) h) (λ e. h)))

  callback-fits :
      (c : Callback buffers) (f : Filter) (p : Phase)
      → fits p f.state ≡ true
      → let r = callback buffers c f in fits_after r.0.state (advance_all r.1 p) ≡ true
  unfolding callback on_request_body on_request_trailers on_above_high_watermark
      on_below_low_watermark fits_after advance_all advance
  callback-fits (request_body body end_of_stream) f p h =
      forward-fits body (record f { request_end_pending = f.request_end_pending || end_of_stream })
        p h
  callback-fits (request_trailers body) f p h =
      forward-fits body (record f { request_end_pending = true }) p h
  callback-fits (scheduled envoy now body event_id) f p h =
      on_scheduled-fits envoy now body event_id f p h
  callback-fits (callout_done now id answer fields pieces) f p h =
      quiet-fits f (on_http_callout_done now id answer fields pieces f) p
        (on_http_callout_done-IsQuiet now id answer fields pieces f) h
  callback-fits (reported now r) f p h = quiet-fits f (report now r f) p (report-IsQuiet now r f) h
  callback-fits above_high_watermark f p h = ground arith
  callback-fits below_low_watermark f p h = ground arith
  callback-fits (stream_complete now) f p h = on_stream_complete-fits now f p h
  callback-fits (shared response upload route) f p h = h

  run-fits :
      (cs : List (Callback buffers)) (f : Filter) (p : Phase)
      → fits p f.state ≡ true
      → let r = run buffers cs f in fits_after r.0.state (advance_all r.1 p) ≡ true
  unfolding run advance_all fits_after
  run-fits [] f p h = h
  run-fits (c ∷ cs) f p h =
      let first = callback buffers c f in
      let later = run buffers cs first.0 in
      then-fits first.1 later.1 first.0.state later.0.state p (callback-fits c f p h)
        (run-fits cs first.0)

  submit-fits :
      (client : Request → Option BridgeError) (now : ℕ) (f : Filter)
      → f.state ≡ collecting
      → let r = submit client now f in fits_after r.0.state (advance_all r.1 fresh) ≡ true
  unfolding submit admitted submitting report_admission send_bridge_error advance_all advance
      fits_after fits
  submit-fits client now f h = ground arith

  headers_copied-fits :
      (client : Request → Option BridgeError) (now : ℕ) (body : Body buffers) (end_of_stream : Bool)
      (copied : Copied Request) (f : Filter)
      → f.state ≡ collecting
      → let r = headers_copied buffers client now body end_of_stream copied f in
        fits_after r.0.state (advance_all r.1 fresh) ≡ true
  unfolding headers_copied send_invalid_request send_bridge_error advance_all advance fits_after
      fits
  headers_copied-fits client now body end_of_stream (invalid message) f h = ground arith
  headers_copied-fits client now body end_of_stream (valid request) f h =
      let sub = submit client now (record f { request = some request }) in
      let f'' : Filter = record sub.0 { request_end_pending = end_of_stream } in
      let r : Filter × List Effect =
        if end_of_stream then forward buffers body f'' else (f'', []) in
      then-fits sub.1 r.1 sub.0.state r.0.state fresh
        (submit-fits client now (record f { request = some request }) h)
        (λ q hq.
          fits-if q end_of_stream (forward buffers body f'') (f'', [])
            (λ e. forward-fits body f'' q hq) (λ e. hq))

  -- For a filter that has not submitted its request yet: whatever the client's runtime answers and
  -- whatever Envoy reports after the request's headers, in any order and with whatever the fiber does
  -- in between to the streams and the route that it shares with the filter, what the filter sends to
  -- the client is the start of one response: a whole local reply and nothing else, or one head, then
  -- pieces of the body, then at most one last piece or reset. A filter that still expects to answer
  -- has sent exactly what its state says.
  pub one_response :
      (client : Request → Option BridgeError) (context : Option Context) (now : ℕ)
      (attributes : Attributes) (body : Body buffers) (end_of_stream : Bool) (f : Filter)
      (cs : List (Callback buffers))
      → f.state ≡ collecting
      → let first = on_request_headers buffers client context now attributes body end_of_stream f in
        let later = run buffers cs first.0 in
        fits_after later.0.state (advance_all (first.1 ++ later.1) fresh) ≡ true
  unfolding on_request_headers
  one_response client context now attributes body end_of_stream f cs h =
      let copied = copy_headers f.diagnostics_enabled context now attributes in
      let first = headers_copied buffers client now body end_of_stream copied f in
      let later = run buffers cs first.0 in
      then-fits first.1 later.1 first.0.state later.0.state fresh
        (headers_copied-fits client now body end_of_stream copied f h) (run-fits cs first.0)
