-- ===== src/Worker/Handlers/Counts.antt =====
-- crates/ruvoy-envoy-fiber/src/worker.rs: an admitted request is counted as ended once.
use ruvoy.Prelude.{
  ℕ, ◌≡◌, refl, ap, ◌∙◌, Bool, true, false, ◌&&◌, ◌||◌, Option, none, some, List, [], ◌∷◌, ◌++◌,
  ◌==◌, is_some, if◌then◌else◌, arith,
}
use ruvoy.Error.{BridgeError}
use ruvoy.Request.{Request, Context}
use ruvoy.Worker.Defs.{
  FilterState, Filter, Effect, report_outcome, report_admission, send_bridge_error,
  send_invalid_request, request_event_id, upstream_event_id, response_event_id,
}
use ruvoy.Worker.Defs as Defs
use ruvoy.Worker.Downstream.{is_waiting, is_streaming, drain_items, drain_stream, rest_downstream}
use ruvoy.Worker.Metadata.{Attributes, Copied, valid, invalid, copy_headers}
use ruvoy.Worker.Submit.{abandon_upstreams, submit, admitted, submitting}
use ruvoy.Worker.Upload.{BodyBuffers}
use ruvoy.Worker.Upstreams.{Envoy, report, send_upstream_calls, on_http_callout_done}
use ruvoy.Worker.Handlers.{
  count_all, Body, forward, headers_copied, on_request_headers, on_request_body,
  on_request_trailers, on_scheduled, Callback, request_body, request_trailers, scheduled,
  callout_done, reported, above_high_watermark, below_low_watermark, stream_complete, shared,
  callback, run, on_above_high_watermark, on_below_low_watermark, on_stream_complete,
}
use ruvoy.Worker.Handlers.Quiet.{report-IsQuiet}
use ruvoy.Worker.Handlers.Silent.{
  forward-IsQuiet, send_upstream_calls-IsQuiet, on_http_callout_done-IsQuiet, given_up-IsQuiet,
}
use ruvoy.Worker.Handlers.Books.{
  admissions, endings, owed, Balances, then-Balances, quiet-Balances, drain_items-Balances,
}

drain_stream-Balances : (now : ℕ) (f : Filter) → Balances f (drain_stream now f)
unfolding drain_stream rest_downstream endings admissions owed
drain_stream-Balances now f =
    elim f.stream
      as (λ stream. Balances f (elim stream [
        | none ↦ (f, [])
        | some s ↦ if s.paused then rest_downstream s f else drain_items now s.items s f
      ])) [ none ↦ refl | some s ↦ ground (arith, drain_items-Balances now s.items s f) ]

Balances-if :
    (f : Filter) (test : Bool) (x y : Filter × List Effect)
    → Balances f x
    → Balances f y
    → Balances f (if test then x else y)
Balances-if f true x y hx hy = hx
Balances-if f false x y hx hy = hy

idle-Balances : (f : Filter) → Balances f (f, [])
unfolding endings admissions
idle-Balances f = refl

on_stream_complete-Balances :
    (now : ℕ) (f : Filter)
    → Balances f (on_stream_complete now f) × (owed (on_stream_complete now f).0 ≡ 0)
unfolding on_stream_complete report_outcome endings admissions owed
on_stream_complete-Balances now f =
    let counted = report_outcome now Defs.cancelled f in
    let given = abandon_upstreams counted.0 in
    let rest = given.1.1 ++ count_all given.0 given.1.0 in
    let first : Balances f counted = ground arith in
    let quiet = given_up-IsQuiet counted.0 in
    let settled : owed given.0 ≡ 0 =
      ap
        (λ (l : FilterState × Option ℕ × Bool).
          let n : ℕ = if l.2 && is_some l.1 then 1 else 0 in n)
        quiet.same
      ∙ ground arith in
    (
      then-Balances f counted.0 given.0 counted.1 rest first
          (quiet-Balances counted.0 (given.0, rest) quiet),
      settled,
    )

owes_nothing : (f : Filter) → f.submitted_at ≡ none → owed f ≡ 0
unfolding owed
owes_nothing f h = ground arith

submit-Balances :
    (client : Request → Option BridgeError) (now : ℕ) (f : Filter)
    → f.submitted_at ≡ none
    → Balances f (submit client now f)
unfolding submit admitted submitting report_admission send_bridge_error endings admissions owed
submit-Balances client now f h = ground arith

module _ (buffers : BodyBuffers) where
  forward-Balances : (body : Body buffers) (f : Filter) → Balances f (forward buffers body f)
  unfolding forward
  forward-Balances body f =
      quiet-Balances f (forward buffers body f)
        (forward-IsQuiet buffers body.started body.now body.held f)

  on_scheduled-Balances :
      (envoy : Envoy) (now : ℕ) (body : Body buffers) (event_id : ℕ) (f : Filter)
      → Balances f (on_scheduled buffers envoy now body event_id f)
  unfolding on_scheduled
  on_scheduled-Balances envoy now body event_id f =
      let answering =
        event_id == response_event_id && (is_waiting f.state || is_streaming f.state) in
      let drained : Filter × List Effect = if answering then drain_stream now f else (f, []) in
      let calls = send_upstream_calls envoy now f in
      Balances-if f (event_id == request_event_id) (forward buffers body f)
        (if event_id == upstream_event_id then calls else drained) (forward-Balances body f)
        (Balances-if f (event_id == upstream_event_id) calls drained
          (quiet-Balances f calls (send_upstream_calls-IsQuiet envoy now f))
          (Balances-if f answering (drain_stream now f) (f, []) (drain_stream-Balances now f)
            (idle-Balances f)))

  callback-Balances : (c : Callback buffers) (f : Filter) → Balances f (callback buffers c f)
  unfolding callback on_request_body on_request_trailers on_above_high_watermark
      on_below_low_watermark endings admissions owed
  callback-Balances (request_body body end_of_stream) f =
      forward-Balances body
        (record f { request_end_pending = f.request_end_pending || end_of_stream })
  callback-Balances (request_trailers body) f =
      forward-Balances body (record f { request_end_pending = true })
  callback-Balances (scheduled envoy now body event_id) f =
      on_scheduled-Balances envoy now body event_id f
  callback-Balances (callout_done now id answer fields pieces) f =
      quiet-Balances f (on_http_callout_done now id answer fields pieces f)
        (on_http_callout_done-IsQuiet now id answer fields pieces f)
  callback-Balances (reported now r) f = quiet-Balances f (report now r f) (report-IsQuiet now r f)
  callback-Balances above_high_watermark f = ground arith
  callback-Balances below_low_watermark f = ground arith
  callback-Balances (stream_complete now) f = (on_stream_complete-Balances now f).0
  callback-Balances (shared response upload route) f = refl

  run-Balances : (cs : List (Callback buffers)) (f : Filter) → Balances f (run buffers cs f)
  unfolding run endings admissions
  run-Balances [] f = refl
  run-Balances (c ∷ cs) f =
      let first = callback buffers c f in
      let later = run buffers cs first.0 in
      then-Balances f first.0 later.0 first.1 later.1 (callback-Balances c f)
        (run-Balances cs first.0)

  headers_copied-Balances :
      (client : Request → Option BridgeError) (now : ℕ) (body : Body buffers) (end_of_stream : Bool)
      (copied : Copied Request) (f : Filter)
      → f.submitted_at ≡ none
      → Balances f (headers_copied buffers client now body end_of_stream copied f)
  unfolding headers_copied send_invalid_request send_bridge_error endings admissions owed
  headers_copied-Balances client now body end_of_stream (invalid message) f h = ground arith
  headers_copied-Balances client now body end_of_stream (valid request) f h =
      let f' : Filter = record f { request = some request } in
      let sub = submit client now f' in
      let f'' : Filter = record sub.0 { request_end_pending = end_of_stream } in
      let r : Filter × List Effect =
        if end_of_stream then forward buffers body f'' else (f'', []) in
      then-Balances f f'' r.0 sub.1 r.1 (submit-Balances client now f' h) (
        Balances-if f'' end_of_stream (forward buffers body f'') (f'', [])
          (forward-Balances body f'') (idle-Balances f''))

  -- The counters of a request come out even: when Envoy has reported the stream complete, and
  -- whatever was reported in between and in which order, the request has been counted as ended as
  -- often as it was counted as admitted, whether the response was sent, failed, or the client went
  -- away. The filter starts with no submission under way.
  pub counted_once :
      (client : Request → Option BridgeError) (context : Option Context) (now done : ℕ)
      (attributes : Attributes) (body : Body buffers) (end_of_stream : Bool) (f : Filter)
      (cs : List (Callback buffers))
      → f.submitted_at ≡ none
      → let first = on_request_headers buffers client context now attributes body end_of_stream f in
        let later = run buffers cs first.0 in
        let last = on_stream_complete done later.0 in
        endings (first.1 ++ (later.1 ++ last.1)) ≡ admissions (first.1 ++ (later.1 ++ last.1))
  unfolding on_request_headers
  counted_once client context now done attributes body end_of_stream f cs h =
      let copied = copy_headers f.diagnostics_enabled context now attributes in
      let first = headers_copied buffers client now body end_of_stream copied f in
      let later = run buffers cs first.0 in
      let last = on_stream_complete done later.0 in
      let complete = on_stream_complete-Balances done later.0 in
      let whole =
        then-Balances f first.0 last.0 first.1 (later.1 ++ last.1)
          (headers_copied-Balances client now body end_of_stream copied f h)
          (then-Balances first.0 later.0 last.0 later.1 last.1 (run-Balances cs first.0)
            complete.0) in
      let nothing_owed : owed f ≡ 0 = owes_nothing f h in
      omega (arith, whole, complete.1, nothing_owed)
