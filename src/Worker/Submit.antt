-- ===== src/Worker/Submit.antt =====
-- crates/ruvoy-envoy-fiber/src/worker.rs: `submit`, `abandon_upstreams` and the drop of the filter.
-- What the runtime's client answers to a request is an argument.
pub mod Left
pub mod Abandon
use ruvoy.Prelude.{ℕ, Option, none, some, List, [], ◌∷◌, ◌++◌, map, Bytes, text, if◌then◌else◌}
use ruvoy.Error.{BridgeError, upstream, to_string}
use ruvoy.Stream.Defs.{ResponseStream, new, cancel, push_failure, writer_owed_wakeup}
use ruvoy.Request.{Request, RequestDiagnostics}
use ruvoy.Upstream.Defs.{
  Upstreams, UpstreamRequest, UpstreamStreamRequest, Unsent, new_route, close, fail,
}
use ruvoy.Table.{values}
use ruvoy.EnvoyUpstream.Headers.{CallOutcome, abandoned}
use ruvoy.EnvoyUpstream.OpenStream.Defs.{OpenStream, abandon, outcome_of}
use ruvoy.EnvoyUpstream.Calls.{PendingCall}
use ruvoy.Worker.Defs.{
  Filter, Effect, wakes, waiting, admission, internal, max_buffered_body_bytes, counts_rejected,
  when, report_admission, send_bridge_error, wake_stream,
}

submitted_diagnostics : ℕ → Option RequestDiagnostics → Option RequestDiagnostics
submitted_diagnostics now none = none
submitted_diagnostics now (some d) = some (record d { submitted_at = some now })

body_stream : ResponseStream
unfolding new
body_stream = new max_buffered_body_bytes

-- What the client is handed.
unfoldable pub submitted : ℕ → Filter → Request → Request
unfolding submitted_diagnostics body_stream
submitted now f r = record r {
  diagnostics = submitted_diagnostics now r.diagnostics;
  body_stream = some body_stream;
  upstreams = elim f.upstream_settings [
    | none ↦ r.upstreams
    | some settings ↦ some (new_route settings)
  ];
}

-- The filter while it submits.
unfoldable pub submitting : ℕ → Filter → Request → Filter
unfolding submitted_diagnostics body_stream
submitting now f r = record f {
  request = none;
  diagnostics = submitted_diagnostics now r.diagnostics;
  request_body = some body_stream;
  upstreams = elim f.upstream_settings [
    | none ↦ f.upstreams
    | some settings ↦ some (new_route settings)
  ];
  stream = some body_stream;
}

-- What the client's answer does.
unfoldable pub admitted : ℕ → Option BridgeError → Filter → Filter × List Effect
unfolding report_admission
admitted now none f =
    (record f { state = waiting; submitted_at = some now }, report_admission f none)
admitted now (some error) f =
    let (f', sent) =
      send_bridge_error 503 (to_string error) (text "ruvoy_fiber_submit_failed")
        (record f { stream = none }) in
    (f', report_admission f (some admission) ++ sent)

unfoldable pub submit : (Request → Option BridgeError) → ℕ → Filter → Filter × List Effect
unfolding submitting admitted
submit client now f = elim f.request [
  | none ↦
      let (f', sent) =
        send_bridge_error 500 (text "missing owned request") (text "ruvoy_fiber_missing_request")
          f in
      (f', when f.metrics (counts_rejected internal) ++ sent)
  | some r ↦ admitted now (client (submitted now f r)) (submitting now f r)
]

unfoldable pub call_over : BridgeError
call_over = upstream (text "the request finished before the call did")

unfoldable pub stream_over : BridgeError
stream_over = upstream (text "the request finished before the stream did")

-- The cluster and outcome of each call that is given up, with the wakes that tell its fibers.
abbrev pub Given : Type 0
Given = List (Bytes × CallOutcome) × List Effect

-- A call that was queued or is in flight.
unfoldable pub fail_call : ResponseStream × Bytes → (Bytes × CallOutcome) × List Effect
unfolding call_over
fail_call (response, cluster) =
    ((cluster, abandoned), wakes (push_failure call_over response).0 ∷ [])

unfoldable pub fail_unsent : UpstreamStreamRequest → (Bytes × CallOutcome) × List Effect
unfolding stream_over
fail_unsent r = ((r.cluster, abandoned), wake_stream (fail stream_over r.channel))

unfoldable pub fail_open : OpenStream → (Bytes × CallOutcome) × List Effect
fail_open o = let o' = abandon o in ((o'.cluster, outcome_of o'), wake_stream o'.channel)

unfoldable pub give_up : {A : Type 0} → (A → (Bytes × CallOutcome) × List Effect) → List A → Given
give_up fails [] = ([], [])
give_up fails (x ∷ xs) =
    let (ended, woken) = fails x in
    let (rest, more) = give_up fails xs in (ended ∷ rest, woken ++ more)

unfoldable pub unsent_of : Option Upstreams → Unsent
unsent_of none = record { calls = []; streams = [] }
unsent_of (some u) = (close u).1

unfoldable pub call_of : UpstreamRequest → ResponseStream × Bytes
call_of r = (r.response, r.cluster)

unfoldable pub pending_of : PendingCall → ResponseStream × Bytes
pending_of call = (call.response, call.cluster)

unfoldable pub abandon_upstreams : Filter → Filter × Given
unfolding fail_call fail_unsent fail_open give_up unsent_of call_of pending_of
abandon_upstreams f =
    let unsent = unsent_of f.upstreams in
    let (calls, wakes_calls) =
      give_up fail_call (map call_of unsent.calls ++ map pending_of (values f.upstream_calls)) in
    let (streams, wakes_streams) = give_up fail_unsent unsent.streams in
    let (opened, wakes_open) = give_up fail_open (values f.upstream_streams) in
    (
      record f { upstreams = none; upstream_calls = []; upstream_streams = [] },
      (calls ++ (streams ++ opened), wakes_calls ++ (wakes_streams ++ wakes_open)),
    )

drop_stream : Option ResponseStream → List Effect
drop_stream none = []
drop_stream (some s) = let s' = cancel s in if writer_owed_wakeup s' then wakes s' ∷ [] else []

drop_body : Option ResponseStream → List Effect
drop_body none = []
drop_body (some s) = wakes (cancel s) ∷ []

-- The drop of the filter: nothing is counted any more.
unfoldable pub drop : Filter → List Effect
unfolding drop_stream drop_body
drop f = drop_stream f.stream ++ (drop_body f.request_body ++ (abandon_upstreams f).1.1)
