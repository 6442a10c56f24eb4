-- ===== src/Worker/Upstreams.antt =====
-- crates/ruvoy-envoy-fiber/src/worker.rs: `send_upstream_calls`, `pump_streams`, and what Envoy
-- reports of the upstream calls and streams, from inside its own calls too.
pub mod Turns
pub mod Pump
use ruvoy.Prelude.{
  ℕ, zero, suc, ◌+◌, ◌-◌, Bool, true, false, not, ◌&&◌, Option, none, some, List, [], ◌∷◌, ◌++◌,
  length, is_empty, Bytes, if◌then◌else◌,
}
use ruvoy.Stream.Defs.{ResponseStream, writer_owed_wakeup}
use ruvoy.Upstream.Defs.{
  UpstreamSettings, Upstreams, UpstreamRequest, UpstreamStreamRequest, wake, take_queued,
  take_queued_streams,
}
use ruvoy.Table.{Table, get, remove, insert, update}
use ruvoy.EnvoyUpstream.Headers.{CallOutcome, completed, refused, abandoned, trace_headers}
use ruvoy.EnvoyUpstream.OpenStream.Defs.{
  OpenStream, StreamAction, ResetReason, next_action, headers_arrived, data_arrived,
  trailers_arrived, complete, reset_by_envoy, outcome_of,
}
use ruvoy.EnvoyUpstream.OpenStream.Defs as OpenStream
use ruvoy.EnvoyUpstream.Calls.{
  InitResult, Callout, CalloutResult, StreamStart, Started, PendingCall, waited, send, start,
  deliver,
}
use ruvoy.EnvoyUpstream.Calls as Calls
use ruvoy.Worker.Defs.{
  Filter, Effect, wakes, commits, resets_stream, sends_stream_data, counts_answered, when,
  count_call, wake_stream, upstream_event_id,
}

-- What Envoy reports of a stream.
pub data Report : Type 0 where
  headers : List (Bytes × Bytes) → Bool → Report
  body : List Bytes → Bool → Report
  trailers : List (Bytes × Bytes) → Report
  completes : Report
  resets : ResetReason → Report

answered : ℕ → Filter → OpenStream → Option ℕ → List Effect
answered now f o none = []
answered now f o (some waited) = when f.metrics (counts_answered o.cluster waited)

unfoldable pub on_http_stream_headers :
    ℕ → ℕ → List (Bytes × Bytes) → Bool → Filter → Filter × List Effect
unfolding answered
on_http_stream_headers now handle fields end_stream f = elim (get handle f.upstream_streams) [
  | none ↦ (f, [])
  | some o ↦
      let (o', waited) = headers_arrived now fields end_stream o in
      (
        record f { upstream_streams = update handle o' f.upstream_streams },
        answered now f o' waited ++ wake_stream o'.channel,
      )
]

-- A stream that sent too fast is reset on the next turn: the route is woken for it.
overflowed : Bool → Option Upstreams → Option Upstreams × List Effect
unfolding wake
overflowed true (some u) = (some (wake u), commits upstream_event_id ∷ [])
overflowed _ u = (u, [])

unfoldable pub on_http_stream_data : ℕ → List Bytes → Bool → Filter → Filter × List Effect
unfolding overflowed
on_http_stream_data handle pieces end_stream f = elim (get handle f.upstream_streams) [
  | none ↦ (f, [])
  | some o ↦
      let (o', too_fast) = data_arrived pieces end_stream o in
      let (u, woken) = overflowed too_fast f.upstreams in
      (
        record f { upstream_streams = update handle o' f.upstream_streams; upstreams = u },
        wake_stream o'.channel ++ woken,
      )
]

unfoldable pub on_http_stream_trailers : ℕ → List (Bytes × Bytes) → Filter → Filter × List Effect
on_http_stream_trailers handle fields f = elim (get handle f.upstream_streams) [
  | none ↦ (f, [])
  | some o ↦
      let o' = trailers_arrived fields o in
      (record f { upstream_streams = update handle o' f.upstream_streams }, wake_stream o'.channel)
]

-- A stream that Envoy lets go of leaves the table and is counted.
let_go : (OpenStream → OpenStream) → ℕ → Filter → Filter × List Effect
let_go ends handle f = elim (get handle f.upstream_streams) [
  | none ↦ (f, [])
  | some o ↦
      let o' = ends o in
      (
        record f { upstream_streams = remove handle f.upstream_streams },
        wake_stream o'.channel ++ count_call f o'.cluster (outcome_of o'),
      )
]

unfoldable pub on_http_stream_complete : ℕ → Filter → Filter × List Effect
unfolding let_go
on_http_stream_complete = let_go complete

unfoldable pub on_http_stream_reset : ℕ → ResetReason → Filter → Filter × List Effect
unfolding let_go
on_http_stream_reset handle reason = let_go (reset_by_envoy reason) handle

unfoldable pub report : ℕ → ℕ × Report → Filter → Filter × List Effect
report now (handle, headers fields end_stream) = on_http_stream_headers now handle fields end_stream
report now (handle, body pieces end_stream) = on_http_stream_data handle pieces end_stream
report now (handle, trailers fields) = on_http_stream_trailers handle fields
report now (handle, completes) = on_http_stream_complete handle
report now (handle, resets reason) = on_http_stream_reset handle reason

unfoldable pub reports : ℕ → List (ℕ × Report) → Filter → Filter × List Effect
reports now [] f = (f, [])
reports now (r ∷ rs) f =
    let (f', effects) = report now r f in
    let (f'', more) = reports now rs f' in (f'', effects ++ more)

max_response_bytes : Option UpstreamSettings → ℕ
max_response_bytes none = 0
max_response_bytes (some settings) = settings.max_response_bytes

is_completed : CallOutcome → Bool
is_completed completed = true
is_completed _ = false

unfoldable pub on_http_callout_done :
    ℕ
    → ℕ
    → CalloutResult
    → Option (List (Bytes × Bytes))
    → Option (List Bytes)
    → Filter
    → Filter × List Effect
unfolding max_response_bytes is_completed
on_http_callout_done now id result fields pieces f = elim (get id f.upstream_calls) [
  | none ↦ (f, [])
  | some call ↦
      let (response, outcome) =
        deliver call.response result fields pieces (max_response_bytes f.upstream_settings) in
      (
        record f { upstream_calls = remove id f.upstream_calls },
        count_call f call.cluster outcome
            ++ (when (is_completed outcome && f.metrics)
                  (counts_answered call.cluster (waited now call))
                ++ wakes response ∷ []),
      )
]

-- What Envoy answers to the filter's calls, and what it reports from inside them. The numbers tell
-- one call from the next: how many are still to be made.
pub record Envoy : Type 0 where
  pub request_header : Bytes → Option Bytes
  pub send_http_callout : ℕ → Callout → InitResult × ℕ
  pub start_http_stream : ℕ → StreamStart → InitResult × ℕ
  pub inside : ℕ → ℕ → StreamAction → List (ℕ × Report)

unfoldable pub sent : ℕ → StreamAction → Effect
sent handle OpenStream.resets = resets_stream handle
sent handle (OpenStream.sends bytes end_stream) = sends_stream_data handle bytes end_stream

module _ (envoy : Envoy) (now : ℕ) where
  -- One turn of the loop, `later` being the rest of it.
  unfoldable pub act_on :
      (Filter → Filter × List Effect)
      → ℕ
      → ℕ
      → OpenStream × Option StreamAction
      → Filter
      → Filter × List Effect
  unfolding sent
  act_on later turn handle (o, none) f =
      (record f { upstream_streams = update handle o f.upstream_streams }, [])
  act_on later turn handle (o, some action) f =
      let (f', inner) =
        reports now (envoy.inside turn handle action)
          (record f { upstream_streams = update handle o f.upstream_streams }) in
      let (f'', more) = later f' in (f'', sent handle action ∷ (inner ++ more))

  -- The loop for one handle, for at most so many turns.
  unfoldable pub pump_stream : ℕ → ℕ → Filter → Filter × List Effect
  unfolding act_on
  pump_stream zero handle f = (f, [])
  pump_stream (suc turns) handle f = elim (get handle f.upstream_streams) [
    | none ↦ (f, [])
    | some o ↦ act_on (pump_stream turns handle) turns handle (next_action o) f
  ]

  unfoldable pub wake_writer : ℕ → Filter → List Effect
  wake_writer handle f = elim (get handle f.upstream_streams) [
    | none ↦ []
    | some o ↦ if writer_owed_wakeup o.channel.request then wakes o.channel.request ∷ [] else []
  ]

  -- Every turn but the last sends a piece of the body or the one reset.
  unfoldable pub turns_for : ℕ → Filter → ℕ
  turns_for handle f = elim (get handle f.upstream_streams) [
    | none ↦ 0
    | some o ↦ length o.channel.request.items + 2
  ]

  unfoldable pub pump_handles : List ℕ → Filter → Filter × List Effect
  unfolding wake_writer turns_for
  pump_handles [] f = (f, [])
  pump_handles (handle ∷ handles) f =
      let (f', effects) = pump_stream (turns_for handle f) handle f in
      let (f'', more) = pump_handles handles f' in (f'', effects ++ (wake_writer handle f' ++ more))

  unfoldable pub keys : Table OpenStream → List ℕ
  keys [] = []
  keys ((handle, o) ∷ streams) = handle ∷ keys streams

  unfoldable pub pump_streams : Filter → Filter × List Effect
  unfolding keys
  pump_streams f = pump_handles (keys f.upstream_streams) f

  -- `self.trace.get_or_insert_with`.
  traced : List Bytes → List (Bytes × Bytes)
  traced [] = []
  traced (name ∷ names) =
      let rest = traced names in
      elim (envoy.request_header name) [ none ↦ rest | some value ↦ (name, value) ∷ rest ]

  unfoldable pub trace_of : Option (List (Bytes × Bytes)) → List (Bytes × Bytes)
  unfolding traced
  trace_of none = traced trace_headers
  trace_of (some trace) = trace

  unfoldable pub turned_away : Filter → Option (ResponseStream × Bytes) → List Effect
  turned_away f none = []
  turned_away f (some (response, cluster)) = wakes response ∷ count_call f cluster refused

  unfoldable pub send_calls :
      List (Bytes × Bytes) → List UpstreamRequest → Filter → Filter × List Effect
  unfolding turned_away
  send_calls trace [] f = (f, [])
  send_calls trace (request ∷ requests) f =
      let (in_flight, away) =
        send (envoy.send_http_callout (length requests)) now request trace f.upstream_calls in
      let (f', more) = send_calls trace requests (record f { upstream_calls = in_flight }) in
      (f', turned_away f away ++ more)

  unfoldable pub settle_start : Started → Filter → Filter × List Effect
  settle_start (Calls.opened handle o) f =
      (record f { upstream_streams = insert handle o f.upstream_streams }, [])
  settle_start (Calls.turned_away channel cluster) f =
      (f, wake_stream channel ++ count_call f cluster refused)
  settle_start (Calls.skipped cluster) f = (f, count_call f cluster abandoned)

  unfoldable pub start_streams :
      List (Bytes × Bytes) → List UpstreamStreamRequest → Filter → Filter × List Effect
  unfolding settle_start
  start_streams trace [] f = (f, [])
  start_streams trace (request ∷ requests) f =
      let started = start (envoy.start_http_stream (length requests)) now request trace in
      let (f', effects) = settle_start started f in
      let (f'', more) = start_streams trace requests f' in (f'', effects ++ more)

  -- What follows once the queues are taken.
  unfoldable pub send_taken :
      List UpstreamRequest → List UpstreamStreamRequest → Filter → Filter × List Effect
  unfolding trace_of
  send_taken calls streams f =
      if is_empty calls && is_empty streams
      then pump_streams f
      else let trace = trace_of f.trace in
        let (f₁, effects₁) = send_calls trace calls (record f { trace = some trace }) in
        let (f₂, effects₂) = start_streams trace streams f₁ in
        let (f₃, effects₃) = pump_streams f₂ in (f₃, effects₁ ++ (effects₂ ++ effects₃))

  unfoldable pub send_upstream_calls : Filter → Filter × List Effect
  unfolding send_taken
  send_upstream_calls f = elim f.upstreams [
    | none ↦ (f, [])
    | some u ↦
        let (u', calls) = take_queued u in
        let (u'', streams) = take_queued_streams u' in
        send_taken calls streams (record f { upstreams = some u'' })
  ]
