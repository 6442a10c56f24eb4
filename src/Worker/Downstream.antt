-- ===== src/Worker/Downstream.antt =====
-- crates/ruvoy-envoy-fiber/src/worker.rs: `send_response_head` and `drain_stream`. What the producer
-- queues while the loop runs counts as queued before it.
use ruvoy.Prelude.{
  ℕ, Bool, true, false, ◌||◌, none, some, List, [], ◌∷◌, ◌++◌, Bytes, text, decimal, starts_with,
  starts_with_byte, if◌then◌else◌,
}
use ruvoy.Error.{BridgeError, to_string}
use ruvoy.Response.{ResponseHead}
use ruvoy.Stream.Defs.{
  StreamItem, head, chunk, end, failed, ResponseStream, take_next, writer_owed_wakeup,
}
use ruvoy.Worker.Defs.{
  FilterState, collecting, waiting, streaming, responded, Filter, Effect, sends_headers, sends_data,
  resets_downstream, wakes, report_outcome, send_bridge_error,
}
use ruvoy.Worker.Defs as Defs

abbrev pub is_waiting : FilterState → Bool
is_waiting waiting = true
is_waiting _ = false

abbrev pub is_streaming : FilterState → Bool
is_streaming streaming = true
is_streaming _ = false

-- Pseudo-headers and the keys that Rack keeps for itself do not go out.
unfoldable pub is_private : Bytes → Bool
is_private name = starts_with_byte b':' name || starts_with (text "rack.") name

public_headers : List (Bytes × Bytes) → List (Bytes × Bytes)
unfolding is_private
public_headers [] = []
public_headers ((name, value) ∷ headers) =
    let rest = public_headers headers in if is_private name then rest else (name, value) ∷ rest

diagnostic_headers : Filter → List (Bytes × Bytes)
diagnostic_headers f =
    if f.diagnostics_enabled
    then (text "x-ruvoy-runtime-rust-thread-id", f.runtime_thread_id)
      ∷ (text "x-ruvoy-worker-rust-thread-id", f.worker_thread_id)
      ∷ []
    else []

unfoldable pub response_headers : Filter → ResponseHead → List (Bytes × Bytes)
unfolding public_headers diagnostic_headers
response_headers f h =
    (text ":status", decimal h.status) ∷ (public_headers h.headers ++ diagnostic_headers f)

unfoldable pub send_response_head : ResponseHead → Filter → Filter × List Effect
send_response_head h f = (record f { state = streaming }, sends_headers (response_headers f h) ∷ [])

-- The end of the body: the filter is settled and counted before the last piece goes out.
unfoldable pub end_downstream : ℕ → Filter → Filter × List Effect
end_downstream now f =
    let last : List Effect = if is_streaming f.state then sends_data [] true ∷ [] else [] in
    let (f', counted) =
      report_outcome now Defs.completed (record f { state = responded; stream = none }) in
    (f', counted ++ last)

abbrev pub ruby_error : Bytes
ruby_error = text "ruvoy_fiber_ruby_error"

unfoldable pub fail_downstream : ℕ → BridgeError → Filter → Filter × List Effect
unfolding report_outcome send_bridge_error
fail_downstream now error f =
    let local_reply_possible = is_waiting f.state in
    let (f', counted) = report_outcome now Defs.failed (record f { stream = none }) in
    if local_reply_possible
    then (
      (send_bridge_error 500 (to_string error) ruby_error f').0,
      counted ++ (send_bridge_error 500 (to_string error) ruby_error f').1,
    )
    else (record f' { state = responded }, counted ++ resets_downstream ∷ [])

-- The queue is empty or paused: the writer parked on it is woken if it may go on.
unfoldable pub rest_downstream : ResponseStream → Filter → Filter × List Effect
rest_downstream s f =
    (record f { stream = some s }, if writer_owed_wakeup s then wakes s ∷ [] else [])

-- One turn of the loop for each queued item, `s` being the stream before it is taken.
unfoldable pub drain_items : ℕ → List StreamItem → ResponseStream → Filter → Filter × List Effect
unfolding send_response_head end_downstream fail_downstream rest_downstream
drain_items now [] s f = rest_downstream s f
drain_items now (head h ∷ items) s f =
    let (f', sent) : Filter × List Effect =
      if is_waiting f.state then send_response_head h f else (f, []) in
    let (f'', effects) = drain_items now items (take_next s).0 f' in (f'', sent ++ effects)
drain_items now (chunk bytes ∷ items) s f =
    let (f', effects) = drain_items now items (take_next s).0 f in
    (f', (if is_streaming f.state then sends_data bytes false ∷ [] else []) ++ effects)
drain_items now (end ∷ items) s f = end_downstream now f
drain_items now (failed error ∷ items) s f = fail_downstream now error f

unfoldable pub drain_stream : ℕ → Filter → Filter × List Effect
unfolding drain_items rest_downstream
drain_stream now f = elim f.stream [
  | none ↦ (f, [])
  | some s ↦ if s.paused then rest_downstream s f else drain_items now s.items s f
]
