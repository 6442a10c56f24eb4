-- ===== src/EnvoyUpstream/OpenStream/Defs.antt =====
-- crates/ruvoy-envoy-fiber/src/upstream.rs: `OpenStream`, with the `StreamChannel` that it shares
-- with the fiber, and `StreamAction`. The clock is an argument, in nanoseconds.
use ruvoy.Prelude.{
  ℕ, ◌-◌, Bool, true, false, not, ◌&&◌, Option, none, some, List, [], ◌==◌, is_some, is_empty,
  if◌then◌else◌, Bytes, text,
}
use ruvoy.Error.{BridgeError, upstream, upstream_overflow}
use ruvoy.Response.{ResponseHead}
use ruvoy.Stream.Defs.{
  StreamItem, chunk, end, ResponseStream, cancel, take_next, push_head, push_end,
  push_chunk_if_room,
}
use ruvoy.Upstream.Defs.{StreamChannel, fail, wants_reset, set_trailers}
use ruvoy.EnvoyUpstream.Headers.{
  CallOutcome, completed, timed_out, refused, abandoned, failed, head_of, concatenate, lossy_pairs,
}

pub record OpenStream : Type 0 where
  pub channel : StreamChannel
  pub cluster : Bytes
  pub started_at : ℕ
  pub outcome : Option CallOutcome
  pub request_ended : Bool
  pub response_ended : Bool
  pub reset_sent : Bool
  pub upgraded : Bool

unfoldable pub new : ℕ → StreamChannel → Bytes → Bool → OpenStream
new now channel cluster request_ended = record {
  channel = channel;
  cluster = cluster;
  started_at = now;
  outcome = none;
  request_ended = request_ended;
  response_ended = false;
  reset_sent = false;
  upgraded = false;
}

pub data StreamAction : Type 0 where
  resets : StreamAction
  sends : Bytes → Bool → StreamAction

-- The next piece of the body, once `take_next` has answered.
send_item : ResponseStream × Option StreamItem → OpenStream → OpenStream × Option StreamAction
send_item (request, none) o = (record o { channel = record o.channel { request = request } }, none)
send_item (request, some (chunk bytes)) o =
    (record o { channel = record o.channel { request = request } }, some (sends bytes false))
send_item (request, some end) o = (
  record o { channel = record o.channel { request = request }; request_ended = true },
  some (sends [] true),
)
send_item (request, some _) o =
    (record o { channel = record o.channel { request = request } }, none)

unfoldable pub next_action : OpenStream → OpenStream × Option StreamAction
unfolding send_item wants_reset
next_action o =
    if wants_reset o.channel
    then (if o.reset_sent then (o, none) else (record o { reset_sent = true }, some resets))
    else if o.request_ended
    then (o, none)
    else send_item (take_next o.channel.request) o

-- `self.outcome.get_or_insert(outcome)`.
unfoldable pub get_or_insert : CallOutcome → Option CallOutcome → Option CallOutcome
get_or_insert new none = some new
get_or_insert new (some old) = some old

unfoldable pub end_response : OpenStream → OpenStream
unfolding get_or_insert
end_response o = record o {
  response_ended = true;
  outcome = get_or_insert completed o.outcome;
  channel = record o.channel { response = (push_end o.channel.response).0 };
}

unfoldable pub fail_response : BridgeError → OpenStream → OpenStream
unfolding get_or_insert
fail_response error o = record o {
  response_ended = true;
  outcome = get_or_insert (failed error) o.outcome;
  channel = fail error o.channel;
}

unfoldable pub gone : OpenStream → OpenStream
gone o = record o { channel = record o.channel { request = cancel o.channel.request } }

unfoldable pub no_status : BridgeError
no_status = upstream (text "the response carried no valid :status")

usable : ℕ → ResponseHead → Bool → OpenStream → OpenStream × Option ℕ
unfolding end_response
usable now h end_stream o =
    let o' = record o {
      upgraded = h.status == 101;
      channel = record o.channel { response = (push_head h o.channel.response).0 };
    } in
    (if end_stream then end_response o' else o', some (now - o.started_at))

unfoldable pub headers_arrived :
    ℕ → List (Bytes × Bytes) → Bool → OpenStream → OpenStream × Option ℕ
unfolding usable fail_response
headers_arrived now headers end_stream o =
    if o.response_ended then (o, none) else elim (head_of headers) [
      | none ↦ (fail_response no_status o, none)
      | some h ↦ usable now h end_stream o
    ]

unfoldable pub outcome_of : OpenStream → CallOutcome
outcome_of o = elim o.outcome [ none ↦ abandoned | some outcome ↦ outcome ]

unfoldable pub stopped_by_fiber : OpenStream → CallOutcome
stopped_by_fiber o =
    if o.channel.timed_out then timed_out else if o.upgraded then completed else abandoned

unfoldable pub too_fast : BridgeError
too_fast =
    upstream_overflow
      (text "the upstream sent faster than the application read, past the stream's buffer")

end_if : Bool → OpenStream → OpenStream
unfolding end_response
end_if end_stream o = if end_stream then end_response o else o

-- What a piece of the body does, once the queue has answered.
queue_data : Bool → ResponseStream × Option Bool → OpenStream → OpenStream × Bool
unfolding end_if fail_response stopped_by_fiber get_or_insert
queue_data end_stream (response, some true) o =
    (end_if end_stream (record o { channel = record o.channel { response = response } }), false)
queue_data end_stream (response, some false) o = (fail_response too_fast o, true)
queue_data end_stream (response, none) o = (
  record o { response_ended = true; outcome = get_or_insert (stopped_by_fiber o) o.outcome },
  false,
)

unfoldable pub data_arrived : List Bytes → Bool → OpenStream → OpenStream × Bool
unfolding queue_data end_if
data_arrived pieces end_stream o =
    if o.response_ended
    then (o, false)
    else let bytes = concatenate pieces in
      if is_empty bytes
      then (end_if end_stream o, false)
      else queue_data end_stream (push_chunk_if_room bytes o.channel.response) o

unfoldable pub trailers_arrived : List (Bytes × Bytes) → OpenStream → OpenStream
unfolding end_response
trailers_arrived trailers o =
    if o.response_ended
    then o
    else end_response (record o { channel = set_trailers (lossy_pairs trailers) o.channel })

unfoldable pub complete : OpenStream → OpenStream
unfolding end_response gone
complete o = gone (if o.response_ended then o else end_response o)

pub data ResetReason : Type 0 where
  connection_failure connection_termination local_reset local_refused_stream_reset : ResetReason
  overflow remote_reset remote_refused_stream_reset protocol_error : ResetReason

unfoldable pub reset_reason : ResetReason → Bytes
reset_reason connection_failure = text "the upstream could not be reached"
reset_reason connection_termination = text "the upstream connection closed"
reset_reason local_reset = text "the stream was reset locally"
reset_reason local_refused_stream_reset = text "the stream was refused locally"
reset_reason overflow =
    text "Envoy turned the stream away, for example because a circuit breaker is open"
reset_reason remote_reset = text "the upstream reset the stream"
reset_reason remote_refused_stream_reset = text "the upstream refused the stream"
reset_reason protocol_error = text "the upstream broke the HTTP protocol"

-- The outcome that a reset leaves, before the response is failed.
outcome_of_reset : ResetReason → OpenStream → Option CallOutcome
unfolding get_or_insert stopped_by_fiber
outcome_of_reset reason o =
    let stopped =
      if o.reset_sent && not (is_some o.outcome) then some (stopped_by_fiber o) else o.outcome in
    elim reason [ overflow ↦ get_or_insert refused stopped | _ ↦ stopped ]

unfoldable pub reset_by_envoy : ResetReason → OpenStream → OpenStream
unfolding complete outcome_of_reset fail_response gone
reset_by_envoy reason o =
    if o.upgraded && not o.reset_sent
    then complete o
    else let o' = record o { outcome = outcome_of_reset reason o } in
      gone (if o.response_ended then o' else fail_response (upstream (reset_reason reason)) o')

unfoldable pub request_over : BridgeError
request_over = upstream (text "the request finished before the stream did")

unfoldable pub abandon : OpenStream → OpenStream
unfolding get_or_insert fail_response gone
abandon o =
    let ended = if o.upgraded then completed else abandoned in
    let o' = record o { outcome = get_or_insert ended o.outcome } in
    gone (if o.response_ended then o' else fail_response request_over o')
