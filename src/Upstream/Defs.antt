-- ===== src/Upstream/Defs.antt =====
-- src/upstream.rs: the requests, `StreamChannel` with the two streams that it shares, and the route
-- `Upstreams` with its mutex's contents. The route's waker is the count of the times it ran. A
-- `Duration` is a number of nanoseconds.
use ruvoy.Prelude.{
  ℕ, ◌+◌, Bool, true, false, Option, none, some, List, [], ◌∷◌, ◌++◌, Bytes, text, bytes_eq, any,
  if◌then◌else◌,
}
use ruvoy.Error.{BridgeError, upstream}
use ruvoy.Stream.Defs.{ResponseStream, new, cancel, push_failure}

pub record UpstreamSettings : Type 0 where
  pub clusters : List Bytes
  pub timeout : ℕ
  pub max_response_bytes : ℕ
  pub stream_buffer_bytes : ℕ

unfoldable pub allows : UpstreamSettings → Bytes → Bool
allows settings cluster = any (λ allowed. bytes_eq allowed cluster) settings.clusters

pub record UpstreamRequest : Type 0 where
  pub cluster : Bytes
  pub headers : List (Bytes × Bytes)
  pub body : Bytes
  pub timeout : ℕ
  pub response : ResponseStream

pub record StreamChannel : Type 0 where
  pub response : ResponseStream
  pub request : ResponseStream
  pub reset_wanted : Bool
  pub timed_out : Bool
  pub trailers : Option (List (Bytes × Bytes))

unfoldable pub new_channel : ℕ → StreamChannel
new_channel budget = record {
  response = new budget;
  request = new budget;
  reset_wanted = false;
  timed_out = false;
  trailers = none;
}

unfoldable pub close_channel : StreamChannel → StreamChannel
close_channel c = record c {
  response = cancel c.response;
  request = cancel c.request;
  reset_wanted = true;
}

unfoldable pub time_out : StreamChannel → StreamChannel
unfolding close_channel
time_out c = close_channel (record c { timed_out = true })

unfoldable pub fail : BridgeError → StreamChannel → StreamChannel
fail error c = record c {
  response = (push_failure error c.response).0;
  request = cancel c.request;
  reset_wanted = true;
}

unfoldable pub wants_reset : StreamChannel → Bool
wants_reset c = c.reset_wanted

unfoldable pub set_trailers : List (Bytes × Bytes) → StreamChannel → StreamChannel
set_trailers trailers c = record c { trailers = some trailers }

pub record UpstreamStreamRequest : Type 0 where
  pub cluster : Bytes
  pub headers : List (Bytes × Bytes)
  pub timeout : ℕ
  pub channel : StreamChannel

pub record Unsent : Type 0 where
  pub calls : List UpstreamRequest
  pub streams : List UpstreamStreamRequest

pub record Upstreams : Type 0 where
  pub settings : UpstreamSettings
  pub queued : List UpstreamRequest
  pub streams : List UpstreamStreamRequest
  pub closed : Bool
  pub wakes : ℕ

unfoldable pub new_route : UpstreamSettings → Upstreams
new_route settings = record {
  settings = settings;
  queued = [];
  streams = [];
  closed = false;
  wakes = 0;
}

unfoldable pub wake : Upstreams → Upstreams
wake u = record u { wakes = u.wakes + 1 }

-- What a closed route answers.
unfoldable pub finished_error : BridgeError
finished_error = upstream (text "the request this call belongs to has finished")

unfoldable pub push : (Upstreams → Upstreams) → Upstreams → Upstreams × Option BridgeError
unfolding wake
push add u = if u.closed then (u, some finished_error) else (wake (add u), none)

unfoldable pub queue : UpstreamRequest → Upstreams → Upstreams × Option BridgeError
unfolding push
queue request = push (λ u. record u { queued = u.queued ++ request ∷ [] })

unfoldable pub queue_stream : UpstreamStreamRequest → Upstreams → Upstreams × Option BridgeError
unfolding push
queue_stream request = push (λ u. record u { streams = u.streams ++ request ∷ [] })

unfoldable pub take_queued : Upstreams → Upstreams × List UpstreamRequest
take_queued u = (record u { queued = [] }, u.queued)

unfoldable pub take_queued_streams : Upstreams → Upstreams × List UpstreamStreamRequest
take_queued_streams u = (record u { streams = [] }, u.streams)

unfoldable pub close : Upstreams → Upstreams × Unsent
close u = (
  record u { queued = []; streams = []; closed = true },
  record { calls = u.queued; streams = u.streams },
)
