-- ===== src/Extensions/Calls.antt =====
-- src/extensions.rs: `UpstreamObject`, `UpstreamCall` and `UpstreamChannelObject`. What Ruby's values
-- convert to is an argument. A new stream is returned beside the route that it was queued on.
use ruvoy.Prelude.{
  ℕ, zero, suc, Bool, true, false, Option, none, some, List, [], ◌∷◌, ◌++◌, ◌==◌, length,
  if◌then◌else◌, Bytes, text,
}
use ruvoy.Error.{BridgeError, upstream}
use ruvoy.Response.{ResponseHead}
use ruvoy.Stream.Defs.{
  StreamItem, head, chunk, end, failed, ResponseStream, new, take_next, is_cancelled, push_end,
  park, unpark,
}
use ruvoy.Upstream.Defs.{
  allows, StreamChannel, new_channel, Upstreams, queue, queue_stream, wake, close_channel, time_out,
}
use ruvoy.Chunks.Defs.{Raised, arg_error, runtime_error, upstream_error}
use ruvoy.Extensions.Headers.{RackHeaders, rack_headers}

-- A Ruby number of seconds: how it is shown, and the `Duration` that it converts to in nanoseconds,
-- if it does.
pub record Seconds : Type 0 where
  pub shown : Bytes
  pub duration : Option ℕ

-- What Ruby gives for a call; `pairs` is what the header array converts to, entry by entry.
pub data Pair : Type 0 where
  pair : Bytes → Bytes → Pair
  raises : Raised → Pair

pub data Result (A : Type 0) : Type 0 where
  ok : A → Result A
  err : Raised → Result A

unfoldable pub with_pair :
    Bytes → Bytes → Result (List (Bytes × Bytes)) → Result (List (Bytes × Bytes))
with_pair name value (ok pairs) = ok ((name, value) ∷ pairs)
with_pair name value (err raised) = err raised

unfoldable pub header_pairs : List Pair → Result (List (Bytes × Bytes))
unfolding with_pair
header_pairs [] = ok []
header_pairs (pair name value ∷ pairs) = with_pair name value (header_pairs pairs)
header_pairs (raises raised ∷ pairs) = err raised

unfoldable pub arg_raised : Bytes → Raised
arg_raised message = record { class = arg_error; message = message }

-- `quoted` is the `Debug` format of a text.
unfoldable pub not_allowed : (Bytes → Bytes) → Bytes → Raised
unfolding arg_raised
not_allowed quoted cluster = arg_raised (
    text "cluster " ++ (quoted cluster ++ text " is not one this filter lets the application call"))

unfoldable pub not_positive : Bytes → Raised
unfolding arg_raised
not_positive shown = arg_raised (text "timeout must be a positive number of seconds, got " ++ shown)

unfoldable pub positive : Seconds → Option ℕ → Result ℕ
unfolding not_positive
positive s none = err (not_positive s.shown)
positive s (some nanos) = if nanos == 0 then err (not_positive s.shown) else ok nanos

unfoldable pub timeout_of : ℕ → Option Seconds → Result ℕ
unfolding positive
timeout_of default none = ok default
timeout_of default (some s) = positive s s.duration

-- `?`.
unfoldable pub and_then : {A B : Type 0} → Result A → (A → Result B) → Result B
and_then (ok a) next = next a
and_then (err raised) next = err raised

-- What Ruby gets of a call: the answer, nothing yet, or an exception.
pub data Taken : Type 0 where
  nil : Taken
  rack_response : ℕ → RackHeaders → Bytes → Taken
  raised : Raised → Taken

pub record UpstreamCall : Type 0 where
  pub response : ResponseStream
  pub head : Option ResponseHead
  pub body : Bytes
  pub taken : Bool

unfoldable pub new_call : ResponseStream → UpstreamCall
new_call response = record { response = response; head = none; body = []; taken = false }

-- The call with the route that has its request.
unfoldable pub queued :
    Upstreams × Option BridgeError → ResponseStream → Result (Upstreams × UpstreamCall)
unfolding new_call
queued (u, none) response = ok (u, new_call response)
queued (u, some error) response = err (upstream_error error)

unfoldable pub dispatch :
    (Bytes → Bytes)
    → Bytes
    → List Pair
    → Option Bytes
    → Option Seconds
    → Upstreams
    → Result (Upstreams × UpstreamCall)
unfolding and_then not_allowed timeout_of header_pairs queued
dispatch quoted cluster pairs body timeout u =
    if allows u.settings cluster
    then and_then (timeout_of u.settings.timeout timeout) (λ timeout.
      and_then (header_pairs pairs) (λ headers.
        let response = new u.settings.max_response_bytes in
        queued
          (queue
            (record {
              cluster = cluster;
              headers = headers;
              body = elim body [ none ↦ [] | some bytes ↦ bytes ];
              timeout = timeout;
              response = response;
            })
            u)
          response))
    else err (not_allowed quoted cluster)

-- A stream without a body is ended before the worker can see it.
unfoldable pub opened_channel : Bool → ℕ → StreamChannel
opened_channel has_body budget =
    let c = new_channel budget in
    if has_body then c else record c { request = (push_end c.request).0 }

unfoldable pub queued_stream :
    Upstreams × Option BridgeError → StreamChannel → Result (Upstreams × StreamChannel)
queued_stream (u, none) channel = ok (u, channel)
queued_stream (u, some error) channel = err (upstream_error error)

-- Without a deadline of its own the stream has none.
unfoldable pub open_stream :
    (Bytes → Bytes)
    → Bytes
    → List Pair
    → Option Seconds
    → Bool
    → Upstreams
    → Result (Upstreams × StreamChannel)
unfolding and_then not_allowed timeout_of header_pairs queued_stream opened_channel
open_stream quoted cluster pairs timeout has_body u =
    if allows u.settings cluster
    then and_then (timeout_of 0 timeout) (λ timeout. and_then (header_pairs pairs) (λ headers.
      let channel = opened_channel has_body u.settings.stream_buffer_bytes in
      queued_stream
        (queue_stream
          (record { cluster = cluster; headers = headers; timeout = timeout; channel = channel }) u)
        channel))
    else err (not_allowed quoted cluster)

unfoldable pub already_taken : Raised
already_taken = record { class = runtime_error; message = text "the response was already taken" }

unfoldable pub without_head : Raised
without_head = upstream_error (upstream (text "the response ended before its head"))

unfoldable pub ended_with : Option ResponseHead → Bytes → Taken
unfolding without_head
ended_with none body = raised without_head
ended_with (some h) body = rack_response h.status (rack_headers h.headers) body

-- The end of the loop: the head is taken, and with it the body.
unfoldable pub take_end : Option ResponseHead → UpstreamCall → UpstreamCall
take_end none c = record c { taken = true }
take_end (some h) c = record c { taken = true; head = none; body = [] }

-- What an item makes of the call, and the answer if it ends the loop.
unfoldable pub take_item : Option StreamItem → UpstreamCall → UpstreamCall × Option Taken
unfolding take_end ended_with
take_item none c = (c, some nil)
take_item (some (head h)) c = (record c { head = some h }, none)
take_item (some (chunk bytes)) c = (record c { body = c.body ++ bytes }, none)
take_item (some end) c = (take_end c.head c, some (ended_with c.head c.body))
take_item (some (failed error)) c =
    (record c { taken = true }, some (raised (upstream_error error)))

unfoldable pub response_loop : ℕ → UpstreamCall → UpstreamCall × Taken
unfolding take_item
response_loop zero c = (c, nil)
response_loop (suc fuel) c =
    let (s, item) = take_next c.response in
    let (c', answer) = take_item item (record c { response = s }) in
    elim answer [ some t ↦ (c', t) | none ↦ response_loop fuel c' ]

-- Each turn takes an item and the last finds none, so one more than is queued is fuel enough.
unfoldable pub response : UpstreamCall → UpstreamCall × Taken
unfolding response_loop already_taken
response c =
    if c.taken then (c, raised already_taken) else response_loop (suc (length c.response.items)) c

unfoldable pub park_call : ℕ → UpstreamCall → UpstreamCall × Bool
unfolding park
park_call waiter c = let (s, parked) = park waiter c.response in (record c { response = s }, parked)

unfoldable pub unpark_call : UpstreamCall → UpstreamCall
unfolding unpark
unpark_call c = record c { response = (unpark c.response).0 }

-- What `head` of a channel gives.
pub data Head : Type 0 where
  nothing : Head
  found : ℕ → RackHeaders → Head
  raised_head : Raised → Head

unfoldable pub closed_early : Raised
closed_early = upstream_error (upstream (text "the stream was closed"))

unfoldable pub no_head : Raised
no_head = upstream_error (upstream (text "the response arrived without a head"))

unfoldable pub head_of_item : Option StreamItem → Bool → Head
unfolding closed_early no_head
head_of_item none cancelled = if cancelled then raised_head closed_early else nothing
head_of_item (some (head h)) cancelled = found h.status (rack_headers h.headers)
head_of_item (some (failed error)) cancelled = raised_head (upstream_error error)
head_of_item (some _) cancelled = raised_head no_head

unfoldable pub channel_head : StreamChannel → StreamChannel × Head
unfolding head_of_item is_cancelled
channel_head c =
    let (s, item) = take_next c.response in
    (record c { response = s }, head_of_item item (is_cancelled s))

-- `close` and `time_out` of a channel wake the worker.
unfoldable pub close : StreamChannel → Upstreams → StreamChannel × Upstreams
unfolding close_channel wake
close c u = (close_channel c, wake u)

unfoldable pub time_out_stream : StreamChannel → Upstreams → StreamChannel × Upstreams
unfolding time_out wake
time_out_stream c u = (time_out c, wake u)

unfoldable pub trailers : StreamChannel → Option RackHeaders
trailers c = elim c.trailers [ none ↦ none | some fields ↦ some (rack_headers fields) ]
