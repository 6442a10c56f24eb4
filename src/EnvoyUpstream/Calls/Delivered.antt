-- ===== src/EnvoyUpstream/Calls/Delivered.antt =====
-- crates/ruvoy-envoy-fiber/src/upstream.rs: every call is answered, and how.
use ruvoy.Prelude.{
  ℕ, ◌≤◌, ◌<◌, ◌≡◌, refl, ap, ◌∙◌, length, length-append, Bool, true, false, Option, none, some,
  List, [], ◌∷◌, ◌++◌, ◌⊎◌, inl, inr, if◌then◌else◌, Bytes, arith, append_assoc, Option-cases, ltb,
  Bool-cases, ◌==◌,
}
use ruvoy.Error.{BridgeError, upstream}
use ruvoy.Response.{ResponseHead}
use ruvoy.Stream.Defs.{
  StreamItem, head, chunk, end, failed, ResponseStream, push_head, push_chunk, push_end,
  push_failure, take_next,
}
use ruvoy.Upstream.Defs.{UpstreamRequest, UpstreamStreamRequest, StreamChannel}
use ruvoy.Table.{get, get-insert}
use ruvoy.EnvoyUpstream.Headers.{CallOutcome, completed, head_of, concatenate}
use ruvoy.EnvoyUpstream.Headers as Headers
use ruvoy.EnvoyUpstream.OpenStream.Defs.{OpenStream, no_status}
use ruvoy.EnvoyUpstream.OpenStream.Settled.{is_over}
use ruvoy.EnvoyUpstream.OpenStream.Delivery.{piece}
use ruvoy.EnvoyUpstream.Calls.{
  InFlight, InitResult, CalloutResult, Callout, callout, refusal, send, ok, err, answer, judge,
  settle, deliver, size_of, or_empty, opened, turned_away, skipped, StreamStart, start,
  stream_start, over_limit, was_reset, too_large_for_envoy,
}

-- What an answer leaves for the reader of an open response.
settle_ok :
    (h : ResponseHead) (body : Bytes) (s : ResponseStream)
    → is_over s ≡ false
    → ((settle (ok h body) s).1 ≡ completed)
      × ((settle (ok h body) s).0.items ≡ s.items ++ head h ∷ piece body true)
unfolding settle push_head push_chunk push_end
settle_ok h body s live = (
  refl,
  ground (
    arith,
    append_assoc s.items (head h ∷ []) (end ∷ []),
    append_assoc (s.items ++ head h ∷ []) (chunk body ∷ []) (end ∷ []),
    append_assoc s.items (head h ∷ []) (chunk body ∷ end ∷ []),
  ),
)

settle_err :
    (error : BridgeError) (s : ResponseStream)
    → is_over s ≡ false
    → ((settle (err error) s).1 ≡ Headers.failed error)
      × ((settle (err error) s).0.items ≡ s.items ++ failed error ∷ [])
unfolding settle push_failure
settle_err error s live = (refl, ground arith)

-- Why a call fails, with its error and the outcome that is counted.
pub data Fault (headers : List (Bytes × Bytes)) (body : List Bytes) (limit : ℕ)
    : CalloutResult → BridgeError → CallOutcome → Type 0 where
  by_reset : Fault headers body limit CalloutResult.reset was_reset Headers.reset
  by_envoy :
      Fault headers body limit CalloutResult.exceed_response_buffer_limit too_large_for_envoy
        Headers.too_large
  by_limit :
      limit < length (concatenate body)
      → Fault headers body limit CalloutResult.success
          (over_limit (length (concatenate body)) limit)
          Headers.too_large
  by_status :
      length (concatenate body) ≤ limit
      → head_of headers ≡ none
      → Fault headers body limit CalloutResult.success no_status Headers.reset

size_of-concatenate : (body : List Bytes) → size_of body ≡ length (concatenate body)
unfolding size_of concatenate
size_of-concatenate [] = refl
size_of-concatenate (piece ∷ pieces) =
    ground (arith, size_of-concatenate pieces, length-append piece (concatenate pieces))

answer_over :
    (headers : List (Bytes × Bytes)) (body : List Bytes) (limit : ℕ)
    → ltb limit (size_of body) ≡ true
    → answer headers body limit ≡ err (over_limit (size_of body) limit)
unfolding answer
answer_over headers body limit over = ground arith

answer_lem :
    (headers : List (Bytes × Bytes)) (body : List Bytes) (limit : ℕ)
    → ((h : ResponseHead) × (head_of headers ≡ some h)
        × (length (concatenate body) ≤ limit)
        × (answer headers body limit ≡ ok h (concatenate body)))
      ⊎ ((error : BridgeError) × (answer headers body limit ≡ err error)
          × Fault headers body limit CalloutResult.success error (Headers.failed error))
unfolding answer Headers.failed over_limit no_status
answer_lem headers body limit =
    let same = size_of-concatenate body in
    elim (Bool-cases (ltb limit (size_of body))) [
      | inl over ↦ inr (
        over_limit (length (concatenate body)) limit,
        answer_over headers body limit over ∙ ap (λ n. err (over_limit n limit)) same,
        by_limit (ground arith),
      )
      | inr fits ↦ elim (Option-cases (head_of headers)) [
        | inl none_valid ↦ inr (no_status, ground arith, by_status (ground arith) none_valid)
        | inr (h, valid) ↦ inl (h, valid, ground arith, ground arith)
      ]
    ]

-- What a call's end may leave its fiber to read.
abbrev pub IsDelivered :
    ResponseStream
    → CalloutResult
    → Option (List (Bytes × Bytes))
    → Option (List Bytes)
    → ℕ
    → Type 0
IsDelivered s result headers body limit =
    ((h : ResponseHead) × (result ≡ CalloutResult.success)
      × (head_of (or_empty headers) ≡ some h)
      × (length (concatenate (or_empty body)) ≤ limit)
      × ((deliver s result headers body limit).1 ≡ completed)
      × ((deliver s result headers body limit).0.items
          ≡ s.items ++ head h ∷ piece (concatenate (or_empty body)) true))
    ⊎ ((error : BridgeError) × Fault (or_empty headers) (or_empty body) limit result error
          (deliver s result headers body limit).1
        × ((deliver s result headers body limit).0.items ≡ s.items ++ failed error ∷ []))

-- For a response that is still open, a call counts as completed exactly when Envoy brought a response
-- with a valid status whose body is within the limit, and then the fiber reads its head, its body if it is not empty, and the end. Any
-- other call gives the fiber one failure: the call was reset, the response was over Envoy's limit or
-- over the application's, or its status was not valid; the error and the outcome say which.
pub deliver_lem :
    (s : ResponseStream) (result : CalloutResult) (headers : Option (List (Bytes × Bytes)))
    (body : Option (List Bytes)) (limit : ℕ)
    → is_over s ≡ false
    → IsDelivered s result headers body limit
unfolding deliver judge Headers.failed
deliver_lem s CalloutResult.success headers body limit live =
    elim (answer_lem (or_empty headers) (or_empty body) limit) [
      | inl (h, valid, fits, e) ↦
          let done = settle_ok h (concatenate (or_empty body)) s live in
          inl (h, refl, valid, fits, rw e done.0, rw e done.1)
      | inr (error, e, fault) ↦
          let done = settle_err error s live in inr (error, rw (e, done.0) fault, rw e done.1)
    ]
deliver_lem s CalloutResult.reset headers body limit live =
    let done = settle_err was_reset s live in inr (was_reset, rw done.0 by_reset, done.1)
deliver_lem s CalloutResult.exceed_response_buffer_limit headers body limit live =
    let done = settle_err too_large_for_envoy s live in
    inr (too_large_for_envoy, rw done.0 by_envoy, done.1)

refusal-none :
    (result : InitResult) (cluster : Bytes)
    → refusal result cluster ≡ none
    → result ≡ InitResult.success
unfolding refusal
refusal-none InitResult.success cluster h = refl
refusal-none _ cluster h = cc

-- What sending a call may do to the calls in flight, `j` being any id.
abbrev pub IsSent :
    (Callout → InitResult × ℕ) → ℕ → UpstreamRequest → List (Bytes × Bytes) → InFlight → ℕ → Type 0
IsSent envoy now r trace in_flight j =
    (((envoy (callout r trace)).0 ≡ InitResult.success)
      × ((send envoy now r trace in_flight).1 ≡ none)
      × (get j (send envoy now r trace in_flight).0 ≡ (
          if (envoy (callout r trace)).1 == j
          then some (record { response = r.response; cluster = r.cluster; sent_at = now })
          else get j in_flight)))
    ⊎ ((reason : Bytes) × (refused : ResponseStream) × (refusal (envoy (callout r trace)).0
            r.cluster
          ≡ some reason)
        × (send envoy now r trace in_flight ≡ (in_flight, some (refused, r.cluster)))
        × (refused.items ≡ r.response.items ++ failed (upstream reason) ∷ []))

-- A call that Envoy takes is in flight under the id that Envoy gave it, beside the calls under other
-- ids; one that Envoy refuses changes nothing there, and its fiber reads why.
pub send_lem :
    (envoy : Callout → InitResult × ℕ) (now : ℕ) (r : UpstreamRequest)
    (trace : List (Bytes × Bytes)) (in_flight : InFlight) (j : ℕ)
    → is_over r.response ≡ false
    → IsSent envoy now r trace in_flight j
unfolding send push_failure
send_lem envoy now r trace in_flight j live =
    let (result, id) = envoy (callout r trace) in
    elim (Option-cases (refusal result r.cluster)) [
      | inl taken ↦ inl (
        refusal-none result r.cluster taken,
        rw taken refl,
        rw taken (get-insert id j _ in_flight),
      )
      | inr (reason, e) ↦
          inr (reason, (push_failure (upstream reason) r.response).0, e, rw e refl, ground arith)
    ]

abbrev pub is_end : Option StreamItem → Bool
is_end (some end) = true
is_end _ = false

-- What Envoy answers to the start, which carries the first piece of the body that is queued.
abbrev pub asked :
    (StreamStart → InitResult × ℕ) → UpstreamStreamRequest → List (Bytes × Bytes) → InitResult × ℕ
asked envoy r trace = envoy (stream_start r trace (take_next r.channel.request).1)

-- What the start of a stream may come to.
abbrev pub IsStarted :
    (StreamStart → InitResult × ℕ) → ℕ → UpstreamStreamRequest → List (Bytes × Bytes) → Type 0
IsStarted envoy now r trace =
    ((r.channel.reset_wanted ≡ true) × (start envoy now r trace ≡ skipped r.cluster))
    ⊎ ((o : OpenStream) × (r.channel.reset_wanted ≡ false)
        × ((asked envoy r trace).0 ≡ InitResult.success)
        × (start envoy now r trace ≡ opened (asked envoy r trace).1 o)
        × (o.cluster ≡ r.cluster)
        × (o.started_at ≡ now)
        × (o.request_ended ≡ is_end (take_next r.channel.request).1)
        × (o.channel.response ≡ r.channel.response)
        × (o.channel.request ≡ (take_next r.channel.request).0)
        × (o.outcome ≡ none))
    ⊎ ((channel : StreamChannel) × (reason : Bytes) × (r.channel.reset_wanted ≡ false)
        × (refusal (asked envoy r trace).0 r.cluster ≡ some reason)
        × (start envoy now r trace ≡ turned_away channel r.cluster)
        × (channel.response ≡ (push_failure (upstream reason) r.channel.response).0)
        × (channel.request.cancelled ≡ true)
        × (channel.reset_wanted ≡ true))
