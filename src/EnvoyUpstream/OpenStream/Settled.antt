-- ===== src/EnvoyUpstream/OpenStream/Settled.antt =====
-- crates/ruvoy-envoy-fiber/src/upstream.rs: every stream ends for its fiber, with one outcome.
use ruvoy.Prelude.{
  ℕ, ◌≡◌, Bool, true, false, not, ◌&&◌, ◌||◌, none, some, List, [], ◌∷◌, is_some, if◌then◌else◌,
  Bytes, arith,
}
use ruvoy.Stream.Defs.{
  ResponseStream, cancel, park, unpark, park_writer, set_paused, push, push_head, push_end,
  push_failure, push_chunk_within_budget, push_chunk_if_room, take_next,
}
use ruvoy.Stream.Run
use ruvoy.Upstream.Defs.{fail, set_trailers, close_channel, time_out}
use ruvoy.Upstream.Channel
use ruvoy.EnvoyUpstream.Headers.{CallOutcome, completed, refused, reset, failed}
use ruvoy.EnvoyUpstream.OpenStream.Defs.{
  OpenStream, ResetReason, next_action, headers_arrived, data_arrived, trailers_arrived, complete,
  reset_by_envoy, abandon, stopped_by_fiber,
}

-- What Envoy reports, what the worker does on its own, and what the fiber does to the channel.
pub data Event : Type 0 where
  headers : ℕ → List (Bytes × Bytes) → Bool → Event
  body : List Bytes → Bool → Event
  trailers : List (Bytes × Bytes) → Event
  completes abandons acts : Event
  resets : ResetReason → Event
  fiber : Channel.Op → Event

unfoldable pub apply : Event → OpenStream → OpenStream
apply (headers now fields end_stream) o = (headers_arrived now fields end_stream o).0
apply (body pieces end_stream) o = (data_arrived pieces end_stream o).0
apply (trailers fields) o = trailers_arrived fields o
apply completes o = complete o
apply abandons o = abandon o
apply acts o = (next_action o).0
apply (resets reason) o = reset_by_envoy reason o
apply (fiber op) o = record o { channel = Channel.apply op o.channel }

unfoldable pub run : List Event → OpenStream → OpenStream
run [] o = o
run (e ∷ es) o = run es (apply e o)

-- Nothing more will be queued for the fiber to read.
abbrev pub is_over : ResponseStream → Bool
is_over s = s.cancelled || s.ended

over-apply : (op : Run.Op) (s : ResponseStream) → is_over s ≡ true → is_over (Run.apply op s) ≡ true
unfolding Run.apply cancel park unpark park_writer set_paused push push_chunk_within_budget
    push_chunk_if_room take_next
over-apply Run.takes s h = ground arith
over-apply _ s h = ground arith

-- A response that has ended for the worker is over for the fiber and has an outcome; a reset was
-- sent only where one was wanted.
pub record IsSynced (o : OpenStream) : Type 0 where
  pub over : (o.response_ended && not (is_over o.channel.response)) ≡ false
  pub known : (o.response_ended && not (is_some o.outcome)) ≡ false
  pub wanted : (o.reset_sent && not o.channel.reset_wanted) ≡ false

fiber-IsSynced : (op : Channel.Op) (o : OpenStream) → IsSynced o → IsSynced (apply (fiber op) o)
unfolding apply Channel.apply close_channel time_out fail set_trailers cancel push_failure push
fiber-IsSynced (Channel.on_response op) o v = ground (arith, over-apply op o.channel.response)
fiber-IsSynced _ o v = ground arith

worker-IsSynced : (o : OpenStream) → IsSynced o → IsSynced (next_action o).0
unfolding next_action take_next
worker-IsSynced o v = ground arith

pub apply-IsSynced : (e : Event) (o : OpenStream) → IsSynced o → IsSynced (apply e o)
unfolding apply headers_arrived data_arrived trailers_arrived complete reset_by_envoy abandon fail
    push_head push_end push_failure push_chunk_if_room cancel set_trailers
apply-IsSynced (fiber op) o v = fiber-IsSynced op o v
apply-IsSynced acts o v = worker-IsSynced o v
apply-IsSynced _ o v = ground arith

pub run-IsSynced : (es : List Event) (o : OpenStream) → IsSynced o → IsSynced (run es o)
unfolding run
run-IsSynced [] o v = v
run-IsSynced (e ∷ es) o v = run-IsSynced es (apply e o) (apply-IsSynced e o v)

outcome-apply :
    (x : CallOutcome) (e : Event) (o : OpenStream)
    → o.outcome ≡ some x
    → (apply e o).outcome ≡ some x
unfolding apply headers_arrived data_arrived trailers_arrived complete reset_by_envoy abandon
    next_action
outcome-apply x (fiber op) o h = h
outcome-apply x acts o h = ground arith
outcome-apply x _ o h = ground arith

-- The first outcome of a stream stands, whatever Envoy, the worker or the fiber do after it.
pub first_outcome_stands :
    (x : CallOutcome) (es : List Event) (o : OpenStream)
    → o.outcome ≡ some x
    → (run es o).outcome ≡ some x
unfolding run
first_outcome_stands x [] o h = h
first_outcome_stands x (e ∷ es) o h = first_outcome_stands x es (apply e o) (outcome-apply x e o h)

pub data IsFinal : Event → Type 0 where
  by_complete : IsFinal completes
  by_reset : (reason : ResetReason) → IsFinal (resets reason)
  by_abandon : IsFinal abandons

-- The reader's end of a stream that Envoy has let go of.
pub record IsReleased (o : OpenStream) : Type 0 where
  pub ended : o.response_ended ≡ true
  pub over : is_over o.channel.response ≡ true
  pub known : is_some o.outcome ≡ true
  pub unsent : o.channel.request.cancelled ≡ true

final-IsReleased : (e : Event) (o : OpenStream) → IsFinal e → IsSynced o → IsReleased (apply e o)
unfolding apply complete reset_by_envoy abandon fail push_end push_failure cancel
final-IsReleased _ o by_complete v = ground arith
final-IsReleased _ o (by_reset reason) v = ground arith
final-IsReleased _ o by_abandon v = ground arith

-- No fiber is left waiting for a stream: whatever came before, once Envoy reports it finished or
-- reset, or the request is over, the response is over for its reader, no more of the body is
-- accepted, and the stream has an outcome.
pub stream-IsReleased :
    (es : List Event) (e : Event) (o : OpenStream)
    → IsFinal e
    → IsSynced o
    → IsReleased (apply e (run es o))
stream-IsReleased es e o f v = final-IsReleased e (run es o) f (run-IsSynced es o v)

-- What a reset by Envoy means for a stream whose response is still open and that has no outcome:
-- a byte stream that the worker did not reset has completed, a reset that the worker asked for is
-- the fiber's doing, a stream that Envoy turned away was refused, and any other was reset.
pub reset_by_envoy_outcome :
    (reason : ResetReason) (o : OpenStream)
    → o.outcome ≡ none
    → o.response_ended ≡ false
    → (reset_by_envoy reason o).outcome
      ≡ some (
          if o.upgraded && not o.reset_sent
          then completed
          else if o.reset_sent
          then stopped_by_fiber o
          else elim reason [ ResetReason.overflow ↦ refused | _ ↦ reset ])
unfolding reset_by_envoy stopped_by_fiber failed
reset_by_envoy_outcome ResetReason.overflow o h open_ = ground arith
reset_by_envoy_outcome _ o h open_ = ground arith
