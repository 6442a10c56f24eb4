-- ===== src/EnvoyUpstream/OpenStream/Examples.antt =====
-- Runs of an open upstream stream: crates/ruvoy-envoy-fiber/src/upstream.rs.
use ruvoy.Prelude.{◌≡◌, refl, true, false, some, List, [], ◌∷◌, text, arith}
use ruvoy.Stream.Defs as Stream
use ruvoy.Stream.Defs.{ResponseStream}
use ruvoy.Stream.Invariant.{new-IsSound}
use ruvoy.Upstream.Defs.{new_channel, close_channel}
use ruvoy.Upstream.Channel as Channel
use ruvoy.EnvoyUpstream.Headers.{CallOutcome, completed}
use ruvoy.EnvoyUpstream.OpenStream.Defs.{OpenStream, ResetReason, new, reset_by_envoy}
use ruvoy.EnvoyUpstream.OpenStream.Settled.{
  Event, headers, body, acts, fiber, resets, apply, run, IsSynced, IsReleased, by_reset,
  stream-IsReleased, first_outcome_stands,
}
use ruvoy.EnvoyUpstream.OpenStream.Actions.{actions, in_protocol, actions-in_protocol}
use ruvoy.EnvoyUpstream.OpenStream.Blame.{Blamed, reset-Blamed}
use ruvoy.EnvoyUpstream.OpenStream.Delivery.{TakesPiece, data_arrived_lem}

abbrev opened : OpenStream
opened = new 5 (new_channel 4) (text "users") false

opened-IsSynced : IsSynced opened
unfolding new
opened-IsSynced = record { over = refl; known = refl; wanted = refl }

-- A response that is cut short: the head, a piece of the body, and the fiber's close.
abbrev events : List Event
events =
    headers 7 ((text ":status", text "200") ∷ []) false
    ∷ body (text "abc" ∷ []) false
    ∷ acts
    ∷ fiber Channel.closes
    ∷ acts
    ∷ []

stream-IsReleased_example : IsReleased (apply (resets ResetReason.local_reset) (run events opened))
stream-IsReleased_example =
    stream-IsReleased events (resets ResetReason.local_reset) opened
      (by_reset ResetReason.local_reset) opened-IsSynced

actions-in_protocol_example :
    in_protocol opened.request_ended opened.reset_sent (actions events opened) ≡ true
actions-in_protocol_example = actions-in_protocol events opened opened-IsSynced

abbrev ended : OpenStream
ended = record opened { outcome = some completed }

first_outcome_stands_example : (run events ended).outcome ≡ some completed
first_outcome_stands_example = first_outcome_stands completed events ended refl

reset-Blamed_example :
    (x : CallOutcome) × ((reset_by_envoy ResetReason.local_reset (run events opened)).outcome
      ≡ some x)
    × Blamed events opened ResetReason.local_reset x
unfolding new new_channel
reset-Blamed_example = reset-Blamed events opened ResetReason.local_reset opened-IsSynced refl refl

data_arrived_example : TakesPiece (text "abc" ∷ []) true opened
unfolding new new_channel Stream.new
data_arrived_example =
    data_arrived_lem (text "abc" ∷ []) true opened refl refl (new-IsSound 4 (ground arith))

abbrev stopped : OpenStream
stopped = new 5 (close_channel (new_channel 4)) (text "users") false
