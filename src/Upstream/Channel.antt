-- ===== src/Upstream/Channel.antt =====
-- src/upstream.rs: how a `StreamChannel` ends.
use ruvoy.Prelude.{◌≡◌, refl, true, false, ◌||◌, List, [], ◌∷◌, ◌++◌, ◌⊎◌, arith, Bytes, is_some}
use ruvoy.Error.{BridgeError}
use ruvoy.Stream.Defs.{
  failed, ResponseStream, cancel, park, unpark, park_writer, set_paused, push, push_failure,
  take_next, is_finished, writer_owed_wakeup, push_chunk_if_room, push_chunk_within_budget,
}
use ruvoy.Stream.Run
use ruvoy.Upstream.Defs.{StreamChannel, close_channel, time_out, fail, wants_reset, set_trailers}

-- A stream that fails still hands over what was queued, and then the failure: it is dropped only if
-- the response has ended or the fiber has closed the stream. Either way the worker has a reset to
-- send, the fiber's body goes nowhere, and a fiber parked on writing it is owed its wakeup.
pub fail_lem :
    (error : BridgeError) (c : StreamChannel)
    → ((((c.response.cancelled || c.response.ended) ≡ true)
          × ((fail error c).response ≡ c.response))
        ⊎ (((c.response.cancelled || c.response.ended) ≡ false)
            × ((fail error c).response.items ≡ c.response.items ++ failed error ∷ [])
            × ((fail error c).response.ended ≡ true)))
      × (wants_reset (fail error c) ≡ true)
      × ((fail error c).request.cancelled ≡ true)
      × (writer_owed_wakeup (fail error c).request ≡ is_some c.request.waiter)
unfolding fail wants_reset push_failure cancel writer_owed_wakeup
fail_lem error c = ground arith

-- What the fiber and the worker call on a channel.
pub data Op : Type 0 where
  closes times_out : Op
  fails : BridgeError → Op
  sets_trailers : List (Bytes × Bytes) → Op
  on_response on_request : Run.Op → Op

unfoldable pub apply : Op → StreamChannel → StreamChannel
apply closes c = close_channel c
apply times_out c = time_out c
apply (fails error) c = fail error c
apply (sets_trailers trailers) c = set_trailers trailers c
apply (on_response op) c = record c { response = Run.apply op c.response }
apply (on_request op) c = record c { request = Run.apply op c.request }

unfoldable pub run : List Op → StreamChannel → StreamChannel
run [] c = c
run (op ∷ ops) c = run ops (apply op c)

-- A cancel is never undone.
cancelled-apply :
    (op : Run.Op) (s : ResponseStream) → s.cancelled ≡ true → (Run.apply op s).cancelled ≡ true
unfolding Run.apply cancel park unpark park_writer set_paused push push_chunk_within_budget
    push_chunk_if_room take_next
cancelled-apply Run.takes s h = ground arith
cancelled-apply _ s h = ground arith

pub record IsStopped (c : StreamChannel) : Type 0 where
  pub resets : c.reset_wanted ≡ true
  pub unsent : c.request.cancelled ≡ true

apply-IsStopped :
    (op : Op) (c : StreamChannel)
    → IsStopped c
    → IsStopped (apply op c)
      × (c.response.cancelled ≡ true → (apply op c).response.cancelled ≡ true)
      × (c.timed_out ≡ true → (apply op c).timed_out ≡ true)
unfolding apply close_channel time_out fail set_trailers cancel push_failure
apply-IsStopped closes c v = ground arith
apply-IsStopped times_out c v = ground arith
apply-IsStopped (fails error) c v = ground arith
apply-IsStopped (sets_trailers trailers) c v = ground arith
apply-IsStopped (on_response op) c v = ground (arith, cancelled-apply op c.response)
apply-IsStopped (on_request op) c v = ground (arith, cancelled-apply op c.request)

run-IsStopped :
    (ops : List Op) (c : StreamChannel)
    → IsStopped c
    → IsStopped (run ops c)
      × (c.response.cancelled ≡ true → (run ops c).response.cancelled ≡ true)
      × (c.timed_out ≡ true → (run ops c).timed_out ≡ true)
unfolding run
run-IsStopped [] c v = (v, λ h. h, λ h. h)
run-IsStopped (op ∷ ops) c v =
    let (v', cancelled, timed) = apply-IsStopped op c v in
    let (v'', cancelled', timed') = run-IsStopped ops (apply op c) v' in
    (v'', λ h. cancelled' (cancelled h), λ h. timed' (timed h))

-- However the application or the worker stops a stream, it stays stopped whatever either does next:
-- the reset stays wanted and no more of the body is accepted. After the application's own stop
-- nothing of the response is left to read either, and a stop for quiet is still known as one.
pub stop_is_final :
    (error : BridgeError) (ops : List Op) (c : StreamChannel)
    → IsStopped (run ops (fail error c))
      × IsStopped (run ops (close_channel c))
      × (is_finished (run ops (close_channel c)).response ≡ true)
      × IsStopped (run ops (time_out c))
      × (is_finished (run ops (time_out c)).response ≡ true)
      × ((run ops (time_out c)).timed_out ≡ true)
unfolding fail close_channel time_out cancel is_finished
stop_is_final error ops c =
    let failed_stop = run-IsStopped ops (fail error c) (record { resets = refl; unsent = refl }) in
    let closed = run-IsStopped ops (close_channel c) (record { resets = refl; unsent = refl }) in
    let quiet = run-IsStopped ops (time_out c) (record { resets = refl; unsent = refl }) in
    (failed_stop.0, closed.0, rw (closed.1 refl), quiet.0, rw (quiet.1 refl), quiet.2 refl)
