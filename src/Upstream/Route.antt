-- ===== src/Upstream/Route.antt =====
-- src/upstream.rs: what becomes of the calls that are queued on a route.
use ruvoy.Prelude.{
  weave, ◌≡◌, refl, sym, true, Option, none, some, List, [], ◌∷◌, ◌++◌, append-nil, arith,
}
use ruvoy.Error.{BridgeError}
use ruvoy.Upstream.Defs.{
  UpstreamRequest, UpstreamStreamRequest, Upstreams, wake, queue, queue_stream, take_queued,
  take_queued_streams, close,
}

-- The methods of the fiber and of the worker, in the order in which they take the lock.
pub data Op : Type 0 where
  queues : UpstreamRequest → Op
  queues_stream : UpstreamStreamRequest → Op
  takes takes_streams wakes closes : Op

unfoldable pub apply : Op → Upstreams → Upstreams
apply (queues r) u = (queue r u).0
apply (queues_stream r) u = (queue_stream r u).0
apply takes u = (take_queued u).0
apply takes_streams u = (take_queued_streams u).0
apply wakes u = wake u
apply closes u = (close u).0

abbrev accepted {ℓ} : {A : Type ℓ} → A → Option BridgeError → List A
accepted a none = a ∷ []
accepted a (some error) = []

-- The calls for which `queue` reported no error.
unfoldable pub calls_in : Op → Upstreams → List UpstreamRequest
calls_in (queues r) u = accepted r (queue r u).1
calls_in _ u = []

-- The calls handed to the worker, to be sent or to be failed as unsent.
unfoldable pub calls_out : Op → Upstreams → List UpstreamRequest
calls_out takes u = (take_queued u).1
calls_out closes u = (close u).1.calls
calls_out _ u = []

unfoldable pub streams_in : Op → Upstreams → List UpstreamStreamRequest
streams_in (queues_stream r) u = accepted r (queue_stream r u).1
streams_in _ u = []

unfoldable pub streams_out : Op → Upstreams → List UpstreamStreamRequest
streams_out takes_streams u = (take_queued_streams u).1
streams_out closes u = (close u).1.streams
streams_out _ u = []

unfoldable pub run : List Op → Upstreams → Upstreams
run [] u = u
run (op ∷ ops) u = run ops (apply op u)

unfoldable pub trace {ℓ} : {A : Type ℓ} → (Op → Upstreams → List A) → List Op → Upstreams → List A
trace f [] u = []
trace f (op ∷ ops) u = f op u ++ trace f ops (apply op u)

record Moves (op : Op) (u : Upstreams) : Type 0 where
  calls : calls_out op u ++ (apply op u).queued ≡ u.queued ++ calls_in op u
  streams : streams_out op u ++ (apply op u).streams ≡ u.streams ++ streams_in op u

apply-Moves : (op : Op) (u : Upstreams) → Moves op u
unfolding apply calls_in calls_out streams_in streams_out queue queue_stream take_queued
    take_queued_streams close wake
apply-Moves takes u = ground (arith, append-nil u.queued, append-nil u.streams)
apply-Moves _ u = ground (arith, append-nil u.queued, append-nil u.streams)

-- Any calls on a route, in any order: every call and stream that was accepted was handed to the
-- worker once and in order, to be sent or to be failed as unsent, or is still queued.
pub handed_over_once :
    (ops : List Op) (u : Upstreams)
    → (trace calls_out ops u ++ (run ops u).queued ≡ u.queued ++ trace calls_in ops u)
      × (trace streams_out ops u ++ (run ops u).streams ≡ u.streams ++ trace streams_in ops u)
unfolding trace run
handed_over_once [] u = (sym (append-nil u.queued), sym (append-nil u.streams))
handed_over_once (op ∷ ops) u =
    let m = apply-Moves op u in
    let (calls, streams) = handed_over_once ops (apply op u) in
    (
      weave (calls_out op u) (trace calls_out ops (apply op u)) (run (op ∷ ops) u).queued u.queued
          (apply op u).queued (calls_in op u) (trace calls_in ops (apply op u)) m.calls calls,
      weave (streams_out op u) (trace streams_out ops (apply op u)) (run (op ∷ ops) u).streams
          u.streams (apply op u).streams (streams_in op u) (trace streams_in ops (apply op u))
          m.streams streams,
    )

record IsClosed (u : Upstreams) : Type 0 where
  pub shut : u.closed ≡ true
  pub no_calls : u.queued ≡ []
  pub no_streams : u.streams ≡ []

apply-IsClosed :
    (op : Op) (u : Upstreams)
    → IsClosed u
    → IsClosed (apply op u)
      × (calls_in op u ≡ [])
      × (streams_in op u ≡ [])
      × (calls_out op u ≡ [])
      × (streams_out op u ≡ [])
unfolding apply calls_in calls_out streams_in streams_out queue queue_stream take_queued
    take_queued_streams close wake
apply-IsClosed takes u v = ground arith
apply-IsClosed _ u v = ground arith

run-IsClosed :
    (ops : List Op) (u : Upstreams)
    → IsClosed u
    → IsClosed (run ops u)
      × (trace calls_in ops u ≡ [])
      × (trace streams_in ops u ≡ [])
      × (trace calls_out ops u ≡ [])
      × (trace streams_out ops u ≡ [])
unfolding trace run
run-IsClosed [] u v = (v, refl, refl, refl, refl)
run-IsClosed (op ∷ ops) u v =
    let (v', a, b, c, d) = apply-IsClosed op u v in
    let (v'', as', bs, cs, ds) = run-IsClosed ops (apply op u) v' in
    (v'', rw a as', rw b bs, rw c cs, rw d ds)

-- Closing hands back all that was queued, and after it nothing is accepted, queued or handed out,
-- whatever is called.
pub close_is_final :
    (ops : List Op) (u : Upstreams)
    → ((close u).1.calls ≡ u.queued)
      × ((close u).1.streams ≡ u.streams)
      × (trace calls_in ops (close u).0 ≡ [])
      × (trace streams_in ops (close u).0 ≡ [])
      × (trace calls_out ops (close u).0 ≡ [])
      × (trace streams_out ops (close u).0 ≡ [])
      × ((run ops (close u).0).closed ≡ true)
unfolding close
close_is_final ops u =
    let (v, a, b, c, d) =
      run-IsClosed ops (close u).0 (record { shut = refl; no_calls = refl; no_streams = refl }) in
    (refl, refl, a, b, c, d, v.shut)
