-- ===== src/Serial/Filter/Once.antt =====
-- crates/ruvoy-envoy-sync/src/worker.rs: a request is answered at most once.
use ruvoy.Prelude.{
  ℕ, ◌+◌, ◌≡◌, refl, ap, Bool, true, false, Option, none, some, List, [], ◌∷◌, ◌++◌, Bytes, arith,
}
use ruvoy.Response.{Response}
use ruvoy.Rack.Env.{Result}
use ruvoy.Worker.Metadata.{Attributes}
use ruvoy.Serial.Filter.{
  FilterState, collecting, waiting, responded, SyncRackFilter, Effect, replies, submits, commits,
  copy_headers, copy_received_body, send_bridge_error, submitted, submit, complete,
  send_rack_response, on_request_headers, with_body, on_request_body, on_request_trailers, answered,
  on_scheduled,
}

-- What happens to a filter after its headers: the callbacks, and the completion on the owner thread.
pub data Event : Type 0 where
  body : Option (List Bytes) → Result (Unit {0}) → Bool → Event
  trailers : Result (Unit {0}) → Event
  scheduled : ℕ → Event
  completes : Result Response → Event

unfoldable pub react : Event → SyncRackFilter → SyncRackFilter × List Effect
react (body buffers given end_of_stream) f =
    let (after, effects, status) = on_request_body buffers given end_of_stream f in (after, effects)
react (trailers given) f =
    let (after, effects, status) = on_request_trailers given f in (after, effects)
react (scheduled event_id) f = on_scheduled event_id f
react (completes result) f = complete result f

unfoldable pub run : List Event → SyncRackFilter → SyncRackFilter × List Effect
unfolding react
run [] f = (f, [])
run (event ∷ events) f =
    let (next, effects) = react event f in
    let (last, later) = run events next in (last, effects ++ later)

-- A request's life: its headers, then what happens.
unfoldable pub life :
    Attributes
    → Result (Unit {0})
    → Bool
    → List Event
    → SyncRackFilter
    → SyncRackFilter × List Effect
unfolding run
life envoy given end_of_stream events f =
    let (next, effects, status) = on_request_headers envoy given end_of_stream f in
    let (last, later) = run events next in (last, effects ++ later)

unfoldable pub replies_in : List Effect → ℕ
replies_in [] = 0
replies_in (replies status headers content details ∷ effects) = replies_in effects + 1
replies_in (submits request ∷ effects) = replies_in effects
replies_in (commits event_id ∷ effects) = replies_in effects

unfoldable pub owed : FilterState → ℕ
owed collecting = 1
owed waiting = 1
owed responded = 0

-- The replies and what is still owed.
total : SyncRackFilter × List Effect → ℕ
unfolding replies_in owed
total (f, effects) = replies_in effects + owed f.state

replies_in-append :
    (effects later : List Effect)
    → replies_in (effects ++ later) ≡ replies_in effects + replies_in later
unfolding replies_in
replies_in-append [] later = omega arith
replies_in-append (replies status headers content details ∷ effects) later =
    let ih = replies_in-append effects later in omega arith
replies_in-append (submits request ∷ effects) later = replies_in-append effects later
replies_in-append (commits event_id ∷ effects) later = replies_in-append effects later

total-submit : (given : Result (Unit {0})) (f : SyncRackFilter) → total (submit given f) ≡ 1
unfolding total submit submitted send_bridge_error replies_in owed
total-submit given f = ground arith

total-with_body :
    (given : Result (Unit {0})) (end_of_stream : Bool) (copied : Option SyncRackFilter)
    (f : SyncRackFilter)
    → owed f.state ≡ 1
    → ((g : SyncRackFilter) → copied ≡ some g → g.state ≡ f.state)
    → let r = with_body given end_of_stream copied f in total (r.0, r.1) ≡ 1
unfolding total with_body send_bridge_error replies_in owed
total-with_body given end_of_stream none f one same = omega arith
total-with_body given true (some g) f one same = total-submit given g
total-with_body given false (some g) f one same =
    let kept = same g refl in let moved = ap owed kept in omega arith

copy_received_body-state :
    (buffers : Option (List Bytes)) (f g : SyncRackFilter)
    → copy_received_body buffers f ≡ some g
    → g.state ≡ f.state
unfolding copy_received_body
copy_received_body-state buffers f g = ground arith

total-react : (event : Event) (f : SyncRackFilter) → total (react event f) ≡ owed f.state
unfolding total react on_request_body on_request_trailers on_scheduled complete with_body answered
    send_rack_response send_bridge_error replies_in owed
total-react (body buffers given end_of_stream) f = ground (
  arith,
  total-with_body given end_of_stream (copy_received_body buffers f) f,
  copy_received_body-state buffers f,
)
total-react (trailers given) f = ground (arith, total-submit given f)
total-react (scheduled event_id) f = ground arith
total-react (completes result) f = ground arith

total-run : (events : List Event) (f : SyncRackFilter) → total (run events f) ≡ owed f.state
unfolding run total replies_in
total-run [] f = omega arith
total-run (event ∷ events) f =
    let step = total-react event f in
    let ih = total-run events (react event f).0 in
    let sum = replies_in-append (react event f).1 (run events (react event f).0).1 in omega arith

total-on_request_headers :
    (envoy : Attributes) (given : Result (Unit {0})) (end_of_stream : Bool) (f : SyncRackFilter)
    → f.state ≡ collecting
    → let r = on_request_headers envoy given end_of_stream f in total (r.0, r.1) ≡ 1
unfolding on_request_headers total replies_in owed
total-on_request_headers envoy given true f fresh =
    total-submit given (record f { request = some (copy_headers envoy) })
total-on_request_headers envoy given false f fresh = let moved = ap owed fresh in omega arith

-- Whatever Envoy calls and the runtime completes after the headers of a request, in any order: the
-- replies so far and the one that a filter still owes until it has answered are one together. So a
-- filter answers at most once, and exactly once if it is done.
pub answered_once :
    (envoy : Attributes) (given : Result (Unit {0})) (end_of_stream : Bool) (events : List Event)
    (f : SyncRackFilter)
    → f.state ≡ collecting
    → let (last, effects) = life envoy given end_of_stream events f in
      replies_in effects + owed last.state ≡ 1
unfolding life total
answered_once envoy given end_of_stream events f fresh =
    let first = on_request_headers envoy given end_of_stream f in
    let begun = total-on_request_headers envoy given end_of_stream f fresh in
    let rest = total-run events first.0 in
    let sum = replies_in-append first.1 (run events first.0).1 in omega arith
