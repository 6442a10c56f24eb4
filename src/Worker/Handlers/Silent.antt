-- ===== src/Worker/Handlers/Silent.antt =====
-- crates/ruvoy-envoy-fiber/src/worker.rs: what the upstream side and the upload do is not seen by
-- the client.
use ruvoy.Prelude.{
  ℕ, ◌≡◌, refl, ap₂, ◌∙◌, Bool, true, false, ◌&&◌, Option, none, some, List, [], ◌∷◌, ◌++◌, map,
  length, if◌then◌else◌, Bytes, arith, is_empty,
}
use ruvoy.Upstream.Defs.{take_queued, take_queued_streams, UpstreamRequest, UpstreamStreamRequest}
use ruvoy.Table.{values}
use ruvoy.EnvoyUpstream.Headers.{CallOutcome}
use ruvoy.EnvoyUpstream.Calls.{CalloutResult, Started, send, start}
use ruvoy.Worker.Defs.{Filter, Effect, count_call, wake_stream}
use ruvoy.Worker.Upload.{BodyBuffers, forward_open, forward_request_body}
use ruvoy.Worker.Submit.{
  abandon_upstreams, give_up, fail_call, fail_unsent, fail_open, unsent_of, call_of, pending_of,
}
use ruvoy.Worker.Handlers.{count_all}
use ruvoy.Worker.Upstreams.{
  Envoy, on_http_callout_done, wake_writer, turns_for, turned_away, trace_of, settle_start,
  send_taken, keys, pump_stream, pump_handles, pump_streams, send_calls, start_streams,
  send_upstream_calls,
}
use ruvoy.Worker.Handlers.Quiet.{
  is_notable, silent, silent-append, IsQuiet, then-IsQuiet, silent-count_call, pump_stream-IsQuiet,
}

pump_handles-IsQuiet :
    (envoy : Envoy) (now : ℕ) (handles : List ℕ) (f : Filter)
    → IsQuiet f (pump_handles envoy now handles f)
unfolding pump_handles silent is_notable wake_writer
pump_handles-IsQuiet envoy now [] f = record { same = refl; unseen = refl }
pump_handles-IsQuiet envoy now (handle ∷ handles) f =
    let first = pump_stream envoy now (turns_for envoy now handle f) handle f in
    let later = pump_handles envoy now handles first.0 in
    let woken : silent (wake_writer envoy now handle first.0) ≡ true = ground arith in
    let pumped = pump_stream-IsQuiet envoy now (turns_for envoy now handle f) handle f in
    then-IsQuiet f first.0 later.0 first.1 (wake_writer envoy now handle first.0 ++ later.1) pumped
      (then-IsQuiet first.0 first.0 later.0 (wake_writer envoy now handle first.0) later.1
        record { same = refl; unseen = woken } (pump_handles-IsQuiet envoy now handles first.0))

send_calls-IsQuiet :
    (envoy : Envoy) (now : ℕ) (trace : List (Bytes × Bytes)) (calls : List UpstreamRequest)
    (f : Filter)
    → IsQuiet f (send_calls envoy now trace calls f)
unfolding send_calls silent is_notable turned_away count_call
send_calls-IsQuiet envoy now trace [] f = record { same = refl; unseen = refl }
send_calls-IsQuiet envoy now trace (r ∷ rs) f =
    let sending = send (envoy.send_http_callout (length rs)) now r trace f.upstream_calls in
    let f' : Filter = record f { upstream_calls = sending.0 } in
    let later = send_calls envoy now trace rs f' in
    let away : silent (turned_away envoy now f sending.1) ≡ true = ground arith in
    then-IsQuiet f f' later.0 (turned_away envoy now f sending.1) later.1
      record { same = refl; unseen = away } (send_calls-IsQuiet envoy now trace rs f')

settle_start-IsQuiet :
    (envoy : Envoy) (now : ℕ) (started : Started) (f : Filter)
    → IsQuiet f (settle_start envoy now started f)
unfolding settle_start silent is_notable count_call wake_stream
settle_start-IsQuiet envoy now _ f = record { same = ground arith; unseen = ground arith }

start_streams-IsQuiet :
    (envoy : Envoy) (now : ℕ) (trace : List (Bytes × Bytes)) (streams : List UpstreamStreamRequest)
    (f : Filter)
    → IsQuiet f (start_streams envoy now trace streams f)
unfolding start_streams silent
start_streams-IsQuiet envoy now trace [] f = record { same = refl; unseen = refl }
start_streams-IsQuiet envoy now trace (r ∷ rs) f =
    let started = start (envoy.start_http_stream (length rs)) now r trace in
    let first = settle_start envoy now started f in
    let later = start_streams envoy now trace rs first.0 in
    then-IsQuiet f first.0 later.0 first.1 later.1 (settle_start-IsQuiet envoy now started f)
      (start_streams-IsQuiet envoy now trace rs first.0)

IsQuiet-if :
    {f : Filter} (test : Bool) (x y : Filter × List Effect)
    → IsQuiet f x
    → IsQuiet f y
    → IsQuiet f (if test then x else y)
IsQuiet-if true x y hx hy = hx
IsQuiet-if false x y hx hy = hy

send_taken-IsQuiet :
    (envoy : Envoy) (now : ℕ) (calls : List UpstreamRequest) (streams : List UpstreamStreamRequest)
    (f : Filter)
    → IsQuiet f (send_taken envoy now calls streams f)
unfolding send_taken pump_streams
send_taken-IsQuiet envoy now calls streams f =
    let trace = trace_of envoy now f.trace in
    let f' : Filter = record f { trace = some trace } in
    let first = send_calls envoy now trace calls f' in
    let second = start_streams envoy now trace streams first.0 in
    let third = pump_streams envoy now second.0 in
    let sending = send_calls-IsQuiet envoy now trace calls f' in
    let pump =
      λ (f : Filter). pump_handles-IsQuiet envoy now (keys envoy now f.upstream_streams) f in
    let rest =
      then-IsQuiet first.0 second.0 third.0 second.1 third.1
        (start_streams-IsQuiet envoy now trace streams first.0) (pump second.0) in
    IsQuiet-if (is_empty calls && is_empty streams) (pump_streams envoy now f)
      (third.0, first.1 ++ (second.1 ++ third.1)) (pump f)
      (then-IsQuiet f first.0 third.0 first.1 (second.1 ++ third.1)
        record { same = sending.same; unseen = sending.unseen } rest)

pub send_upstream_calls-IsQuiet :
    (envoy : Envoy) (now : ℕ) (f : Filter) → IsQuiet f (send_upstream_calls envoy now f)
unfolding send_upstream_calls silent
send_upstream_calls-IsQuiet envoy now f =
    elim f.upstreams
      as (λ route. IsQuiet f (elim route [
        | none ↦ (f, [])
        | some u ↦
            let (u', calls) = take_queued u in
            let (u'', streams) = take_queued_streams u' in
            send_taken envoy now calls streams (record f { upstreams = some u'' })
      ])) [
        | none ↦ record { same = refl; unseen = refl }
        | some u ↦
            let u' = take_queued u in
            let u'' = take_queued_streams u'.0 in
            let quiet =
              send_taken-IsQuiet envoy now u'.1 u''.1 (record f { upstreams = some u''.0 }) in
            record { same = quiet.same; unseen = quiet.unseen }
      ]

pub on_http_callout_done-IsQuiet :
    (now id : ℕ) (answer : CalloutResult) (fields : Option (List (Bytes × Bytes)))
    (pieces : Option (List Bytes)) (f : Filter)
    → IsQuiet f (on_http_callout_done now id answer fields pieces f)
unfolding on_http_callout_done silent is_notable count_call
on_http_callout_done-IsQuiet now id answer fields pieces f = record {
  same = ground arith;
  unseen = ground arith;
}

pub give_up-silent :
    {A : Type 0} (fails : A → (Bytes × CallOutcome) × List Effect) (xs : List A)
    → ((x : A) → silent (fails x).1 ≡ true)
    → silent (give_up fails xs).1 ≡ true
unfolding give_up silent
give_up-silent fails [] h = refl
give_up-silent fails (x ∷ xs) h =
    ground (arith, silent-append (fails x).1 (give_up fails xs).1, h x, give_up-silent fails xs h)

abandon_upstreams-silent : (f : Filter) → silent (abandon_upstreams f).1.1 ≡ true
unfolding abandon_upstreams silent is_notable fail_call fail_unsent fail_open wake_stream
abandon_upstreams-silent f =
    let unsent = unsent_of f.upstreams in
    let calls = map call_of unsent.calls ++ map pending_of (values f.upstream_calls) in
    let first = give_up-silent fail_call calls (λ x. ground arith) in
    let second = give_up-silent fail_unsent unsent.streams (λ x. ground arith) in
    let third = give_up-silent fail_open (values f.upstream_streams) (λ x. ground arith) in
    let x = (give_up fail_call calls).1 in
    let y = (give_up fail_unsent unsent.streams).1 in
    let z = (give_up fail_open (values f.upstream_streams)).1 in
    silent-append x (y ++ z)
    ∙ ap₂ (λ a b. a && b) first (silent-append y z ∙ ap₂ (λ a b. a && b) second third)

count_all-silent :
    (f : Filter) (ended : List (Bytes × CallOutcome)) → silent (count_all f ended) ≡ true
unfolding count_all silent
count_all-silent f [] = refl
count_all-silent f ((cluster, outcome) ∷ ended) = ground (
  arith,
  silent-append (count_call f cluster outcome) (count_all f ended),
  silent-count_call f cluster outcome,
  count_all-silent f ended,
)

-- All of `on_stream_complete` but the outcome that it reports.
pub given_up-IsQuiet :
    (f : Filter) → let r = abandon_upstreams f in IsQuiet f (r.0, r.1.1 ++ count_all r.0 r.1.0)
unfolding abandon_upstreams
given_up-IsQuiet f =
    let given = (abandon_upstreams f).1 in
    let f' = (abandon_upstreams f).0 in
    then-IsQuiet f f' f' given.1 (count_all f' given.0)
      record { same = refl; unseen = abandon_upstreams-silent f }
      record { same = refl; unseen = count_all-silent f' given.0 }

pub forward-IsQuiet :
    (buffers : BodyBuffers) (started now : ℕ) (b : buffers.Buffers) (f : Filter)
    → let r = forward_request_body buffers started now b f in IsQuiet f (r.1, r.2)
unfolding forward_request_body forward_open silent is_notable
forward-IsQuiet buffers started now b f = record { same = ground arith; unseen = ground arith }
