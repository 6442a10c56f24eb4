-- ===== src/Worker/Handlers/Quiet.antt =====
-- crates/ruvoy-envoy-fiber/src/worker.rs: steps that neither the client nor the counters of requests
-- see, among them what Envoy reports of upstream streams.
use ruvoy.Prelude.{
  ℕ, zero, suc, ◌≡◌, refl, ◌∙◌, Bool, true, false, not, ◌&&◌, Option, none, some, List, [], ◌∷◌,
  ◌++◌, Bytes, arith,
}
use ruvoy.Upstream.Defs.{StreamChannel}
use ruvoy.Table.{get, update}
use ruvoy.EnvoyUpstream.OpenStream.Defs.{OpenStream, StreamAction, next_action}
use ruvoy.EnvoyUpstream.Headers.{CallOutcome}
use ruvoy.Worker.Defs.{
  FilterState, Filter, Effect, count_call, wake_stream, report_outcome, Outcome,
}
use ruvoy.Worker.Defs as Defs
use ruvoy.Worker.Upstreams.{
  Report, Envoy, report, reports, on_http_stream_headers, on_http_stream_data,
  on_http_stream_trailers, on_http_stream_complete, on_http_stream_reset, act_on, sent, pump_stream,
}

-- What the client sees, and what is counted of its request.
unfoldable pub is_notable : Effect → Bool
is_notable (Defs.replies status body details) = true
is_notable (Defs.sends_headers headers) = true
is_notable (Defs.sends_data bytes last) = true
is_notable Defs.resets_downstream = true
is_notable Defs.counts_submitted = true
is_notable (Defs.counts_responded outcome elapsed) = true
is_notable _ = false

unfoldable pub silent : List Effect → Bool
silent [] = true
silent (e ∷ es) = not (is_notable e) && silent es

pub silent-append : (xs ys : List Effect) → silent (xs ++ ys) ≡ (silent xs && silent ys)
unfolding silent
silent-append [] ys = refl
silent-append (x ∷ xs) ys = ground (arith, silent-append xs ys)

-- What a filter knows of the response, and of the count that is owed for it.
abbrev pub ledger : Filter → FilterState × Option ℕ × Bool
ledger f = (f.state, f.submitted_at, f.metrics)

-- A step that shows in neither.
pub record IsQuiet (f : Filter) (r : Filter × List Effect) : Type 0 where
  pub same : ledger r.0 ≡ ledger f
  pub unseen : silent r.1 ≡ true

pub then-IsQuiet :
    (f f' f'' : Filter) (xs ys : List Effect)
    → IsQuiet f (f', xs)
    → IsQuiet f' (f'', ys)
    → IsQuiet f (f'', xs ++ ys)
then-IsQuiet f f' f'' xs ys first second = record {
  same = second.same ∙ first.same;
  unseen = ground (arith, silent-append xs ys);
}

pub silent-wake_stream : (c : StreamChannel) → silent (wake_stream c) ≡ true
unfolding silent is_notable wake_stream
silent-wake_stream c = ground arith

pub silent-count_call :
    (f : Filter) (cluster : Bytes) (outcome : CallOutcome)
    → silent (count_call f cluster outcome) ≡ true
unfolding silent is_notable count_call
silent-count_call f cluster outcome = ground arith

pub report-IsQuiet : (now : ℕ) (r : ℕ × Report) (f : Filter) → IsQuiet f (report now r f)
unfolding silent is_notable report on_http_stream_headers on_http_stream_data
    on_http_stream_trailers on_http_stream_complete on_http_stream_reset count_call wake_stream
report-IsQuiet now (handle, Report.headers fields end_stream) f = record {
  same = ground arith;
  unseen = ground arith;
}
report-IsQuiet now (handle, Report.body pieces end_stream) f = record {
  same = ground arith;
  unseen = ground arith;
}
report-IsQuiet now (handle, Report.trailers fields) f = record {
  same = ground arith;
  unseen = ground arith;
}
report-IsQuiet now (handle, Report.completes) f = record {
  same = ground arith;
  unseen = ground arith;
}
report-IsQuiet now (handle, Report.resets reason) f = record {
  same = ground arith;
  unseen = ground arith;
}

pub reports-IsQuiet : (now : ℕ) (rs : List (ℕ × Report)) (f : Filter) → IsQuiet f (reports now rs f)
unfolding reports silent
reports-IsQuiet now [] f = record { same = refl; unseen = refl }
reports-IsQuiet now (r ∷ rs) f =
    let first = report now r f in
    let later = reports now rs first.0 in
    then-IsQuiet f first.0 later.0 first.1 later.1 (report-IsQuiet now r f)
      (reports-IsQuiet now rs first.0)

pub act_on-IsQuiet :
    (envoy : Envoy) (now : ℕ) (later : Filter → Filter × List Effect) (turn handle : ℕ)
    (next : OpenStream × Option StreamAction) (f : Filter)
    → ((f : Filter) → IsQuiet f (later f))
    → IsQuiet f (act_on envoy now later turn handle next f)
unfolding act_on silent is_notable sent
act_on-IsQuiet envoy now later turn handle (o, none) f quiet = record { same = refl; unseen = refl }
act_on-IsQuiet envoy now later turn handle (o, some action) f quiet =
    let f' : Filter = record f { upstream_streams = update handle o f.upstream_streams } in
    let inner = reports now (envoy.inside turn handle action) f' in
    let rest = later inner.0 in
    let both =
      then-IsQuiet f' inner.0 rest.0 inner.1 rest.1
        (reports-IsQuiet now (envoy.inside turn handle action) f') (quiet inner.0) in
    record { same = both.same; unseen = ground (arith, both.unseen) }

pub pump_stream-IsQuiet :
    (envoy : Envoy) (now turns handle : ℕ) (f : Filter)
    → IsQuiet f (pump_stream envoy now turns handle f)
unfolding pump_stream silent
pump_stream-IsQuiet envoy now zero handle f = record { same = refl; unseen = refl }
pump_stream-IsQuiet envoy now (suc turns) handle f =
    elim (get handle f.upstream_streams)
      as (λ found. IsQuiet f (elim found [
        | none ↦ (f, [])
        | some o ↦
            act_on envoy now (pump_stream envoy now turns handle) turns handle (next_action o) f
      ])) [
        | none ↦ record { same = refl; unseen = refl }
        | some o ↦
            act_on-IsQuiet envoy now (pump_stream envoy now turns handle) turns handle
              (next_action o) f (pump_stream-IsQuiet envoy now turns handle)
      ]
