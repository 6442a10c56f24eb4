-- ===== src/Worker/Submit/Left.antt =====
-- crates/ruvoy-envoy-fiber/src/worker.rs: what a request that is over leaves behind, and what is due
-- to it.
use ruvoy.Prelude.{
  ◌≡◌, true, Option, none, some, List, [], ◌∷◌, ◌++◌, map, is_some, if◌then◌else◌, Bytes, text,
}
use ruvoy.Error.{BridgeError, upstream}
use ruvoy.Stream.Defs.{ResponseStream, failed}
use ruvoy.Upstream.Defs.{UpstreamStreamRequest}
use ruvoy.Table.{values}
use ruvoy.EnvoyUpstream.Headers.{CallOutcome, completed, abandoned}
use ruvoy.EnvoyUpstream.OpenStream.Defs.{OpenStream}
use ruvoy.EnvoyUpstream.OpenStream.Settled.{is_over}
use ruvoy.Worker.Defs.{Filter, Effect, wakes}
use ruvoy.Worker.Submit.{unsent_of, call_of, pending_of}

-- What a request leaves behind: the cluster and outcome that are due to a call or stream, its
-- response, what its reader is owed, and the body that its fiber may be writing.
pub record LeftBehind : Type 0 where
  pub cluster : Bytes
  pub outcome : CallOutcome
  pub response : ResponseStream
  pub error : BridgeError
  pub body : Option ResponseStream

unfoldable pub left_call : ResponseStream × Bytes → LeftBehind
left_call (response, cluster) = record {
  cluster = cluster;
  outcome = abandoned;
  response = response;
  error = upstream (text "the request finished before the call did");
  body = none;
}

unfoldable pub left_unsent : UpstreamStreamRequest → LeftBehind
left_unsent r = record {
  cluster = r.cluster;
  outcome = abandoned;
  response = r.channel.response;
  error = upstream (text "the request finished before the stream did");
  body = some r.channel.request;
}

-- An outcome that a stream has stands; else a byte stream has completed.
unfoldable pub left_open : OpenStream → LeftBehind
left_open o = record {
  cluster = o.cluster;
  outcome = elim o.outcome [
    | some known ↦ known
    | none ↦ if o.upgraded then completed else abandoned
  ];
  response = o.channel.response;
  error = upstream (text "the request finished before the stream did");
  body = some o.channel.request;
}

unfoldable pub left_behind : Filter → List LeftBehind
left_behind f =
    let unsent = unsent_of f.upstreams in
    map left_call (map call_of unsent.calls ++ map pending_of (values f.upstream_calls))
    ++ (map left_unsent unsent.streams ++ map left_open (values f.upstream_streams))

-- The wake of the fiber that writes a body, if it is parked: it finds the body cancelled.
unfoldable pub IsWoken : Option ResponseStream → List Effect → Type 0
IsWoken none effects = effects ≡ []
IsWoken (some body) effects =
    (after : ResponseStream) × (after.cancelled ≡ true)
    × (after.waiter ≡ body.waiter)
    × (effects ≡ (if is_some body.waiter then wakes after ∷ [] else []))

-- The wakes for one: its reader's, who finds what was queued and then the error, unless the response
-- was over already; and its writer's.
unfoldable pub Tells : LeftBehind → List Effect → Type 0
Tells l effects =
    (after : ResponseStream) × (later : List Effect) × (effects ≡ wakes after ∷ later)
    × (is_over after ≡ true)
    × (after.items ≡ (
        if is_over l.response then l.response.items else l.response.items ++ failed l.error ∷ []))
    × IsWoken l.body later

-- The wakes for each, in order, and no other.
unfoldable pub AreTold : List LeftBehind → List Effect → Type 0
AreTold [] effects = effects ≡ []
AreTold (l ∷ ls) effects =
    (mine : List Effect) × (others : List Effect) × (effects ≡ mine ++ others)
    × Tells l mine
    × AreTold ls others

-- The clusters with their outcomes.
unfoldable pub due : List LeftBehind → List (Bytes × CallOutcome)
due = map (λ l. (l.cluster, l.outcome))
