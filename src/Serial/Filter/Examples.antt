-- ===== src/Serial/Filter/Examples.antt =====
-- Runs of crates/ruvoy-envoy-sync/src/worker.rs.
use ruvoy.Prelude.{
  ◌+◌, ◌≡◌, refl, true, false, none, some, List, [], ◌∷◌, text, bytes_eq, if◌then◌else◌,
}
use ruvoy.Error.{runtime_stopped}
use ruvoy.Rack.Env.{ok, err}
use ruvoy.Worker.Metadata.{Attributes}
use ruvoy.Serial.Filter.{
  SyncRackFilter, responded, new_http_filter, on_scheduled, complete, on_request_trailers,
  on_request_body, on_request_headers,
}
use ruvoy.Serial.Filter.Once.{
  Event, body, trailers, scheduled, completes, life, replies_in, owed, answered_once,
}

abbrev attributes : Attributes
attributes = record {
  request_headers = (text ":method", text "POST") ∷ [];
  header_value = λ name. if bytes_eq name (text ":method") then some (text "POST") else none;
  request_scheme = none;
  request_host = none;
  request_protocol = none;
  destination_address = none;
  destination_port = none;
  source_address = none;
}

abbrev filter : SyncRackFilter
filter = new_http_filter false (text "ThreadId(1)") (text "ThreadId(2)")

-- A body in two pieces, trailers that come too late, the response and its event, twice.
abbrev events : List Event
events =
    body (some (text "ab" ∷ text "c" ∷ [])) (ok tt) false
    ∷ body (some (text "d" ∷ [])) (ok tt) true
    ∷ trailers (err runtime_stopped)
    ∷ completes
        (ok (record { status = 200; headers = []; body = text "ok"; ruby_thread_object_id = 7 }))
    ∷ scheduled 2
    ∷ scheduled 1
    ∷ scheduled 1
    ∷ []

answered_once_example :
    let (last, effects) = life attributes (ok tt) false events filter in
    replies_in effects + owed last.state ≡ 1
unfolding new_http_filter
answered_once_example = answered_once attributes (ok tt) false events filter refl

-- The whole body is handed over once, and the filter ends answered.
is_answered : (life attributes (ok tt) false events filter).0.state ≡ responded
unfolding life text on_scheduled complete on_request_trailers on_request_body on_request_headers
    new_http_filter
is_answered = refl
