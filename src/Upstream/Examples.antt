-- ===== src/Upstream/Examples.antt =====
-- Runs of the upstream route and channel: src/upstream.rs and its tests.
use ruvoy.Prelude.{◌≡◌, refl, true, false, List, [], ◌∷◌, ◌++◌, text, bytes_eq}
use ruvoy.Stream.Defs.{new}
use ruvoy.Upstream.Defs.{
  UpstreamSettings, UpstreamRequest, Upstreams, new_route, allows, queue, close,
}
use ruvoy.Upstream.Route.{
  Op, queues, takes, closes, trace, calls_in, calls_out, streams_in, streams_out, run,
  handed_over_once, close_is_final,
}

abbrev users_only : UpstreamSettings
users_only = record {
  clusters = text "users" ∷ [];
  timeout = 1_000_000_000;
  max_response_bytes = 64;
  stream_buffer_bytes = 64;
}

abbrev request : UpstreamRequest
request = record {
  cluster = text "users";
  headers = [];
  body = [];
  timeout = 1_000_000_000;
  response = new 64;
}

allows_test : (allows users_only (text "users") ≡ true) × (allows users_only (text "user") ≡ false)
unfolding allows text bytes_eq
allows_test = (refl, refl)

abbrev calls : List Op
calls = queues request ∷ takes ∷ queues request ∷ closes ∷ queues request ∷ []

handed_over_once_example :
    (trace calls_out calls (new_route users_only) ++ (run calls (new_route users_only)).queued
      ≡ (new_route users_only).queued ++ trace calls_in calls (new_route users_only))
    × (trace streams_out calls (new_route users_only) ++ (run calls (new_route users_only)).streams
        ≡ (new_route users_only).streams ++ trace streams_in calls (new_route users_only))
handed_over_once_example = handed_over_once calls (new_route users_only)

abbrev busy : Upstreams
busy = (queue request (new_route users_only)).0

close_is_final_example :
    ((close busy).1.calls ≡ busy.queued)
    × ((close busy).1.streams ≡ busy.streams)
    × (trace calls_in calls (close busy).0 ≡ [])
    × (trace streams_in calls (close busy).0 ≡ [])
    × (trace calls_out calls (close busy).0 ≡ [])
    × (trace streams_out calls (close busy).0 ≡ [])
    × ((run calls (close busy).0).closed ≡ true)
close_is_final_example = close_is_final calls busy
