-- ===== src/EnvoyUpstream/Calls/Examples.antt =====
-- Runs of upstream calls: crates/ruvoy-envoy-fiber/src/upstream.rs.
use ruvoy.Prelude.{ℕ, refl, Option, some, List, [], ◌∷◌, Bytes, text}
use ruvoy.Stream.Defs as Stream
use ruvoy.Upstream.Defs.{UpstreamRequest, UpstreamStreamRequest, new_channel}
use ruvoy.EnvoyUpstream.Calls.{InitResult, Callout, CalloutResult, StreamStart}
use ruvoy.EnvoyUpstream.Calls.Delivered.{IsDelivered, IsSent, deliver_lem, send_lem}

abbrev ok_head : Option (List (Bytes × Bytes))
ok_head = some ((text ":status", text "200") ∷ [])

deliver_example :
    IsDelivered (Stream.new 64) CalloutResult.success ok_head (some (text "abc" ∷ [])) 2
unfolding Stream.new
deliver_example =
    deliver_lem (Stream.new 64) CalloutResult.success ok_head (some (text "abc" ∷ [])) 2 refl

abbrev call : UpstreamRequest
call = record {
  cluster = text "users";
  headers = [];
  body = text "ping";
  timeout = 1_500_000;
  response = Stream.new 64;
}

abbrev takes_all : Callout → InitResult × ℕ
takes_all request = (InitResult.success, 3)

send_example : IsSent takes_all 9 call [] [] 3
unfolding Stream.new
send_example = send_lem takes_all 9 call [] [] 3 refl

abbrev streamed : UpstreamStreamRequest
streamed = record { cluster = text "users"; headers = []; timeout = 0; channel = new_channel 4 }

abbrev starts_none : StreamStart → InitResult × ℕ
starts_none request = (InitResult.cluster_not_found, 0)
