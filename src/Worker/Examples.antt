-- ===== src/Worker/Examples.antt =====
-- Runs of the HTTP filter: crates/ruvoy-envoy-fiber/src/worker.rs.
use ruvoy.Prelude.{
  ℕ, ◌<◌, ◌≡◌, refl, sym, ap, ◌∙◌, true, false, Option, none, some, List, [], ◌∷◌, ◌++◌, drop, All,
  append-nil, length, Bytes, text, arith,
}
use ruvoy.Error.{BridgeError}
use ruvoy.Stream.Defs as Stream
use ruvoy.Stream.Defs.{StreamItem, chunk, end}
use ruvoy.Std.Parse.{parse_u16, parse_to, parse_digits}
use ruvoy.Request.{Request}
use ruvoy.Upstream.Defs.{new_channel}
use ruvoy.Table.{get, values}
use ruvoy.EnvoyUpstream.Headers.{concatenate}
use ruvoy.EnvoyUpstream.OpenStream.Defs as OpenStream
use ruvoy.EnvoyUpstream.OpenStream.Defs.{OpenStream, ResetReason}
use ruvoy.EnvoyUpstream.Calls.{InitResult}
use ruvoy.Worker.Defs.{Filter, Effect, new_http_filter}
use ruvoy.Worker.Upload.{BodySource, received, retained, BodyBuffers, forward_request_body}
use ruvoy.Worker.Upload.Order.{Drains}
use ruvoy.Worker.Upload.Forward.{IsInOrder, upload-IsInOrder}
use ruvoy.Worker.Upstreams.{Envoy, Report, turns_for, pump_stream}
use ruvoy.Worker.Upstreams.Turns.{rests, all_body, is_body}
use ruvoy.Worker.Upstreams.Pump.{pump_finishes}
use ruvoy.Worker.Metadata.{Attributes, authority_host, authority_port, has_colon}
use ruvoy.Worker.Metadata.Ports.{host_and_port}
use ruvoy.Worker.Handlers.{
  Body, Callback, request_body, scheduled, above_high_watermark, on_request_headers, run,
}
use ruvoy.Worker.Handlers.{on_stream_complete}
use ruvoy.Worker.Handlers.Books.{endings, admissions}
use ruvoy.Worker.Handlers.Counts.{counted_once}
use ruvoy.EnvoyUpstream.OpenStream.Settled.{IsSynced}
use ruvoy.Worker.Submit.{abandon_upstreams}
use ruvoy.Worker.Submit.Left.{left_behind, due, AreTold}
use ruvoy.Worker.Submit.Abandon.{abandon_upstreams_lem}
use ruvoy.Worker.Handlers.Phases.{fresh, advance_all, fits_after}
use ruvoy.Worker.Handlers.Reply.{one_response}

-- Two buffers of Envoy's that each hold their bytes in one slice.
abbrev Held : Type 0
Held = Bytes × Bytes

abbrev one_slice : Bytes → List Bytes
one_slice [] = []
one_slice (c ∷ cs) = (c ∷ cs) ∷ []

abbrev slices_of : BodySource → Held → List Bytes
slices_of received b = one_slice b.0
slices_of retained b = one_slice b.1

abbrev drain_of : BodySource → ℕ → Held → Held
drain_of received n b = (drop n b.0, b.1)
drain_of retained n b = (b.0, drop n b.1)

abbrev two_buffers : BodyBuffers
two_buffers = record {
  Buffers = Held;
  received_is_retained = λ b. false;
  slices = slices_of;
  drain = drain_of;
}

one_slice-concatenate : (xs : Bytes) → concatenate (one_slice xs) ≡ xs
unfolding concatenate
one_slice-concatenate [] = refl
one_slice-concatenate (c ∷ cs) = append-nil (c ∷ cs)

one_slice-solid : (xs : Bytes) → All (λ slice. 0 < length slice) (one_slice xs)
one_slice-solid [] = tt
one_slice-solid (c ∷ cs) = (omega arith, tt)

one_slice-drained :
    (n : ℕ) (xs : Bytes) → concatenate (one_slice (drop n xs)) ≡ drop n (concatenate (one_slice xs))
one_slice-drained n xs =
    one_slice-concatenate (drop n xs) ∙ ap (drop n) (sym (one_slice-concatenate xs))

slices_of-solid :
    (source : BodySource) (b : Held) → All (λ slice. 0 < length slice) (slices_of source b)
slices_of-solid received b = one_slice-solid b.0
slices_of-solid retained b = one_slice-solid b.1

slices_of-drained :
    (source : BodySource) (n : ℕ) (b : Held)
    → concatenate (slices_of source (drain_of source n b))
      ≡ drop n (concatenate (slices_of source b))
slices_of-drained received n b = one_slice-drained n b.0
slices_of-drained retained n b = one_slice-drained n b.1

two_buffers_drain : Drains two_buffers
two_buffers_drain = record {
  solid = slices_of-solid;
  drained = slices_of-drained;
  kept = λ n b differ. (refl, refl);
  alike = λ source n b. refl;
}

abbrev empty_filter : Filter
empty_filter = new_http_filter false (text "1") (text "2") true none

abbrev uploading : Filter
uploading = record empty_filter { request_body = some (Stream.new 4); request_end_pending = true }

upload-IsInOrder_example :
    IsInOrder two_buffers true
      (text "cd", text "ab")
      (Stream.new 4)
      (forward_request_body two_buffers 1 2 (text "cd", text "ab") uploading)
unfolding Stream.new new_http_filter
upload-IsInOrder_example =
    upload-IsInOrder two_buffers two_buffers_drain 1 2 (text "cd", text "ab") uploading
      (Stream.new 4) refl refl refl (omega arith) (omega arith)

abbrev attributes : Attributes
attributes = record {
  request_headers = [];
  header_value = λ name. some (text "/");
  request_scheme = some (text "http");
  request_host = some (text "localhost:8080");
  request_protocol = some (text "HTTP/1.1");
  destination_address = none;
  destination_port = none;
  source_address = none;
}

abbrev no_body : Body two_buffers
no_body = record { started = 1; now = 2; held = ([], []) }

abbrev accepts : Request → Option BridgeError
accepts request = none

-- An upstream that resets the stream from inside the first piece of its body.
abbrev envoy : Envoy
envoy = record {
  request_header = λ name. none;
  send_http_callout = λ n request. (InitResult.success, n);
  start_http_stream = λ n request. (InitResult.success, n);
  inside = λ turn handle action. (handle, Report.resets ResetReason.remote_reset) ∷ [];
}

abbrev callbacks : List (Callback two_buffers)
callbacks = request_body no_body true ∷ scheduled envoy 5 no_body 1 ∷ above_high_watermark ∷ []

abbrev first : Filter × List Effect
first = on_request_headers two_buffers accepts none 3 attributes no_body false empty_filter

one_response_example :
    fits_after
      (run two_buffers callbacks first.0).0.state
      (advance_all (first.1 ++ (run two_buffers callbacks first.0).1) fresh)
    ≡ true
unfolding new_http_filter
one_response_example =
    one_response two_buffers accepts none 3 attributes no_body false empty_filter callbacks refl

counted_once_example :
    endings (
      first.1
      ++ ((run two_buffers callbacks first.0).1
          ++ (on_stream_complete 9 (run two_buffers callbacks first.0).0).1))
    ≡ admissions (
        first.1
        ++ ((run two_buffers callbacks first.0).1
            ++ (on_stream_complete 9 (run two_buffers callbacks first.0).0).1))
unfolding new_http_filter
counted_once_example =
    counted_once two_buffers accepts none 3 9 attributes no_body false empty_filter callbacks refl

abbrev opened : OpenStream
opened = record (OpenStream.new 5 (new_channel 4) (text "users") false) {
  channel = record (new_channel 4) {
    request = record (Stream.new 4) { items = chunk (text "ab") ∷ end ∷ [] };
  };
}

abbrev pumping : Filter
pumping = record empty_filter { upstream_streams = (7, opened) ∷ [] }

pump_finishes_example :
    rests (get 7 (pump_stream envoy 6 (turns_for envoy 6 7 pumping) 7 pumping).0.upstream_streams)
    ≡ true
unfolding OpenStream.new new_channel Stream.new new_http_filter get all_body is_body
pump_finishes_example = pump_finishes envoy 6 7 pumping opened refl refl

abbrev digits : Bytes
digits = b'8' ∷ b'0' ∷ []

host_and_port_example :
    (authority_host ((b'a' ∷ []) ++ b':' ∷ digits) ≡ some (b'a' ∷ []))
    × (authority_port ((b'a' ∷ []) ++ b':' ∷ digits) ≡ some 80)
    × (authority_host (b'a' ∷ []) ≡ some (b'a' ∷ []))
    × (authority_port (b'a' ∷ []) ≡ none)
unfolding has_colon parse_u16 parse_to parse_digits
host_and_port_example = host_and_port b'a' [] digits 80 refl refl refl

pumping-AllSynced : All IsSynced (values pumping.upstream_streams)
unfolding values OpenStream.new new_http_filter
pumping-AllSynced = (record { over = refl; known = refl; wanted = refl }, tt)

abandon_upstreams_example :
    ((abandon_upstreams pumping).1.0 ≡ due (left_behind pumping))
    × AreTold (left_behind pumping) (abandon_upstreams pumping).1.1
    × (left_behind (abandon_upstreams pumping).0 ≡ [])
    × (abandon_upstreams (abandon_upstreams pumping).0 ≡ ((abandon_upstreams pumping).0, ([], [])))
abandon_upstreams_example = abandon_upstreams_lem pumping pumping-AllSynced
