-- ===== src/Baseline/Examples.antt =====
-- Runs of crates/ruvoy-envoy-baseline/src/lib.rs, two of them from its tests.
use ruvoy.Prelude.{◌≡◌, refl, text, bytes_eq, true, some, [], ◌∷◌}
use ruvoy.Std.Parse.{parse_u64, parse_to, parse_digits}
use ruvoy.Std.Trim.{split, split_once}
use ruvoy.Std.Utf8.{from_utf8_lossy}
use ruvoy.Baseline.{
  parse_benchmark_request, parsed, refused, on_request_headers, spawns, new_http_filter,
  on_scheduled,
}

accepts_expected_request_bytes :
    parse_benchmark_request
      (text "/benchmark?wait_ms=5&response_bytes=10&expected_request_bytes=1024")
    ≡ parsed (record {
      wait_ms = 5;
      response_bytes = 10;
      expected_request_bytes = some 1024;
      request_body = [];
    })
unfolding parse_benchmark_request text bytes_eq split split_once parse_u64 parse_to parse_digits
accepts_expected_request_bytes = refl

rejects_oversized_expected_request_bytes :
    parse_benchmark_request (text "/benchmark?expected_request_bytes=2097153")
    ≡ refused (text "expected_request_bytes exceeds the 2 MiB limit")
unfolding parse_benchmark_request text bytes_eq split split_once parse_u64 parse_to parse_digits
rejects_oversized_expected_request_bytes = refl

-- A benchmark that waits is answered when its event comes.
waits_then_answers :
    let asked =
      on_request_headers
        (some (text "/benchmark?wait_ms=5&response_bytes=1"))
        true
        new_http_filter in
    let fired = on_scheduled 2 asked.0 in (asked.1 ≡ spawns 5 2 ∷ []) × (fired.0.responded ≡ true)
unfolding on_request_headers on_scheduled new_http_filter text bytes_eq split split_once parse_u64
    parse_to parse_digits from_utf8_lossy
waits_then_answers = (refl, refl)
