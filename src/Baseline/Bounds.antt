-- ===== src/Baseline/Bounds.antt =====
-- crates/ruvoy-envoy-baseline/src/lib.rs: what a benchmark request may ask for.
use ruvoy.Prelude.{◌≡◌, ◌≤◌, false, arith, Bytes}
use ruvoy.Std.Trim.{split}
use ruvoy.Baseline.{
  BenchmarkRequest, Parsed, parsed, refused, max_body_bytes, over, check_limits, limited,
  parameters, parse_benchmark_request, no_parameters, query_of,
}

pub record IsBounded (r : BenchmarkRequest) : Type 0 where
  pub wait : r.wait_ms ≤ 1000
  pub response : r.response_bytes ≤ max_body_bytes
  pub expected : over max_body_bytes r.expected_request_bytes ≡ false

limited-IsBounded :
    (p : Parsed BenchmarkRequest) (r : BenchmarkRequest) → limited p ≡ parsed r → IsBounded r
unfolding limited check_limits
limited-IsBounded (refused message) r e = ground arith
limited-IsBounded (parsed q) r e = ground arith

-- A benchmark request that parses waits a second at most, and neither what it answers nor what it
-- expects is over 2 MiB.
parse_benchmark_request-IsBounded :
    (path : Bytes) (r : BenchmarkRequest) → parse_benchmark_request path ≡ parsed r → IsBounded r
unfolding parse_benchmark_request
parse_benchmark_request-IsBounded path r e =
    limited-IsBounded (parameters (split b'&' (query_of path)) no_parameters) r e
