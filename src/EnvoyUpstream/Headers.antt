-- ===== src/EnvoyUpstream/Headers.antt =====
-- crates/ruvoy-envoy-fiber/src/upstream.rs: headers and bodies on their way to and from Envoy, and
-- crates/ruvoy-envoy-fiber/src/metrics.rs, `CallOutcome`. An `EnvoyBuffer` is its bytes.
use ruvoy.Prelude.{
  ℕ, Bool, Option, none, some, List, [], ◌∷◌, ◌++◌, map, Bytes, text, bytes_eq, starts_with_byte,
  any, if◌then◌else◌,
}
use ruvoy.Error.{BridgeError, upstream_overflow, upstream_too_large}
use ruvoy.Response.{ResponseHead}
use ruvoy.Std.Utf8.{from_utf8_lossy}
use ruvoy.Std.Parse.{parse_u16}

pub data CallOutcome : Type 0 where
  completed refused timed_out overflow too_large reset abandoned : CallOutcome

unfoldable pub label : CallOutcome → Bytes
unfolding text
label completed = text "completed"
label refused = text "refused"
label timed_out = text "timed_out"
label overflow = text "overflow"
label too_large = text "too_large"
label reset = text "reset"
label abandoned = text "abandoned"

unfoldable pub failed : BridgeError → CallOutcome
failed (upstream_overflow message) = overflow
failed (upstream_too_large message) = too_large
failed _ = reset

-- The trace context that a call carries on.
abbrev pub trace_headers : List Bytes
trace_headers = map text (
    "traceparent" ∷ "tracestate" ∷ "x-request-id" ∷ "b3" ∷ "x-b3-traceid" ∷ "x-b3-spanid"
    ∷ "x-b3-parentspanid" ∷ "x-b3-sampled" ∷ "x-b3-flags" ∷ [])

unfoldable pub is_set : List (Bytes × Bytes) → Bytes → Bool
is_set headers name = any (λ field. bytes_eq field.0 name) headers

missing : List (Bytes × Bytes) → List (Bytes × Bytes) → List (Bytes × Bytes)
unfolding is_set
missing headers [] = []
missing headers ((name, value) ∷ trace) =
    let rest = missing headers trace in if is_set headers name then rest else (name, value) ∷ rest

-- The application's headers, then whatever of the trace context it did not set.
unfoldable pub with_trace : List (Bytes × Bytes) → List (Bytes × Bytes) → List (Bytes × Bytes)
unfolding missing
with_trace headers trace = headers ++ missing headers trace

-- The two variables of `head_of`'s loop.
record Scan : Type 0 where
  pub status : Option ℕ
  pub fields : List (Bytes × Bytes)

scan_field : Bytes × Bytes → Scan → Scan
unfolding text
scan_field (name, value) s =
    let name' = from_utf8_lossy name in
    let value' = from_utf8_lossy value in
    if bytes_eq name' (text ":status")
    then record s { status = parse_u16 value' }
    else if starts_with_byte b':' name'
    then s
    else record s { fields = s.fields ++ (name', value') ∷ [] }

scan_fields : List (Bytes × Bytes) → Scan → Scan
unfolding scan_field
scan_fields [] s = s
scan_fields (field ∷ fields) s = scan_fields fields (scan_field field s)

of_scan : Option ℕ → List (Bytes × Bytes) → Option ResponseHead
of_scan none fields = none
of_scan (some status) fields =
    some (record { status = status; headers = fields; ruby_thread_object_id = 0 })

unfoldable pub head_of : List (Bytes × Bytes) → Option ResponseHead
unfolding scan_fields of_scan
head_of headers =
    let s = scan_fields headers (record { status = none; fields = [] }) in of_scan s.status s.fields

unfoldable pub concatenate : List Bytes → Bytes
concatenate [] = []
concatenate (chunk ∷ chunks) = chunk ++ concatenate chunks

-- Trailers, read like fields.
unfoldable pub lossy_pairs : List (Bytes × Bytes) → List (Bytes × Bytes)
lossy_pairs = map (λ field. (from_utf8_lossy field.0, from_utf8_lossy field.1))
