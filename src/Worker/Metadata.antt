-- ===== src/Worker/Metadata.antt =====
-- crates/ruvoy-envoy-fiber/src/worker.rs: `copy_headers`, `request_metadata` and what they read out
-- of Envoy's attributes. Offsets in a text are offsets in its bytes, as in the source.
pub mod Ports
use ruvoy.Prelude.{
  ℤ, pos, negsuc, ℕ, zero, suc, ◌+◌, Bool, true, false, not, ◌&&◌, Option, none, some, List, [],
  ◌∷◌, ◌++◌, ◌==◌, leb, is_some, is_empty, take, drop, any, map, Bytes, text, bytes_eq,
  if◌then◌else◌,
}
use ruvoy.Std.Utf8.{from_utf8_lossy}
use ruvoy.Std.Parse.{parse_u16}
use ruvoy.Request.{Request, RequestMetadata, RequestDiagnostics, Context, new_diagnostics}

-- `find`: where a byte stands first.
unfoldable pub find : ℕ → Bytes → Option ℕ
find c [] = none
find c (x ∷ xs) =
    let later = find c xs in
    if x == c then some 0 else elim later [ none ↦ none | some n ↦ some (n + 1) ]

-- `rsplit_once`: what stands before and after the last occurrence of a byte.
unfoldable pub rsplit_once : ℕ → Bytes → Option (Bytes × Bytes)
rsplit_once c [] = none
rsplit_once c (x ∷ xs) =
    let later = rsplit_once c xs in
    elim later [
      | some (before, after) ↦ some (x ∷ before, after)
      | none ↦ if x == c then some ([], xs) else none
    ]

unfoldable pub has_colon : Bytes → Bool
has_colon = any (λ c. c == b':')

some_if_any : Bytes → Option Bytes
some_if_any bytes = if is_empty bytes then none else some bytes

-- A host without its port, if what follows the last colon is one.
host_before : Option (Bytes × Bytes) → Bytes → Option Bytes
unfolding some_if_any has_colon
host_before (some (host, port)) authority =
    if not (has_colon host) && is_some (parse_u16 port)
    then some_if_any host
    else some_if_any authority
host_before none authority = some_if_any authority

port_after : Option (Bytes × Bytes) → Option ℕ
unfolding has_colon
port_after (some (host, port)) = if has_colon host then none else parse_u16 port
port_after none = none

-- The address in brackets, the closing one included.
bracketed : Bytes → Option ℕ → Option Bytes
bracketed authority none = none
bracketed authority (some closing) = some (take (closing + 2) authority)

port_behind : Bytes → Option Bytes
port_behind [] = none
port_behind (c ∷ rest) = if c == b':' then some rest else none

port_at : Bytes → Option ℕ → Option ℕ
unfolding port_behind
port_at rest none = none
port_at rest (some closing) = elim (port_behind (drop (closing + 1) rest)) [
  | none ↦ none
  | some port ↦ parse_u16 port
]

unfoldable pub authority_host : Bytes → Option Bytes
unfolding host_before bracketed some_if_any
authority_host [] = host_before (rsplit_once b':' []) []
authority_host (c ∷ rest) =
    if c == b'['
    then bracketed (c ∷ rest) (find b']' rest)
    else host_before (rsplit_once b':' (c ∷ rest)) (c ∷ rest)

unfoldable pub authority_port : Bytes → Option ℕ
unfolding port_after port_at
authority_port [] = none
authority_port (c ∷ rest) =
    if c == b'[' then port_at rest (find b']' rest) else port_after (rsplit_once b':' (c ∷ rest))

unfoldable pub default_port : Bytes → Option ℕ
default_port scheme =
    if bytes_eq scheme (text "http")
    then some 80
    else if bytes_eq scheme (text "ws")
    then some 80
    else if bytes_eq scheme (text "https")
    then some 443
    else if bytes_eq scheme (text "wss")
    then some 443
    else none

-- `u16::try_from` of an `i64` attribute.
unfoldable pub u16_of : Option ℤ → Option ℕ
u16_of (some (pos n)) = if leb n 65535 then some n else none
u16_of _ = none

-- What a request's filter reads from Envoy.
pub record Attributes : Type 0 where
  pub request_headers : List (Bytes × Bytes)
  pub header_value : Bytes → Option Bytes
  pub request_scheme : Option Bytes
  pub request_host : Option Bytes
  pub request_protocol : Option Bytes
  pub destination_address : Option Bytes
  pub destination_port : Option ℤ
  pub source_address : Option Bytes

unfoldable pub attribute_string : Option Bytes → Option Bytes
attribute_string none = none
attribute_string (some value) =
    let decoded = from_utf8_lossy value in if is_empty decoded then none else some decoded

unfoldable pub lossy : Option Bytes → Option Bytes
lossy none = none
lossy (some value) = some (from_utf8_lossy value)

or_else : {A : Type 0} → Option A → Option A → Option A
or_else (some x) later = some x
or_else none later = later

and_then : {A B : Type 0} → Option A → (A → Option B) → Option B
and_then none f = none
and_then (some x) f = f x

-- A request, or why it is invalid.
pub data Copied (A : Type 0) : Type 0 where
  valid : A → Copied A
  invalid : Bytes → Copied A

ok_or : {A B : Type 0} → Option A → Bytes → (A → Copied B) → Copied B
ok_or none message f = invalid message
ok_or (some x) message f = f x

unfoldable pub server_port : Attributes → Bytes → Bytes → Option ℕ
unfolding or_else u16_of
server_port envoy authority scheme =
    or_else (u16_of envoy.destination_port)
      (or_else (authority_port authority) (default_port scheme))

server_name : Attributes → Bytes → Option Bytes
unfolding or_else and_then
server_name envoy authority =
    or_else (authority_host authority)
      (and_then (attribute_string envoy.destination_address) authority_host)

request_authority : Attributes → Option Bytes
unfolding or_else lossy
request_authority envoy =
    or_else (attribute_string envoy.request_host) (lossy (envoy.header_value (text ":authority")))

unfoldable pub request_metadata : Attributes → Copied RequestMetadata
unfolding ok_or server_name request_authority and_then
request_metadata envoy =
    ok_or (attribute_string envoy.request_scheme) (text "missing request scheme") (λ scheme.
      ok_or (request_authority envoy) (text "missing request authority") (λ authority.
        ok_or (attribute_string envoy.request_protocol) (text "missing request protocol")
          (λ protocol.
            ok_or (server_name envoy authority) (text "invalid request authority") (λ name.
              ok_or (server_port envoy authority scheme) (text "missing destination port") (λ port.
                valid record {
                  authority = authority;
                  scheme = scheme;
                  server_name = name;
                  server_port = port;
                  protocol = protocol;
                  remote_addr = and_then (attribute_string envoy.source_address) authority_host;
                })))))

unfoldable pub decoded_names : List (Bytes × Bytes) → List (Bytes × Bytes)
decoded_names [] = []
decoded_names ((name, value) ∷ headers) = (from_utf8_lossy name, value) ∷ decoded_names headers

stage_timing : Bool → Attributes → Bool
stage_timing diagnostics_enabled envoy =
    diagnostics_enabled && (elim (envoy.header_value (text "x-ruvoy-stage-timing")) [
      | none ↦ false
      | some value ↦ bytes_eq value (text "1")
    ])

with_metadata : Copied RequestMetadata → (RequestMetadata → Request) → Copied Request
with_metadata (invalid message) f = invalid message
with_metadata (valid metadata) f = valid (f metadata)

-- `context` is what `context::copy` makes, where the filter is configured to copy one.
unfoldable pub copy_headers : Bool → Option Context → ℕ → Attributes → Copied Request
unfolding ok_or lossy decoded_names stage_timing with_metadata
copy_headers diagnostics_enabled context received_at envoy =
    ok_or (lossy (envoy.header_value (text ":method"))) (text "missing :method") (λ method.
      ok_or (lossy (envoy.header_value (text ":path"))) (text "missing :path") (λ path.
        with_metadata (request_metadata envoy) (λ metadata. record {
          method = method;
          path = path;
          body = [];
          body_stream = none;
          headers = decoded_names envoy.request_headers;
          metadata = metadata;
          context = context;
          upstreams = none;
          force_gc = false;
          diagnostics =
              if stage_timing diagnostics_enabled envoy
              then some (new_diagnostics received_at)
              else none;
        })))
