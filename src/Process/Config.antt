-- ===== src/Process/Config.antt =====
-- crates/ruvoy-envoy-fiber/src/runtime.rs: what the bootstrap extension and the filter are configured
-- with. The JSON parser is an argument: the value it reads, or its error.
use ruvoy.Prelude.{
  ℕ, ◌*◌, Bool, true, false, not, ◌&&◌, Option, none, some, List, ◌++◌, ◌==◌, any, is_empty,
  if◌then◌else◌, Bytes, text, bytes_eq, starts_with_byte,
}
use ruvoy.Error.{BridgeError, startup}
use ruvoy.Upstream.Defs.{UpstreamSettings}
use ruvoy.Std.Utf8.{from_utf8_lossy}
use ruvoy.Std.Trim.{trim}
use ruvoy.Rack.Env.{Result, ok, err}
use ruvoy.Rack.Respond.{Asked, gives, raises}

-- `str::from_utf8`: nothing has to be replaced.
unfoldable pub is_utf8 : Bytes → Bool
is_utf8 bs = bytes_eq (from_utf8_lossy bs) bs

pub record RuntimeSettings : Type 0 where
  pub rackup : Bytes
  pub max_inflight_requests : ℕ
  pub shutdown_timeout_ms : ℕ
  pub diagnostics : Bool

-- A check that refuses with a message.
unfoldable pub unless : {A : Type 0} → Bool → Bytes → Result A → Result A
unless refused message next = if refused then err (startup message) else next

unfoldable pub read_json : {A : Type 0} → Bytes → Asked A → (A → Result A) → Result A
read_json invalid (gives a) next = next a
read_json invalid (raises error) next = err (startup (invalid ++ error))

unfoldable pub check_settings : RuntimeSettings → Result RuntimeSettings
unfolding unless
check_settings s = unless (is_empty s.rackup) (text "rackup must not be empty") (
    unless (s.max_inflight_requests == 0) (text "max_inflight_requests must be a positive integer")
      (unless (s.shutdown_timeout_ms == 0) (text "shutdown_timeout_ms must be a positive integer")
        (ok s)))

unfoldable pub parse_settings : (Bytes → Asked RuntimeSettings) → Bytes → Result RuntimeSettings
unfolding is_utf8 unless read_json check_settings
parse_settings json config =
    unless (not (is_utf8 config))
      (text "bootstrap extension configuration must contain valid UTF-8")
      (unless (is_empty (trim config))
        (text "bootstrap extension configuration must name a rackup file")
        (read_json (text "invalid bootstrap extension configuration: ") (json (trim config))
          check_settings))

pub record UpstreamConfig : Type 0 where
  pub clusters : List Bytes
  pub timeout_ms : ℕ
  pub max_response_bytes : ℕ
  pub stream_buffer_bytes : ℕ

-- `rackup` is whether the configuration names one; `context` is the namespaces of a `ContextConfig`.
pub record FilterConfig : Type 0 where
  pub rackup : Bool
  pub context : Option (List Bytes)
  pub upstream : Option UpstreamConfig

unfoldable pub default_config : FilterConfig
default_config = record { rackup = false; context = none; upstream = none }

unfoldable pub moved : BridgeError
moved = startup (
    text "the rackup is configured on the ruvoy bootstrap extension, not on the filter; "
    ++ text "the filter configuration is a JSON object with optional context and upstream")

unfoldable pub no_rackup : FilterConfig → Result FilterConfig
unfolding moved
no_rackup c = if c.rackup then err moved else ok c

unfoldable pub parse_filter : (Bytes → Asked FilterConfig) → Bytes → Result FilterConfig
unfolding is_utf8 unless read_json moved no_rackup default_config
parse_filter json config =
    unless (not (is_utf8 config)) (text "filter configuration must contain valid UTF-8") (
      if is_empty (trim config)
      then ok default_config
      else if not (starts_with_byte b'{' (trim config))
      then err moved
      else read_json (text "invalid filter configuration: ") (json (trim config)) no_rackup)

unfoldable pub invalid : {A : Type 0} → Bool → Bytes → Result A → Result A
unfolding unless
invalid refused message next =
    unless refused (text "invalid filter configuration: " ++ message) next

-- Settings under which no call could succeed are refused.
unfoldable pub into_settings : UpstreamConfig → Result UpstreamSettings
unfolding invalid
into_settings c =
    invalid (is_empty c.clusters) (text "upstream.clusters must name at least one cluster") (
      invalid (any is_empty c.clusters) (text "upstream.clusters must not contain an empty name") (
        invalid (c.timeout_ms == 0) (text "upstream.timeout_ms must be positive") (
          invalid (c.max_response_bytes == 0) (text "upstream.max_response_bytes must be positive")
            (invalid (c.stream_buffer_bytes == 0)
              (text "upstream.stream_buffer_bytes must be positive")
              (ok (record {
                clusters = c.clusters;
                timeout = c.timeout_ms * 1_000_000;
                max_response_bytes = c.max_response_bytes;
                stream_buffer_bytes = c.stream_buffer_bytes;
              }))))))

pub record ProcessRuntimeConfig : Type 0 where
  pub rackup : Bytes
  pub max_inflight_requests : ℕ
  pub shutdown_timeout : ℕ
  pub diagnostics_enabled : Bool

abbrev pub same_flag : Bool → Bool → Bool
same_flag true b = b
same_flag false b = not b

-- `==` on configurations.
unfoldable pub config_eq : ProcessRuntimeConfig → ProcessRuntimeConfig → Bool
config_eq a b =
    bytes_eq a.rackup b.rackup
    && (a.max_inflight_requests == b.max_inflight_requests)
    && (a.shutdown_timeout == b.shutdown_timeout)
    && same_flag a.diagnostics_enabled b.diagnostics_enabled

-- What the file system answers: the canonical form of a path, whether that is a file, and the working
-- directory.
pub record Files : Type 0 where
  pub canonicalize : Bytes → Asked Bytes
  pub is_file : Bytes → Bool
  pub current_dir : Option Bytes

unfoldable pub shown_dir : Option Bytes → Bytes
shown_dir none = text "<unknown>"
shown_dir (some directory) = directory

unfoldable pub unresolved : Files → Bytes → Bytes → BridgeError
unfolding shown_dir
unresolved files path error = startup (
    text "failed to resolve rackup "
    ++ (path
        ++ (text " from working directory "
            ++ (shown_dir files.current_dir ++ (text ": " ++ error)))))

unfoldable pub canonical_rackup : Files → Bytes → Result Bytes
unfolding unresolved
canonical_rackup files path = elim (files.canonicalize path) [
  | raises error ↦ err (unresolved files path error)
  | gives rackup ↦
      if files.is_file rackup
      then ok rackup
      else err (startup (text "rackup is not a file: " ++ rackup))
]

unfoldable pub new_config : Files → RuntimeSettings → Result ProcessRuntimeConfig
unfolding canonical_rackup
new_config files s = elim (canonical_rackup files s.rackup) [
  | err error ↦ err error
  | ok rackup ↦ ok (record {
    rackup = rackup;
    max_inflight_requests = s.max_inflight_requests;
    shutdown_timeout = s.shutdown_timeout_ms * 1_000_000;
    diagnostics_enabled = s.diagnostics;
  })
]
