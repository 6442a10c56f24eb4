-- ===== src/Error.antt =====
-- src/error.rs: what can go wrong between a producer thread and the Ruby runtime.
use ruvoy.Prelude.{◌++◌, Bytes, text}

pub data BridgeError : Type 0 where
  io spawn startup ruby invalid_response : Bytes → BridgeError
  overloaded runtime_stopped response_timeout : BridgeError
  runtime_panicked upstream upstream_too_large upstream_overflow : Bytes → BridgeError

-- `fmt::Display for BridgeError`.
unfoldable pub to_string : BridgeError → Bytes
to_string (io message) = text "bridge I/O error: " ++ message
to_string (spawn message) = text "failed to spawn Ruby runtime thread: " ++ message
to_string (startup message) = text "Ruby runtime startup failed: " ++ message
to_string (ruby message) = text "Ruby call failed: " ++ message
to_string (invalid_response message) = text "invalid Rack-like response: " ++ message
to_string overloaded = text "Ruby runtime admission limit reached"
to_string runtime_stopped = text "Ruby runtime has stopped"
to_string response_timeout = text "timed out waiting for Ruby runtime"
to_string (runtime_panicked message) = text "Ruby runtime panicked: " ++ message
to_string (upstream message) = text "upstream call failed: " ++ message
to_string (upstream_too_large message) = text "upstream response too large: " ++ message
to_string (upstream_overflow message) = text "upstream stream overflowed: " ++ message
