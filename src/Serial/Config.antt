-- ===== src/Serial/Config.antt =====
-- crates/ruvoy-envoy-sync/src/runtime.rs and lib.rs: the filter's configuration and the runtime that
-- it owns. What the environment and the system answer is an argument.
use ruvoy.Prelude.{
  Bool, true, false, Option, none, some, ◌++◌, Bytes, text, bytes_eq, if◌then◌else◌,
}
use ruvoy.Error.{BridgeError, startup}
use ruvoy.Rack.Env.{Result, ok, err}
use ruvoy.Rack.Respond.{and_then}
use ruvoy.Fiber.Lifecycle.{Joined}
use ruvoy.Serial.{RubyRuntime, shutdown_inner}

pub record SyncRackConfig : Type 0 where
  pub diagnostics_enabled : Bool
  pub runtime_thread_id : Bytes
  pub runtime : Option RubyRuntime

-- What a variable of the environment is: absent, text, or bytes that are not text.
pub data Variable : Type 0 where
  unset : Variable
  is_text : Bytes → Variable
  not_text : Variable

unfoldable pub flag_error : Bytes → BridgeError
flag_error name = startup (name ++ text " must be 0 or 1")

unfoldable pub flag_env : Bytes → Variable → Result Bool
unfolding flag_error
flag_env name unset = ok false
flag_env name (is_text value) =
    if bytes_eq value (text "1")
    then ok true
    else if bytes_eq value (text "0")
    then ok false
    else err (flag_error name)
flag_env name not_text = err (flag_error name)

unfoldable pub start : Variable → Result RubyRuntime → Result SyncRackConfig
unfolding and_then flag_env
start variable started = and_then (flag_env (text "RUVOY_DIAGNOSTICS") variable) (λ enabled.
    and_then started (λ r. ok (record {
      diagnostics_enabled = enabled;
      runtime_thread_id = r.info.rust_thread_id;
      runtime = some r;
    })))

-- `new_http_filter_config_fn`: no configuration for another name, nor where the start fails.
unfoldable pub new_http_filter_config_fn :
    Bytes → Variable → Result RubyRuntime → Option SyncRackConfig
unfolding start
new_http_filter_config_fn name variable started =
    if bytes_eq name (text "sync_rack")
    then elim (start variable started) [ ok config ↦ some config | err error ↦ none ]
    else none

-- The drop: the runtime is taken, and shut down if there was one.
unfoldable pub drop_config :
    Result (Unit {0}) → Joined → SyncRackConfig → SyncRackConfig × Option (Result (Unit {0}))
unfolding shutdown_inner
drop_config requested joined c = (
  record c { runtime = none },
  elim c.runtime [ none ↦ none | some r ↦ some (shutdown_inner requested joined r).1 ],
)
