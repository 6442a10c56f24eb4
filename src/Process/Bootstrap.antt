-- ===== src/Process/Bootstrap.antt =====
-- crates/ruvoy-envoy-fiber/src/bootstrap.rs: the extension that owns the runtime. What Envoy and the
-- system answer is an argument; what is done to Envoy is a list of effects. Logging is left out.
use ruvoy.Prelude.{
  ℕ, ◌*◌, Bool, true, false, Option, none, some, List, [], ◌∷◌, ◌++◌, if◌then◌else◌, Bytes, text,
  bytes_eq, decimal,
}
use ruvoy.Error.{response_timeout, to_string}
use ruvoy.Rack.Env.{Result, ok, err}
use ruvoy.Rack.Respond.{Asked}
use ruvoy.Fiber.Wake.{Signalled}
use ruvoy.Fiber.Bridge.{ReactorHeartbeat, idle_for, drain}
use ruvoy.Fiber.Client.{Runtime, inflight_requests, send_and_wake}
use ruvoy.Fiber.Lifecycle.{Starting, Joined}
use ruvoy.Process.Config.{RuntimeSettings, Files, parse_settings}
use ruvoy.Process.Runtime.{Ready, Process, Answer, answer, panicked, start, shutdown}

pub data Effect : Type 0 where
  enables_timer : ℕ → Effect
  registers : Bytes → Effect
  sets_gauge : Bytes → ℕ → Effect
  signals_init_complete : Effect

-- Nanoseconds and milliseconds.
abbrev pub publish_interval : ℕ
publish_interval = 1_000_000_000

abbrev pub admin_timeout_ms : ℕ
admin_timeout_ms = 2000

abbrev pub admin_endpoints : List Bytes
admin_endpoints =
    text "/ruvoy" ∷ text "/ruvoy/gc" ∷ text "/ruvoy/fibers" ∷ text "/ruvoy/config" ∷ []

-- `RuvoyBootstrap`: whether the gauges are defined, which they are only all together.
pub record Gauges : Type 0 where
  pub defined : Bool

-- `Gauges::define`, from what Envoy answers to each definition in order.
unfoldable pub define : Bool → Bool → Bool → Gauges
define inflight idle resident = record {
  defined = if inflight then (if idle then resident else false) else false;
}

unfoldable pub resident_gauge : Option ℕ → List Effect
resident_gauge none = []
resident_gauge (some bytes) = sets_gauge (text "resident_bytes") bytes ∷ []

unfoldable pub publish : Gauges → Runtime → ℕ → ReactorHeartbeat → Option ℕ → List Effect
unfolding inflight_requests idle_for resident_gauge
publish gauges r now heartbeat resident =
    if gauges.defined
    then sets_gauge (text "inflight_requests") (inflight_requests r)
      ∷ sets_gauge (text "reactor_idle_ms") (idle_for now heartbeat)
      ∷ resident_gauge resident
    else []

-- `resident_bytes`: the pages of `statm`, if it can be read and parsed, times the size of one, if the
-- system tells it.
unfoldable pub resident_bytes : Option ℕ → Option ℕ → Option ℕ
resident_bytes none size = none
resident_bytes (some pages) none = none
resident_bytes (some pages) (some size) = some (pages * size)

unfoldable pub registered : List Bytes → List Effect
registered [] = []
registered (path ∷ paths) = registers path ∷ registered paths

-- `on_timer_fired`.
unfoldable pub on_timer_fired : Gauges → Runtime → ℕ → ReactorHeartbeat → Option ℕ → List Effect
unfolding publish
on_timer_fired gauges r now heartbeat resident =
    publish gauges r now heartbeat resident ++ enables_timer publish_interval ∷ []

-- Whether the configuration is taken, and what is done to Envoy.
pub data Configured : Type 0 where
  refused : Configured
  accepted : Ready → Configured
  panics : Configured

-- `published` is what `publish` does with the new gauges.
unfoldable pub configured : List Effect → Process × Answer → Process × Configured × List Effect
unfolding registered
configured published (p, answer (err error)) = (p, refused, [])
configured published (p, panicked) = (p, panics, [])
configured published (p, answer (ok ready)) = (
  p,
  accepted ready,
  enables_timer publish_interval
      ∷ (registered admin_endpoints ++ (published ++ signals_init_complete ∷ [])),
)

unfoldable pub new_config :
    (Bytes → Asked RuntimeSettings)
    → Files
    → Bool
    → Starting
    → List Effect
    → Bytes
    → Bytes
    → Process
    → Process × Configured × List Effect
unfolding parse_settings start configured
new_config json files hooks w published name config p =
    if bytes_eq name (text "ruvoy")
    then elim (parse_settings json config) [
      | err error ↦ (p, refused, [])
      | ok settings ↦ configured published (start files hooks w settings p)
    ]
    else (p, refused, [])

-- `on_admin_request`: `answered` is what the client's `admin` gives.
unfoldable pub on_admin_request : Result (ℕ × Bytes) → ℕ × Bytes
on_admin_request (ok answered) = answered
on_admin_request (err response_timeout) =
    (504, text "Ruby did not answer within " ++ (decimal admin_timeout_ms ++ text " ms\n"))
on_admin_request (err error) = (500, to_string error ++ text "\n")

unfoldable pub on_drain_started : Signalled → Runtime → Runtime
unfolding send_and_wake
on_drain_started wake r = (send_and_wake wake drain r).0

-- `on_shutdown`: the completion is called whatever the shutdown gives.
unfoldable pub on_shutdown : (Runtime → Result (Unit {0})) → Joined → Process → Process × Bool
unfolding shutdown
on_shutdown asked_client joined p = ((shutdown asked_client joined p).0, true)
