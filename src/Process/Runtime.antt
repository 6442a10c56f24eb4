-- ===== src/Process/Runtime.antt =====
-- crates/ruvoy-envoy-fiber/src/runtime.rs: `ProcessRuntime` and the two statics of the process, with
-- everything that may be asked of them. A client of the runtime stands for itself, so `Ready` has no
-- field for it.
use ruvoy.Prelude.{
  ℕ, ◌+◌, Bool, true, false, Option, none, some, List, [], ◌∷◌, ◌++◌, if◌then◌else◌, Bytes, text,
}
use ruvoy.Error.{BridgeError, startup, to_string}
use ruvoy.Rack.Env.{Result, ok, err}
use ruvoy.Rack.Respond.{and_then}
use ruvoy.Fiber.Client.{Runtime}
use ruvoy.Fiber.Lifecycle.{
  FiberRuntime, FiberRuntimeStartup, Starting, start_rackup, into_parts, Joined, shutdown_inner,
}
use ruvoy.Process.Config.{RuntimeSettings, ProcessRuntimeConfig, config_eq, Files, new_config}

pub record Ready : Type 0 where
  pub runtime_thread_id : Bytes
  pub diagnostics_enabled : Bool

pub record ProcessRuntime : Type 0 where
  pub config : ProcessRuntimeConfig
  pub runtime : Option FiberRuntime
  pub ready : Result Ready

-- What the start of the runtime does; the readers of its client and info panic where there is none.
pub data Booted : Type 0 where
  booted : Result ProcessRuntime → Booted
  panics : Booted

unfoldable pub with_ready : ProcessRuntimeConfig → FiberRuntime → Option BridgeError → Booted
with_ready config f (some error) =
    booted (ok (record { config = config; runtime = some f; ready = err error }))
with_ready config f none = elim f.client [
  | none ↦ panics
  | some client ↦ elim f.info [
    | none ↦ panics
    | some info ↦ booted (
        ok (record {
          config = config;
          runtime = some f;
          ready = ok (record {
            runtime_thread_id = info.rust_thread_id;
            diagnostics_enabled = config.diagnostics_enabled;
          });
        }))
  ]
]

unfoldable pub boot : Result FiberRuntimeStartup → ProcessRuntimeConfig → Booted
unfolding with_ready into_parts
boot (err error) config = booted (err error)
boot (ok started) config =
    let (f, startup_error) = into_parts started in with_ready config f startup_error

unfoldable pub start_process : Files → Starting → ProcessRuntimeConfig → Booted
unfolding boot start_rackup
start_process files w config =
    boot
      (start_rackup config.rackup (files.canonicalize config.rackup) (files.is_file config.rackup)
        config.max_inflight_requests w)
      config

unfoldable pub terminal_startup_failure : BridgeError → BridgeError
terminal_startup_failure error = startup (
    to_string error
    ++ (text ". The Ruby VM is created once per process, so Envoy must be restarted "
        ++ text "after fixing this."))

unfoldable pub ready_of : ProcessRuntime → Result Ready
unfolding terminal_startup_failure
ready_of r = elim r.ready [ ok ready ↦ ok ready | err error ↦ err (terminal_startup_failure error) ]

unfoldable pub incompatible : ProcessRuntimeConfig → ProcessRuntimeConfig → BridgeError
incompatible active requested = startup (
    text "Ruvoy is already running with a different rackup; this process cannot serve a "
    ++ (text "second configuration. The Ruby VM is created once per process, so restart Envoy "
        ++ (text "to change it. active rackup="
            ++ (active.rackup ++ (text " requested rackup=" ++ requested.rackup)))))

unfoldable pub ensure_compatible : ProcessRuntimeConfig → ProcessRuntimeConfig → Result (Unit {0})
unfolding incompatible
ensure_compatible active requested =
    if config_eq active requested then ok tt else err (incompatible active requested)

-- `PROCESS_RUNTIME` and `PROCESS_SHUTDOWN_HOOK`, with how often a runtime was started in the process.
pub record Process : Type 0 where
  pub runtime : Option (Result ProcessRuntime)
  pub hook : Option (Result (Unit {0}))
  pub starts : ℕ

unfoldable pub fresh : Process
fresh = record { runtime = none; hook = none; starts = 0 }

unfoldable pub no_hook : BridgeError
no_hook = startup (text "failed to register the Ruvoy process shutdown hook")

-- `get_or_init` of the hook; `registers` is whether `atexit` returns zero.
unfoldable pub register_hook : Bool → Process → Process × Result (Unit {0})
unfolding no_hook
register_hook registers p =
    let first : Result (Unit {0}) = if registers then ok tt else err no_hook in
    elim p.hook [ some result ↦ (p, result) | none ↦ (record p { hook = some first }, first) ]

-- The answer of a start, or its panic.
pub data Answer : Type 0 where
  answer : Result Ready → Answer
  panicked : Answer

unfoldable pub join_runtime : ProcessRuntimeConfig → Result ProcessRuntime → Result Ready
unfolding and_then ensure_compatible ready_of terminal_startup_failure
join_runtime requested (err error) = err (terminal_startup_failure error)
join_runtime requested (ok r) =
    and_then (ensure_compatible r.config requested) (λ compatible. ready_of r)

-- `get_or_init` of the runtime, which a panic leaves as it was.
unfoldable pub init_runtime : Booted → ProcessRuntimeConfig → Process → Process × Answer
unfolding join_runtime
init_runtime (booted result) requested p = (
  record p { runtime = some result; starts = p.starts + 1 },
  answer (join_runtime requested result),
)
init_runtime panics requested p = (p, panicked)

unfoldable pub start_hooked :
    Files → Starting → ProcessRuntimeConfig → Process × Result (Unit {0}) → Process × Answer
unfolding start_process init_runtime join_runtime
start_hooked files w requested (p, err error) = (p, answer (err error))
start_hooked files w requested (p, ok hooked) = elim p.runtime [
  | some result ↦ (p, answer (join_runtime requested result))
  | none ↦ init_runtime (start_process files w requested) requested p
]

unfoldable pub start : Files → Bool → Starting → RuntimeSettings → Process → Process × Answer
unfolding new_config register_hook start_hooked
start files registers w settings p = elim (new_config files settings) [
  | err error ↦ (p, answer (err error))
  | ok requested ↦ start_hooked files w requested (register_hook registers p)
]

unfoldable pub not_configured : BridgeError
not_configured = startup (
    text "the Ruby runtime is not configured: add the ruvoy bootstrap extension under "
    ++ text "bootstrap_extensions, which names the rackup")

unfoldable pub ready : Process → Result Ready
unfolding not_configured terminal_startup_failure ready_of
ready p = elim p.runtime [
  | none ↦ err not_configured
  | some (err error) ↦ err (terminal_startup_failure error)
  | some (ok r) ↦ ready_of r
]

unfoldable pub stopped : FiberRuntime × Result (Unit {0}) → Result Bool
stopped (f, ok u) = ok true
stopped (f, err error) = err error

-- The runtime is taken, so it is stopped at most once.
unfoldable pub shutdown_taken :
    (Runtime → Result (Unit {0})) → Joined → ProcessRuntime → ProcessRuntime × Result Bool
unfolding shutdown_inner stopped
shutdown_taken asked_client joined r = elim r.runtime [
  | none ↦ (r, ok false)
  | some f ↦ (record r { runtime = none }, stopped (shutdown_inner asked_client joined f))
]

unfoldable pub shutdown : (Runtime → Result (Unit {0})) → Joined → Process → Process × Result Bool
unfolding shutdown_taken
shutdown asked_client joined p = elim p.runtime [
  | none ↦ (p, ok false)
  | some (err error) ↦ (p, ok false)
  | some (ok r) ↦
      let (r', result) = shutdown_taken asked_client joined r in
      (record p { runtime = some (ok r') }, result)
]

-- What may be asked in the life of a process.
pub data Op : Type 0 where
  starts : Files → Bool → Starting → RuntimeSettings → Op
  shuts_down : (Runtime → Result (Unit {0})) → Joined → Op

unfoldable pub apply : Op → Process → Process
unfolding start shutdown
apply (starts files registers w settings) p = (start files registers w settings p).0
apply (shuts_down asked_client joined) p = (shutdown asked_client joined p).0

unfoldable pub run : List Op → Process → Process
unfolding apply
run [] p = p
run (op ∷ ops) p = run ops (apply op p)
