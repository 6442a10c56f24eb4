-- ===== src/Fiber/Lifecycle.antt =====
-- src/fiber.rs from `FiberRuntime` on and src/vm.rs: how the runtime's thread starts, what it runs, and
-- how it is stopped. What the system and Ruby answer is an argument.
pub mod Failed
use ruvoy.Prelude.{
  ℤ, pos, negsuc, ℕ, suc, Bool, true, false, not, Option, none, some, List, [], ◌∷◌, ◌++◌, ◌==◌,
  if◌then◌else◌, Bytes, text,
}
use ruvoy.Error.{BridgeError, io, spawn, startup, invalid_response, runtime_panicked}
use ruvoy.Rack.Env.{Result, ok, err}
use ruvoy.Rack.Respond.{Asked, gives, raises, show, asked, and_then}
use ruvoy.Fiber.Wake.{Signalled, RecvTimeoutError, map_recv_timeout}
use ruvoy.Fiber.Wake as Wake
use ruvoy.Fiber.Bridge.{
  FiberCommand, shutdown, Effect, Ending, returned, waits, parked, retain_failed_runtime,
}
use ruvoy.Fiber.Client.{Runtime, send_and_wake, admin_command}
use ruvoy.Fiber.Client as Client

pub record RuntimeInfo : Type 0 where
  pub ruby_description : Bytes
  pub rust_thread_id : Bytes
  pub ruby_thread_object_id : ℕ

unfoldable pub negative_id : ℤ → BridgeError
unfolding show
negative_id id =
    invalid_response (text "Ruby thread object id " ++ (show id ++ text " is negative"))

unfoldable pub thread_id_of : ℤ → Result ℕ
unfolding negative_id
thread_id_of (pos id) = ok id
thread_id_of (negsuc n) = err (negative_id (negsuc n))

unfoldable pub runtime_info : Bytes → Asked Bytes → Asked ℤ → Result RuntimeInfo
unfolding thread_id_of asked and_then
runtime_info rust_thread description id =
    asked (text "reading RUBY_DESCRIPTION") description (λ description.
      and_then (asked (text "reading Ruby thread object id") id thread_id_of) (λ id. ok (record {
        ruby_description = description;
        rust_thread_id = rust_thread;
        ruby_thread_object_id = id;
      })))

-- What the preparation of the application does on the thread, and the reactor after it.
pub data Prepared : Type 0 where
  prepared : RuntimeInfo → Prepared
  refused : BridgeError → Prepared
  panicked : Bytes → Prepared

pub data Ran : Type 0 where
  ran : Ran
  failed : BridgeError → Ran
  panicked : Bytes → Ran

unfoldable pub result_of : Ran → Result (Unit {0})
result_of ran = ok tt
result_of (failed error) = err error
result_of (Ran.panicked payload) = err (runtime_panicked payload)

-- What the thread reports, does for the commands it gets, and returns, if it ends.
pub record Main : Type 0 where
  pub readiness : Result RuntimeInfo
  pub effects : List Effect
  pub result : Option (Result (Unit {0}))

unfoldable pub starter_gone : BridgeError
starter_gone = startup (text "starter dropped fiber readiness channel")

unfoldable pub ended : Ending → Result (Unit {0}) → Option (Result (Unit {0}))
ended returned result = some result
ended waits result = none
ended parked result = none

-- `commands` is what the clients send and `connected` whether they may send more.
unfoldable pub retain : BridgeError → List FiberCommand → Bool → Main
unfolding ended
retain error commands connected =
    let (effects, rest, ending) = retain_failed_runtime commands connected error in
    record { readiness = err error; effects = effects; result = ended ending (err error) }

unfoldable pub fiber_runtime_main : Prepared → Bool → List FiberCommand → Bool → Ran → Main
unfolding retain starter_gone result_of
fiber_runtime_main (refused error) listening commands connected r = retain error commands connected
fiber_runtime_main (Prepared.panicked payload) listening commands connected r =
    retain (runtime_panicked payload) commands connected
fiber_runtime_main (prepared info) listening commands connected r = record {
  readiness = ok info;
  effects = [];
  result = some (if listening then result_of r else err starter_gone);
}

pub record FiberRuntime : Type 0 where
  pub client : Option Runtime
  pub info : Option RuntimeInfo
  -- Whether it holds the handle of its thread.
  pub join : Bool

pub record FiberRuntimeStartup : Type 0 where
  pub runtime : FiberRuntime
  pub startup_error : Option BridgeError

unfoldable pub into_parts : FiberRuntimeStartup → FiberRuntime × Option BridgeError
into_parts s = (s.runtime, s.startup_error)

unfoldable pub into_result : FiberRuntimeStartup → Result FiberRuntime
into_result s = elim s.startup_error [ some error ↦ err error | none ↦ ok s.runtime ]

-- The answers of the system on the way, and what comes over the readiness channel, which is nothing
-- when the thread is gone.
pub record Starting : Type 0 where
  pub socket_pair : Asked (Unit {0})
  pub reader_nonblocking : Asked (Unit {0})
  pub writer_nonblocking : Asked (Unit {0})
  pub spawned : Asked (Unit {0})
  pub readiness : Option (Result RuntimeInfo)

unfoldable pub io_or : {A : Type 0} → Asked (Unit {0}) → Result A → Result A
io_or (gives u) next = next
io_or (raises message) next = err (io message)

unfoldable pub spawn_or : {A : Type 0} → Asked (Unit {0}) → Result A → Result A
spawn_or (gives u) next = next
spawn_or (raises message) next = err (spawn message)

unfoldable pub no_readiness : BridgeError
no_readiness = startup (text "fiber runtime exited before reporting readiness")

unfoldable pub read_readiness :
    Option (Result RuntimeInfo) → Option RuntimeInfo × Option BridgeError
unfolding no_readiness
read_readiness (some (ok info)) = (some info, none)
read_readiness (some (err error)) = (none, some error)
read_readiness none = (none, some no_readiness)

unfoldable pub no_capacity : BridgeError
no_capacity = startup (text "max in-flight requests must be positive")

unfoldable pub started : ℕ → Option (Result RuntimeInfo) → FiberRuntimeStartup
unfolding read_readiness
started limit readiness =
    let (info, startup_error) = read_readiness readiness in
    record {
      runtime = record { client = some (Client.new limit); info = info; join = true };
      startup_error = startup_error;
    }

unfoldable pub start_app_retained : ℕ → Starting → Result FiberRuntimeStartup
unfolding io_or spawn_or started no_capacity
start_app_retained limit w =
    if limit == 0
    then err no_capacity
    else io_or w.socket_pair (
        io_or w.reader_nonblocking
          (io_or w.writer_nonblocking (spawn_or w.spawned (ok (started limit w.readiness)))))

-- `start_rackup_with_limit_retained`, from a path as it is shown, its canonical form, and whether that
-- is a file.
unfoldable pub start_rackup : Bytes → Asked Bytes → Bool → ℕ → Starting → Result FiberRuntimeStartup
unfolding start_app_retained
start_rackup path (raises message) is_file limit w =
    err (startup (text "failed to resolve rackup " ++ (path ++ (text ": " ++ message))))
start_rackup path (gives rackup) is_file limit w =
    if is_file
    then start_app_retained limit w
    else err (startup (text "rackup is not a file: " ++ rackup))

-- What comes over a reply channel.
unfoldable pub received : {A : Type 0} → Result A → Option RecvTimeoutError → Result A
unfolding map_recv_timeout
received answer none = answer
received answer (some error) = err (map_recv_timeout error)

-- After `send_and_wake` the reply is awaited; a signal that does not return is out of scope here.
unfoldable pub then_receive : {A : Type 0} → Signalled → Result A → Option (Result A)
then_receive Wake.ok reply = some reply
then_receive (Wake.err error) reply = some (err error)
then_receive Wake.pending reply = none

unfoldable pub request_shutdown :
    Signalled → ℕ → Option RecvTimeoutError → Runtime → Runtime × Option (Result (Unit {0}))
unfolding send_and_wake received then_receive
request_shutdown wake channel reply r =
    let (r', sent) = send_and_wake wake (shutdown channel) r in
    (r', then_receive sent (received (ok tt) reply))

unfoldable pub admin :
    Signalled
    → Bytes
    → Bytes
    → Bytes
    → ℕ
    → ℕ × Bytes
    → Option RecvTimeoutError
    → Runtime
    → Runtime × Option (Result (ℕ × Bytes))
unfolding send_and_wake received then_receive admin_command
admin wake method path body channel answer reply r =
    let (r', sent) = send_and_wake wake (admin_command method path body channel r) r in
    (r', then_receive sent (received (ok answer) reply))

-- What `join` gives: the result of the thread, or its panic.
pub data Joined : Type 0 where
  finished : Result (Unit {0}) → Joined
  panicked : Bytes → Joined

unfoldable pub join_result : Bool → Joined → Result (Unit {0})
join_result false joined = ok tt
join_result true (finished result) = result
join_result true (Joined.panicked payload) = err (runtime_panicked payload)

-- From where the shutdown was asked for.
unfoldable pub stop : Result (Unit {0}) → Joined → FiberRuntime → FiberRuntime × Result (Unit {0})
unfolding join_result
stop (err error) joined f = (record f { client = none; join = false }, err error)
stop (ok u) joined f = (record f { client = none; join = false }, join_result f.join joined)

-- `asked_client` is what `request_shutdown` gives on the client.
unfoldable pub shutdown_inner :
    (Runtime → Result (Unit {0})) → Joined → FiberRuntime → FiberRuntime × Result (Unit {0})
unfolding stop
shutdown_inner asked_client joined f = elim f.client [
  | none ↦ stop (ok tt) joined f
  | some client ↦ stop (asked_client client) joined f
]

-- `Drop`: the client and the thread are forgotten.
unfoldable pub forget : FiberRuntime → FiberRuntime
forget f = record f { client = none; join = false }
