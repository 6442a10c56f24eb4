-- ===== src/Serial.antt =====
-- src/sync.rs: the serial runtime, one request at a time. A reply channel and a completion stand for
-- themselves by number; what Ruby and the system answer is an argument.
pub mod Served
pub mod Filter
pub mod Config
mod Examples
use ruvoy.Prelude.{
  ℕ, Bool, true, false, Option, none, some, List, [], ◌∷◌, ◌++◌, if◌then◌else◌, Bytes, text,
}
use ruvoy.Error.{BridgeError, startup, spawn, runtime_stopped, runtime_panicked}
use ruvoy.Request.{Request}
use ruvoy.Response.{Response}
use ruvoy.Rack.Env.{Result, ok, err, ruby_error, Answers, serial, Times}
use ruvoy.Rack.Respond.{Asked, gives, raises, asked, App, CallContext}
use ruvoy.Rack.Respond as Respond
use ruvoy.Fiber.Wake.{Answer, Signalled, RecvTimeoutError, map_recv_timeout}
use ruvoy.Fiber.Wake as Wake
use ruvoy.Fiber.Lifecycle.{RuntimeInfo, Joined, join_result}
use ruvoy.Fiber.Lifecycle as Lifecycle

pub record BufferedCall : Type 0 where
  pub request : Request
  pub completion : ℕ

pub data Command : Type 0 where
  call : BufferedCall → Command
  force_gc : ℕ → Command
  shutdown : ℕ → Command

-- What the owner thread does to others.
pub data Effect : Type 0 where
  completes : ℕ → Result Response → Effect
  collects : Effect
  replies : ℕ → Effect

-- Where the loop stands after a turn of the inner loop over commands.
pub data Loop : Type 0 where
  waits : Loop
  returned : Result (Unit {0}) → Loop

-- The inner loop; `serve` is `rack::call`.
unfoldable pub serve_all :
    (Request → Result Response) → List Command → Bool → List Effect × List Command × Loop
serve_all serve [] connected = ([], [], if connected then waits else returned (ok tt))
serve_all serve (call c ∷ commands) connected =
    let (effects, rest, loop) = serve_all serve commands connected in
    (completes c.completion (serve c.request) ∷ effects, rest, loop)
serve_all serve (force_gc reply ∷ commands) connected =
    let (effects, rest, loop) = serve_all serve commands connected in
    (collects ∷ replies reply ∷ effects, rest, loop)
serve_all serve (shutdown reply ∷ commands) connected =
    (replies reply ∷ [], commands, returned (ok tt))

-- What a pass meets: the error that the wait for the socket raises, what its reads give, what was
-- queued since, and whether a client is left.
pub record Pass : Type 0 where
  pub wait : Asked (Unit {0})
  pub reads : List Answer
  pub arrived : List Command
  pub connected : Bool

unfoldable pub drained :
    Signalled
    → (Request → Result Response)
    → List Command
    → Bool
    → List Effect × List Command × Loop
unfolding serve_all
drained Wake.ok serve commands connected = serve_all serve commands connected
drained (Wake.err error) serve commands connected = ([], commands, returned (err error))
drained Wake.pending serve commands connected = ([], commands, waits)

unfoldable pub pass_once :
    (Request → Result Response) → Pass → List Command → List Effect × List Command × Loop
unfolding drained ruby_error
pass_once serve p queue = elim p.wait [
  | raises message ↦ (
    [],
    queue ++ p.arrived,
    returned (err (ruby_error (text "waiting for bridge wakeup") message)),
  )
  | gives u ↦ drained (Wake.drain p.reads) serve (queue ++ p.arrived) p.connected
]

-- The outer loop over the passes of a run, to its end if it has one among them.
unfoldable pub serve_passes :
    (Request → Result Response) → List Pass → List Command → List Effect × Loop
unfolding pass_once
serve_passes serve [] queue = ([], waits)
serve_passes serve (p ∷ passes) queue =
    let (effects, rest, loop) = pass_once serve p queue in
    let (later, last) = serve_passes serve passes rest in
    elim loop [ returned result ↦ (effects, returned result) | waits ↦ (effects ++ later, last) ]

-- The context of a call: no body that still arrives and no extensions.
unfoldable pub context_of : (Bytes → Bytes) → Answers → Times → RuntimeInfo → CallContext
context_of quoted answers times info = record {
  quoted = quoted;
  answers = answers;
  concurrency = serial;
  extensions = false;
  has_body_class = false;
  times = times;
  ruby_thread_object_id = info.ruby_thread_object_id;
}

unfoldable pub boxed : Bytes → Asked (Unit {0}) → Result (Unit {0})
unfolding asked
boxed doing value = asked doing value (λ u. ok u)

-- What the preparation asks Ruby for, in order.
pub record Preparing : Type 0 where
  pub string_io : Asked (Unit {0})
  pub app : Asked (Unit {0})
  pub rack_errors : Asked (Unit {0})
  pub body_reader : Asked (Unit {0})
  pub info : Result RuntimeInfo

unfoldable pub prepare : Preparing → Result RuntimeInfo
unfolding boxed asked Respond.and_then
prepare w = asked (text "loading StringIO") w.string_io (λ loaded.
    Respond.and_then (boxed (text "evaluating app source") w.app) (λ app.
      Respond.and_then (boxed (text "loading rack.errors") w.rack_errors) (λ errors.
        Respond.and_then (boxed (text "loading Rack body reader") w.body_reader)
          (λ reader. w.info))))

-- What the owner thread reports, does, and returns, if it ends.
pub record Main : Type 0 where
  pub readiness : Result RuntimeInfo
  pub effects : List Effect
  pub loop : Loop

unfoldable pub starter_gone : BridgeError
starter_gone = startup (text "starter dropped readiness channel")

unfoldable pub main :
    Preparing → Bool → (RuntimeInfo → Request → Result Response) → List Pass → Main
unfolding prepare serve_passes starter_gone
main w listening serve passes = elim (prepare w) [
  | err error ↦ record { readiness = err error; effects = []; loop = returned (err error) }
  | ok info ↦
      if listening
      then (let (effects, loop) = serve_passes (serve info) passes [] in
          record { readiness = ok info; effects = effects; loop = loop })
      else record { readiness = ok info; effects = []; loop = returned (err starter_gone) }
]

pub record RubyRuntime : Type 0 where
  pub client : Bool
  pub info : RuntimeInfo
  pub join : Bool

unfoldable pub not_reported : BridgeError
not_reported = startup (text "runtime exited before reporting readiness")

-- What a start makes of a thread that is gone without a report.
unfoldable pub unreported : Joined → BridgeError
unfolding not_reported
unreported (Lifecycle.finished (err error)) = error
unreported (Lifecycle.finished (ok u)) = not_reported
unreported (Joined.panicked payload) = runtime_panicked payload

-- `start`, from the socket pair, the spawned thread, what it reports, and how it ended if it did not.
unfoldable pub start :
    Result (Unit {0}) → Asked (Unit {0}) → Option (Result RuntimeInfo) → Joined → Result RubyRuntime
unfolding unreported
start (err error) spawned readiness joined = err error
start (ok u) (raises message) readiness joined = err (spawn message)
start (ok u) (gives v) (some (ok info)) joined =
    ok (record { client = true; info = info; join = true })
start (ok u) (gives v) (some (err error)) joined = err error
start (ok u) (gives v) none joined = err (unreported joined)

-- The panic of the thread counts first, then the failed request, then its result.
unfoldable pub both_results : Joined → Result (Unit {0}) → Result (Unit {0}) → Result (Unit {0})
both_results (Joined.panicked payload) asked_for joined = err (runtime_panicked payload)
both_results (Lifecycle.finished result) (err error) joined = err error
both_results (Lifecycle.finished result) (ok u) joined = joined

unfoldable pub shutdown_inner :
    Result (Unit {0}) → Joined → RubyRuntime → RubyRuntime × Result (Unit {0})
unfolding both_results join_result
shutdown_inner requested joined r =
    let asked_for : Result (Unit {0}) = if r.client then requested else ok tt in
    (
      record r { client = false; join = false },
      if r.join then both_results joined asked_for (join_result true joined) else asked_for,
    )

-- `wake::recv_reply`, then `?`.
unfoldable pub recv_reply : {A : Type 0} → Option RecvTimeoutError → Result A → Result A
unfolding map_recv_timeout
recv_reply none result = result
recv_reply (some error) result = err (map_recv_timeout error)

-- `send`: the command is queued if the thread has its end of the channel, then the socket is woken.
unfoldable pub send : Bool → Signalled → Command → List Command → List Command × Signalled
send alive wake command queue =
    if alive then (queue ++ command ∷ [], wake) else (queue, Wake.err runtime_stopped)
