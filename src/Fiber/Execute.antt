-- ===== src/Fiber/Execute.antt =====
-- src/fiber.rs: `FiberBridge::execute`, one call from its envelope to the drop of its permit.
pub mod Done
pub mod Over
mod Examples
use ruvoy.Prelude.{ℕ, suc, ◌+◌, Bool, true, false, Option, none, some, Bytes, text, List, [], ◌∷◌}
use ruvoy.Error.{BridgeError}
use ruvoy.Stream.Defs.{ResponseStream, push_failure, is_cancelled}
use ruvoy.Budget.Defs.{Ceiling, release}
use ruvoy.Rack.Env.{Answers, Concurrency, interleaved, Times}
use ruvoy.Rack.Respond.{App, Responded, CallContext, call_streaming}
use ruvoy.Fiber.Bridge.{FiberCall, FiberEnvelope}

-- `FiberEnvelope::cancelled`.
unfoldable pub cancelled : ResponseStream → Bool
unfolding is_cancelled
cancelled s = is_cancelled s

-- What a run finds: the `Debug` format, Ruby's answers, the clock, the number of the Ruby thread, and
-- what the look-up of `StringIO` raises, if it does.
pub record Surroundings : Type 0 where
  pub quoted : Bytes → Bytes
  pub answers : Answers
  pub times : Times
  pub ruby_thread_object_id : ℕ
  pub string_io_class : Option Bytes

unfoldable pub context_of : Surroundings → CallContext
context_of w = record {
  quoted = w.quoted;
  answers = w.answers;
  concurrency = interleaved;
  extensions = true;
  has_body_class = true;
  times = w.times;
  ruby_thread_object_id = w.ruby_thread_object_id;
}

-- What it leaves: the envelope, the stream, how often the worker was woken, the counter of the
-- admission, and what is raised in Ruby.
pub record Executed : Type 0 where
  pub envelope : FiberEnvelope
  pub stream : ResponseStream
  pub wakes : ℕ
  pub admission : Ceiling
  pub raised : Option Bytes

-- A failure is told to the worker over the stream.
unfoldable pub settle : FiberEnvelope → Responded → Ceiling → Executed
unfolding push_failure
settle e r ceiling = elim r.error [
  | none ↦ record {
    envelope = e;
    stream = r.stream;
    wakes = r.wakes;
    admission = ceiling;
    raised = none;
  }
  | some error ↦ record {
    envelope = e;
    stream = (push_failure error r.stream).0;
    wakes = suc r.wakes;
    admission = ceiling;
    raised = none;
  }
]

unfoldable pub left : FiberEnvelope → ResponseStream → Ceiling → Bytes → Executed
left e s ceiling message = record {
  envelope = e;
  stream = s;
  wakes = 0;
  admission = ceiling;
  raised = some message;
}

unfoldable pub execute_call :
    Surroundings → App → FiberEnvelope → FiberCall → ResponseStream → Ceiling → Executed
unfolding context_of settle left call_streaming
execute_call w app e c s ceiling = elim w.string_io_class [
  | some message ↦ left e s (release c.permit ceiling) message
  | none ↦ settle e (call_streaming (context_of w) app c.request s).0 (release c.permit ceiling)
]

unfoldable pub execute : Surroundings → App → FiberEnvelope → ResponseStream → Ceiling → Executed
unfolding execute_call left
execute w app e s ceiling = elim e.call [
  | none ↦ left e s ceiling (text "request reused")
  | some c ↦ execute_call w app (record e { call = none }) c s ceiling
]
