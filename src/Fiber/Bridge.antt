-- ===== src/Fiber/Bridge.antt =====
-- src/fiber.rs: what producers hand to the runtime and how a pass of the reactor takes it. A stream, a
-- reply channel and a Ruby waiter stand for themselves by number. What Ruby answers is an argument.
pub mod Pass
use ruvoy.Prelude.{
  ℕ, ◌-◌, Bool, true, false, Option, none, some, List, [], ◌∷◌, ◌++◌, if◌then◌else◌, Bytes, text,
}
use ruvoy.Error.{BridgeError, to_string}
use ruvoy.Request.{Request}
use ruvoy.Fiber.Wake.{Answer, Signalled, err}
use ruvoy.Fiber.Wake as Wake

pub record AdminRequest : Type 0 where
  pub method : Bytes
  pub path : Bytes
  pub body : Bytes
  pub inflight : ℕ

pub record AdminCall : Type 0 where
  pub request : AdminRequest
  pub reply : ℕ

-- An admin request handed to Ruby, with its channel until it is answered.
pub record AdminEnvelope : Type 0 where
  pub request : AdminRequest
  pub reply : Option ℕ

-- `permit` is what the lease holds.
pub record FiberCall : Type 0 where
  pub request : Request
  pub stream : ℕ
  pub permit : ℕ

pub data FiberCommand : Type 0 where
  call : FiberCall → FiberCommand
  admin : AdminCall → FiberCommand
  drain : FiberCommand
  shutdown : ℕ → FiberCommand

-- What the bridge does to others.
pub data Effect : Type 0 where
  answers : ℕ → ℕ → Bytes → Effect
  acknowledges : ℕ → Effect
  fails : ℕ → BridgeError → Effect
  wakes : ℕ → Effect
  resolves : ℕ → Effect

-- `AdminEnvelope::reply`: the first answer is sent, if anybody waits for it; others go nowhere.
unfoldable pub reply : ℕ → Bytes → AdminEnvelope → AdminEnvelope × List Effect
reply status body e = elim e.reply [
  | none ↦ (e, [])
  | some channel ↦ (record e { reply = none }, answers channel status body ∷ [])
]

pub record FiberEnvelope : Type 0 where
  pub stream : ℕ
  pub call : Option FiberCall

pub record ReactorHeartbeat : Type 0 where
  pub started_at : ℕ
  pub last_pass_ms : ℕ

-- Times are in milliseconds.
unfoldable pub elapsed_ms : ℕ → ReactorHeartbeat → ℕ
elapsed_ms now h = now - h.started_at

unfoldable pub new_heartbeat : ℕ → ReactorHeartbeat
new_heartbeat now = record { started_at = now; last_pass_ms = 0 }

unfoldable pub record_pass : ℕ → ReactorHeartbeat → ReactorHeartbeat
unfolding elapsed_ms
record_pass now h = record h { last_pass_ms = elapsed_ms now h }

unfoldable pub idle_for : ℕ → ReactorHeartbeat → ℕ
unfolding elapsed_ms
idle_for now h = elapsed_ms now h - h.last_pass_ms

pub record FiberBridge : Type 0 where
  -- The channel, and whether a client holds its other end.
  pub queue : List FiberCommand
  pub connected : Bool
  pub shutdown_reply : Option ℕ
  pub heartbeat : ReactorHeartbeat
  -- The streams owed a wakeup, each with the waiter that `unpark` finds on it.
  pub wakeups : List (Option ℕ)

-- What a pass hands to Ruby.
pub record Batch : Type 0 where
  pub envelopes : List FiberEnvelope
  pub admin : Option (List AdminEnvelope)
  pub draining : Bool
  pub shutting_down : Bool

unfoldable pub new_batch : Batch
new_batch = record { envelopes = []; admin = none; draining = false; shutting_down = false }

unfoldable pub envelope_of : FiberCall → FiberEnvelope
envelope_of c = record { stream = c.stream; call = some c }

unfoldable pub admin_envelope_of : AdminCall → AdminEnvelope
admin_envelope_of c = record { request = c.request; reply = some c.reply }

-- `get_or_insert_with`.
unfoldable pub existing : Option (List AdminEnvelope) → List AdminEnvelope
existing none = []
existing (some envelopes) = envelopes

unfoldable pub with_call : FiberCall → Batch → Batch
unfolding envelope_of
with_call c b = record b { envelopes = b.envelopes ++ envelope_of c ∷ [] }

unfoldable pub with_admin : AdminCall → Batch → Batch
unfolding existing admin_envelope_of
with_admin c b = record b { admin = some (existing b.admin ++ admin_envelope_of c ∷ []) }

-- What the loop of `drain` leaves: the batch, the commands still queued, and the shutdown to answer.
pub record Received : Type 0 where
  pub batch : Batch
  pub rest : List FiberCommand
  pub shutdown_reply : Option ℕ

unfoldable pub receive : List FiberCommand → Bool → Option ℕ → Batch → Received
unfolding with_call with_admin
receive [] connected reply b = record {
  batch = if connected then b else record b { shutting_down = true };
  rest = [];
  shutdown_reply = reply;
}
receive (call c ∷ queue) connected reply b = receive queue connected reply (with_call c b)
receive (admin c ∷ queue) connected reply b = receive queue connected reply (with_admin c b)
receive (drain ∷ queue) connected reply b =
    receive queue connected reply (record b { draining = true })
receive (shutdown channel ∷ queue) connected reply b = record {
  batch = record b { shutting_down = true };
  rest = queue;
  shutdown_reply = some channel;
}

-- `resolve` in Ruby: the error that it raises for a waiter, if it does. The owed streams are taken
-- at once, and those behind an error are not resolved.
unfoldable pub resolve_wakeups : (ℕ → Option Bytes) → List (Option ℕ) → List Effect × Option Bytes
resolve_wakeups raised [] = ([], none)
resolve_wakeups raised (none ∷ owed) = resolve_wakeups raised owed
resolve_wakeups raised (some waiter ∷ owed) =
    let (effects, error) = resolve_wakeups raised owed in
    elim (raised waiter) [
      | none ↦ (resolves waiter ∷ effects, error)
      | some message ↦ (resolves waiter ∷ [], some message)
    ]

-- What `drain` gives to Ruby: the batch, an exception, or nothing while a read of the socket blocks.
pub data Drained : Type 0 where
  batched : Batch → Drained
  raises : Bytes → Drained
  blocked : Drained

-- `drain`, from where the socket was read.
unfoldable pub drain_queue : Signalled → FiberBridge → FiberBridge × Drained
unfolding receive new_batch
drain_queue Wake.ok b =
    let r = receive b.queue b.connected b.shutdown_reply new_batch in
    (record b { queue = r.rest; shutdown_reply = r.shutdown_reply }, batched r.batch)
drain_queue (err error) b = (b, raises (to_string error))
drain_queue Wake.pending b = (b, blocked)

unfoldable pub drain_pass :
    ℕ → (ℕ → Option Bytes) → List Answer → FiberBridge → FiberBridge × List Effect × Drained
unfolding record_pass resolve_wakeups drain_queue
drain_pass now raised reads b =
    let (effects, error) = resolve_wakeups raised b.wakeups in
    let b' = record b { heartbeat = record_pass now b.heartbeat; wakeups = [] } in
    let (b'', drained) = drain_queue (Wake.drain reads) b' in
    elim error [ some message ↦ (b', effects, raises message) | none ↦ (b'', effects, drained) ]

-- `ack_shutdown`: whether the shutdown was answered; `listening` is whether its channel has a reader.
unfoldable pub ack_shutdown : (ℕ → Bool) → FiberBridge → FiberBridge × List Effect × Bool
ack_shutdown listening b = elim b.shutdown_reply [
  | none ↦ (b, [], false)
  | some channel ↦
      (record b { shutdown_reply = none }, acknowledges channel ∷ [], listening channel)
]

-- How `retain_failed_runtime` ends: it returned after a shutdown, or waits, for a command or for ever.
pub data Ending : Type 0 where
  returned waits parked : Ending

unfoldable pub not_available : BridgeError → Bytes
not_available error = to_string error ++ text "\n"

unfoldable pub retain_failed_runtime :
    List FiberCommand → Bool → BridgeError → List Effect × List FiberCommand × Ending
unfolding not_available
retain_failed_runtime [] connected error = ([], [], if connected then waits else parked)
retain_failed_runtime (call c ∷ queue) connected error =
    let (effects, rest, ending) = retain_failed_runtime queue connected error in
    (fails c.stream error ∷ wakes c.stream ∷ effects, rest, ending)
retain_failed_runtime (admin c ∷ queue) connected error =
    let (effects, rest, ending) = retain_failed_runtime queue connected error in
    (answers c.reply 503 (not_available error) ∷ effects, rest, ending)
retain_failed_runtime (drain ∷ queue) connected error = retain_failed_runtime queue connected error
retain_failed_runtime (shutdown channel ∷ queue) connected error =
    (acknowledges channel ∷ [], queue, returned)
