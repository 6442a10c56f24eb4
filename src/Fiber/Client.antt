-- ===== src/Fiber/Client.antt =====
-- src/fiber.rs: the handle that submits work, and a request's permit from its admission to the end of
-- its response. `Budget` is used as one thread sees it while no other acts.
pub mod Balance
mod Examples
use ruvoy.Prelude.{
  ℕ, zero, suc, ◌+◌, Bool, true, false, Option, none, some, List, [], ◌∷◌, ◌++◌, if◌then◌else◌,
  Bytes, text,
}
use ruvoy.Error.{BridgeError, overloaded, runtime_stopped}
use ruvoy.Request.{Request}
use ruvoy.Budget.Defs.{Ceiling, Taker, holds, try_acquire, release}
use ruvoy.Budget.Defs as Budget
use ruvoy.Fiber.Wake.{Answer, Signalled, err, signal}
use ruvoy.Fiber.Bridge.{
  AdminRequest, AdminCall, FiberCall, FiberCommand, FiberEnvelope, call, admin, drain, shutdown,
  new_batch, Received, receive,
}

pub record Runtime : Type 0 where
  pub admission : Ceiling
  pub queue : List FiberCommand
  -- Whether the runtime still has its end of the channel.
  pub alive : Bool
  -- The calls that envelopes hold, and those that fibers run.
  pub enveloped : List FiberCall
  pub running : List FiberCall

unfoldable pub new : ℕ → Runtime
new limit = record {
  admission = Budget.new limit;
  queue = [];
  alive = true;
  enveloped = [];
  running = [];
}

unfoldable pub inflight_requests : Runtime → ℕ
inflight_requests r = r.admission.used

-- Dropping a command drops its call, and with it the permit.
unfoldable pub drop_command : FiberCommand → Ceiling → Ceiling
drop_command (call c) ceiling = release c.permit ceiling
drop_command _ ceiling = ceiling

-- `wake` is what `wake::signal` gives back once the command is queued.
unfoldable pub send_and_wake : Signalled → FiberCommand → Runtime → Runtime × Signalled
unfolding drop_command
send_and_wake wake command r =
    if r.alive
    then (record r { queue = r.queue ++ command ∷ [] }, wake)
    else (record r { admission = drop_command command r.admission }, err runtime_stopped)

unfoldable pub with_permit :
    Signalled → Request → ℕ → Ceiling → Taker → Runtime → Runtime × Signalled
with_permit wake request stream ceiling (holds permit) r =
    let c : FiberCall = record { request = request; stream = stream; permit = permit } in
    send_and_wake wake (call c) (record r { admission = ceiling })
with_permit wake request stream ceiling _ r = (r, err overloaded)

unfoldable pub submit : Signalled → Request → ℕ → Runtime → Runtime × Signalled
unfolding with_permit
submit wake request stream r =
    let (ceiling, taker) = try_acquire (false ∷ []) 1 r.admission in
    with_permit wake request stream ceiling taker r

-- What `admin` queues; `channel` is the reply channel that it makes.
unfoldable pub admin_command : Bytes → Bytes → Bytes → ℕ → Runtime → FiberCommand
unfolding inflight_requests
admin_command method path body channel r = admin (record {
  request = record { method = method; path = path; body = body; inflight = inflight_requests r };
  reply = channel;
})

unfoldable pub take_at : ℕ → List FiberCall → Option FiberCall × List FiberCall
take_at i [] = (none, [])
take_at zero (c ∷ cs) = (some c, cs)
take_at (suc i) (c ∷ cs) = let (found, rest) = take_at i cs in (found, c ∷ rest)

unfoldable pub drop_call : Option FiberCall → Ceiling → Ceiling
drop_call none ceiling = ceiling
drop_call (some c) ceiling = release c.permit ceiling

unfoldable pub drop_commands : List FiberCommand → Ceiling → Ceiling
unfolding drop_command
drop_commands [] ceiling = ceiling
drop_commands (c ∷ queue) ceiling = drop_commands queue (drop_command c ceiling)

unfoldable pub to_list : Option FiberCall → List FiberCall
to_list none = []
to_list (some c) = c ∷ []

-- The calls that envelopes hold.
unfoldable pub calls_in : List FiberEnvelope → List FiberCall
unfolding to_list
calls_in [] = []
calls_in (e ∷ envelopes) = to_list e.call ++ calls_in envelopes

-- Who acts: clients, and the runtime with its collector.
pub data Action : Type 0 where
  submits : Signalled → Request → ℕ → Action
  asks : Signalled → Bytes → Bytes → Bytes → ℕ → Action
  drains : Signalled → Action
  requests_shutdown : Signalled → ℕ → Action
  -- A pass of the reactor; a fiber that takes the call of an envelope; one that is done; an envelope
  -- that is collected before it ran; the end of the runtime.
  passes : Action
  executes : ℕ → Action
  finishes : ℕ → Action
  collects : ℕ → Action
  stops : Action

unfoldable pub step : Action → Runtime → Runtime
unfolding submit admin_command take_at drop_call drop_commands to_list calls_in
step (submits wake request stream) r = (submit wake request stream r).0
step (asks wake method path body channel) r =
    (send_and_wake wake (admin_command method path body channel r) r).0
step (drains wake) r = (send_and_wake wake drain r).0
step (requests_shutdown wake channel) r = (send_and_wake wake (shutdown channel) r).0
step passes r =
    let taken = receive r.queue true none new_batch in
    record r { queue = taken.rest; enveloped = r.enveloped ++ calls_in taken.batch.envelopes }
step (executes i) r =
    let (found, rest) = take_at i r.enveloped in
    record r { enveloped = rest; running = r.running ++ to_list found }
step (finishes i) r =
    let (found, rest) = take_at i r.running in
    record r { running = rest; admission = drop_call found r.admission }
step (collects i) r =
    let (found, rest) = take_at i r.enveloped in
    record r { enveloped = rest; admission = drop_call found r.admission }
step stops r = record r { queue = []; alive = false; admission = drop_commands r.queue r.admission }

unfoldable pub run : List Action → Runtime → Runtime
unfolding step
run [] r = r
run (a ∷ as') r = run as' (step a r)
