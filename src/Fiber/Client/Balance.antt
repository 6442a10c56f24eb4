-- ===== src/Fiber/Client/Balance.antt =====
-- src/fiber.rs: the requests in flight are the permits that calls hold, never more than the limit.
use ruvoy.Prelude.{
  ℕ, zero, suc, ◌+◌, ◌-◌, ◌≤◌, ◌<◌, ◌≡◌, refl, true, false, Option, none, some, List, [], ◌∷◌, ◌++◌,
  arith, if◌then◌else◌, usize_mod, leb,
}
use ruvoy.Request.{Request}
use ruvoy.Budget.Defs.{Ceiling, Taker, holds, refused, idle, loaded, try_acquire, release}
use ruvoy.Budget.Defs as Budget
use ruvoy.Budget.Acquire.{try_acquire_lem}
use ruvoy.Fiber.Wake.{Signalled}
use ruvoy.Fiber.Bridge.{
  FiberCall, FiberCommand, call, admin, drain, shutdown, Batch, new_batch, with_call, with_admin,
  envelope_of, FiberEnvelope, receive,
}
use ruvoy.Fiber.Client.{
  Runtime, new, inflight_requests, drop_command, send_and_wake, with_permit, submit, admin_command,
  take_at, drop_call, drop_commands, to_list, calls_in, Action, submits, asks, drains,
  requests_shutdown, passes, executes, finishes, collects, stops, step, run,
}

unfoldable pub permits : List FiberCall → ℕ
permits [] = 0
permits (c ∷ cs) = c.permit + permits cs

unfoldable pub permit_of : FiberCommand → ℕ
permit_of (call c) = c.permit
permit_of _ = 0

unfoldable pub queued_permits : List FiberCommand → ℕ
unfolding permit_of
queued_permits [] = 0
queued_permits (c ∷ queue) = permit_of c + queued_permits queue

-- The permits of all calls: queued, in an envelope, or running.
unfoldable pub held : Runtime → ℕ
held r = queued_permits r.queue + (permits r.enveloped + permits r.running)

record IsBalanced (limit : ℕ) (r : Runtime) : Type 0 where
  pub balanced : r.admission.used ≡ held r
  pub bounded : r.admission.used ≤ limit
  pub capacity : r.admission.capacity ≡ limit
  pub within_word : limit < usize_mod

permits-append : (xs ys : List FiberCall) → permits (xs ++ ys) ≡ permits xs + permits ys
unfolding permits
permits-append [] ys = ground arith
permits-append (x ∷ xs) ys = ground (arith, permits-append xs ys)

queued_permits-append :
    (xs ys : List FiberCommand) → queued_permits (xs ++ ys) ≡ queued_permits xs + queued_permits ys
unfolding queued_permits
queued_permits-append [] ys = ground arith
queued_permits-append (x ∷ xs) ys = ground (arith, queued_permits-append xs ys)

take_at-permits :
    (i : ℕ) (cs : List FiberCall)
    → permits cs ≡ permits (to_list (take_at i cs).0) + permits (take_at i cs).1
unfolding take_at permits to_list
take_at-permits i [] = ground arith
take_at-permits zero (c ∷ cs) = ground arith
take_at-permits (suc i) (c ∷ cs) = ground (arith, take_at-permits i cs)

release-used :
    (n : ℕ) (c : Ceiling)
    → n ≤ c.used
    → c.used < usize_mod
    → ((release n c).used ≡ c.used - n) × ((release n c).capacity ≡ c.capacity)
unfolding release
release-used n c h w = (omega arith, refl)

drop_call-used :
    (found : Option FiberCall) (c : Ceiling)
    → permits (to_list found) ≤ c.used
    → c.used < usize_mod
    → ((drop_call found c).used ≡ c.used - permits (to_list found))
      × ((drop_call found c).capacity ≡ c.capacity)
unfolding drop_call permits to_list
drop_call-used none c h w = (omega arith, refl)
drop_call-used (some found) c h w = ground (arith, release-used found.permit c)

drop_command-used :
    (command : FiberCommand) (c : Ceiling)
    → permit_of command ≤ c.used
    → c.used < usize_mod
    → ((drop_command command c).used ≡ c.used - permit_of command)
      × ((drop_command command c).capacity ≡ c.capacity)
unfolding drop_command permit_of
drop_command-used (call found) c h w = ground (arith, release-used found.permit c)
drop_command-used _ c h w = (omega arith, refl)

drop_commands-used :
    (queue : List FiberCommand) (c : Ceiling)
    → queued_permits queue ≤ c.used
    → c.used < usize_mod
    → ((drop_commands queue c).used ≡ c.used - queued_permits queue)
      × ((drop_commands queue c).capacity ≡ c.capacity)
unfolding drop_commands queued_permits
drop_commands-used [] c h w = (omega arith, refl)
drop_commands-used (command ∷ queue) c h w =
    ground (arith, drop_command-used command c, drop_commands-used queue (drop_command command c))

calls_in-append :
    (xs ys : List FiberEnvelope)
    → permits (calls_in (xs ++ ys)) ≡ permits (calls_in xs) + permits (calls_in ys)
unfolding calls_in permits
calls_in-append [] ys = ground arith
calls_in-append (x ∷ xs) ys = ground (
  arith,
  calls_in-append xs ys,
  permits-append (to_list x.call) (calls_in (xs ++ ys)),
  permits-append (to_list x.call) (calls_in xs),
)

receive-permits :
    (queue : List FiberCommand) (b : Batch)
    → queued_permits queue + permits (calls_in b.envelopes)
      ≡ permits (calls_in (receive queue true none b).batch.envelopes)
        + queued_permits (receive queue true none b).rest
unfolding receive queued_permits permits permit_of with_call with_admin calls_in envelope_of to_list
receive-permits [] b = ground arith
receive-permits (call c ∷ queue) b =
    ground (
      arith,
      receive-permits queue (with_call c b),
      calls_in-append b.envelopes (envelope_of c ∷ []),
    )
receive-permits (admin c ∷ queue) b = ground (arith, receive-permits queue (with_admin c b))
receive-permits (drain ∷ queue) b =
    ground (arith, receive-permits queue (record b { draining = true }))
receive-permits (shutdown channel ∷ queue) b = ground arith

received-permits :
    (queue : List FiberCommand)
    → queued_permits queue
      ≡ permits (calls_in (receive queue true none new_batch).batch.envelopes)
        + queued_permits (receive queue true none new_batch).rest
unfolding new_batch calls_in permits
received-permits queue = ground (arith, receive-permits queue new_batch)

-- A command that holds what the counter has for it keeps the balance, queued or dropped.
send_and_wake-IsBalanced :
    (limit : ℕ) (wake : Signalled) (command : FiberCommand) (r : Runtime)
    → r.admission.used ≡ held r + permit_of command
    → r.admission.used ≤ limit
    → r.admission.capacity ≡ limit
    → limit < usize_mod
    → IsBalanced limit (send_and_wake wake command r).0
unfolding send_and_wake held queued_permits
send_and_wake-IsBalanced limit wake command r balanced bounded capacity word =
    ground
      (arith, queued_permits-append r.queue (command ∷ []), drop_command-used command r.admission)

submit-IsBalanced :
    (limit : ℕ) (wake : Signalled) (request : Request) (stream : ℕ) (r : Runtime)
    → IsBalanced limit r
    → IsBalanced limit (submit wake request stream r).0
unfolding submit with_permit send_and_wake held permit_of
submit-IsBalanced limit wake request stream r v =
    go (try_acquire (false ∷ []) 1 r.admission)
      (try_acquire_lem (false ∷ []) 1 r.admission (ground arith) (ground arith) refl)
  where
    go :
        (t : Ceiling × Taker)
        → t ≡ (
            if leb 1 (r.admission.capacity - r.admission.used)
            then (record (r.admission) { used = r.admission.used + 1 }, holds 1)
            else (r.admission, refused))
        → IsBalanced limit (with_permit wake request stream t.0 t.1 r).0
    go (ceiling, holds permit) e =
        send_and_wake-IsBalanced limit wake
          (call (record { request = request; stream = stream; permit = permit }))
          (record r { admission = ceiling }) (ground arith) (ground arith) (ground arith)
          v.within_word
    go (ceiling, idle) e = v
    go (ceiling, refused) e = v
    go (ceiling, loaded wanted seen) e = v

step-IsBalanced :
    (limit : ℕ) (a : Action) (r : Runtime) → IsBalanced limit r → IsBalanced limit (step a r)
unfolding step held queued_permits permit_of admin_command
step-IsBalanced limit (submits wake request stream) r v =
    submit-IsBalanced limit wake request stream r v
step-IsBalanced limit (asks wake method path body channel) r v =
    send_and_wake-IsBalanced limit wake (admin_command method path body channel r) r (ground arith)
      v.bounded v.capacity v.within_word
step-IsBalanced limit (drains wake) r v =
    send_and_wake-IsBalanced limit wake drain r (ground arith) v.bounded v.capacity v.within_word
step-IsBalanced limit (requests_shutdown wake channel) r v =
    send_and_wake-IsBalanced limit wake (shutdown channel) r (ground arith) v.bounded v.capacity
      v.within_word
step-IsBalanced limit passes r v = ground (
  arith,
  received-permits r.queue,
  permits-append r.enveloped (calls_in (receive r.queue true none new_batch).batch.envelopes),
)
step-IsBalanced limit (executes i) r v = ground (
  arith,
  take_at-permits i r.enveloped,
  permits-append r.running (to_list (take_at i r.enveloped).0),
)
step-IsBalanced limit (finishes i) r v =
    ground (arith, take_at-permits i r.running, drop_call-used (take_at i r.running).0 r.admission)
step-IsBalanced limit (collects i) r v =
    ground
      (arith, take_at-permits i r.enveloped, drop_call-used (take_at i r.enveloped).0 r.admission)
step-IsBalanced limit stops r v = ground (arith, drop_commands-used r.queue r.admission)

new-IsBalanced : (limit : ℕ) → limit < usize_mod → IsBalanced limit (new limit)
unfolding new Budget.new held queued_permits permits
new-IsBalanced limit word = ground arith

run-IsBalanced :
    (limit : ℕ) (as' : List Action) (r : Runtime)
    → IsBalanced limit r
    → IsBalanced limit (run as' r)
unfolding run
run-IsBalanced limit [] r v = v
run-IsBalanced limit (a ∷ as') r v =
    run-IsBalanced limit as' (step a r) (step-IsBalanced limit a r v)

-- From the start of a runtime, whatever clients ask of it and whatever becomes of each call, on every
-- path on which one is refused, dropped, collected or answered: the requests in flight are the
-- permits held by the calls that are queued, enveloped or running, and they are never more than the
-- limit. So a runtime without calls has its whole capacity again.
pub admission_balanced :
    (limit : ℕ) (as' : List Action)
    → limit < usize_mod
    → let r = run as' (new limit) in (inflight_requests r ≡ held r) × (inflight_requests r ≤ limit)
unfolding inflight_requests
admission_balanced limit as' word =
    let v = run-IsBalanced limit as' (new limit) (new-IsBalanced limit word) in
    (v.balanced, v.bounded)
