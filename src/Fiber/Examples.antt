-- ===== src/Fiber/Examples.antt =====
-- Runs of src/fiber.rs, the passes of the reactor.
use ruvoy.Prelude.{
  ℕ, ◌≡◌, refl, true, false, ◌&&◌, none, some, List, [], ◌∷◌, ◌++◌, any, arith, text,
}
use ruvoy.Request.{Request}
use ruvoy.Request as Request
use ruvoy.Fiber.Reactor.{
  resolving, waiting, work, shutdown, Reactor, Action, sends, owes, signals, begins, resolves,
  reads, receives, new, run,
}
use ruvoy.Fiber.Reactor.Stranded.{
  is_waiting, stranded, commands, commands_never_stranded, lost_wakeup,
}
use ruvoy.Fiber.Bridge.{FiberCommand, AdminRequest, existing, new_batch, receive}
use ruvoy.Fiber.Bridge as Bridge
use ruvoy.Error.{startup}
use ruvoy.Rack.Env.{ok, err}
use ruvoy.Fiber.Lifecycle.{refused, ran, fiber_runtime_main, FiberRuntime, finished, shutdown_inner}
use ruvoy.Fiber.Lifecycle.Failed.{failure, is_shutdown, owed_to_all, failed_runtime_answers}
use ruvoy.Fiber.Bridge.Pass.{until_shutdown, calls_of, admins_of, is_drain, Ends, receive_lem}

-- Two producers, of which one signals while a pass runs.
abbrev interleaved : List (Action ℕ)
interleaved =
    sends (work 1)
    ∷ signals
    ∷ begins
    ∷ sends (work 2)
    ∷ resolves
    ∷ reads
    ∷ reads
    ∷ receives
    ∷ signals
    ∷ receives
    ∷ receives
    ∷ sends shutdown
    ∷ []

commands_never_stranded_example :
    ((run interleaved (new 4)).handed ++ (run interleaved (new 4)).queue ≡ commands interleaved)
    × ((is_waiting (run interleaved (new 4)).phase && stranded (run interleaved (new 4))) ≡ false)
commands_never_stranded_example = commands_never_stranded 4 interleaved (omega arith)

abbrev in_a_pass : Reactor ℕ
in_a_pass = record (new 4) { phase = resolving; pending = 1 }

lost_wakeup_example :
    let r' = run (resolves ∷ owes 7 ∷ signals ∷ reads ∷ reads ∷ receives ∷ []) in_a_pass in
    (r'.phase ≡ waiting)
    × (r'.owed ≡ 7 ∷ [])
    × (r'.resolved ≡ in_a_pass.resolved ++ in_a_pass.owed)
    × (r'.pending ≡ 0)
    × (r'.unsignalled ≡ 0)
unfolding new
lost_wakeup_example = lost_wakeup 7 in_a_pass refl refl refl (omega arith)

abbrev asked : AdminRequest
asked = record { method = text "GET"; path = text "/ruvoy"; body = []; inflight = 1 }

abbrev queued : List FiberCommand
queued =
    Bridge.call
      (record { request = Request.new (text "GET") (text "/") []; stream = 1; permit = 1 })
    ∷ Bridge.admin (record { request = asked; reply = 5 })
    ∷ Bridge.drain
    ∷ Bridge.shutdown 6
    ∷ Bridge.drain
    ∷ []

receive_example :
    ((receive queued true none new_batch).batch.envelopes ≡ calls_of (until_shutdown queued))
    × (existing (receive queued true none new_batch).batch.admin
        ≡ admins_of (until_shutdown queued))
    × ((receive queued true none new_batch).batch.draining ≡ any is_drain (until_shutdown queued))
    × Ends queued true none (receive queued true none new_batch)
receive_example = receive_lem queued true none

abbrev dead : FiberRuntime
dead = record { client = none; info = none; join = true }

failed_runtime_answers_example :
    let commands = Bridge.admin (record { request = asked; reply = 5 }) ∷ Bridge.drain ∷ [] in
    let m =
      fiber_runtime_main
        (refused (startup (text "boom")))
        true
        (commands ++ Bridge.shutdown 6 ∷ Bridge.drain ∷ [])
        true
        ran in
    (m.readiness ≡ err (startup (text "boom")))
    × (m.effects ≡ owed_to_all (startup (text "boom")) commands ++ Bridge.acknowledges 6 ∷ [])
    × (m.result ≡ some (err (startup (text "boom"))))
    × ((shutdown_inner (λ client. ok tt) (finished (err (startup (text "boom")))) dead).1
        ≡ err (startup (text "boom")))
unfolding failure is_shutdown
failed_runtime_answers_example =
    failed_runtime_answers (refused (startup (text "boom"))) (startup (text "boom")) true true ran
      dead (Bridge.admin (record { request = asked; reply = 5 }) ∷ Bridge.drain ∷ [])
      (Bridge.drain ∷ []) 6 refl refl refl
