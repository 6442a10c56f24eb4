-- ===== src/Fiber/Client/Examples.antt =====
-- Runs of src/fiber.rs, the client and its runtime.
use ruvoy.Prelude.{◌≤◌, ◌≡◌, List, [], ◌∷◌, arith, text}
use ruvoy.Request.{Request}
use ruvoy.Request as Request
use ruvoy.Fiber.Wake.{ok}
use ruvoy.Fiber.Client.{
  new, inflight_requests, Action, submits, requests_shutdown, passes, executes, finishes, collects,
  stops, run,
}
use ruvoy.Fiber.Client.Balance.{held, admission_balanced}

abbrev get : Request
get = Request.new (text "GET") (text "/") []

abbrev life : List Action
life =
    submits ok get 1
    ∷ submits ok get 2
    ∷ submits ok get 3
    ∷ passes
    ∷ executes 0
    ∷ collects 0
    ∷ submits ok get 4
    ∷ requests_shutdown ok 9
    ∷ finishes 0
    ∷ stops
    ∷ []

admission_balanced_example :
    (inflight_requests (run life (new 2)) ≡ held (run life (new 2)))
    × (inflight_requests (run life (new 2)) ≤ 2)
admission_balanced_example = admission_balanced 2 life (omega arith)
