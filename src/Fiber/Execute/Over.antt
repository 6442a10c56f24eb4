-- ===== src/Fiber/Execute/Over.antt =====
-- src/fiber.rs and src/rack.rs: a call that ran leaves its response stream over and gives its permit
-- back.
use ruvoy.Prelude.{◌≡◌, true, ◌<◌, ◌⊎◌, none, is_some, text}
use ruvoy.Stream.Defs.{ResponseStream}
use ruvoy.Stream.Run as Run
use ruvoy.Budget.Defs.{Ceiling, release}
use ruvoy.Rack.Respond.{App}
use ruvoy.Rack.Respond.Over.{is_over}
use ruvoy.Fiber.Bridge.{FiberCall}
use ruvoy.Fiber.Execute.{Surroundings, Executed, left, execute}

-- What a call that was run leaves: a stream that is over, and a worker that was woken for it.
abbrev IsTold : ResponseStream → Executed → Type 0
IsTold before x = (is_over x.stream ≡ true) × ((0 < x.wakes) ⊎ (is_over before ≡ true))

-- What becomes of a call that its fiber runs.
abbrev pub IsCompleted :
    Surroundings → App → FiberCall → ResponseStream → Ceiling → Executed → Type 0
IsCompleted w app c s ceiling x =
    (x.admission ≡ release c.permit ceiling)
    × (execute w app x.envelope x.stream x.admission
        ≡ left x.envelope x.stream x.admission (text "request reused"))
    × (x.raised ≡ w.string_io_class)
    × (((w.string_io_class ≡ none)
          × (is_over x.stream ≡ true)
          × ((0 < x.wakes) ⊎ (is_over (Run.run app.during_call s) ≡ true)))
        ⊎ ((is_some w.string_io_class ≡ true) × (x.stream ≡ s)))
