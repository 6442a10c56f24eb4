-- ===== src/Serial/Examples.antt =====
-- Runs of src/sync.rs.
use ruvoy.Prelude.{◌≡◌, refl, true, [], ◌∷◌, text, any}
use ruvoy.Request.{Request}
use ruvoy.Request as Request
use ruvoy.Response.{Response}
use ruvoy.Rack.Env.{Result, ok}
use ruvoy.Rack.Respond.{gives}
use ruvoy.Fiber.Wake.{bytes, interrupted, would_block}
use ruvoy.Fiber.Wake as Wake
use ruvoy.Serial.{call, force_gc, shutdown, Pass, serve_passes}
use ruvoy.Serial.Served.{is_shutdown, owed, all_arrived, outcome, served_in_order}

abbrev answer : Request → Result Response
answer r = ok (record { status = 200; headers = []; body = r.body; ruby_thread_object_id = 7 })

abbrev first : Pass
first = record {
  wait = gives tt;
  reads = bytes 2 ∷ interrupted ∷ would_block ∷ [];
  arrived =
      call (record { request = Request.new (text "GET") (text "/") (text "hi"); completion = 1 })
      ∷ force_gc 2
      ∷ [];
  connected = true;
}

abbrev second : Pass
second = record {
  wait = gives tt;
  reads = bytes 1 ∷ would_block ∷ [];
  arrived = shutdown 3 ∷ force_gc 4 ∷ [];
  connected = true;
}

served_in_order_example :
    serve_passes answer (first ∷ second ∷ []) []
    ≡ outcome
        (owed answer (all_arrived (first ∷ second ∷ [])))
        (any is_shutdown (all_arrived (first ∷ second ∷ [])))
unfolding Wake.drain
served_in_order_example = served_in_order answer (first ∷ second ∷ []) (
  record { wait = refl; read = refl; connected = refl },
  (record { wait = refl; read = refl; connected = refl }, tt),
)
