-- ===== src/Fiber/Execute/Examples.antt =====
-- Runs of src/fiber.rs, a call of the application.
use ruvoy.Prelude.{pos, true, false, none, some, [], ◌∷◌, Bytes, text}
use ruvoy.Request.{Request}
use ruvoy.Request as Request
use ruvoy.Budget.Defs.{Ceiling}
use ruvoy.Stream.Defs.{ResponseStream, chunk, end, head}
use ruvoy.Stream.Defs as Stream
use ruvoy.Stream.Run.{pushes_within, pauses, takes}
use ruvoy.Rack.Respond.{App, gives, one}
use ruvoy.Fiber.Bridge.{FiberCall, FiberEnvelope}
use ruvoy.Fiber.Execute.{Surroundings}

abbrev same : Bytes → Bytes
same bytes = bytes

abbrev around : Surroundings
around = record {
  quoted = same;
  answers = record { string_io_new = none; binmode = none; request_body_new = none };
  times = record { started_at = 0; input_started_at = 1; input_done_at = 2 };
  ruby_thread_object_id = 7;
  string_io_class = none;
}

-- An application that fails in the middle of its body.
abbrev app : App
app = record {
  response = gives (record {
    len = 3;
    status = gives (pos 200);
    headers = gives ((gives (text "x-a"), one (gives (text "1"))) ∷ []);
    body = gives 5;
  });
  call_time = 3;
  during_call = pauses true ∷ [];
  body_raises = some (text "boom");
  during_body = pushes_within (text "ab") ∷ pauses false ∷ takes ∷ [];
}

abbrev first : FiberCall
first = record { request = Request.new (text "GET") (text "/a?b") []; stream = 1; permit = 1 }

abbrev envelope : FiberEnvelope
envelope = record { stream = 1; call = some first }

abbrev one_used : Ceiling
one_used = record { used = 1; capacity = 4 }
