-- ===== src/Fiber/Collect/Examples.antt =====
-- Runs of src/fiber.rs, the collectors.
use ruvoy.Prelude.{◌≡◌, refl, none, some, List, [], ◌∷◌, arith, map}
use ruvoy.Response.{ResponseHead}
use ruvoy.Stream.Defs.{
  StreamItem, head, chunk, end, ResponseStream, new, push, take_next, is_terminal,
}
use ruvoy.Stream.Run.{pushes, apply}
use ruvoy.Fiber.Collect.{ok, response_of, calling, collecting, Turn, others, turns, call, collect}
use ruvoy.Fiber.Collect.Same.{submit_collected-call, one_result}
use ruvoy.Fiber.Collect.Whole.{call_returns_whole, verdict, last_head, body_of}

abbrev answer_head : ResponseHead
answer_head = record { status = 200; headers = []; ruby_thread_object_id = 7 }

abbrev schedule : List Turn
schedule =
    others (pushes (head answer_head))
    ∷ turns 5
    ∷ turns 4
    ∷ others (pushes (chunk (1 ∷ 2 ∷ [])))
    ∷ others (pushes end)
    ∷ turns 3
    ∷ turns 2
    ∷ turns 1
    ∷ []

submit_collected-call_example :
    (collect schedule (new 4) collecting).1.reported
    ≡ one_result (call schedule (new 4) calling).1.returned
submit_collected-call_example = submit_collected-call schedule (new 4) (omega arith)

collected_run :
    (call schedule (new 4) calling).1.returned ≡ some (ok (response_of answer_head (1 ∷ 2 ∷ [])))
unfolding call calling new apply push take_next
collected_run = refl

abbrev whole : List StreamItem
whole = head answer_head ∷ chunk (1 ∷ []) ∷ chunk (2 ∷ []) ∷ []

abbrev queued : ResponseStream
queued = record (new 4) { items = head answer_head ∷ chunk (1 ∷ []) ∷ chunk (2 ∷ []) ∷ end ∷ [] }

call_returns_whole_example :
    (call (map turns (1 ∷ 1 ∷ 1 ∷ 1 ∷ [])) queued calling).1.returned
    ≡ some (verdict end (last_head whole none) (body_of whole))
unfolding new is_terminal
call_returns_whole_example =
    call_returns_whole whole end (1 ∷ 1 ∷ 1 ∷ 1 ∷ []) queued refl refl refl refl refl
