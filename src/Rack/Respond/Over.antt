-- ===== src/Rack/Respond/Over.antt =====
-- src/rack.rs: what others do to a response stream never reopens it.
use ruvoy.Prelude.{◌≡◌, Bool, true, false, ◌||◌, List, [], ◌∷◌, arith}
use ruvoy.Error.{BridgeError}
use ruvoy.Response.{ResponseHead}
use ruvoy.Stream.Defs.{
  ResponseStream, cancel, park, unpark, park_writer, set_paused, push, push_head, push_end,
  push_failure, push_chunk_within_budget, push_chunk_if_room, take_next, is_terminal,
}
use ruvoy.Stream.Run.{
  Op, apply, run, cancels, unparks, takes, parks, parks_writer, pauses, pushes, pushes_within,
  pushes_if_room,
}

-- Nothing more can be pushed.
unfoldable pub is_over : ResponseStream → Bool
is_over s = s.ended || s.cancelled

pub apply-is_over : (op : Op) (s : ResponseStream) → is_over s ≡ true → is_over (apply op s) ≡ true
unfolding is_over apply cancel park unpark park_writer set_paused push push_chunk_within_budget
    push_chunk_if_room take_next
apply-is_over cancels s h = ground arith
apply-is_over unparks s h = ground arith
apply-is_over takes s h = ground arith
apply-is_over (parks w) s h = ground arith
apply-is_over (parks_writer w) s h = ground arith
apply-is_over (pauses p) s h = ground arith
apply-is_over (pushes item) s h = ground arith
apply-is_over (pushes_within bytes) s h = ground arith
apply-is_over (pushes_if_room bytes) s h = ground arith

pub run-is_over :
    (ops : List Op) (s : ResponseStream) → is_over s ≡ true → is_over (run ops s) ≡ true
unfolding run
run-is_over [] s h = h
run-is_over (op ∷ ops) s h = run-is_over ops (apply op s) (apply-is_over op s h)

pub push_end-is_over : (s : ResponseStream) → is_over (push_end s).0 ≡ true
unfolding is_over push_end push is_terminal
push_end-is_over s = ground arith

pub push_failure-is_over :
    (error : BridgeError) (s : ResponseStream) → is_over (push_failure error s).0 ≡ true
unfolding is_over push_failure push is_terminal
push_failure-is_over error s = ground arith

-- A head is refused only by a stream that is over.
pub push_head-refused :
    (h : ResponseHead) (s : ResponseStream)
    → (push_head h s).1 ≡ false
    → is_over (push_head h s).0 ≡ true
unfolding is_over push_head push is_terminal
push_head-refused h s refused = ground arith
