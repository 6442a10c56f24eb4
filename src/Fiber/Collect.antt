-- ===== src/Fiber/Collect.antt =====
-- src/fiber.rs: the two ways of `FiberRuntimeClient` to gather a streamed response in one buffer,
-- `call`, which blocks, and the waker of `submit_collected`. A turn is one `take_next` of their loops;
-- what the producer and others do to the stream stands between the turns.
pub mod Same
pub mod Whole
mod Examples
use ruvoy.Prelude.{
  ℕ, Bool, true, false, Option, none, some, List, [], ◌∷◌, ◌++◌, ◌==◌, if◌then◌else◌, is_some,
  Bytes, text,
}
use ruvoy.Error.{BridgeError, invalid_response, response_timeout}
use ruvoy.Response.{Response, ResponseHead}
use ruvoy.Stream.Defs.{StreamItem, head, chunk, end, failed, ResponseStream, take_next}
use ruvoy.Stream.Run.{Op, apply}

-- `Result<Response, BridgeError>`.
pub data Collected : Type 0 where
  ok : Response → Collected
  err : BridgeError → Collected

unfoldable pub response_of : ResponseHead → Bytes → Response
response_of h body = record {
  status = h.status;
  headers = h.headers;
  body = body;
  ruby_thread_object_id = h.ruby_thread_object_id;
}

unfoldable pub no_head : Collected
no_head = err (invalid_response (text "stream ended without a head"))

-- What an end makes of the head that came before it.
unfoldable pub ended_with : Option ResponseHead → Bytes → Collected
unfolding response_of no_head
ended_with none body = no_head
ended_with (some h) body = ok (response_of h body)

-- The locals of `call`, with what it returned once it did.
pub record Calling : Type 0 where
  pub head : Option ResponseHead
  pub body : Bytes
  pub returned : Option Collected

unfoldable pub calling : Calling
calling = record { head = none; body = []; returned = none }

-- `remaining` is what is left to the deadline, which the loop asks for when the stream has nothing.
unfoldable pub call_item : ℕ → Option StreamItem → Calling → Calling
unfolding ended_with
call_item remaining (some (head h)) c = record c { head = some h }
call_item remaining (some (chunk bytes)) c = record c { body = c.body ++ bytes }
call_item remaining (some (failed error)) c = record c { returned = some (err error) }
call_item remaining (some end) c = record c { returned = some (ended_with c.head c.body) }
call_item remaining none c =
    if remaining == 0 then record c { returned = some (err response_timeout) } else c

-- `CollectingResponse`. `reported` is what the completion was called with.
pub record CollectingResponse : Type 0 where
  pub head : Option ResponseHead
  pub body : Bytes
  pub completion : Bool
  pub reported : List Collected

unfoldable pub collecting : CollectingResponse
collecting = record { head = none; body = []; completion = true; reported = [] }

unfoldable pub finish : Collected → CollectingResponse → CollectingResponse
finish result c =
    if c.completion
    then record c { completion = false; reported = c.reported ++ result ∷ [] }
    else c

-- The body is taken with the head, or stays.
unfoldable pub collect_end : Option ResponseHead → CollectingResponse → CollectingResponse
unfolding finish ended_with
collect_end none c = finish (ended_with none c.body) c
collect_end (some h) c = finish (ended_with (some h) c.body) (record c { head = none; body = [] })

unfoldable pub collect_item : Option StreamItem → CollectingResponse → CollectingResponse
unfolding finish collect_end
collect_item (some (head h)) c = record c { head = some h }
collect_item (some (chunk bytes)) c = record c { body = c.body ++ bytes }
collect_item (some (failed error)) c = finish (err error) c
collect_item (some end) c = collect_end c.head c
collect_item none c = c

-- What happens in order: an operation of another thread on the stream, or a turn of the collector.
pub data Turn : Type 0 where
  others : Op → Turn
  turns : ℕ → Turn

-- `call` makes no turn once it returned.
unfoldable pub call_turn : Turn → ResponseStream → Calling → ResponseStream × Calling
unfolding call_item
call_turn (others op) s c = (apply op s, c)
call_turn (turns remaining) s c =
    if is_some c.returned
    then (s, c)
    else let (s', item) = take_next s in (s', call_item remaining item c)

unfoldable pub collect_turn :
    Turn → ResponseStream → CollectingResponse → ResponseStream × CollectingResponse
unfolding collect_item
collect_turn (others op) s c = (apply op s, c)
collect_turn (turns remaining) s c = let (s', item) = take_next s in (s', collect_item item c)

unfoldable pub call : List Turn → ResponseStream → Calling → ResponseStream × Calling
unfolding call_turn
call [] s c = (s, c)
call (t ∷ ts) s c = let (s', c') = call_turn t s c in call ts s' c'

unfoldable pub collect :
    List Turn → ResponseStream → CollectingResponse → ResponseStream × CollectingResponse
unfolding collect_turn
collect [] s c = (s, c)
collect (t ∷ ts) s c = let (s', c') = collect_turn t s c in collect ts s' c'
