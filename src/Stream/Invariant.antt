-- ===== src/Stream/Invariant.antt =====
-- src/stream.rs: what every call keeps of a `ResponseStream`.
use ruvoy.Prelude.{
  ℕ, ◌+◌, ◌<◌, ◌≡◌, Bool, true, false, ◌&&◌, not, List, [], ◌∷◌, ◌++◌, arith, length, take,
  length-take, is_empty, if◌then◌else◌, usize_mod, Bytes,
}
use ruvoy.Stream.Defs.{
  StreamItem, head, chunk, end, failed, ResponseStream, new, cancel, park, unpark, park_writer,
  set_paused, push, push_chunk_within_budget, push_chunk_if_room, take_next, charge, is_terminal,
  room_for,
}
use ruvoy.Stream.Run.{
  Op, takes, pushes, pushes_within, pushes_if_room, apply, run, total, offered, AllFit,
}

-- Nothing stands behind a terminal item, and one is queued only once the stream has ended.
unfoldable pub in_order : Bool → List StreamItem → Bool
unfolding is_terminal
in_order ended [] = true
in_order ended (item ∷ rest) =
    if is_terminal item then ended && is_empty rest else in_order ended rest

pub record IsSound (s : ResponseStream) : Type 0 where
  pub accounted : s.buffered_bytes ≡ total s.items
  pub within_word : total s.items < usize_mod
  pub ordered : in_order s.ended s.items ≡ true
  pub cleared : (s.cancelled && not (is_empty s.items)) ≡ false
  pub positive : 0 < s.max_buffered_bytes
  pub max_within_word : s.max_buffered_bytes < usize_mod

pub total-append : (xs ys : List StreamItem) → total (xs ++ ys) ≡ total xs + total ys
unfolding total
total-append [] ys = ground arith
total-append (x ∷ xs) ys = ground (arith, total-append xs ys)

in_order-append :
    (xs : List StreamItem) (item : StreamItem)
    → in_order false xs ≡ true
    → in_order (is_terminal item) (xs ++ item ∷ []) ≡ true
unfolding in_order
in_order-append [] item h = ground arith
in_order-append (x ∷ xs) item h = ground (arith, in_order-append xs item)

pub new-IsSound : (n : ℕ) → n < usize_mod → IsSound (new n)
unfolding new in_order total
new-IsSound n h = ground arith

push-IsSound :
    (item : StreamItem) (s : ResponseStream)
    → total s.items + charge item < usize_mod
    → IsSound s
    → IsSound (push item s).0
unfolding push total
push-IsSound item s fits v =
    ground (arith, total-append s.items (item ∷ []), in_order-append s.items item)

take_next-IsSound : (s : ResponseStream) → IsSound s → IsSound (take_next s).0
unfolding take_next in_order total
take_next-IsSound s v = ground arith

within-IsSound :
    (bytes : Bytes) (s : ResponseStream) → IsSound s → IsSound (push_chunk_within_budget bytes s).0
unfolding push_chunk_within_budget total in_order
within-IsSound bytes s v = ground (
  arith,
  total-append s.items (chunk (take (room_for bytes s) bytes) ∷ []),
  in_order-append s.items (chunk (take (room_for bytes s) bytes)),
  length-take (room_for bytes s) bytes,
)

if_room-IsSound :
    (bytes : Bytes) (s : ResponseStream)
    → total s.items + length bytes < usize_mod
    → IsSound s
    → IsSound (push_chunk_if_room bytes s).0
unfolding push_chunk_if_room total in_order
if_room-IsSound bytes s fits v =
    ground (arith, total-append s.items (chunk bytes ∷ []), in_order-append s.items (chunk bytes))

-- Every call keeps the stream sound.
pub apply-IsSound :
    (op : Op) (s : ResponseStream)
    → total s.items + offered op < usize_mod
    → IsSound s
    → IsSound (apply op s)
unfolding apply cancel park unpark park_writer set_paused in_order total
apply-IsSound takes s fits v = take_next-IsSound s v
apply-IsSound (pushes (head h)) s fits v = push-IsSound (head h) s fits v
apply-IsSound (pushes (chunk bytes)) s fits v = push-IsSound (chunk bytes) s fits v
apply-IsSound (pushes end) s fits v = push-IsSound end s fits v
apply-IsSound (pushes (failed error)) s fits v = push-IsSound (failed error) s fits v
apply-IsSound (pushes_within bytes) s fits v = within-IsSound bytes s v
apply-IsSound (pushes_if_room bytes) s fits v = if_room-IsSound bytes s fits v
apply-IsSound _ s fits v = ground arith

pub run-IsSound :
    (ops : List Op) (s : ResponseStream) → AllFit ops s → IsSound s → IsSound (run ops s)
unfolding run
run-IsSound [] s fits v = v
run-IsSound (op ∷ ops) s fits v = run-IsSound ops (apply op s) fits.1 (apply-IsSound op s fits.0 v)

-- Any calls, in any order, from a new stream: the byte count is that of the queued chunks, nothing
-- is queued behind an end or a failure, and a cancelled stream holds nothing.
pub run-new-IsSound :
    (n : ℕ) (ops : List Op) → n < usize_mod → AllFit ops (new n) → IsSound (run ops (new n))
run-new-IsSound n ops h fits = run-IsSound ops (new n) fits (new-IsSound n h)
