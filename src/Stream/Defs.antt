-- ===== src/Stream/Defs.antt =====
-- src/stream.rs: `StreamItem` and `ResponseStream`. Every method takes the lock once, so each is one
-- function from the state to the new state and the result. `ResponseStreamInner` stands in the same
-- record as the limit. A waiter is the identity of the opaque Ruby value.
use ruvoy.Prelude.{
  ℕ, ◌-◌, ◌==◌, Bool, true, false, not, ◌&&◌, ◌||◌, Option, none, some, List, [], ◌∷◌, ◌++◌, min,
  max, leb, ltb, if◌then◌else◌, is_some, add_usize, length, take, Bytes,
}
use ruvoy.Error.{BridgeError}
use ruvoy.Response.{ResponseHead}

pub data StreamItem : Type 0 where
  head : ResponseHead → StreamItem
  chunk : Bytes → StreamItem
  end : StreamItem
  failed : BridgeError → StreamItem

pub record ResponseStream : Type 0 where
  pub items : List StreamItem
  pub buffered_bytes : ℕ
  pub cancelled : Bool
  pub ended : Bool
  pub paused : Bool
  pub waiter : Option ℕ
  pub max_buffered_bytes : ℕ

unfoldable pub new : ℕ → ResponseStream
new max_buffered_bytes = record {
  items = [];
  buffered_bytes = 0;
  cancelled = false;
  ended = false;
  paused = false;
  waiter = none;
  max_buffered_bytes = max max_buffered_bytes 1;
}

unfoldable pub cancel : ResponseStream → ResponseStream
cancel s = record s { cancelled = true; items = []; buffered_bytes = 0 }

unfoldable pub park : ℕ → ResponseStream → ResponseStream × Bool
park waiter s =
    if ltb 0 s.buffered_bytes || s.ended || s.cancelled
    then (s, false)
    else (record s { waiter = some waiter }, true)

unfoldable pub unpark : ResponseStream → ResponseStream × Option ℕ
unpark s = (record s { waiter = none }, s.waiter)

unfoldable pub full : ResponseStream → Bool
full s = s.paused || leb s.max_buffered_bytes s.buffered_bytes

unfoldable pub park_writer : ℕ → ResponseStream → ResponseStream × Bool
unfolding full
park_writer waiter s =
    if s.cancelled || not (full s) then (s, false) else (record s { waiter = some waiter }, true)

unfoldable pub writer_owed_wakeup : ResponseStream → Bool
unfolding full
writer_owed_wakeup s = is_some s.waiter && (s.cancelled || not (full s))

unfoldable pub is_finished : ResponseStream → Bool
is_finished s = s.cancelled || (s.ended && s.buffered_bytes == 0)

unfoldable pub is_cancelled : ResponseStream → Bool
is_cancelled s = s.cancelled

unfoldable pub set_paused : Bool → ResponseStream → ResponseStream
set_paused paused s = record s { paused = paused }

unfoldable pub spare_capacity : ResponseStream → ℕ
spare_capacity s = s.max_buffered_bytes - s.buffered_bytes

unfoldable pub is_saturated : ResponseStream → Bool
unfolding full
is_saturated s = full s

-- The bytes that an item charges to the queue.
unfoldable pub charge : StreamItem → ℕ
charge (chunk bytes) = length bytes
charge _ = 0

-- The items after which a producer says nothing more.
unfoldable pub is_terminal : StreamItem → Bool
is_terminal end = true
is_terminal (failed error) = true
is_terminal _ = false

unfoldable pub push : StreamItem → ResponseStream → ResponseStream × Bool
unfolding charge is_terminal
push item s = if s.cancelled || s.ended then (s, false) else (
  record s {
    items = s.items ++ item ∷ [];
    buffered_bytes = add_usize s.buffered_bytes (charge item);
    ended = is_terminal item;
  },
  true,
)

unfoldable pub push_head : ResponseHead → ResponseStream → ResponseStream × Bool
unfolding push
push_head h = push (head h)

unfoldable pub push_chunk : Bytes → ResponseStream → ResponseStream × Bool
unfolding push
push_chunk bytes = push (chunk bytes)

unfoldable pub push_end : ResponseStream → ResponseStream × Bool
unfolding push
push_end = push end

unfoldable pub push_failure : BridgeError → ResponseStream → ResponseStream × Bool
unfolding push
push_failure error = push (failed error)

-- What `push_chunk_within_budget` takes of a slice.
unfoldable pub room_for : Bytes → ResponseStream → ℕ
unfolding spare_capacity
room_for bytes s = min (length bytes) (spare_capacity s)

unfoldable pub push_chunk_within_budget : Bytes → ResponseStream → ResponseStream × Option ℕ
unfolding room_for
push_chunk_within_budget bytes s =
    if s.cancelled || s.ended
    then (s, none)
    else let taken = room_for bytes s in
      if ltb 0 taken
      then (
        record s {
          buffered_bytes = add_usize s.buffered_bytes taken;
          items = s.items ++ chunk (take taken bytes) ∷ [];
        },
        some taken,
      )
      else (s, some taken)

unfoldable pub push_chunk_if_room : Bytes → ResponseStream → ResponseStream × Option Bool
unfolding spare_capacity
push_chunk_if_room bytes s =
    if s.cancelled || s.ended
    then (s, none)
    else if ltb 0 s.buffered_bytes && ltb (spare_capacity s) (length bytes)
    then (s, some false)
    else (
      record s {
        buffered_bytes = add_usize s.buffered_bytes (length bytes);
        items = s.items ++ chunk bytes ∷ [];
      },
      some true,
    )

pop_front : List StreamItem → ResponseStream → ResponseStream × Option StreamItem
unfolding charge
pop_front [] s = (s, none)
pop_front (item ∷ rest) s =
    (record s { items = rest; buffered_bytes = s.buffered_bytes - charge item }, some item)

unfoldable pub take_next : ResponseStream → ResponseStream × Option StreamItem
unfolding pop_front
take_next s = if s.paused then (s, none) else pop_front s.items s
