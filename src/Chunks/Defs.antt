-- ===== src/Chunks/Defs.antt =====
-- src/chunks.rs: `ChunkSource` and `ChunkSink`, and the class of exception that a failure raises
-- (src/extensions.rs, `upstream_error`). Beside the new queue and the result a method says whether
-- it wakes the worker.
use ruvoy.Prelude.{ℕ, Bool, true, false, not, Option, none, some, Bytes, ltb, drop}
use ruvoy.Error.{BridgeError, upstream_too_large, upstream_overflow, to_string}
use ruvoy.Stream.Defs.{
  StreamItem, chunk, failed, ResponseStream, take_next, is_finished, is_saturated, is_cancelled,
  push_chunk_within_budget, push_end,
}

pub data ErrorClass : Type 0 where
  response_too_large overflow upstream_error_class arg_error runtime_error : ErrorClass

-- A Ruby exception.
pub record Raised : Type 0 where
  pub class : ErrorClass
  pub message : Bytes

class_of : BridgeError → ErrorClass
class_of (upstream_too_large message) = response_too_large
class_of (upstream_overflow message) = overflow
class_of _ = upstream_error_class

unfoldable pub upstream_error : BridgeError → Raised
unfolding class_of
upstream_error error = record { class = class_of error; message = to_string error }

-- What `next_chunk` hands to Ruby.
pub data Chunk : Type 0 where
  nil : Chunk
  bytes : Bytes → Chunk
  raises : Raised → Chunk

unfoldable pub hand_over : Option StreamItem → Chunk
hand_over none = nil
hand_over (some (chunk b)) = bytes b
hand_over (some (failed error)) = raises (upstream_error error)
hand_over (some _) = nil

abbrev wakes : Option StreamItem → Bool
wakes none = false
wakes (some item) = true

unfoldable pub next_chunk : ResponseStream → ResponseStream × Chunk × Bool
unfolding hand_over
next_chunk s = let (s', item) = take_next s in (s', hand_over item, wakes item)

unfoldable pub finished : ResponseStream → Bool
unfolding is_finished
finished s = is_finished s

abbrev wakes_for : Option ℕ → Bool
wakes_for none = false
wakes_for (some taken) = ltb 0 taken

-- `bytes.get(offset..).unwrap_or_default()` is empty past the end, as `drop` is.
unfoldable pub write : Bytes → ℕ → ResponseStream → ResponseStream × Option ℕ × Bool
write b offset s =
    let (s', taken) = push_chunk_within_budget (drop offset b) s in (s', taken, wakes_for taken)

unfoldable pub writable : ResponseStream → Bool
unfolding is_saturated
writable s = not (is_saturated s)

unfoldable pub cancelled : ResponseStream → Bool
unfolding is_cancelled
cancelled s = is_cancelled s

unfoldable pub finish : ResponseStream → ResponseStream × Bool
finish s = push_end s
