-- ===== src/EnvoyUpstream/OpenStream/Delivery.antt =====
-- crates/ruvoy-envoy-fiber/src/upstream.rs: what the fiber gets to read of a streamed response.
use ruvoy.Prelude.{
  ◌+◌, ◌<◌, ◌≤◌, ◌≡◌, Bool, true, false, none, some, List, [], ◌∷◌, ◌++◌, ◌⊎◌, length, is_empty,
  if◌then◌else◌, Bytes, arith, append_assoc, append-nil,
}
use ruvoy.Stream.Defs.{StreamItem, chunk, end, failed, push_end, push_failure, push_chunk_if_room}
use ruvoy.Stream.Invariant.{IsSound}
use ruvoy.Upstream.Defs.{fail}
use ruvoy.EnvoyUpstream.Headers.{CallOutcome, completed, concatenate}
use ruvoy.EnvoyUpstream.Headers as Headers
use ruvoy.EnvoyUpstream.OpenStream.Defs.{
  OpenStream, data_arrived, too_fast, get_or_insert, stopped_by_fiber,
}
use ruvoy.EnvoyUpstream.OpenStream.Settled.{is_over}

-- The items that a piece of the body adds.
abbrev pub piece : Bytes → Bool → List StreamItem
piece bytes end_stream =
    (if is_empty bytes then [] else chunk bytes ∷ []) ++ (if end_stream then end ∷ [] else [])

-- What a piece of the body may do to a stream.
abbrev pub TakesPiece : List Bytes → Bool → OpenStream → Type 0
TakesPiece pieces end_stream o =
    ((((data_arrived pieces end_stream o).1 ≡ false)
      × ((concatenate pieces ≡ [])
          ⊎ (o.channel.response.buffered_bytes ≡ 0)
          ⊎ (o.channel.response.buffered_bytes + length (concatenate pieces)
              ≤ o.channel.response.max_buffered_bytes))
      × ((data_arrived pieces end_stream o).0.channel.response.items
          ≡ o.channel.response.items ++ piece (concatenate pieces) end_stream)
      × ((data_arrived pieces end_stream o).0.response_ended ≡ end_stream)))
    ⊎ (((data_arrived pieces end_stream o).1 ≡ true)
        × (o.channel.response.max_buffered_bytes
            < o.channel.response.buffered_bytes + length (concatenate pieces))
        × (0 < o.channel.response.buffered_bytes)
        × ((data_arrived pieces end_stream o).0.channel.response.items
            ≡ o.channel.response.items ++ failed too_fast ∷ [])
        × ((data_arrived pieces end_stream o).0.outcome ≡ get_or_insert Headers.overflow o.outcome)
        × ((data_arrived pieces end_stream o).0.channel.reset_wanted ≡ true))

-- A piece of the body on a stream whose response is open on both sides: if it is empty, fits within
-- the bound beside what is queued, or finds no bytes queued, it is queued whole, and the end behind
-- it if it is the last; otherwise it is over the bound beside queued bytes, and then the fiber reads what was queued and the failure, the stream counts as an overflow unless it
-- already had an outcome, and the worker has a reset to send.
pub data_arrived_lem :
    (pieces : List Bytes) (end_stream : Bool) (o : OpenStream)
    → o.response_ended ≡ false
    → is_over o.channel.response ≡ false
    → IsSound o.channel.response
    → TakesPiece pieces end_stream o
unfolding data_arrived push_chunk_if_room push_end push_failure fail too_fast Headers.failed
data_arrived_lem pieces end_stream o open_ live v = ground (
  arith,
  append-nil o.channel.response.items,
  append_assoc o.channel.response.items (chunk (concatenate pieces) ∷ []) (end ∷ []),
)

-- A piece that arrives after the fiber stopped the stream is dropped, and the stream counts as
-- timed out if that was for quiet, as completed if it was a byte stream, and as abandoned else.
pub data_after_stop :
    (pieces : List Bytes) (end_stream : Bool) (o : OpenStream)
    → o.response_ended ≡ false
    → o.outcome ≡ none
    → is_over o.channel.response ≡ true
    → is_empty (concatenate pieces) ≡ false
    → ((data_arrived pieces end_stream o).1 ≡ false)
      × ((data_arrived pieces end_stream o).0.channel ≡ o.channel)
      × ((data_arrived pieces end_stream o).0.response_ended ≡ true)
      × ((data_arrived pieces end_stream o).0.outcome ≡ some (stopped_by_fiber o))
unfolding data_arrived push_chunk_if_room
data_after_stop pieces end_stream o open_ unknown over some_bytes = ground arith
