-- ===== src/Stream/Bounds.antt =====
-- src/stream.rs: how many bytes a queue holds.
use ruvoy.Prelude.{
  ◌+◌, ◌≤◌, ◌<◌, ◌≡◌, true, false, ◌||◌, some, List, [], ◌∷◌, arith, length, All, usize_mod, Bytes,
  ◌⊎◌,
}
use ruvoy.Stream.Defs.{
  chunk, ResponseStream, cancel, park, unpark, park_writer, set_paused, push,
  push_chunk_within_budget, push_chunk_if_room, take_next,
}
use ruvoy.Stream.Run.{Op, takes, pushes, pushes_if_room, apply, run, total, offered}
use ruvoy.Stream.Invariant.{IsSound, apply-IsSound}

-- The calls of a producer that hands its body over in slices, and all of a consumer's.
abbrev pub IsBudgeted : Op → Type 0
IsBudgeted (pushes (chunk bytes)) = ⊥
IsBudgeted (pushes_if_room bytes) = ⊥
IsBudgeted _ = Unit {0}

abbrev pub Within : ResponseStream → Type 0
Within s = s.buffered_bytes ≤ s.max_buffered_bytes

pub apply-Within :
    (op : Op) (s : ResponseStream)
    → IsBudgeted op
    → IsSound s
    → Within s
    → Within (apply op s) × ((apply op s).max_buffered_bytes ≡ s.max_buffered_bytes)
unfolding apply cancel park unpark park_writer set_paused take_next push push_chunk_within_budget
apply-Within (pushes (chunk bytes)) s b v h = elim b [ ]
apply-Within (pushes_if_room bytes) s b v h = elim b [ ]
apply-Within takes s b v h = ground arith
apply-Within _ s b v h = ground arith

offers_nothing :
    (op : Op) (s : ResponseStream)
    → IsBudgeted op
    → IsSound s
    → total s.items + offered op < usize_mod
offers_nothing (pushes (chunk bytes)) s b v = elim b [ ]
offers_nothing (pushes_if_room bytes) s b v = elim b [ ]
offers_nothing _ s b v = omega arith

-- A body handed over in slices never takes the queue past its budget, whatever else is called.
pub run_within_budget :
    (ops : List Op) (s : ResponseStream)
    → All IsBudgeted ops
    → IsSound s
    → s.buffered_bytes ≤ s.max_buffered_bytes
    → (run ops s).buffered_bytes ≤ s.max_buffered_bytes
unfolding run
run_within_budget [] s b v h = h
run_within_budget (op ∷ ops) s b v h =
    let (h', same) = apply-Within op s b.0 v h in
    let v' = apply-IsSound op s (offers_nothing op s b.0 v) v in
    omega (arith, same, run_within_budget ops (apply op s) b.1 v' h')

-- A delivery is taken whole or refused whole: it is refused on an open stream exactly when bytes are
-- queued and it does not fit beside them, and then nothing changes. One that is taken fits the
-- budget beside what is queued, or nothing was queued, or it is empty.
pub push_chunk_if_room_lem :
    (bytes : Bytes) (s : ResponseStream)
    → IsSound s
    → (s.cancelled || s.ended) ≡ false
    → s.buffered_bytes + length bytes < usize_mod
    → ((push_chunk_if_room bytes s ≡ (s, some false))
        × (0 < s.buffered_bytes)
        × (s.max_buffered_bytes < s.buffered_bytes + length bytes))
      ⊎ (((push_chunk_if_room bytes s).1 ≡ some true)
          × ((push_chunk_if_room bytes s).0.buffered_bytes ≡ s.buffered_bytes + length bytes)
          × ((s.buffered_bytes + length bytes ≤ s.max_buffered_bytes)
              ⊎ (s.buffered_bytes ≡ 0)
              ⊎ (length bytes ≡ 0)))
unfolding push_chunk_if_room
push_chunk_if_room_lem bytes s v open_ fits = ground arith
