-- ===== src/Stream/Examples.antt =====
-- Runs of `ResponseStream`: src/stream.rs and its tests.
use ruvoy.Prelude.{
  ◌≤◌, ◌≡◌, refl, true, false, ◌||◌, not, none, some, List, [], ◌∷◌, ◌++◌, ◌⊎◌, arith, Bytes,
}
use ruvoy.Stream.Defs.{
  StreamItem, chunk, end, ResponseStream, new, unpark, park_writer, writer_owed_wakeup,
  is_saturated, push_chunk_within_budget, take_next, push_end, push, push_chunk, cancel,
}
use ruvoy.Stream.Run.{
  Op, takes, pushes, pushes_within, apply, run, total, all_accepted, all_delivered,
}
use ruvoy.Stream.Invariant.{IsSound, in_order, new-IsSound, run-new-IsSound}
use ruvoy.Stream.Order.{delivered_in_order}
use ruvoy.Stream.Bounds.{run_within_budget}
use ruvoy.Stream.Parking.{parked_writer_never_stranded}
use ruvoy.Stream.Slices.{Transfer, turns, rounds, IsIdle, rounds_deliver_body}

abbrev letters : Bytes
letters = 97 ∷ 98 ∷ 99 ∷ 100 ∷ 101 ∷ 102 ∷ []

abbrev calls : List Op
calls = pushes (chunk (1 ∷ 2 ∷ [])) ∷ takes ∷ pushes_within letters ∷ pushes end ∷ takes ∷ []

run-new-IsSound_example : IsSound (run calls (new 4))
unfolding new apply total push take_next push_chunk_within_budget
run-new-IsSound_example = run-new-IsSound 4 calls (omega arith) (omega arith)

delivered_in_order_example :
    (rest : List StreamItem) × (all_delivered calls (new 4) ++ rest
      ≡ (new 4).items ++ all_accepted calls (new 4))
    × ((run calls (new 4)).cancelled ≡ false → rest ≡ (run calls (new 4)).items)
delivered_in_order_example = delivered_in_order calls (new 4)

run_within_budget_example : (run (pushes_within letters ∷ takes ∷ []) (new 4)).buffered_bytes ≤ 4
unfolding new
run_within_budget_example =
    run_within_budget (pushes_within letters ∷ takes ∷ []) (new 4) (tt, (tt, tt))
      (new-IsSound 4 (omega arith)) (omega arith)

-- A queue of four bytes that is full.
abbrev crowded : ResponseStream
crowded = record {
  items = chunk (1 ∷ 2 ∷ 3 ∷ 4 ∷ []) ∷ [];
  buffered_bytes = 4;
  cancelled = false;
  ended = false;
  paused = false;
  waiter = none;
  max_buffered_bytes = 4;
}

crowded-IsSound : IsSound crowded
unfolding total in_order
crowded-IsSound = ground arith

abbrev drained : ResponseStream
drained = run (takes ∷ []) (park_writer 7 crowded).0

parked_writer_example :
    ((park_writer 7 crowded ≡ (crowded, false))
      × ((crowded.cancelled ≡ true) ⊎ (is_saturated crowded ≡ false)))
    ⊎ (((park_writer 7 crowded).1 ≡ true)
        × (crowded.cancelled ≡ false)
        × (is_saturated crowded ≡ true)
        × ((unpark drained).1 ≡ some 7)
        × (writer_owed_wakeup drained ≡ drained.cancelled || not (is_saturated drained)))
parked_writer_example = parked_writer_never_stranded 7 crowded (takes ∷ []) (tt, tt)

abbrev upload : Transfer
upload = record { stream = new 4; rest = letters; received = [] }

upload-IsIdle : IsIdle upload.stream
unfolding new
upload-IsIdle = ground arith

rounds_deliver_body_example :
    ((turns (rounds 6) upload).received ≡ letters)
    × ((turns (rounds 6) upload).rest ≡ [])
    × ((turns (rounds 6) upload).stream.items ≡ [])
rounds_deliver_body_example = rounds_deliver_body 6 upload upload-IsIdle (omega arith)

-- Tests of the source.
slice_test : (push_chunk_within_budget letters (new 4)).1 ≡ some 4
unfolding push_chunk_within_budget new
slice_test = refl

after_end_test : push_end (push_end (new 4)).0 ≡ ((push_end (new 4)).0, false)
unfolding push_end new
after_end_test = refl

cancelled_test : (push_chunk letters (cancel (new 4))).1 ≡ false
unfolding push_chunk cancel new
cancelled_test = refl
