-- ===== src/Stream/Parking.antt =====
-- src/stream.rs: a fiber that waits is woken.
use ruvoy.Prelude.{ℕ, ◌≡◌, refl, true, false, some, List, [], ◌∷◌, ◌⊎◌, All, arith, ◌∙◌, ◌||◌, not}
use ruvoy.Stream.Defs.{
  ResponseStream, cancel, park, unpark, park_writer, writer_owed_wakeup, is_saturated, is_finished,
  set_paused, push, push_chunk_within_budget, push_chunk_if_room, take_next,
}
use ruvoy.Stream.Run.{Op, cancels, unparks, parks, parks_writer, apply, run, total}
use ruvoy.Stream.Invariant.{IsSound}

-- All calls but those of the Ruby thread on a waiter.
abbrev pub LeavesWaiter : Op → Type 0
LeavesWaiter unparks = ⊥
LeavesWaiter (parks w) = ⊥
LeavesWaiter (parks_writer w) = ⊥
LeavesWaiter _ = Unit {0}

waiter-apply : (op : Op) (s : ResponseStream) → LeavesWaiter op → (apply op s).waiter ≡ s.waiter
unfolding apply cancel set_paused take_next push push_chunk_within_budget push_chunk_if_room
waiter-apply cancels s h = refl
waiter-apply unparks s h = elim h [ ]
waiter-apply (parks w) s h = elim h [ ]
waiter-apply (parks_writer w) s h = elim h [ ]
waiter-apply _ s h = ground arith

waiter-run :
    (ops : List Op) (s : ResponseStream) → All LeavesWaiter ops → (run ops s).waiter ≡ s.waiter
unfolding run
waiter-run [] s h = refl
waiter-run (op ∷ ops) s h = waiter-run ops (apply op s) h.1 ∙ waiter-apply op s h.0

-- A writer that asks to wait is refused, because it may go on, and nothing changes; or it is
-- parked, and then, after whatever the worker does, it is owed its wakeup and still there to be
-- woken as soon as there is room or the stream is cancelled.
pub parked_writer_never_stranded :
    (w : ℕ) (s : ResponseStream) (ops : List Op)
    → All LeavesWaiter ops
    → ((park_writer w s ≡ (s, false)) × ((s.cancelled ≡ true) ⊎ (is_saturated s ≡ false)))
      ⊎ (((park_writer w s).1 ≡ true)
          × (s.cancelled ≡ false)
          × (is_saturated s ≡ true)
          × ((unpark (run ops (park_writer w s).0)).1 ≡ some w)
          × (writer_owed_wakeup (run ops (park_writer w s).0)
              ≡ (run ops (park_writer w s).0).cancelled
                || not (is_saturated (run ops (park_writer w s).0))))
unfolding park_writer writer_owed_wakeup is_saturated unpark
parked_writer_never_stranded w s ops h = ground (arith, waiter-run ops (park_writer w s).0 h)

-- A reader is parked only where a read would find no byte and not the end, and it stays there
-- whatever the producer and the worker do.
pub parked_reader_waits :
    (w : ℕ) (s : ResponseStream) (ops : List Op)
    → IsSound s
    → All LeavesWaiter ops
    → (park w s).1 ≡ true
    → (total s.items ≡ 0) × (is_finished s ≡ false) × ((unpark (run ops (park w s).0)).1 ≡ some w)
unfolding park unpark is_finished
parked_reader_waits w s ops v h parked = ground (arith, waiter-run ops (park w s).0 h)
