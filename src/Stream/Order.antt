-- ===== src/Stream/Order.antt =====
-- src/stream.rs: the queue hands over what it took, once and in order.
use ruvoy.Prelude.{weave, ◌≡◌, refl, sym, true, false, List, [], ◌∷◌, ◌++◌, append-nil, arith}
use ruvoy.Stream.Defs.{
  StreamItem, ResponseStream, cancel, park, unpark, park_writer, set_paused, push,
  push_chunk_within_budget, push_chunk_if_room, take_next,
}
use ruvoy.Stream.Run.{Op, cancels, apply, run, accepted, delivered, all_accepted, all_delivered}

-- What a cancel throws away.
abbrev lost : Op → ResponseStream → List StreamItem
lost cancels s = s.items
lost _ s = []

-- One call delivers from the front and queues behind.
apply_moves :
    (op : Op) (s : ResponseStream)
    → lost op s ≡ []
    → delivered op s ++ (apply op s).items ≡ s.items ++ accepted op s
unfolding delivered accepted apply cancel park unpark park_writer set_paused take_next push
    push_chunk_within_budget push_chunk_if_room
apply_moves cancels s none_lost = ground arith
apply_moves _ s none_lost = ground (arith, append-nil s.items)

IsDead : ResponseStream → Type 0
IsDead s = (s.cancelled ≡ true) × (s.items ≡ [])

apply-IsDead :
    (op : Op) (s : ResponseStream)
    → IsDead s
    → IsDead (apply op s) × (accepted op s ≡ []) × (delivered op s ≡ [])
unfolding IsDead delivered accepted apply cancel park unpark park_writer set_paused take_next push
    push_chunk_within_budget push_chunk_if_room
apply-IsDead cancels s h = ground arith
apply-IsDead _ s h = ground arith

run-IsDead :
    (ops : List Op) (s : ResponseStream)
    → IsDead s
    → IsDead (run ops s) × (all_accepted ops s ≡ []) × (all_delivered ops s ≡ [])
unfolding run all_accepted all_delivered
run-IsDead [] s h = (h, refl, refl)
run-IsDead (op ∷ ops) s h =
    let step = apply-IsDead op s h in
    let rest = run-IsDead ops (apply op s) step.0 in
    (rest.0, rw (step.1) rest.1, rw (step.2) rest.2)

abbrev Ordered : List Op → ResponseStream → Type 0
Ordered ops s =
    (rest : List StreamItem) × (all_delivered ops s ++ rest ≡ s.items ++ all_accepted ops s)
    × ((run ops s).cancelled ≡ false → rest ≡ (run ops s).items)

-- A call that drops nothing, before calls that keep the order.
order_step :
    (op : Op) (ops : List Op) (s : ResponseStream)
    → lost op s ≡ []
    → Ordered ops (apply op s)
    → Ordered (op ∷ ops) s
unfolding all_delivered all_accepted run
order_step op ops s none_lost (rest, e, same) = (
  rest,
  weave (delivered op s) (all_delivered ops (apply op s)) rest s.items (apply op s).items
      (accepted op s) (all_accepted ops (apply op s)) (apply_moves op s none_lost) e,
  same,
)

-- A cancel ends both sides: nothing is delivered or taken after it.
order_cancel : (ops : List Op) (s : ResponseStream) → Ordered (cancels ∷ ops) s
unfolding all_delivered all_accepted run delivered accepted apply cancel IsDead
order_cancel ops s =
    let dead = run-IsDead ops (cancel s) (refl, refl) in
    (s.items, rw (dead.1, dead.2) (sym (append-nil s.items)), λ live. cc (dead.0.0))

-- Any calls, in any order: what was delivered, followed by some rest, is what was queued at first
-- followed by what the producers were told was taken. While nobody cancelled, that rest is the queue.
pub delivered_in_order :
    (ops : List Op) (s : ResponseStream)
    → (rest : List StreamItem) × (all_delivered ops s ++ rest ≡ s.items ++ all_accepted ops s)
      × ((run ops s).cancelled ≡ false → rest ≡ (run ops s).items)
unfolding all_delivered all_accepted run
delivered_in_order [] s = (s.items, sym (append-nil s.items), λ _. refl)
delivered_in_order (cancels ∷ ops) s = order_cancel ops s
delivered_in_order (op ∷ ops) s = order_step op ops s refl (delivered_in_order ops (apply op s))
