-- ===== src/Fiber/Collect/Same.antt =====
-- src/fiber.rs: `call` and the waker of `submit_collected` tell the same.
use ruvoy.Prelude.{
  ℕ, ◌<◌, ◌≡◌, refl, true, false, Option, none, some, List, [], ◌∷◌, ◌∙◌, sym, ap, if◌then◌else◌,
  is_some, arith, All,
}
use ruvoy.Stream.Defs.{StreamItem, head, chunk, end, failed, ResponseStream, take_next}
use ruvoy.Stream.Run.{apply}
use ruvoy.Fiber.Collect.{
  Collected, err, Calling, calling, call_item, CollectingResponse, collecting, finish, collect_end,
  collect_item, Turn, others, turns, call_turn, collect_turn, call, collect, ended_with,
}

abbrev pub InTime : Turn → Type 0
InTime (others op) = Unit {0}
InTime (turns remaining) = 0 < remaining

abbrev pub one_result : Option Collected → List Collected
one_result none = []
one_result (some result) = result ∷ []

-- Nothing more is told.
collect_item-done :
    (item : Option StreamItem) (d : CollectingResponse)
    → d.completion ≡ false
    → ((collect_item item d).completion ≡ false) × ((collect_item item d).reported ≡ d.reported)
unfolding collect_item finish collect_end
collect_item-done item d h = ground arith

collect-done :
    (ts : List Turn) (s : ResponseStream) (d : CollectingResponse)
    → d.completion ≡ false
    → (collect ts s d).1.reported ≡ d.reported
unfolding collect collect_turn
collect-done [] s d h = refl
collect-done (others op ∷ ts) s d h = collect-done ts (apply op s) d h
collect-done (turns remaining ∷ ts) s d h =
    let here = collect_item-done (take_next s).1 d h in
    collect-done ts (take_next s).0 (collect_item (take_next s).1 d) here.0 ∙ here.1

call-done :
    (ts : List Turn) (s : ResponseStream) (c : Calling) (result : Collected)
    → c.returned ≡ some result
    → (call ts s c).1.returned ≡ some result
unfolding call call_turn
call-done [] s c result h = h
call-done (others op ∷ ts) s c result h = call-done ts (apply op s) c result h
call-done (turns remaining ∷ ts) s c result h = ground (arith, call-done ts s c result h)

-- The two still gather, and have the same.
record IsGathering (c : Calling) (d : CollectingResponse) : Type 0 where
  pub head : d.head ≡ c.head
  pub body : d.body ≡ c.body
  pub returned : c.returned ≡ none
  pub completion : d.completion ≡ true
  pub reported : d.reported ≡ []

-- After an item they still gather, or both told the same.
data Agrees (c : Calling) (d : CollectingResponse) : Type 0 where
  gathers : IsGathering c d → Agrees c d
  told :
      (result : Collected)
      → c.returned ≡ some result
      → d.completion ≡ false
      → d.reported ≡ result ∷ []
      → Agrees c d

item-Agrees :
    (remaining : ℕ) (item : Option StreamItem) (c : Calling) (d : CollectingResponse)
    → 0 < remaining
    → IsGathering c d
    → Agrees (call_item remaining item c) (collect_item item d)
unfolding call_item collect_item collect_end finish
item-Agrees remaining none c d h v = gathers (ground arith)
item-Agrees remaining (some (head r)) c d h v = gathers (ground arith)
item-Agrees remaining (some (chunk bytes)) c d h v = gathers (ground arith)
item-Agrees remaining (some (failed error)) c d h v =
    told (err error) refl (ground arith) (ground arith)
item-Agrees remaining (some end) c d h v =
    told (ended_with c.head c.body) refl (ground arith) (ground arith)

pub call_turn-open :
    (remaining : ℕ) (s : ResponseStream) (c : Calling)
    → c.returned ≡ none
    → call_turn (turns remaining) s c ≡ ((take_next s).0, call_item remaining (take_next s).1 c)
unfolding call_turn
call_turn-open remaining s c h =
    ap
      (λ returned.
        if is_some returned
        then (s, c)
        else ((take_next s).0, call_item remaining (take_next s).1 c))
      h

same_turns :
    (ts : List Turn) (s : ResponseStream) (c : Calling) (d : CollectingResponse)
    → All InTime ts
    → IsGathering c d
    → (collect ts s d).1.reported ≡ one_result (call ts s c).1.returned
unfolding collect collect_turn call
same_turns [] s c d h v = ground arith
same_turns (others op ∷ ts) s c d h v = same_turns ts (apply op s) c d h.1 v
same_turns (turns remaining ∷ ts) s c d h v =
    let s' = (take_next s).0 in
    let item = (take_next s).1 in
    go (collect_item item d) (call_item remaining item c) (item-Agrees remaining item c d h.0 v) s'
      (same_turns ts s' (call_item remaining item c) (collect_item item d) h.1)
    ∙ sym (
        ap (λ r. one_result (call ts r.0 r.1).1.returned) (call_turn-open remaining s c v.returned))
  where
    go :
        (d' : CollectingResponse) (c' : Calling)
        → Agrees c' d'
        → (s' : ResponseStream)
        → (IsGathering c' d'
            → (collect ts s' d').1.reported ≡ one_result (call ts s' c').1.returned)
        → (collect ts s' d').1.reported ≡ one_result (call ts s' c').1.returned
    go d' c' (gathers v') s' again = again v'
    go d' c' (told result returned done reported) s' again =
        collect-done ts s' d' done
        ∙ reported
        ∙ sym (ap one_result (call-done ts s' c' result returned))

-- Against any producer, and whatever else happens to the stream, before the deadline: the completion
-- of `submit_collected` is called at most once, exactly when `call` returns on the same turns, and
-- with the same result.
pub submit_collected-call :
    (ts : List Turn) (s : ResponseStream)
    → All InTime ts
    → (collect ts s collecting).1.reported ≡ one_result (call ts s calling).1.returned
unfolding collecting calling
submit_collected-call ts s h = same_turns ts s calling collecting h (ground arith)
