-- ===== src/Stream/Slices.antt =====
-- src/stream.rs: a body that a producer hands over in slices, as the Ruby side does with what
-- `push_chunk_within_budget` reports, while the worker drains the queue.
use ruvoy.Prelude.{
  ℕ, zero, suc, ◌-◌, ◌≤◌, ◌<◌, ◌≡◌, refl, sym, ap, ◌∙◌, false, Option, none, some, List, [], ◌∷◌,
  ◌++◌, append-nil, append_assoc, arith, length, take, drop, take-append-drop, length-take,
  length-drop, Bytes, usize_mod, Bool-cases, inl, inr,
}
use ruvoy.Stream.Defs.{
  StreamItem, chunk, ResponseStream, push_chunk_within_budget, take_next, room_for,
}

pub record Transfer : Type 0 where
  pub stream : ResponseStream
  pub rest : Bytes
  pub received : Bytes

abbrev after : Bytes → Option ℕ → Bytes
after bytes none = bytes
after bytes (some taken) = drop taken bytes

abbrev bytes_of : Option StreamItem → Bytes
bytes_of (some (chunk bytes)) = bytes
bytes_of _ = []

pub data Turn : Type 0 where
  writes reads : Turn

unfoldable pub turn : Turn → Transfer → Transfer
turn writes t =
    let (s, taken) = push_chunk_within_budget t.rest t.stream in
    record t { stream = s; rest = after t.rest taken }
turn reads t =
    let (s, item) = take_next t.stream in
    record t { stream = s; received = t.received ++ bytes_of item }

unfoldable pub turns : List Turn → Transfer → Transfer
turns [] t = t
turns (x ∷ xs) t = turns xs (turn x t)

-- The body bytes that are queued, in order.
unfoldable pub queued : List StreamItem → Bytes
queued [] = []
queued (chunk bytes ∷ items) = bytes ++ queued items
queued (item ∷ items) = queued items

abbrev pub in_flight : Transfer → Bytes
in_flight t = t.received ++ (queued t.stream.items ++ t.rest)

pub queued-append : (xs ys : List StreamItem) → queued (xs ++ ys) ≡ queued xs ++ queued ys
unfolding queued
queued-append [] ys = refl
queued-append (chunk bytes ∷ xs) ys =
    ap (λ zs. bytes ++ zs) (queued-append xs ys) ∙ sym (append_assoc bytes (queued xs) (queued ys))
queued-append (item ∷ xs) ys = queued-append xs ys

drop_none : (n : ℕ) (bytes : Bytes) → n ≡ 0 → drop n bytes ≡ bytes
drop_none zero bytes h = refl
drop_none (suc n) bytes h = absurd (omega arith)

write_lem : (t : Transfer) → in_flight (turn writes t) ≡ in_flight t
unfolding turn push_chunk_within_budget queued
write_lem t =
    let n : ℕ = room_for t.rest t.stream in
    ground (
      arith,
      queued-append t.stream.items (chunk (take n t.rest) ∷ []),
      append-nil (take n t.rest),
      append_assoc (queued t.stream.items) (take n t.rest) (drop n t.rest),
      take-append-drop n t.rest,
      drop_none n t.rest,
    )

pop_lem :
    (items : List StreamItem) (t : Transfer)
    → t.stream.items ≡ items
    → t.stream.paused ≡ false
    → in_flight (turn reads t) ≡ in_flight t
unfolding turn take_next queued
pop_lem [] t e p = ground (arith, append-nil t.received)
pop_lem (chunk bytes ∷ items) t e p = ground (
  arith,
  append_assoc t.received bytes (queued items ++ t.rest),
  append_assoc bytes (queued items) t.rest,
)
pop_lem (_ ∷ items) t e p = ground (arith, append-nil t.received)

turn_lem : (x : Turn) (t : Transfer) → in_flight (turn x t) ≡ in_flight t
unfolding turn take_next
turn_lem writes t = write_lem t
turn_lem reads t = elim (Bool-cases t.stream.paused) [
  | inl paused ↦ ground (arith, append-nil t.received)
  | inr open_ ↦ pop_lem t.stream.items t refl open_
]

-- However the producer's slices and the worker's reads take turns: what was received, then what is
-- queued, then what is left is the body, with no byte lost, repeated or out of order.
pub slices_in_order :
    (xs : List Turn) (t : Transfer)
    → (turns xs t).received ++ (queued (turns xs t).stream.items ++ (turns xs t).rest)
      ≡ t.received ++ (queued t.stream.items ++ t.rest)
unfolding turns
slices_in_order [] t = refl
slices_in_order (x ∷ xs) t = slices_in_order xs (turn x t) ∙ turn_lem x t

-- The producer and the worker in turns.
unfoldable pub rounds : ℕ → List Turn
rounds zero = []
rounds (suc n) = writes ∷ reads ∷ rounds n

-- Nothing is queued, and nobody has stopped the stream.
pub record IsIdle (s : ResponseStream) : Type 0 where
  pub nothing : s.items ≡ []
  pub accounted : s.buffered_bytes ≡ 0
  pub live : s.cancelled ≡ false
  pub unended : s.ended ≡ false
  pub unpaused : s.paused ≡ false
  pub positive : 0 < s.max_buffered_bytes
  pub within_word : s.max_buffered_bytes < usize_mod

round-IsIdle :
    (t : Transfer)
    → IsIdle t.stream
    → IsIdle (turn reads (turn writes t)).stream
      × (length (turn reads (turn writes t)).rest ≤ length t.rest - 1)
unfolding turn push_chunk_within_budget take_next
round-IsIdle t v = ground (
  arith,
  length-take (room_for t.rest t.stream) t.rest,
  length-drop (room_for t.rest t.stream) t.rest,
)

rounds_lem :
    (n : ℕ) (t : Transfer)
    → IsIdle t.stream
    → length t.rest ≤ n
    → IsIdle (turns (rounds n) t).stream × (length (turns (rounds n) t).rest ≡ 0)
unfolding rounds turns
rounds_lem zero t v h = (v, omega arith)
rounds_lem (suc n) t v h =
    let (v', shorter) = round-IsIdle t v in
    rounds_lem n (turn reads (turn writes t)) v' (omega arith)

length-zero : (bytes : Bytes) → length bytes ≡ 0 → bytes ≡ []
length-zero [] h = refl
length-zero (b ∷ bytes) h = absurd (omega arith)

-- As many rounds as the body has bytes deliver the whole body, whatever the budget: no round is
-- wasted on a full queue.
pub rounds_deliver_body :
    (n : ℕ) (t : Transfer)
    → IsIdle t.stream
    → length t.rest ≤ n
    → ((turns (rounds n) t).received ≡ t.received ++ t.rest)
      × ((turns (rounds n) t).rest ≡ [])
      × ((turns (rounds n) t).stream.items ≡ [])
unfolding queued
rounds_deliver_body n t v h =
    let (v', e) = rounds_lem n t v h in
    let spent = length-zero (turns (rounds n) t).rest e in
    let kept = slices_in_order (rounds n) t in
    (ground (arith, append-nil (turns (rounds n) t).received), spent, v'.nothing)
