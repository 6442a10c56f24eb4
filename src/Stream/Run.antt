-- ===== src/Stream/Run.antt =====
-- src/stream.rs: the calls that the two sides make on one `ResponseStream`, in the order in which
-- they take its lock, and what each call's result tells its caller.
use ruvoy.Prelude.{
  ℕ, ◌+◌, ◌<◌, Bool, Option, none, some, List, [], ◌∷◌, ◌++◌, length, take, ltb, if◌then◌else◌,
  usize_mod, Bytes,
}
use ruvoy.Stream.Defs.{
  StreamItem, chunk, ResponseStream, cancel, park, unpark, park_writer, set_paused, push,
  push_chunk_within_budget, push_chunk_if_room, take_next, charge,
}

pub data Op : Type 0 where
  cancels unparks takes : Op
  parks parks_writer : ℕ → Op
  pauses : Bool → Op
  pushes : StreamItem → Op
  pushes_within pushes_if_room : Bytes → Op

unfoldable pub apply : Op → ResponseStream → ResponseStream
apply cancels s = cancel s
apply unparks s = (unpark s).0
apply takes s = (take_next s).0
apply (parks w) s = (park w s).0
apply (parks_writer w) s = (park_writer w s).0
apply (pauses p) s = set_paused p s
apply (pushes item) s = (push item s).0
apply (pushes_within bytes) s = (push_chunk_within_budget bytes s).0
apply (pushes_if_room bytes) s = (push_chunk_if_room bytes s).0

unfoldable pub run : List Op → ResponseStream → ResponseStream
run [] s = s
run (op ∷ ops) s = run ops (apply op s)

abbrev pub kept_item : StreamItem → Bool → List StreamItem
kept_item item took = if took then item ∷ [] else []

abbrev pub kept_slice : Bytes → Option ℕ → List StreamItem
kept_slice bytes none = []
kept_slice bytes (some taken) = if ltb 0 taken then chunk (take taken bytes) ∷ [] else []

abbrev pub kept_whole : Bytes → Option Bool → List StreamItem
kept_whole bytes none = []
kept_whole bytes (some took) = kept_item (chunk bytes) took

-- The items that a producer was told the queue took.
unfoldable pub accepted : Op → ResponseStream → List StreamItem
accepted (pushes item) s = kept_item item (push item s).1
accepted (pushes_within bytes) s = kept_slice bytes (push_chunk_within_budget bytes s).1
accepted (pushes_if_room bytes) s = kept_whole bytes (push_chunk_if_room bytes s).1
accepted _ s = []

abbrev pub to_list : Option StreamItem → List StreamItem
to_list none = []
to_list (some item) = item ∷ []

-- The items that a consumer got.
unfoldable pub delivered : Op → ResponseStream → List StreamItem
delivered takes s = to_list (take_next s).1
delivered _ s = []

unfoldable pub all_accepted : List Op → ResponseStream → List StreamItem
all_accepted [] s = []
all_accepted (op ∷ ops) s = accepted op s ++ all_accepted ops (apply op s)

unfoldable pub all_delivered : List Op → ResponseStream → List StreamItem
all_delivered [] s = []
all_delivered (op ∷ ops) s = delivered op s ++ all_delivered ops (apply op s)

-- The bytes of the queued items.
unfoldable pub total : List StreamItem → ℕ
unfolding charge
total [] = 0
total (item ∷ items) = charge item + total items

abbrev pub offered : Op → ℕ
offered (pushes (chunk bytes)) = length bytes
offered (pushes_if_room bytes) = length bytes
offered _ = 0

-- What is queued and what is offered whole are in memory together, so they are fewer than 2^64
-- bytes. A slice needs no such premise.
abbrev pub AllFit : List Op → ResponseStream → Type 0
AllFit [] s = Unit {0}
AllFit (op ∷ ops) s = (total s.items + offered op < usize_mod) × AllFit ops (apply op s)
