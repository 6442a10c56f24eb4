-- ===== src/Chunks/Ends.antt =====
-- src/chunks.rs: what the two ends promise to the Ruby code that drives them.
use ruvoy.Prelude.{
  ℕ, ◌+◌, ◌≤◌, ◌<◌, ◌≡◌, refl, Bool, true, false, ◌||◌, ◌&&◌, none, some, List, [], ◌∷◌, ◌⊎◌, inl,
  inr, arith, length, length-drop, drop, Bytes, any, leb, ltb, Bool-cases,
}
use ruvoy.Stream.Defs.{
  StreamItem, head, chunk, end, failed, ResponseStream, take_next, push_chunk_within_budget,
  room_for,
}
use ruvoy.Stream.Run.{total}
use ruvoy.Stream.Invariant.{IsSound, in_order}
use ruvoy.Chunks.Defs.{nil, next_chunk, write, writable}

abbrev pub is_head : StreamItem → Bool
is_head (head h) = true
is_head _ = false

front :
    (items : List StreamItem) (s : ResponseStream)
    → s.items ≡ items
    → IsSound s
    → s.paused ≡ false
    → any is_head items ≡ false
    → (next_chunk s).1 ≡ nil
    → (total items ≡ 0) × ((next_chunk s).0.items ≡ [])
unfolding next_chunk take_next total in_order
front [] s e v open_ headless h = ground arith
front (head x ∷ items) s e v open_ headless h = cc
front (chunk b ∷ items) s e v open_ headless h = ground arith
front (end ∷ []) s e v open_ headless h = ground arith
front (end ∷ x ∷ items) s e v open_ headless h = ground arith
front (failed error ∷ items) s e v open_ headless h = ground arith

-- A reader of a body queue that is not paused and gets nil has nothing to read: it may park, unless
-- the stream is over.
pub next_chunk_nil :
    (s : ResponseStream)
    → IsSound s
    → s.paused ≡ false
    → any is_head s.items ≡ false
    → (next_chunk s).1 ≡ nil
    → (s.buffered_bytes ≡ 0) × ((next_chunk s).0.items ≡ [])
next_chunk_nil s v open_ headless h =
    let found = front s.items s refl v open_ headless h in (omega arith, found.1)

-- A sink that says it is writable takes at least one byte of a chunk that is not spent, and never
-- more than is left of it; one that is not writable takes none. Nil comes exactly when the stream
-- is over, and the worker is woken exactly when bytes were taken.
pub write_lem :
    (b : Bytes) (offset : ℕ) (s : ResponseStream)
    → IsSound s
    → offset < length b
    → (((s.cancelled || s.ended) ≡ true) × (write b offset s ≡ (s, none, false)))
      ⊎ ((taken : ℕ) × ((s.cancelled || s.ended) ≡ false)
          × ((write b offset s).1 ≡ some taken)
          × (offset + taken ≤ length b)
          × ((writable s && leb taken 0) ≡ false)
          × ((write b offset s).2 ≡ ltb 0 taken))
unfolding write writable push_chunk_within_budget
write_lem b offset s v h = elim (Bool-cases (s.cancelled || s.ended)) [
  | inl over ↦ inl (over, ground arith)
  | inr open_ ↦ inr (
    room_for (drop offset b) s,
    open_,
    ground arith,
    ground (arith, length-drop offset b),
    ground (arith, length-drop offset b),
    ground arith,
  )
]
