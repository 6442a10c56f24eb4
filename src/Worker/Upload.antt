-- ===== src/Worker/Upload.antt =====
-- crates/ruvoy-envoy-fiber/src/worker.rs: `copy_body` and `forward_request_body`. Envoy's two request
-- buffers are an interface: their slices and what a drain leaves are its functions.
pub mod Order
pub mod Forward
use ruvoy.Prelude.{
  ℕ, zero, suc, ◌+◌, ◌-◌, Bool, true, false, not, ◌&&◌, ◌||◌, Option, none, some, List, [], ◌∷◌,
  ◌++◌, min, ltb, ◌==◌, length, take, if◌then◌else◌, Bytes,
}
use ruvoy.Stream.Defs.{ResponseStream, push_chunk, push_end, spare_capacity}
use ruvoy.Request.{RequestDiagnostics}
use ruvoy.EnvoyUpstream.Calls.{size_of}
use ruvoy.Worker.Defs.{Filter, Effect, wakes}

pub data BodySource : Type 0 where
  received retained : BodySource

-- Envoy's request buffers.
pub record BodyBuffers : Type 1 where
  pub Buffers : Type 0
  -- `received_buffered_request_body`: both accessors name the same bytes.
  pub received_is_retained : Buffers → Bool
  pub slices : BodySource → Buffers → List Bytes
  pub drain : BodySource → ℕ → Buffers → Buffers

-- The loop of `copy_body`; an empty slice ends it, as it leaves nothing to take.
unfoldable pub copy_slices : ℕ → List Bytes → ResponseStream → ResponseStream × ℕ
copy_slices limit [] s = (s, 0)
copy_slices limit (slice ∷ slices) s =
    let taken = min (length slice) limit in
    let more = copy_slices (limit - taken) slices (push_chunk (take taken slice) s).0 in
    if taken == 0 then (s, 0) else (more.0, taken + more.1)

module _ (envoy : BodyBuffers) where
  open envoy use {Buffers, received_is_retained, slices, drain}

  unfoldable pub copy_body :
      BodySource → ℕ → Buffers → ResponseStream → Buffers × ResponseStream × ℕ
  copy_body source limit b s =
      if limit == 0
      then (b, s, 0)
      else let (s', copied) = copy_slices limit (slices source b) s in
        (if ltb 0 copied then drain source copied b else b, s', copied)

  -- What is copied in one call: the retained bytes, then those of the frame in hand if the retained
  -- ones did not fill the room.
  unfoldable pub copy_both : Buffers → ResponseStream → Buffers × ResponseStream × ℕ
  unfolding copy_body
  copy_both b s =
      let same = received_is_retained b in
      let in_hand : ℕ = if same then 0 else size_of (slices received b) in
      let room = min (size_of (slices retained b) + in_hand) (spare_capacity s) in
      let (b', s', copied) = copy_body retained room b s in
      if ltb copied room && not same
      then (let (b'', s'', more) = copy_body received (room - copied) b' s' in
          (b'', s'', copied + more))
      else (b', s', copied)

  -- Whether the end may be passed on: it follows the last byte.
  unfoldable pub may_end : Bool → Buffers → Bool
  may_end pending b =
      pending && (size_of (slices retained b) == 0 && size_of (slices received b) == 0)

  timed : ℕ → ℕ → Option RequestDiagnostics → Option RequestDiagnostics
  timed started now none = none
  timed started now (some d) = some (record d {
    body_copy_time = d.body_copy_time + (now - started);
    body_callbacks = d.body_callbacks + 1;
  })

  -- `started` and `now` are the two readings of the clock.
  unfoldable pub forward_open :
      ℕ → ℕ → Buffers → Filter → ResponseStream → Buffers × Filter × List Effect
  unfolding may_end timed
  forward_open started now b f s =
      let (b', s', copied) = copy_both b s in
      let ended = may_end f.request_end_pending b' in
      let s'' : ResponseStream = if ended then (push_end s').0 else s' in
      (
        b',
        record f {
          request_body = some s'';
          request_end_pending = f.request_end_pending && not ended;
          diagnostics = timed started now f.diagnostics;
        },
        if ltb 0 copied || ended then wakes s'' ∷ [] else [],
      )

  unfoldable pub forward_request_body : ℕ → ℕ → Buffers → Filter → Buffers × Filter × List Effect
  forward_request_body started now b f = elim f.request_body [
    | none ↦ (b, f, [])
    | some s ↦ forward_open started now b f s
  ]
