-- ===== src/Worker/Upload/Order.antt =====
-- crates/ruvoy-envoy-fiber/src/worker.rs: an upload reaches the runtime whole and in order.
use ruvoy.Prelude.{
  ℕ, ◌+◌, ◌-◌, ◌≤◌, ◌<◌, ◌≡◌, refl, sym, ap, ap₂, ◌∙◌, Bool, true, false, List, [], ◌∷◌, ◌++◌, min,
  ltb, ◌==◌, length, take, drop, All, if◌then◌else◌, Bytes, arith, append_assoc, append-nil,
  length-append, usize_mod, take-append-drop, length-take, length-drop, take-append, take-min,
  take-nil,
}
use ruvoy.Stream.Defs.{chunk, ResponseStream, push_chunk}
use ruvoy.Stream.Slices.{queued, queued-append}
use ruvoy.EnvoyUpstream.Headers.{concatenate}
use ruvoy.EnvoyUpstream.Calls.{size_of}
use ruvoy.EnvoyUpstream.OpenStream.Settled.{is_over}
use ruvoy.Worker.Upload.{BodySource, received, retained, BodyBuffers, copy_slices, copy_body}

-- Envoy's buffers have no empty slice, a drain removes bytes from the front of one of them, and
-- leaves the other alone.
pub record Drains (envoy : BodyBuffers) : Type 0 where
  pub solid :
      (source : BodySource) (b : envoy.Buffers)
      → All (λ slice. 0 < length slice) (envoy.slices source b)
  pub drained :
      (source : BodySource) (n : ℕ) (b : envoy.Buffers)
      → concatenate (envoy.slices source (envoy.drain source n b))
        ≡ drop n (concatenate (envoy.slices source b))
  pub kept :
      (n : ℕ) (b : envoy.Buffers)
      → envoy.received_is_retained b ≡ false
      → (concatenate (envoy.slices received (envoy.drain retained n b))
          ≡ concatenate (envoy.slices received b))
        × (concatenate (envoy.slices retained (envoy.drain received n b))
            ≡ concatenate (envoy.slices retained b))
  pub alike :
      (source : BodySource) (n : ℕ) (b : envoy.Buffers)
      → envoy.received_is_retained (envoy.drain source n b) ≡ envoy.received_is_retained b

pub length-concatenate : (xs : List Bytes) → size_of xs ≡ length (concatenate xs)
unfolding size_of concatenate
length-concatenate [] = refl
length-concatenate (x ∷ xs) = omega (arith, length-append x (concatenate xs), length-concatenate xs)

-- What one source's copy does to an open queue: up to `limit` bytes of `bytes` go behind it.
record Copied (limit : ℕ) (bytes : Bytes) (s s' : ResponseStream) (n : ℕ) : Type 0 where
  count : n ≡ min limit (length bytes)
  content : queued s'.items ≡ queued s.items ++ take limit bytes
  charged : s'.buffered_bytes ≡ s.buffered_bytes + n
  live : is_over s' ≡ false
  limit_kept : s'.max_buffered_bytes ≡ s.max_buffered_bytes

push_slice :
    (slice : Bytes) (n : ℕ) (s : ResponseStream)
    → is_over s ≡ false
    → n ≤ length slice
    → s.buffered_bytes + n < usize_mod
    → let s' = (push_chunk (take n slice) s).0 in
      (queued s'.items ≡ queued s.items ++ take n slice)
      × (s'.buffered_bytes ≡ s.buffered_bytes + n)
      × (is_over s' ≡ false)
      × (s'.max_buffered_bytes ≡ s.max_buffered_bytes)
unfolding push_chunk queued
push_slice slice n s live h fits = ground (
  arith,
  queued-append s.items (chunk (take n slice) ∷ []),
  append-nil (take n slice),
  length-take n slice,
)

-- What one slice gives, and the room it leaves to the next.
take_slice :
    (limit : ℕ) (slice rest : Bytes)
    → take (min (length slice) limit) slice ++ take (limit - min (length slice) limit) rest
      ≡ take limit (slice ++ rest)
take_slice limit slice rest =
    let e : limit - min (length slice) limit ≡ limit - length slice = omega arith in
    ap₂ (λ xs n. xs ++ take n rest) (take-min (min (length slice) limit) limit slice refl) e
    ∙ sym (take-append limit slice rest)

Copied-if :
    {limit : ℕ} {bytes : Bytes} {s : ResponseStream} (b : Bool) (x y : ResponseStream × ℕ)
    → (b ≡ true → Copied limit bytes s x.0 x.1)
    → (b ≡ false → Copied limit bytes s y.0 y.1)
    → Copied limit bytes s (if b then x else y).0 (if b then x else y).1
Copied-if true x y hx hy = hx refl
Copied-if false x y hx hy = hy refl

nothing-Copied :
    {bytes : Bytes} {s : ResponseStream} (limit : ℕ)
    → limit ≡ 0
    → is_over s ≡ false
    → Copied limit bytes s s 0
nothing-Copied {bytes} {s} limit none_left live = record {
  count = omega arith;
  content =
      sym (append-nil (queued s.items)) ∙ ap (λ n. queued s.items ++ take n bytes) (sym none_left);
  charged = omega arith;
  live = live;
  limit_kept = refl;
}

copy_slices-Copied :
    (limit : ℕ) (slices : List Bytes) (s : ResponseStream)
    → All (λ slice. 0 < length slice) slices
    → is_over s ≡ false
    → s.buffered_bytes + limit < usize_mod
    → Copied limit
        (concatenate slices)
        s
        (copy_slices limit slices s).0
        (copy_slices limit slices s).1
unfolding copy_slices concatenate
copy_slices-Copied limit [] s solid live fits = record {
  count = omega arith;
  content =
      sym (append-nil (queued s.items)) ∙ ap (λ xs. queued s.items ++ xs) (sym (take-nil limit));
  charged = omega arith;
  live = live;
  limit_kept = refl;
}
copy_slices-Copied limit (slice ∷ slices) s solid live fits =
    let taken = min (length slice) limit in
    let s' = (push_chunk (take taken slice) s).0 in
    let pushed = push_slice slice taken s live (omega arith) (omega arith) in
    let later =
      copy_slices-Copied (limit - taken) slices s' solid.1 pushed.2 (omega (arith, pushed.1)) in
    let content : queued (copy_slices (limit - taken) slices s').0.items
        ≡ queued s.items ++ take limit (slice ++ concatenate slices) =
      later.content
      ∙ ap (λ xs. xs ++ take (limit - taken) (concatenate slices)) pushed.0
      ∙ append_assoc (queued s.items) (take taken slice) (take (limit - taken) (concatenate slices))
      ∙ ap (λ xs. queued s.items ++ xs) (take_slice limit slice (concatenate slices)) in
    Copied-if (taken == 0) (s, 0)
      ((copy_slices (limit - taken) slices s').0, taken + (copy_slices (limit - taken) slices s').1)
      (λ e. nothing-Copied limit (ground arith) live)
      (λ e. record {
        count = omega (arith, later.count, length-append slice (concatenate slices));
        content = content;
        charged = omega (arith, later.charged, later.count, pushed.1);
        live = later.live;
        limit_kept = later.limit_kept ∙ pushed.3;
      })

unfoldable pub other : BodySource → BodySource
other received = retained
other retained = received

-- Two copies in a row, the first of which empties its buffer.
pub conserve_both :
    (q q' q'' ret ret' ret'' rec' rec'' : Bytes)
    → q' ++ ret' ≡ q ++ ret
    → q'' ++ rec'' ≡ q' ++ rec'
    → ret' ≡ []
    → ret'' ≡ ret'
    → q'' ++ (ret'' ++ rec'') ≡ q ++ (ret ++ rec')
conserve_both q q' q'' ret ret' ret'' rec' rec'' first second none_left kept =
    ap (λ xs. q'' ++ (xs ++ rec'')) (kept ∙ none_left)
    ∙ second
    ∙ ap (λ xs. xs ++ rec') (sym (append-nil q') ∙ ap (λ xs. q' ++ xs) (sym none_left) ∙ first)
    ∙ append_assoc q ret rec'

module _ (envoy : BodyBuffers) where
  open envoy use {Buffers, received_is_retained, slices, drain}

  -- What a copy from one source does where the two accessors name different bytes.
  pub record Moved (source : BodySource) (limit : ℕ) (b b' : Buffers) (s s' : ResponseStream)
      (n : ℕ) : Type 0 where
    pub conserved :
        queued s'.items ++ concatenate (slices source b')
        ≡ queued s.items ++ concatenate (slices source b)
    pub count : n ≡ min limit (size_of (slices source b))
    pub left : size_of (slices source b') ≡ size_of (slices source b) - n
    pub untouched : concatenate (slices (other source) b') ≡ concatenate (slices (other source) b)
    pub charged : s'.buffered_bytes ≡ s.buffered_bytes + n
    pub live : is_over s' ≡ false
    pub limit_kept : s'.max_buffered_bytes ≡ s.max_buffered_bytes
    pub alike : received_is_retained b' ≡ received_is_retained b

  module _ (drains : Drains envoy) where
    other_kept :
        (source : BodySource) (n : ℕ) (b : Buffers)
        → received_is_retained b ≡ false
        → concatenate (slices (other source) (drain source n b))
          ≡ concatenate (slices (other source) b)
    unfolding other
    other_kept received n b differ = (drains.kept n b differ).1
    other_kept retained n b differ = (drains.kept n b differ).0

    drained-Moved :
        (source : BodySource) (limit n : ℕ) (b : Buffers) (s s' : ResponseStream)
        → received_is_retained b ≡ false
        → Copied limit (concatenate (slices source b)) s s' n
        → Moved source limit b (drain source n b) s s' n
    drained-Moved source limit n b s s' differ copied =
        let bytes = concatenate (slices source b) in
        record {
          conserved =
              ap₂ (λ xs ys. xs ++ ys) copied.content (drains.drained source n b)
              ∙ append_assoc (queued s.items) (take limit bytes) (drop n bytes)
              ∙ ap (λ xs. queued s.items ++ (xs ++ drop n bytes))
                  (sym (take-min n limit bytes (copied.count ∙ omega arith)))
              ∙ ap (λ xs. queued s.items ++ xs) (take-append-drop n bytes);
          count = omega (arith, copied.count, length-concatenate (slices source b));
          left =
              length-concatenate (slices source (drain source n b))
              ∙ ap length (drains.drained source n b)
              ∙ omega (arith, length-drop n bytes, length-concatenate (slices source b));
          untouched = other_kept source n b differ;
          charged = copied.charged;
          live = copied.live;
          limit_kept = copied.limit_kept;
          alike = drains.alike source n b;
        }

    idle-Moved :
        (source : BodySource) (limit n : ℕ) (b : Buffers) (s s' : ResponseStream)
        → n ≡ 0
        → Copied limit (concatenate (slices source b)) s s' n
        → Moved source limit b b s s' n
    idle-Moved source limit n b s s' none_moved copied =
        let bytes = concatenate (slices source b) in
        record {
          conserved =
              ap (λ xs. xs ++ bytes)
                (copied.content
                  ∙ ap (λ xs. queued s.items ++ xs)
                      (sym (take-min 0 limit bytes (omega (arith, copied.count, none_moved))))
                  ∙ append-nil (queued s.items));
          count = omega (arith, copied.count, length-concatenate (slices source b));
          left = omega arith;
          untouched = refl;
          charged = copied.charged;
          live = copied.live;
          limit_kept = copied.limit_kept;
          alike = refl;
        }

    Moved-if :
        {source : BodySource} {limit : ℕ} {b : Buffers} {s s' : ResponseStream} {n : ℕ}
        (test : Bool) (x y : Buffers)
        → (test ≡ true → Moved source limit b x s s' n)
        → (test ≡ false → Moved source limit b y s s' n)
        → Moved source limit b (if test then x else y) s s' n
    Moved-if true x y hx hy = hx refl
    Moved-if false x y hx hy = hy refl

    Moved-either :
        {source : BodySource} {limit : ℕ} {b : Buffers} {s : ResponseStream} (test : Bool)
        (x y : Buffers × ResponseStream × ℕ)
        → (test ≡ true → Moved source limit b x.0 s x.1 x.2)
        → (test ≡ false → Moved source limit b y.0 s y.1 y.2)
        → let r = if test then x else y in Moved source limit b r.0 s r.1 r.2
    Moved-either true x y hx hy = hx refl
    Moved-either false x y hx hy = hy refl

    pub copy_body-Moved :
        (source : BodySource) (limit : ℕ) (b : Buffers) (s : ResponseStream)
        → received_is_retained b ≡ false
        → is_over s ≡ false
        → s.buffered_bytes + limit < usize_mod
        → let r = copy_body envoy source limit b s in Moved source limit b r.0 s r.1 r.2
    unfolding copy_body
    copy_body-Moved source limit b s differ live fits =
        let copied =
          copy_slices-Copied limit (slices source b) s (drains.solid source b) live fits in
        let r = copy_slices limit (slices source b) s in
        Moved-either (limit == 0) (b, s, 0) (if ltb 0 r.1 then drain source r.1 b else b, r.0, r.1)
          (λ h. idle-Moved source limit 0 b s s refl (nothing-Copied limit (ground arith) live))
          (λ h.
            Moved-if (ltb 0 r.1) (drain source r.1 b) b
              (λ h. drained-Moved source limit r.1 b s r.0 differ copied)
              (λ h. idle-Moved source limit r.1 b s r.0 (ground arith) copied))
