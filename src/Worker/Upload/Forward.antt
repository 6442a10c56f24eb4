-- ===== src/Worker/Upload/Forward.antt =====
-- crates/ruvoy-envoy-fiber/src/worker.rs: an upload reaches the runtime whole and in order.
use ruvoy.Prelude.{
  ℕ, ◌+◌, ◌-◌, ◌≤◌, ◌<◌, ◌≡◌, refl, sym, ap, ap₂, subst, ◌∙◌, Bool, true, false, not, ◌&&◌, ◌||◌,
  none, some, List, [], ◌∷◌, ◌++◌, min, ltb, ◌==◌, length, length-append, if◌then◌else◌, Bytes,
  arith, append_assoc, append-nil, usize_mod,
}
use ruvoy.Stream.Defs.{end, ResponseStream, push_end, spare_capacity}
use ruvoy.Stream.Slices.{queued, queued-append}
use ruvoy.EnvoyUpstream.Headers.{concatenate}
use ruvoy.EnvoyUpstream.Calls.{size_of}
use ruvoy.EnvoyUpstream.OpenStream.Settled.{is_over}
use ruvoy.Worker.Defs.{Filter, Effect, wakes}
use ruvoy.Worker.Upload.{
  received, retained, BodyBuffers, copy_body, copy_both, may_end, forward_open,
  forward_request_body,
}
use ruvoy.Worker.Upload.Order.{Drains, copy_body-Moved, conserve_both, other, length-concatenate}

nil_of_size : (xs : Bytes) → length xs ≡ 0 → xs ≡ []
nil_of_size [] h = refl
nil_of_size (x ∷ xs) h = absurd (omega arith)

-- An open queue that is ended, or not.
ended_if :
    (t : Bool) (s : ResponseStream)
    → is_over s ≡ false
    → s.buffered_bytes < usize_mod
    → let s' : ResponseStream = if t then (push_end s).0 else s in
      (queued s'.items ≡ queued s.items) × (s'.buffered_bytes ≡ s.buffered_bytes) × (s'.ended ≡ t)
unfolding push_end queued
ended_if true s live small = (
  ground (arith, queued-append s.items (end ∷ []), append-nil (queued s.items)),
  ground arith,
  ground arith,
)
ended_if false s live small = (refl, refl, ground arith)

module _ (envoy : BodyBuffers) where
  open envoy use {Buffers, received_is_retained, slices}

  -- What the two copies of one call do together.
  record MovedBoth (b b' : Buffers) (s s' : ResponseStream) (n : ℕ) : Type 0 where
    conserved :
        queued s'.items ++ (concatenate (slices retained b') ++ concatenate (slices received b'))
        ≡ queued s.items ++ (concatenate (slices retained b) ++ concatenate (slices received b))
    count : n ≡ min (size_of (slices retained b) + size_of (slices received b)) (spare_capacity s)
    charged : s'.buffered_bytes ≡ s.buffered_bytes + n
    live : is_over s' ≡ false
    limit_kept : s'.max_buffered_bytes ≡ s.max_buffered_bytes

  MovedBoth-if :
      {b : Buffers} {s : ResponseStream} (test : Bool) (x y : Buffers × ResponseStream × ℕ)
      → (test ≡ true → MovedBoth b x.0 s x.1 x.2)
      → (test ≡ false → MovedBoth b y.0 s y.1 y.2)
      → let r = if test then x else y in MovedBoth b r.0 s r.1 r.2
  MovedBoth-if true x y hx hy = hx refl
  MovedBoth-if false x y hx hy = hy refl

  copy_both-MovedBoth :
      (drains : Drains envoy) (b : Buffers) (s : ResponseStream)
      → received_is_retained b ≡ false
      → is_over s ≡ false
      → s.buffered_bytes ≤ s.max_buffered_bytes
      → s.max_buffered_bytes < usize_mod
      → let r = copy_both envoy b s in MovedBoth b r.0 s r.1 r.2
  unfolding copy_both spare_capacity other
  copy_both-MovedBoth drains b s differ live fits bounded =
      let in_hand : ℕ = if received_is_retained b then 0 else size_of (slices received b) in
      let in_hand_lem : in_hand ≡ size_of (slices received b) = ground arith in
      let room = min (size_of (slices retained b) + in_hand) (spare_capacity s) in
      let first = copy_body-Moved envoy drains retained room b s differ live (omega arith) in
      let x = copy_body envoy retained room b s in
      let second =
        copy_body-Moved envoy drains received (room - x.2) x.0 x.1 (first.alike ∙ differ) first.live
          (omega (arith, first.charged, first.count, first.limit_kept)) in
      let y = copy_body envoy received (room - x.2) x.0 x.1 in
      let received_kept : concatenate (slices received x.0) ≡ concatenate (slices received b) =
        first.untouched in
      let retained_kept : concatenate (slices retained y.0) ≡ concatenate (slices retained x.0) =
        second.untouched in
      let received_size : size_of (slices received x.0) ≡ size_of (slices received b) =
        length-concatenate (slices received x.0)
        ∙ ap length received_kept
        ∙ sym (length-concatenate (slices received b)) in
      let short : ltb x.2 room && not (received_is_retained b) ≡ true → x.2 < room =
        λ h. ground arith in
      let not_short : ltb x.2 room && not (received_is_retained b) ≡ false → room ≤ x.2 =
        λ h. ground arith in
      MovedBoth-if (ltb x.2 room && not (received_is_retained b)) (y.0, y.1, x.2 + y.2) x
        (λ h. record {
          conserved =
              conserve_both (queued s.items) (queued x.1.items) (queued y.1.items)
                (concatenate (slices retained b)) (concatenate (slices retained x.0))
                (concatenate (slices retained y.0)) (concatenate (slices received x.0))
                (concatenate (slices received y.0)) first.conserved second.conserved
                (nil_of_size (concatenate (slices retained x.0)) (
                  omega (
                    arith,
                    length-concatenate (slices retained x.0),
                    first.left,
                    first.count,
                    short h,
                  )))
                retained_kept
              ∙ ap (λ xs. queued s.items ++ (concatenate (slices retained b) ++ xs)) received_kept;
          count = omega (arith, first.count, second.count, received_size, in_hand_lem, short h);
          charged = omega (arith, first.charged, second.charged);
          live = second.live;
          limit_kept = second.limit_kept ∙ first.limit_kept;
        })
        (λ h. record {
          conserved =
              sym (
                append_assoc (queued x.1.items) (concatenate (slices retained x.0))
                  (concatenate (slices received x.0)))
              ∙ ap₂ (λ xs ys. xs ++ ys) first.conserved received_kept
              ∙ append_assoc (queued s.items) (concatenate (slices retained b))
                  (concatenate (slices received b));
          count = omega (arith, first.count, in_hand_lem, not_short h);
          charged = first.charged;
          live = first.live;
          limit_kept = first.limit_kept;
        })

  -- What stays in Envoy's two buffers, in the order in which it is passed on.
  unfoldable pub kept_back : Buffers → Bytes
  kept_back b = concatenate (slices retained b) ++ concatenate (slices received b)

  -- An upload goes from `s` to `s'` in one call, which leaves `r`.
  unfoldable pub IsInOrder :
      Bool → Buffers → ResponseStream → Buffers × Filter × List Effect → Type 0
  IsInOrder pending b s (b', f', effects) =
      (s' : ResponseStream) × (f'.request_body ≡ some s')
      × (queued s'.items ++ kept_back b' ≡ queued s.items ++ kept_back b)
      × (s'.buffered_bytes ≡ s.buffered_bytes + min (length (kept_back b)) (spare_capacity s))
      × (s'.ended ≡ (pending && (length (kept_back b') == 0)))
      × (effects
          ≡ (if ltb s.buffered_bytes s'.buffered_bytes || s'.ended then wakes s' ∷ [] else []))

  size_kept_back :
      (b : Buffers)
      → length (kept_back b) ≡ size_of (slices retained b) + size_of (slices received b)
  unfolding kept_back
  size_kept_back b = omega (
    arith,
    length-append (concatenate (slices retained b)) (concatenate (slices received b)),
    length-concatenate (slices retained b),
    length-concatenate (slices received b),
  )

  forward_open-IsInOrder :
      (drains : Drains envoy) (started now : ℕ) (b : Buffers) (f : Filter) (s : ResponseStream)
      → received_is_retained b ≡ false
      → is_over s ≡ false
      → s.buffered_bytes ≤ s.max_buffered_bytes
      → s.max_buffered_bytes < usize_mod
      → IsInOrder f.request_end_pending b s (forward_open envoy started now b f s)
  unfolding IsInOrder forward_open may_end kept_back spare_capacity size_of copy_both
  forward_open-IsInOrder drains started now b f s differ live fits bounded =
      let both = copy_both-MovedBoth drains b s differ live fits bounded in
      let r = copy_both envoy b s in
      let ended = may_end envoy f.request_end_pending r.0 in
      let s' : ResponseStream = if ended then (push_end r.1).0 else r.1 in
      let over = ended_if ended r.1 both.live (omega (arith, both.charged, both.count)) in
      let grown : s'.buffered_bytes ≡ s.buffered_bytes + r.2 = over.1 ∙ both.charged in
      let ends : ended ≡ (f.request_end_pending && (length (kept_back r.0) == 0)) =
        ground (arith, size_kept_back r.0) in
      let got : ltb 0 r.2 ≡ ltb s.buffered_bytes s'.buffered_bytes = ground arith in
      (
        s',
        refl,
        ap (λ xs. xs ++ kept_back r.0) over.0 ∙ both.conserved,
        omega (arith, grown, both.count, size_kept_back b),
        over.2 ∙ ends,
        ap₂ (λ t u. if t || u then wakes s' ∷ [] else []) got (sym over.2),
      )

  -- One call of `forward_request_body` on an open upload neither loses, repeats nor reorders a byte:
  -- what is queued for the application followed by what Envoy keeps is what it was. It takes as much
  -- as the queue has room for and no more, and it ends the upload exactly when the end was pending
  -- and nothing is kept back. The application is woken exactly when it got bytes or the end. The
  -- frame in hand and the retained bytes are different ones, and Envoy's buffers drain as `Drains`
  -- says.
  -- The queue is within its limit, and the limit is a `usize`.
  pub upload-IsInOrder :
      (drains : Drains envoy) (started now : ℕ) (b : Buffers) (f : Filter) (s : ResponseStream)
      → f.request_body ≡ some s
      → received_is_retained b ≡ false
      → is_over s ≡ false
      → s.buffered_bytes ≤ s.max_buffered_bytes
      → s.max_buffered_bytes < usize_mod
      → IsInOrder f.request_end_pending b s (forward_request_body envoy started now b f)
  unfolding forward_request_body
  upload-IsInOrder drains started now b f s open_body differ live fits bounded =
      subst
        (λ body.
          IsInOrder f.request_end_pending b s
            (elim body [ none ↦ (b, f, []) | some s ↦ forward_open envoy started now b f s ]))
        (sym open_body) (forward_open-IsInOrder drains started now b f s differ live fits bounded)
