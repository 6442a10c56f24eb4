-- ===== src/Worker/Submit/Abandon.antt =====
-- crates/ruvoy-envoy-fiber/src/worker.rs: `abandon_upstreams` leaves no call behind, tells every
-- fiber and counts none twice.
use ruvoy.Prelude.{
  ◌≡◌, refl, ap, ap₂, sym, ◌∙◌, true, List, [], ◌∷◌, ◌++◌, map, append_assoc, is_some,
  if◌then◌else◌, All, Bytes, arith,
}
use mathlib.Core.List.{map-append}
use ruvoy.Stream.Defs.{ResponseStream, push_failure, cancel, writer_owed_wakeup}
use ruvoy.Upstream.Defs.{UpstreamStreamRequest, fail}
use ruvoy.Table.{values}
use ruvoy.EnvoyUpstream.Headers.{CallOutcome}
use ruvoy.EnvoyUpstream.OpenStream.Defs.{OpenStream, abandon, outcome_of, request_over}
use ruvoy.EnvoyUpstream.OpenStream.Settled.{IsSynced}
use ruvoy.Worker.Defs.{Filter, Effect, wakes, wake_stream}
use ruvoy.Worker.Submit.Left.{
  LeftBehind, left_call, left_unsent, left_open, left_behind, IsWoken, Tells, AreTold, due,
}
use ruvoy.Worker.Submit.{
  call_over, stream_over, abandon_upstreams, give_up, fail_call, fail_unsent, fail_open, unsent_of,
  call_of, pending_of,
}

AreTold-append :
    (xs ys : List LeftBehind) (es fs : List Effect)
    → AreTold xs es
    → AreTold ys fs
    → AreTold (xs ++ ys) (es ++ fs)
unfolding AreTold
AreTold-append [] ys es fs h g = rw h g
AreTold-append (l ∷ ls) ys es fs (mine, others, e, tells, rest) g = (
  mine,
  others ++ fs,
  ap (λ x. x ++ fs) e ∙ append_assoc mine others fs,
  tells,
  AreTold-append ls ys others fs rest g,
)

module _ {A : Type 0} (fails : A → (Bytes × CallOutcome) × List Effect)
    (left : A → LeftBehind) where
  give_up-due :
      ((x : A) → (fails x).0 ≡ ((left x).cluster, (left x).outcome))
      → (xs : List A) → (give_up fails xs).0 ≡ due (map left xs)
  unfolding give_up due
  give_up-due named [] = refl
  give_up-due named (x ∷ xs) = ap₂ (λ y ys. y ∷ ys) (named x) (give_up-due named xs)

  give_up-AreTold :
      (P : A → Type 0)
      → ((x : A) → P x → Tells (left x) (fails x).1)
      → (xs : List A) → All P xs
      → AreTold (map left xs) (give_up fails xs).1
  unfolding give_up AreTold
  give_up-AreTold P tells [] h = refl
  give_up-AreTold P tells (x ∷ xs) h =
      ((fails x).1, (give_up fails xs).1, refl, tells x h.0, give_up-AreTold P tells xs h.1)

call-due :
    (x : ResponseStream × Bytes) → (fail_call x).0 ≡ ((left_call x).cluster, (left_call x).outcome)
unfolding fail_call left_call
call-due x = refl

unsent-due :
    (r : UpstreamStreamRequest)
    → (fail_unsent r).0 ≡ ((left_unsent r).cluster, (left_unsent r).outcome)
unfolding fail_unsent left_unsent
unsent-due r = refl

open-due : (o : OpenStream) → (fail_open o).0 ≡ ((left_open o).cluster, (left_open o).outcome)
unfolding fail_open left_open abandon outcome_of
open-due o = ground arith

call-Tells : (x : ResponseStream × Bytes) → Unit {0} → Tells (left_call x) (fail_call x).1
unfolding fail_call left_call Tells IsWoken push_failure
call-Tells x h = ((push_failure call_over x.0).0, [], refl, ground arith, ground arith, refl)

woken_if :
    (before after : ResponseStream)
    → after.cancelled ≡ true
    → after.waiter ≡ before.waiter
    → (if writer_owed_wakeup after then wakes after ∷ [] else [])
      ≡ (if is_some before.waiter then wakes after ∷ [] else [])
unfolding writer_owed_wakeup
woken_if before after h g =
    ap (λ owed. if owed then wakes after ∷ [] else []) (owed after before h g)
  where
    owed :
        (a b : ResponseStream)
        → a.cancelled ≡ true
        → a.waiter ≡ b.waiter
        → writer_owed_wakeup a ≡ is_some b.waiter
    owed a b h g = ground arith

unsent-Tells : (r : UpstreamStreamRequest) → Unit {0} → Tells (left_unsent r) (fail_unsent r).1
unfolding fail_unsent left_unsent Tells IsWoken fail push_failure wake_stream cancel
unsent-Tells r h =
    let c = fail stream_over r.channel in
    (
      c.response,
      (if writer_owed_wakeup c.request then wakes c.request ∷ [] else []),
      refl,
      ground arith,
      ground arith,
      (c.request, refl, refl, woken_if r.channel.request c.request refl refl),
    )

open-Tells : (o : OpenStream) → IsSynced o → Tells (left_open o) (fail_open o).1
unfolding fail_open left_open Tells IsWoken abandon fail push_failure wake_stream cancel
    request_over
open-Tells o v =
    let c = (abandon o).channel in
    let gone : c.request.cancelled ≡ true = ground arith in
    let kept : c.request.waiter ≡ o.channel.request.waiter = ground arith in
    (
      c.response,
      (if writer_owed_wakeup c.request then wakes c.request ∷ [] else []),
      refl,
      ground arith,
      ground arith,
      (c.request, gone, kept, woken_if o.channel.request c.request gone kept),
    )

All-unit : {A : Type 0} (xs : List A) → All (λ x. Unit {0}) xs
All-unit [] = tt
All-unit (x ∷ xs) = (tt, All-unit xs)

due-append : (xs ys : List LeftBehind) → due (xs ++ ys) ≡ due xs ++ due ys
unfolding due
due-append xs ys = map-append (λ l. (l.cluster, l.outcome)) xs ys

-- When a request is over, every call and stream of it, queued, in flight or open, is given the
-- outcome that is due to it under its cluster, once: giving up again, as the drop of the filter does,
-- finds nothing. For each, its reader is woken and finds what was queued and then the error, unless
-- its response was over already; and a fiber parked on writing its body is woken, and finds the body
-- cancelled. Nobody else is woken. The open streams are as the worker keeps them.
pub abandon_upstreams_lem :
    (f : Filter)
    → All IsSynced (values f.upstream_streams)
    → let r = abandon_upstreams f in
      (r.1.0 ≡ due (left_behind f))
      × AreTold (left_behind f) r.1.1
      × (left_behind r.0 ≡ [])
      × (abandon_upstreams r.0 ≡ (r.0, ([], [])))
unfolding abandon_upstreams left_behind give_up unsent_of values
abandon_upstreams_lem f v =
    let unsent = unsent_of f.upstreams in
    let calls = map call_of unsent.calls ++ map pending_of (values f.upstream_calls) in
    let opened = values f.upstream_streams in
    let xs = give_up fail_call calls in
    let ys = give_up fail_unsent unsent.streams in
    let zs = give_up fail_open opened in
    (
      ap₂ (λ a b. a ++ b) (give_up-due fail_call left_call call-due calls)
            (ap₂ (λ a b. a ++ b) (give_up-due fail_unsent left_unsent unsent-due unsent.streams)
                (give_up-due fail_open left_open open-due opened)
              ∙ sym (due-append (map left_unsent unsent.streams) (map left_open opened)))
          ∙ sym (
              due-append (map left_call calls)
                (map left_unsent unsent.streams ++ map left_open opened)),
      AreTold-append (map left_call calls) (map left_unsent unsent.streams ++ map left_open opened)
          xs.1 (ys.1 ++ zs.1)
          (give_up-AreTold fail_call left_call (λ x. Unit {0}) call-Tells calls (All-unit calls))
          (AreTold-append (map left_unsent unsent.streams) (map left_open opened) ys.1 zs.1
            (give_up-AreTold fail_unsent left_unsent (λ x. Unit {0}) unsent-Tells unsent.streams
              (All-unit unsent.streams))
            (give_up-AreTold fail_open left_open IsSynced open-Tells opened v)),
      refl,
      refl,
    )
