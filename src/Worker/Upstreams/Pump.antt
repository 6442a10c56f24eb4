-- ===== src/Worker/Upstreams/Pump.antt =====
-- crates/ruvoy-envoy-fiber/src/worker.rs: the loop of `pump_streams` ends with nothing left to send.
use ruvoy.Prelude.{
  ℕ, zero, suc, ◌≡◌, refl, sym, ap, ◌∙◌, true, Option, none, some, List, [], is_some, length, arith,
}
use ruvoy.Table.{get, update}
use ruvoy.EnvoyUpstream.OpenStream.Defs.{OpenStream, StreamAction, next_action}
use ruvoy.Worker.Defs.{Filter, Effect}
use ruvoy.Worker.Upstreams.{Envoy, reports, act_on, turns_for, pump_stream}
use ruvoy.Worker.Upstreams.Turns.{
  all_body, within, within_at, rests, acts-within, idle-rests, still-idle, reports-within, stored,
}

acted-within :
    (n : ℕ) (o o' : OpenStream) (action : StreamAction)
    → next_action o ≡ (o', some action)
    → within (suc n) o ≡ true
    → within n o' ≡ true
acted-within n o o' action e h =
    ap (λ r. within n r.0) (sym e) ∙ acts-within n o h (ap (λ r. is_some r.1) e)

act_on-rests :
    (envoy : Envoy) (now n turn handle : ℕ) (later : Filter → Filter × List Effect) (o : OpenStream)
    (next : OpenStream × Option StreamAction) (f : Filter)
    → next_action o ≡ next
    → get handle f.upstream_streams ≡ some o
    → within n o ≡ true
    → ((m : ℕ) (f : Filter)
        → n ≡ suc m
        → within_at m (get handle f.upstream_streams) ≡ true
        → rests (get handle (later f).0.upstream_streams) ≡ true)
    → rests (get handle (act_on envoy now later turn handle next f).0.upstream_streams) ≡ true
unfolding act_on within_at
act_on-rests envoy now n turn handle later o (o', none) f e found h rest =
    ap rests (stored handle o o' f.upstream_streams found)
    ∙ ap (λ r. rests (some r.0)) (sym e)
    ∙ idle-rests n o h (ap (λ r. is_some r.1) e)
act_on-rests envoy now zero turn handle later o (o', some action) f e found h rest =
    absurd (let acted = ap (λ r. is_some r.1) (sym e) in let idle = still-idle o h in cc)
act_on-rests envoy now (suc n) turn handle later o (o', some action) f e found h rest =
    let f' : Filter = record f { upstream_streams = update handle o' f.upstream_streams } in
    let reported = envoy.inside turn handle action in
    rest n (reports now reported f').0 refl (
      reports-within n now handle reported f' (
        ap (within_at n) (stored handle o o' f.upstream_streams found)
        ∙ acted-within n o o' action e h))

-- One turn, whether the stream is there or not.
turn_of :
    Envoy
    → ℕ
    → ℕ
    → ℕ
    → (Filter → Filter × List Effect)
    → Filter
    → Option OpenStream
    → Filter × List Effect
turn_of envoy now n handle later f none = (f, [])
turn_of envoy now n handle later f (some o) = act_on envoy now later n handle (next_action o) f

turn_of-rests :
    (envoy : Envoy) (now n handle : ℕ) (later : Filter → Filter × List Effect) (f : Filter)
    (found : Option OpenStream)
    → get handle f.upstream_streams ≡ found
    → within_at n found ≡ true
    → ((m : ℕ) (f : Filter)
        → n ≡ suc m
        → within_at m (get handle f.upstream_streams) ≡ true
        → rests (get handle (later f).0.upstream_streams) ≡ true)
    → rests (get handle (turn_of envoy now n handle later f found).0.upstream_streams) ≡ true
unfolding turn_of within_at rests
turn_of-rests envoy now n handle later f none e h rest = ap rests e
turn_of-rests envoy now n handle later f (some o) e h rest =
    act_on-rests envoy now n n handle later o (next_action o) f refl e h rest

pump_stream-turn :
    (envoy : Envoy) (now n handle : ℕ) (f : Filter)
    → pump_stream envoy now (suc n) handle f
      ≡ turn_of envoy now n handle
          (pump_stream envoy now n handle)
          f
          (get handle f.upstream_streams)
unfolding pump_stream turn_of
pump_stream-turn envoy now n handle f = ground arith

pump_stream-rests :
    (envoy : Envoy) (now n handle : ℕ) (f : Filter)
    → within_at n (get handle f.upstream_streams) ≡ true
    → rests (get handle (pump_stream envoy now (suc n) handle f).0.upstream_streams) ≡ true
pump_stream-rests envoy now zero handle f h =
    ap (λ r. rests (get handle r.0.upstream_streams)) (pump_stream-turn envoy now zero handle f)
    ∙ turn_of-rests envoy now zero handle (pump_stream envoy now zero handle) f
        (get handle f.upstream_streams) refl h (λ m f e h. absurd (omega arith))
pump_stream-rests envoy now (suc n) handle f h =
    ap (λ r. rests (get handle r.0.upstream_streams)) (pump_stream-turn envoy now (suc n) handle f)
    ∙ turn_of-rests envoy now (suc n) handle (pump_stream envoy now (suc n) handle) f
        (get handle f.upstream_streams) refl h
        (λ m f e h. pump_stream-rests envoy now n handle f (
          ap (λ k. within_at k (get handle f.upstream_streams)) (let k : n ≡ m = omega arith in k)
          ∙ h))

enough :
    (o : OpenStream)
    → all_body o.channel.request.items ≡ true
    → within (suc (length o.channel.request.items)) o ≡ true
unfolding within
enough o h = ground arith

-- The loop of `pump_streams` ends, and not for want of turns: for a stream in the table with pieces
-- of a body queued, whatever Envoy reports from inside the calls, of this stream or of others, when
-- the loop is left the stream is gone or there is nothing left to send or reset.
pub pump_finishes :
    (envoy : Envoy) (now handle : ℕ) (f : Filter) (o : OpenStream)
    → get handle f.upstream_streams ≡ some o
    → all_body o.channel.request.items ≡ true
    → rests (
        get handle
          (pump_stream envoy now (turns_for envoy now handle f) handle f).0.upstream_streams)
      ≡ true
unfolding turns_for within_at
pump_finishes envoy now handle f o found h =
    let n = length o.channel.request.items in
    let turns : turns_for envoy now handle f ≡ suc (suc n) = ground arith in
    ap (λ k. rests (get handle (pump_stream envoy now k handle f).0.upstream_streams)) turns
    ∙ pump_stream-rests envoy now (suc n) handle f (ap (within_at (suc n)) found ∙ enough o h)
