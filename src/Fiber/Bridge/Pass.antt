-- ===== src/Fiber/Bridge/Pass.antt =====
-- src/fiber.rs: a pass of the reactor hands Ruby what was queued.
use ruvoy.Prelude.{
  ℕ, ◌≡◌, refl, ap, sym, ◌∙◌, Bool, true, false, not, ◌||◌, Option, some, List, [], ◌∷◌, ◌++◌,
  append_assoc, append-nil, ◌⊎◌, inl, inr, any, arith,
}
use ruvoy.Fiber.Bridge.{
  AdminEnvelope, FiberCommand, call, admin, drain, shutdown, FiberEnvelope, Batch, new_batch,
  envelope_of, admin_envelope_of, existing, with_call, with_admin, Received, receive,
}

unfoldable pub until_shutdown : List FiberCommand → List FiberCommand
until_shutdown [] = []
until_shutdown (shutdown channel ∷ queue) = []
until_shutdown (c ∷ queue) = c ∷ until_shutdown queue

unfoldable pub calls_of : List FiberCommand → List FiberEnvelope
calls_of [] = []
calls_of (call c ∷ queue) = envelope_of c ∷ calls_of queue
calls_of (_ ∷ queue) = calls_of queue

unfoldable pub admins_of : List FiberCommand → List AdminEnvelope
admins_of [] = []
admins_of (admin c ∷ queue) = admin_envelope_of c ∷ admins_of queue
admins_of (_ ∷ queue) = admins_of queue

unfoldable pub is_drain : FiberCommand → Bool
is_drain drain = true
is_drain _ = false

-- How a pass ends: at the first shutdown, whose channel is kept, or with nothing queued.
unfoldable pub Ends : List FiberCommand → Bool → Option ℕ → Received → Type 0
Ends queue connected reply r =
    ((channel : ℕ) × (queue ≡ until_shutdown queue ++ shutdown channel ∷ r.rest)
      × (r.shutdown_reply ≡ some channel)
      × (r.batch.shutting_down ≡ true))
    ⊎ ((queue ≡ until_shutdown queue)
        × (r.rest ≡ [])
        × (r.shutdown_reply ≡ reply)
        × (r.batch.shutting_down ≡ not connected))

record IsHanded (queue : List FiberCommand) (connected : Bool) (reply : Option ℕ) (b : Batch)
    (r : Received) : Type 0 where
  pub envelopes : r.batch.envelopes ≡ b.envelopes ++ calls_of (until_shutdown queue)
  pub admins : existing r.batch.admin ≡ existing b.admin ++ admins_of (until_shutdown queue)
  pub draining : r.batch.draining ≡ (b.draining || any is_drain (until_shutdown queue))
  pub ends : Ends queue connected reply r

Ends-cons :
    (c : FiberCommand) (queue : List FiberCommand) (connected : Bool) (reply : Option ℕ)
    (r : Received)
    → until_shutdown (c ∷ queue) ≡ c ∷ until_shutdown queue
    → Ends queue connected reply r
    → Ends (c ∷ queue) connected reply r
unfolding Ends
Ends-cons c queue connected reply r more (inl (channel, whole, kept, over)) = inl (
  channel,
  ap (λ q. c ∷ q) whole ∙ ap (λ q. q ++ shutdown channel ∷ r.rest) (sym more),
  kept,
  over,
)
Ends-cons c queue connected reply r more (inr (whole, rest, kept, over)) =
    inr (ap (λ q. c ∷ q) whole ∙ sym more, rest, kept, over)

handed :
    (queue : List FiberCommand) (connected : Bool) (reply : Option ℕ) (b : Batch)
    → b.shutting_down ≡ false
    → IsHanded queue connected reply b (receive queue connected reply b)
unfolding receive with_call with_admin until_shutdown calls_of admins_of is_drain existing Ends
handed [] true reply b h = record {
  envelopes = sym (append-nil b.envelopes);
  admins = sym (append-nil (existing b.admin));
  draining = ground arith;
  ends = inr (refl, refl, refl, h);
}
handed [] false reply b h = record {
  envelopes = sym (append-nil b.envelopes);
  admins = sym (append-nil (existing b.admin));
  draining = ground arith;
  ends = inr (refl, refl, refl, refl);
}
handed (call c ∷ queue) connected reply b h =
    let v = handed queue connected reply (with_call c b) h in
    record {
      envelopes =
          v.envelopes
          ∙ append_assoc b.envelopes (envelope_of c ∷ []) (calls_of (until_shutdown queue));
      admins = v.admins;
      draining = v.draining;
      ends =
          Ends-cons (call c) queue connected reply (receive queue connected reply (with_call c b))
            refl v.ends;
    }
handed (admin c ∷ queue) connected reply b h =
    let v = handed queue connected reply (with_admin c b) h in
    record {
      envelopes = v.envelopes;
      admins =
          v.admins
          ∙ append_assoc (existing b.admin) (admin_envelope_of c ∷ [])
              (admins_of (until_shutdown queue));
      draining = v.draining;
      ends =
          Ends-cons (admin c) queue connected reply (receive queue connected reply (with_admin c b))
            refl v.ends;
    }
handed (drain ∷ queue) connected reply b h =
    let b' : Batch = record b { draining = true } in
    let v = handed queue connected reply b' h in
    record {
      envelopes = v.envelopes;
      admins = v.admins;
      draining = ground (arith, v.draining);
      ends = Ends-cons drain queue connected reply (receive queue connected reply b') refl v.ends;
    }
handed (shutdown channel ∷ queue) connected reply b h = record {
  envelopes = sym (append-nil b.envelopes);
  admins = sym (append-nil (existing b.admin));
  draining = ground arith;
  ends = inl (channel, refl, refl, refl);
}

-- A pass hands Ruby every call and every admin request queued before the first shutdown, each once
-- and in order, and says whether Envoy began draining among them. It receives nothing behind a
-- shutdown, whose channel it keeps; without one it leaves nothing queued, and says that the runtime
-- shuts down exactly when no client is left.
pub receive_lem :
    (queue : List FiberCommand) (connected : Bool) (reply : Option ℕ)
    → let r = receive queue connected reply new_batch in
      (r.batch.envelopes ≡ calls_of (until_shutdown queue))
      × (existing r.batch.admin ≡ admins_of (until_shutdown queue))
      × (r.batch.draining ≡ any is_drain (until_shutdown queue))
      × Ends queue connected reply r
unfolding new_batch existing
receive_lem queue connected reply =
    let v = handed queue connected reply new_batch refl in
    (v.envelopes, v.admins, v.draining, v.ends)
