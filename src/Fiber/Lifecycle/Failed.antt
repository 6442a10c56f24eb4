-- ===== src/Fiber/Lifecycle/Failed.antt =====
-- src/fiber.rs: a runtime whose application failed to load still answers until it is shut down.
use ruvoy.Prelude.{
  ℕ, ◌≡◌, refl, ap, ◌∙◌, Bool, true, false, Option, none, some, List, [], ◌∷◌, ◌++◌, any, arith,
}
use ruvoy.Error.{BridgeError, runtime_panicked}
use ruvoy.Rack.Env.{Result, ok, err}
use ruvoy.Fiber.Bridge.{
  FiberCommand, call, admin, drain, shutdown, Effect, answers, acknowledges, fails, wakes, returned,
  not_available, retain_failed_runtime,
}
use ruvoy.Fiber.Client.{Runtime}
use ruvoy.Fiber.Lifecycle.{
  Prepared, prepared, refused, panicked, Ran, fiber_runtime_main, retain, ended, FiberRuntime,
  finished, join_result, stop, shutdown_inner,
}

unfoldable pub is_shutdown : FiberCommand → Bool
is_shutdown (shutdown channel) = true
is_shutdown _ = false

-- What a command is owed by a runtime that cannot serve: a call its failure and the wake that brings
-- it, an admin request that it is not available, a drain nothing.
unfoldable pub owed_to : BridgeError → FiberCommand → List Effect
owed_to error (call c) = fails c.stream error ∷ wakes c.stream ∷ []
owed_to error (admin c) = answers c.reply 503 (not_available error) ∷ []
owed_to error drain = []
owed_to error (shutdown channel) = acknowledges channel ∷ []

unfoldable pub owed_to_all : BridgeError → List FiberCommand → List Effect
unfolding owed_to
owed_to_all error [] = []
owed_to_all error (c ∷ commands) = owed_to error c ++ owed_to_all error commands

-- Why a preparation failed, if it did.
unfoldable pub failure : Prepared → Option BridgeError
failure (prepared info) = none
failure (refused error) = some error
failure (panicked payload) = some (runtime_panicked payload)

retained :
    (error : BridgeError) (commands later : List FiberCommand) (channel : ℕ) (connected : Bool)
    → any is_shutdown commands ≡ false
    → retain_failed_runtime (commands ++ shutdown channel ∷ later) connected error
      ≡ (owed_to_all error commands ++ acknowledges channel ∷ [], later, returned)
unfolding retain_failed_runtime owed_to_all owed_to is_shutdown
retained error [] later channel connected h = refl
retained error (call c ∷ commands) later channel connected h =
    ap (λ r. (fails c.stream error ∷ wakes c.stream ∷ r.0, r.1, r.2))
      (retained error commands later channel connected h)
retained error (admin c ∷ commands) later channel connected h =
    ap (λ r. (answers c.reply 503 (not_available error) ∷ r.0, r.1, r.2))
      (retained error commands later channel connected h)
retained error (drain ∷ commands) later channel connected h =
    retained error commands later channel connected h
retained error (shutdown c ∷ commands) later channel connected h = absurd (ground (arith, h))

retain-answers :
    (error : BridgeError) (commands later : List FiberCommand) (channel : ℕ) (connected : Bool)
    → any is_shutdown commands ≡ false
    → retain error (commands ++ shutdown channel ∷ later) connected ≡ record {
      readiness = err error;
      effects = owed_to_all error commands ++ acknowledges channel ∷ [];
      result = some (err error);
    }
unfolding retain ended
retain-answers error commands later channel connected h =
    ap (λ r. record { readiness = err error; effects = r.0; result = ended r.2 (err error) })
      (retained error commands later channel connected h)

main-retains :
    (p : Prepared) (error : BridgeError) (listening connected : Bool) (r : Ran)
    (commands : List FiberCommand)
    → failure p ≡ some error
    → fiber_runtime_main p listening commands connected r ≡ retain error commands connected
unfolding fiber_runtime_main failure
main-retains (prepared info) error listening connected r commands why = absurd cc
main-retains (refused e) error listening connected r commands why =
    let same : e ≡ error = cc in ap (λ x. retain x commands connected) same
main-retains (panicked payload) error listening connected r commands why =
    let same : runtime_panicked payload ≡ error = cc in ap (λ x. retain x commands connected) same

shutdown_inner-joins :
    (result : Result (Unit {0})) (f : FiberRuntime)
    → f.join ≡ true
    → (shutdown_inner (λ client. ok tt) (finished result) f).1 ≡ result
unfolding shutdown_inner stop join_result
shutdown_inner-joins result f holds = go f.client
  where
    go :
        (client : Option Runtime)
        → (let stopped : FiberRuntime × Result (Unit {0}) = elim client [
          | none ↦ stop (ok tt) (finished result) f
          | some c ↦ stop (ok tt) (finished result) f
        ] in
            stopped.1)
          ≡ result
    go none = ap (λ b. join_result b (finished result)) holds
    go (some c) = ap (λ b. join_result b (finished result)) holds

-- An application fails to load or panics while it does. The starter is told so; every call that is
-- queued before the first shutdown is failed with that error and its worker woken, every admin
-- request gets a 503, in order; then the shutdown is acknowledged, what is queued behind it gets
-- nothing, and the thread returns the error, which is what a shutdown that joins the thread reports.
pub failed_runtime_answers :
    (p : Prepared) (error : BridgeError) (listening connected : Bool) (r : Ran) (f : FiberRuntime)
    (commands later : List FiberCommand) (channel : ℕ)
    → failure p ≡ some error
    → any is_shutdown commands ≡ false
    → f.join ≡ true
    → let m = fiber_runtime_main p listening (commands ++ shutdown channel ∷ later) connected r in
      (m.readiness ≡ err error)
      × (m.effects ≡ owed_to_all error commands ++ acknowledges channel ∷ [])
      × (m.result ≡ some (err error))
      × ((shutdown_inner (λ client. ok tt) (finished (err error)) f).1 ≡ err error)
failed_runtime_answers p error listening connected r f commands later channel why before holds =
    let e =
      main-retains p error listening connected r (commands ++ shutdown channel ∷ later) why
      ∙ retain-answers error commands later channel connected before in
    (
      ap (λ m. m.readiness) e,
      ap (λ m. m.effects) e,
      ap (λ m. m.result) e,
      shutdown_inner-joins (err error) f holds,
    )
