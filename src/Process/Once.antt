-- ===== src/Process/Once.antt =====
-- crates/ruvoy-envoy-fiber/src/runtime.rs: a process starts its runtime once, on terms that stay.
use ruvoy.Prelude.{
  ℕ, ◌+◌, ◌≤◌, ◌≡◌, refl, Bool, true, false, Option, none, some, List, ◌==◌, ◌⊎◌, inl, inr,
  if◌then◌else◌, arith, Bytes,
}
use ruvoy.Error.{BridgeError, io, spawn}
use ruvoy.Rack.Env.{Result, ok, err}
use ruvoy.Rack.Respond.{Asked, gives, raises, and_then}
use ruvoy.Fiber.Lifecycle.{
  FiberRuntimeStartup, RuntimeInfo, Starting, start_rackup, start_app_retained, started,
  no_capacity, read_readiness, io_or, spawn_or, into_parts,
}
use ruvoy.Process.Config.{RuntimeSettings, ProcessRuntimeConfig, config_eq, Files, new_config}
use ruvoy.Process.Runtime.{
  Ready, ProcessRuntime, Booted, booted, panics, with_ready, boot, start_process, ready_of,
  ensure_compatible, incompatible, Process, fresh, register_hook, Answer, answer, join_runtime,
  init_runtime, start_hooked, start, Op, run, terminal_startup_failure,
}
use ruvoy.Process.Terms.{terms, Stay, run-Keeps}

-- How a start answers: with an error, or that the runtime is ready on the terms that were asked for.
unfoldable pub IsAnswered : Result ProcessRuntimeConfig → Process → Answer → Type 0
IsAnswered wanted p a =
    ((error : BridgeError) × (a ≡ answer (err error)))
    ⊎ ((r : ProcessRuntime) × (ready : Ready) × (requested : ProcessRuntimeConfig) × (a
          ≡ answer (ok ready))
        × (wanted ≡ ok requested)
        × (p.runtime ≡ some (ok r))
        × (config_eq r.config requested ≡ true)
        × (r.ready ≡ ok ready))

join_runtime-IsAnswered :
    (requested : ProcessRuntimeConfig) (result : Result ProcessRuntime) (p : Process)
    → p.runtime ≡ some result
    → IsAnswered (ok requested) p (answer (join_runtime requested result))
unfolding IsAnswered join_runtime ensure_compatible ready_of and_then
join_runtime-IsAnswered requested (err error) p h = inl (terminal_startup_failure error, refl)
join_runtime-IsAnswered requested (ok r) p h = go (config_eq r.config requested) refl r.ready refl
  where
    go :
        (same : Bool)
        → config_eq r.config requested ≡ same
        → (ready : Result Ready) → r.ready ≡ ready
        → IsAnswered (ok requested) p (
            answer (
              and_then
                (if same then ok tt else err (incompatible r.config requested))
                (λ compatible. elim ready [
                  | ok ready ↦ ok ready
                  | err error ↦ err (terminal_startup_failure error)
                ])))
    go false e ready k = inl (incompatible r.config requested, refl)
    go true e (err error) k = inl (terminal_startup_failure error, refl)
    go true e (ok ready) k = inr (r, ready, requested, refl, refl, h, e, k)

-- The start of the runtime does not panic: where there is no error there are its client and info.
IsBooted : Result FiberRuntimeStartup → Type 0
IsBooted st =
    (config : ProcessRuntimeConfig)
    → (result : Result ProcessRuntime) × (boot st config ≡ booted result)

err-IsBooted : (error : BridgeError) → IsBooted (err error)
unfolding IsBooted boot
err-IsBooted error config = (err error, refl)

started-IsBooted :
    (limit : ℕ) (readiness : Option (Result RuntimeInfo)) → IsBooted (ok (started limit readiness))
unfolding IsBooted boot with_ready started read_readiness into_parts
started-IsBooted limit none config = (_, refl)
started-IsBooted limit (some (err error)) config = (_, refl)
started-IsBooted limit (some (ok info)) config = (_, refl)

io_or-IsBooted :
    (a : Asked (Unit {0})) (next : Result FiberRuntimeStartup)
    → IsBooted next
    → IsBooted (io_or a next)
unfolding io_or
io_or-IsBooted (gives u) next h = h
io_or-IsBooted (raises message) next h = err-IsBooted (io message)

spawn_or-IsBooted :
    (a : Asked (Unit {0})) (next : Result FiberRuntimeStartup)
    → IsBooted next
    → IsBooted (spawn_or a next)
unfolding spawn_or
spawn_or-IsBooted (gives u) next h = h
spawn_or-IsBooted (raises message) next h = err-IsBooted (spawn message)

if-IsBooted :
    (test : Bool) (x y : Result FiberRuntimeStartup)
    → IsBooted x
    → IsBooted y
    → IsBooted (if test then x else y)
if-IsBooted true x y h k = h
if-IsBooted false x y h k = k

start_rackup-IsBooted :
    (path : Bytes) (canonical : Asked Bytes) (is_file : Bool) (limit : ℕ) (w : Starting)
    → IsBooted (start_rackup path canonical is_file limit w)
unfolding start_rackup start_app_retained
start_rackup-IsBooted path (raises message) is_file limit w = err-IsBooted _
start_rackup-IsBooted path (gives rackup) is_file limit w =
    let answered = io_or-IsBooted w.socket_pair _ (
      io_or-IsBooted w.reader_nonblocking _ (
        io_or-IsBooted w.writer_nonblocking _
          (spawn_or-IsBooted w.spawned _ (started-IsBooted limit w.readiness)))) in
    if-IsBooted is_file _ _ (if-IsBooted (limit == 0) _ _ (err-IsBooted no_capacity) answered)
      (err-IsBooted _)

start_process-booted :
    (files : Files) (w : Starting) (config : ProcessRuntimeConfig)
    → (result : Result ProcessRuntime) × (start_process files w config ≡ booted result)
unfolding start_process IsBooted
start_process-booted files w config =
    start_rackup-IsBooted config.rackup (files.canonicalize config.rackup)
      (files.is_file config.rackup) config.max_inflight_requests w config

init_runtime-IsAnswered :
    (b : Booted) (requested : ProcessRuntimeConfig) (p : Process)
    → (result : Result ProcessRuntime) × (b ≡ booted result)
    → let pa = init_runtime b requested p in IsAnswered (ok requested) pa.0 pa.1
unfolding init_runtime
init_runtime-IsAnswered (booted result) requested p h =
    join_runtime-IsAnswered requested result
      (record p { runtime = some result; starts = p.starts + 1 }) refl
init_runtime-IsAnswered panics requested p h = absurd (ground (arith, h.1))

start_hooked-IsAnswered :
    (files : Files) (w : Starting) (requested : ProcessRuntimeConfig)
    (q : Process × Result (Unit {0}))
    → let pa = start_hooked files w requested q in IsAnswered (ok requested) pa.0 pa.1
unfolding start_hooked IsAnswered
start_hooked-IsAnswered files w requested (p, err error) = inl (error, refl)
start_hooked-IsAnswered files w requested (p, ok u) = go p.runtime refl
  where
    go :
        (slot : Option (Result ProcessRuntime))
        → p.runtime ≡ slot
        → let pa : Process × Answer = elim slot [
          | some result ↦ (p, answer (join_runtime requested result))
          | none ↦ init_runtime (start_process files w requested) requested p
        ] in
          IsAnswered (ok requested) pa.0 pa.1
    go (some result) e = join_runtime-IsAnswered requested result p e
    go none e =
        init_runtime-IsAnswered (start_process files w requested) requested p
          (start_process-booted files w requested)

start-IsAnswered :
    (files : Files) (registers : Bool) (w : Starting) (settings : RuntimeSettings) (p : Process)
    → let pa = start files registers w settings p in
      IsAnswered (new_config files settings) pa.0 pa.1
unfolding start IsAnswered
start-IsAnswered files registers w settings p = go (new_config files settings)
  where
    go :
        (config : Result ProcessRuntimeConfig)
        → let pa : Process × Answer = elim config [
          | err error ↦ (p, answer (err error))
          | ok requested ↦ start_hooked files w requested (register_hook registers p)
        ] in
          IsAnswered config pa.0 pa.1
    go (err error) = inl (error, refl)
    go (ok requested) = start_hooked-IsAnswered files w requested (register_hook registers p)

-- In the life of a process, whatever is started and shut down in it and in whatever order: its runtime
-- is started at most once, and what it is configured with and whether it became ready, or why it did
-- not, stays as it first was. A start does not panic, and it answers that the runtime is ready only
-- if that became ready and is configured as this start asks.
pub starts_once :
    (ops more : List Op) (files : Files) (registers : Bool) (w : Starting)
    (settings : RuntimeSettings)
    → let p = run ops fresh in
      let pa = start files registers w settings p in
      (p.starts ≤ 1)
      × Stay (terms p) (terms (run more p))
      × IsAnswered (new_config files settings) pa.0 pa.1
unfolding fresh
starts_once ops more files registers w settings =
    let p = run ops fresh in
    let v = (run-Keeps ops fresh (record { once = refl })).once in
    (
      ground (arith, v.once),
      (run-Keeps more p v).stay,
      start-IsAnswered files registers w settings p,
    )
