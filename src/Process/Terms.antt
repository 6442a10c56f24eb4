-- ===== src/Process/Terms.antt =====
-- crates/ruvoy-envoy-fiber/src/runtime.rs: whatever a process is asked, its runtime starts at most once and
-- the terms that it serves on stay.
use ruvoy.Prelude.{
  ◌≡◌, refl, ap, ap₂, sym, subst, ◌∙◌, Bool, false, Option, none, some, List, [], ◌∷◌,
  if◌then◌else◌, is_some, arith,
}
use ruvoy.Rack.Env.{Result, ok, err}
use ruvoy.Fiber.Client.{Runtime}
use ruvoy.Fiber.Lifecycle.{Starting, Joined}
use ruvoy.Process.Config.{RuntimeSettings, ProcessRuntimeConfig, Files, new_config}
use ruvoy.Process.Runtime.{
  Ready, ProcessRuntime, Booted, booted, panics, start_process, Process, register_hook, Answer,
  answer, join_runtime, init_runtime, start_hooked, start, shutdown_taken, shutdown, Op, starts,
  shuts_down, apply, run,
}

-- What a process serves on, once it does: the configuration and whether it is ready, or why it never
-- started.
abbrev pub Terms : Type 0
Terms = Result (ProcessRuntimeConfig × Result Ready)

pub terms_of : Result ProcessRuntime → Terms
terms_of (err error) = err error
terms_of (ok r) = ok (r.config, r.ready)

unfoldable pub terms : Process → Option Terms
unfolding terms_of
terms p = elim p.runtime [ none ↦ none | some result ↦ some (terms_of result) ]

-- Terms that are there stay.
unfoldable pub Stay : Option Terms → Option Terms → Type 0
Stay none later = Unit {0}
Stay (some t) later = later ≡ some t

pub Stay-refl : (t : Option Terms) → Stay t t
unfolding Stay
Stay-refl none = tt
Stay-refl (some t) = refl

pub Stay-trans : (a b c : Option Terms) → Stay a b → Stay b c → Stay a c
unfolding Stay
Stay-trans none b c h k = tt
Stay-trans (some t) none c h k = absurd cc
Stay-trans (some t) (some u) c h k = k ∙ h

pub record IsOnce (p : Process) : Type 0 where
  pub once : p.starts ≡ (if is_some p.runtime then 1 else 0)

-- What a step may do to a process.
pub record Keeps (p p' : Process) : Type 0 where
  pub once : IsOnce p'
  pub stay : Stay (terms p) (terms p')

pub Stay-none : (t later : Option Terms) → t ≡ none → Stay t later
unfolding Stay
Stay-none none later h = tt
Stay-none (some t) later h = absurd cc

pub terms-none : (p : Process) → p.runtime ≡ none → terms p ≡ none
unfolding terms
terms-none p h = ap (λ slot. elim slot [ none ↦ none | some result ↦ some (terms_of result) ]) h

pub terms-some :
    (p : Process) (result : Result ProcessRuntime)
    → p.runtime ≡ some result
    → terms p ≡ some (terms_of result)
unfolding terms
terms-some p result h =
    ap (λ slot. elim slot [ none ↦ none | some result ↦ some (terms_of result) ]) h

-- Nothing but the hook is another.
pub terms-same : (p p' : Process) → p'.runtime ≡ p.runtime → Stay (terms p) (terms p')
unfolding terms
terms-same p p' h =
    subst (Stay (terms p))
      (ap (λ slot. elim slot [ none ↦ none | some result ↦ some (terms_of result) ]) (sym h))
      (Stay-refl (terms p))

pub init_runtime-Keeps :
    (b : Booted) (requested : ProcessRuntimeConfig) (p : Process)
    → IsOnce p
    → p.runtime ≡ none
    → Keeps p (init_runtime b requested p).0
unfolding init_runtime
init_runtime-Keeps (booted result) requested p v h = record {
  once = record { once = ground (arith, h) };
  stay = Stay-none (terms p) (terms (init_runtime (booted result) requested p).0) (terms-none p h);
}
init_runtime-Keeps panics requested p v h = record { once = v; stay = Stay-refl (terms p) }

pub start_hooked-Keeps :
    (files : Files) (w : Starting) (requested : ProcessRuntimeConfig) (p : Process)
    (hooked : Result (Unit {0}))
    → IsOnce p
    → Keeps p (start_hooked files w requested (p, hooked)).0
unfolding start_hooked
start_hooked-Keeps files w requested p (err error) v = record {
  once = v;
  stay = Stay-refl (terms p);
}
start_hooked-Keeps files w requested p (ok u) v = go p.runtime refl
  where
    go :
        (slot : Option (Result ProcessRuntime))
        → p.runtime ≡ slot
        → Keeps p (
            let pa : Process × Answer = elim slot [
              | some result ↦ (p, answer (join_runtime requested result))
              | none ↦ init_runtime (start_process files w requested) requested p
            ] in
            pa.0)
    go (some result) e = record { once = v; stay = Stay-refl (terms p) }
    go none e = init_runtime-Keeps (start_process files w requested) requested p v e

pub register_hook-same :
    (registers : Bool) (p : Process)
    → ((register_hook registers p).0.runtime ≡ p.runtime)
      × ((register_hook registers p).0.starts ≡ p.starts)
unfolding register_hook
register_hook-same registers p = ground arith

pub start-Keeps :
    (files : Files) (registers : Bool) (w : Starting) (settings : RuntimeSettings) (p : Process)
    → IsOnce p
    → Keeps p (start files registers w settings p).0
unfolding start
start-Keeps files registers w settings p v = go (new_config files settings)
  where
    go :
        (config : Result ProcessRuntimeConfig)
        → Keeps p (
            let pa : Process × Answer = elim config [
              | err error ↦ (p, answer (err error))
              | ok requested ↦ start_hooked files w requested (register_hook registers p)
            ] in
            pa.0)
    go (err error) = record { once = v; stay = Stay-refl (terms p) }
    go (ok requested) =
        let hooked = register_hook registers p in
        let same = register_hook-same registers p in
        let kept =
          start_hooked-Keeps files w requested hooked.0 hooked.1
            (record { once = ground (arith, same, v.once) }) in
        record {
          once = kept.once;
          stay =
              Stay-trans (terms p) (terms hooked.0)
                (terms (start_hooked files w requested hooked).0) (terms-same p hooked.0 same.0)
                kept.stay;
        }

pub shutdown_taken-same :
    (asked_client : Runtime → Result (Unit {0})) (joined : Joined) (r : ProcessRuntime)
    → ((shutdown_taken asked_client joined r).0.config ≡ r.config)
      × ((shutdown_taken asked_client joined r).0.ready ≡ r.ready)
unfolding shutdown_taken
shutdown_taken-same asked_client joined r = ground arith

pub Stay-some :
    (t : Option Terms) (u : Terms) (later : Option Terms)
    → t ≡ some u
    → later ≡ some u
    → Stay t later
unfolding Stay
Stay-some none u later h k = tt
Stay-some (some t) u later h k = k ∙ sym h

pub shutdown-Keeps :
    (asked_client : Runtime → Result (Unit {0})) (joined : Joined) (p : Process)
    → IsOnce p
    → Keeps p (shutdown asked_client joined p).0
unfolding shutdown terms_of
shutdown-Keeps asked_client joined p v = go p.runtime refl
  where
    taken :
        (r : ProcessRuntime)
        → p.runtime ≡ some (ok r)
        → Keeps p (record p { runtime = some (ok (shutdown_taken asked_client joined r).0) })
    taken r e =
        let same = shutdown_taken-same asked_client joined r in
        record {
          once = record { once = ground (arith, e, v.once) };
          stay =
              Stay-some (terms p) (ok (r.config, r.ready))
                (terms (record p { runtime = some (ok (shutdown_taken asked_client joined r).0) }))
                (terms-some p (ok r) e)
                (terms-some
                    (record p { runtime = some (ok (shutdown_taken asked_client joined r).0) })
                    (ok (shutdown_taken asked_client joined r).0) refl
                  ∙ ap₂ (λ config ready. some (ok (config, ready))) same.0 same.1);
        }

    go :
        (slot : Option (Result ProcessRuntime))
        → p.runtime ≡ slot
        → Keeps p (
            let pr : Process × Result Bool = elim slot [
              | none ↦ (p, ok false)
              | some (err error) ↦ (p, ok false)
              | some (ok r) ↦
                  let (r', result) = shutdown_taken asked_client joined r in
                  (record p { runtime = some (ok r') }, result)
            ] in
            pr.0)
    go none e = record { once = v; stay = Stay-refl (terms p) }
    go (some (err error)) e = record { once = v; stay = Stay-refl (terms p) }
    go (some (ok r)) e = taken r e

pub apply-Keeps : (op : Op) (p : Process) → IsOnce p → Keeps p (apply op p)
unfolding apply
apply-Keeps (starts files registers w settings) p v = start-Keeps files registers w settings p v
apply-Keeps (shuts_down asked_client joined) p v = shutdown-Keeps asked_client joined p v

pub run-Keeps : (ops : List Op) (p : Process) → IsOnce p → Keeps p (run ops p)
unfolding run
run-Keeps [] p v = record { once = v; stay = Stay-refl (terms p) }
run-Keeps (op ∷ ops) p v =
    let here = apply-Keeps op p v in
    let later = run-Keeps ops (apply op p) here.once in
    record {
      once = later.once;
      stay =
          Stay-trans (terms p) (terms (apply op p)) (terms (run ops (apply op p))) here.stay
            later.stay;
    }
