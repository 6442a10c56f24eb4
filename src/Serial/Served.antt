-- ===== src/Serial/Served.antt =====
-- src/sync.rs: the owner thread serves what it gets, in order, until its shutdown.
use ruvoy.Prelude.{
  ◌≡◌, refl, ap, sym, ◌∙◌, Bool, true, false, ◌||◌, List, [], ◌∷◌, ◌++◌, any, arith, if◌then◌else◌,
  All, text, ap₂,
}
use ruvoy.Request.{Request}
use ruvoy.Response.{Response}
use ruvoy.Rack.Env.{Result, ok, err, ruby_error}
use ruvoy.Rack.Respond.{gives, raises}
use ruvoy.Fiber.Wake.{Signalled}
use ruvoy.Fiber.Wake as Wake
use ruvoy.Serial.{
  Command, call, force_gc, shutdown, Effect, completes, collects, replies, Loop, waits, returned,
  serve_all, Pass, drained, pass_once, serve_passes,
}

unfoldable pub is_shutdown : Command → Bool
is_shutdown (shutdown reply) = true
is_shutdown _ = false

-- What commands are owed, up to the first shutdown and with it.
unfoldable pub owed : (Request → Result Response) → List Command → List Effect
owed serve [] = []
owed serve (call c ∷ commands) = completes c.completion (serve c.request) ∷ owed serve commands
owed serve (force_gc reply ∷ commands) = collects ∷ replies reply ∷ owed serve commands
owed serve (shutdown reply ∷ commands) = replies reply ∷ []

-- A pass in which nothing fails and a client is left.
pub record IsClear (p : Pass) : Type 0 where
  pub wait : p.wait ≡ gives tt
  pub read : Wake.drain p.reads ≡ Wake.ok
  pub connected : p.connected ≡ true

unfoldable pub all_arrived : List Pass → List Command
all_arrived [] = []
all_arrived (p ∷ passes) = p.arrived ++ all_arrived passes

behind : List Command → List Command
unfolding is_shutdown
behind [] = []
behind (shutdown reply ∷ commands) = commands
behind (_ ∷ commands) = behind commands

ending : List Command → Loop
ending commands = if any is_shutdown commands then returned (ok tt) else waits

serve_all_lem :
    (serve : Request → Result Response) (commands : List Command)
    → serve_all serve commands true ≡ (owed serve commands, behind commands, ending commands)
unfolding serve_all owed behind ending is_shutdown
serve_all_lem serve [] = refl
serve_all_lem serve (call c ∷ commands) =
    ap (λ r. (completes c.completion (serve c.request) ∷ r.0, r.1, r.2))
      (serve_all_lem serve commands)
serve_all_lem serve (force_gc reply ∷ commands) =
    ap (λ r. (collects ∷ replies reply ∷ r.0, r.1, r.2)) (serve_all_lem serve commands)
serve_all_lem serve (shutdown reply ∷ commands) = refl

behind-none : (commands : List Command) → any is_shutdown commands ≡ false → behind commands ≡ []
unfolding behind is_shutdown
behind-none [] h = refl
behind-none (call c ∷ commands) h = behind-none commands h
behind-none (force_gc reply ∷ commands) h = behind-none commands h
behind-none (shutdown reply ∷ commands) h = absurd (ground (arith, h))

owed-append :
    (serve : Request → Result Response) (commands later : List Command)
    → owed serve (commands ++ later) ≡ (
        if any is_shutdown commands
        then owed serve commands
        else owed serve commands ++ owed serve later)
unfolding owed is_shutdown
owed-append serve [] later = refl
owed-append serve (call c ∷ commands) later = ground (arith, owed-append serve commands later)
owed-append serve (force_gc reply ∷ commands) later =
    ground (arith, owed-append serve commands later)
owed-append serve (shutdown reply ∷ commands) later = refl

pass_once-clear :
    (serve : Request → Result Response) (p : Pass)
    → IsClear p
    → pass_once serve p [] ≡ (owed serve p.arrived, behind p.arrived, ending p.arrived)
unfolding pass_once drained
pass_once-clear serve p v =
    ap
      (λ wait. elim wait [
        | raises message ↦ (
          [],
          [] ++ p.arrived,
          returned (err (ruby_error (text "waiting for bridge wakeup") message)),
        )
        | gives u ↦ drained (Wake.drain p.reads) serve ([] ++ p.arrived) p.connected
      ])
      v.wait
    ∙ ap (λ read. drained read serve ([] ++ p.arrived) p.connected) v.read
    ∙ ap (λ connected. serve_all serve p.arrived connected) v.connected
    ∙ serve_all_lem serve p.arrived

-- The effects of a run, and whether it came to its shutdown.
abbrev pub outcome : List Effect → Bool → List Effect × Loop
outcome effects over = (effects, if over then returned (ok tt) else waits)

-- A pass before the others.
combined :
    (Request → Result Response) → List Pass → List Effect × List Command × Loop → List Effect × Loop
unfolding serve_passes
combined serve passes (effects, rest, loop) =
    let (later, last) = serve_passes serve passes rest in
    elim loop [ returned result ↦ (effects, returned result) | waits ↦ (effects ++ later, last) ]

any-append :
    (xs ys : List Command) → any is_shutdown (xs ++ ys) ≡ (any is_shutdown xs || any is_shutdown ys)
any-append [] ys = refl
any-append (x ∷ xs) ys = ground (arith, any-append xs ys)

owed_past :
    (serve : Request → Result Response) (commands later : List Command) (test : Bool)
    → any is_shutdown commands ≡ test
    → (if test
        then outcome (owed serve commands) true
        else outcome (owed serve commands ++ owed serve later) (any is_shutdown later))
      ≡ outcome (owed serve (commands ++ later)) (any is_shutdown (commands ++ later))
owed_past serve commands later true e =
    ap₂ outcome
      (sym (
        owed-append serve commands later
        ∙ ap (λ t. if t then owed serve commands else owed serve commands ++ owed serve later) e))
      (sym (any-append commands later ∙ ap (λ t. t || any is_shutdown later) e))
owed_past serve commands later false e =
    ap₂ outcome
      (sym (
        owed-append serve commands later
        ∙ ap (λ t. if t then owed serve commands else owed serve commands ++ owed serve later) e))
      (sym (any-append commands later ∙ ap (λ t. t || any is_shutdown later) e))

combined_in_order :
    (serve : Request → Result Response) (passes : List Pass) (commands : List Command) (test : Bool)
    → any is_shutdown commands ≡ test
    → serve_passes serve passes []
      ≡ outcome (owed serve (all_arrived passes)) (any is_shutdown (all_arrived passes))
    → combined serve passes (owed serve commands, behind commands, ending commands)
      ≡ outcome
          (owed serve (commands ++ all_arrived passes))
          (any is_shutdown (commands ++ all_arrived passes))
unfolding combined ending
combined_in_order serve passes commands true e later =
    ap
      (λ t.
        combined serve passes
          (owed serve commands, behind commands, if t then returned (ok tt) else waits))
      e
    ∙ owed_past serve commands (all_arrived passes) true e
combined_in_order serve passes commands false e later =
    ap
      (λ t.
        combined serve passes
          (owed serve commands, behind commands, if t then returned (ok tt) else waits))
      e
    ∙ ap (λ rest. combined serve passes (owed serve commands, rest, waits)) (behind-none commands e)
    ∙ ap (λ r. (owed serve commands ++ r.0, r.1)) later
    ∙ owed_past serve commands (all_arrived passes) false e

-- However the commands are spread over passes in which nothing fails: every call is completed once
-- with what the application answers, every collection is run and answered, all in the order in which
-- they came, up to the first shutdown, which is answered and ends the thread; nothing that comes
-- behind it is served.
pub served_in_order :
    (serve : Request → Result Response) (passes : List Pass)
    → All IsClear passes
    → serve_passes serve passes []
      ≡ outcome (owed serve (all_arrived passes)) (any is_shutdown (all_arrived passes))
unfolding serve_passes all_arrived owed combined
served_in_order serve [] h = refl
served_in_order serve (p ∷ passes) h =
    ap (combined serve passes) (pass_once-clear serve p h.0)
    ∙ combined_in_order serve passes p.arrived (any is_shutdown p.arrived) refl
        (served_in_order serve passes h.1)
