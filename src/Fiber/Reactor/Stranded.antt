-- ===== src/Fiber/Reactor/Stranded.antt =====
-- src/fiber.rs: no command is left behind by the reactor's passes, while a wakeup can be.
use ruvoy.Prelude.{
  ℕ, ◌<◌, ◌≡◌, refl, sym, ap, ◌∙◌, Bool, true, false, not, ◌&&◌, List, [], ◌∷◌, ◌++◌, append_assoc,
  append-nil, ◌==◌, is_empty, arith,
}
use ruvoy.Fiber.Reactor.{
  Phase, waiting, resolving, draining, receiving, stopped, Command, work, shutdown, Reactor, Action,
  sends, owes, signals, begins, resolves, reads, receives, new, step, run, signal_step, read_step,
  receive_step, begin_step, resolve_step,
}

-- Before the socket is read, a queued command has a byte in it or a producer that is to signal.
abbrev before_reading : Phase → Bool
before_reading waiting = true
before_reading resolving = true
before_reading _ = false

abbrev pub is_waiting : Phase → Bool
is_waiting waiting = true
is_waiting _ = false

module _ {A : Type 0} where
  -- A command is queued, nothing is in the socket, and no producer is about to signal.
  abbrev pub stranded : Reactor A → Bool
  stranded r = not (is_empty r.queue) && (r.pending == 0) && (r.unsignalled == 0)

  record IsAlert (r : Reactor A) : Type 0 where
    pub alert : (before_reading r.phase && stranded r) ≡ false
    pub roomy : 0 < r.room

  step-IsAlert : (a : Action A) (r : Reactor A) → IsAlert r → IsAlert (step a r)
  unfolding step signal_step read_step receive_step begin_step resolve_step
  step-IsAlert (sends c) r v = ground arith
  step-IsAlert (owes s) r v = ground arith
  step-IsAlert signals r v = ground arith
  step-IsAlert begins r v = ground arith
  step-IsAlert resolves r v = ground arith
  step-IsAlert reads r v = ground arith
  step-IsAlert receives r v = ground arith

  run-IsAlert : (as' : List (Action A)) (r : Reactor A) → IsAlert r → IsAlert (run as' r)
  unfolding run
  run-IsAlert [] r v = v
  run-IsAlert (a ∷ as') r v = run-IsAlert as' (step a r) (step-IsAlert a r v)

  -- The commands that the actions send, and the wakeups that they owe, in order.
  unfoldable pub commands : List (Action A) → List (Command A)
  commands [] = []
  commands (sends c ∷ as') = c ∷ commands as'
  commands (_ ∷ as') = commands as'

  unfoldable pub wakeups : List (Action A) → List ℕ
  wakeups [] = []
  wakeups (owes s ∷ as') = s ∷ wakeups as'
  wakeups (_ ∷ as') = wakeups as'

  abbrev one_command : Action A → List (Command A)
  one_command (sends c) = c ∷ []
  one_command _ = []

  abbrev one_wakeup : Action A → List ℕ
  one_wakeup (owes s) = s ∷ []
  one_wakeup _ = []

  one_command-cons :
      (a : Action A) (as' : List (Action A)) → one_command a ++ commands as' ≡ commands (a ∷ as')
  unfolding commands
  one_command-cons a as' = ground arith

  one_wakeup-cons :
      (a : Action A) (as' : List (Action A)) → one_wakeup a ++ wakeups as' ≡ wakeups (a ∷ as')
  unfolding wakeups
  one_wakeup-cons a as' = ground arith

  receive_in_order :
      (p : Phase) (queue : List (Command A)) (r : Reactor A)
      → r.queue ≡ queue
      → (receive_step p queue r).handed ++ (receive_step p queue r).queue ≡ r.handed ++ queue
  unfolding receive_step
  receive_in_order receiving [] r e = ap (λ q. r.handed ++ q) e
  receive_in_order receiving (work a ∷ queue) r e = append_assoc r.handed (work a ∷ []) queue
  receive_in_order receiving (shutdown ∷ queue) r e = append_assoc r.handed (shutdown ∷ []) queue
  receive_in_order waiting queue r e = ap (λ q. r.handed ++ q) e
  receive_in_order resolving queue r e = ap (λ q. r.handed ++ q) e
  receive_in_order draining queue r e = ap (λ q. r.handed ++ q) e
  receive_in_order stopped queue r e = ap (λ q. r.handed ++ q) e

  step_in_order :
      (a : Action A) (r : Reactor A)
      → ((step a r).handed ++ (step a r).queue ≡ (r.handed ++ r.queue) ++ one_command a)
        × ((step a r).resolved ++ (step a r).owed ≡ (r.resolved ++ r.owed) ++ one_wakeup a)
  unfolding step signal_step read_step receive_step begin_step resolve_step
  step_in_order (sends c) r =
      (sym (append_assoc r.handed r.queue (c ∷ [])), sym (append-nil (r.resolved ++ r.owed)))
  step_in_order (owes s) r =
      (sym (append-nil (r.handed ++ r.queue)), sym (append_assoc r.resolved r.owed (s ∷ [])))
  step_in_order signals r = (
    ground (arith, append-nil (r.handed ++ r.queue)),
    ground (arith, append-nil (r.resolved ++ r.owed)),
  )
  step_in_order begins r = (
    ground (arith, append-nil (r.handed ++ r.queue)),
    ground (arith, append-nil (r.resolved ++ r.owed)),
  )
  step_in_order resolves r = (
    ground (arith, append-nil (r.handed ++ r.queue)),
    ground (arith, append-nil (r.resolved ++ r.owed)),
  )
  step_in_order reads r = (
    ground (arith, append-nil (r.handed ++ r.queue)),
    ground (arith, append-nil (r.resolved ++ r.owed)),
  )
  step_in_order receives r = (
    receive_in_order r.phase r.queue r refl ∙ sym (append-nil (r.handed ++ r.queue)),
    ground (arith, append-nil (r.resolved ++ r.owed)),
  )

  run_in_order :
      (as' : List (Action A)) (r : Reactor A)
      → ((run as' r).handed ++ (run as' r).queue ≡ (r.handed ++ r.queue) ++ commands as')
        × ((run as' r).resolved ++ (run as' r).owed ≡ (r.resolved ++ r.owed) ++ wakeups as')
  unfolding run commands wakeups
  run_in_order [] r =
      (sym (append-nil (r.handed ++ r.queue)), sym (append-nil (r.resolved ++ r.owed)))
  run_in_order (a ∷ as') r =
      let here = step_in_order a r in
      let later = run_in_order as' (step a r) in
      (
        later.0
            ∙ ap (λ xs. xs ++ commands as') here.0
            ∙ append_assoc (r.handed ++ r.queue) (one_command a) (commands as')
            ∙ ap (λ xs. (r.handed ++ r.queue) ++ xs) (one_command-cons a as'),
        later.1
            ∙ ap (λ xs. xs ++ wakeups as') here.1
            ∙ append_assoc (r.resolved ++ r.owed) (one_wakeup a) (wakeups as')
            ∙ ap (λ xs. (r.resolved ++ r.owed) ++ xs) (one_wakeup-cons a as'),
      )

  -- Whatever producers do, and however their steps fall between those of the passes: the commands
  -- are handed to Ruby once each and in the order in which they were sent, and when the reactor waits
  -- with a command queued, the socket is readable or a producer has still to signal, so the wait does
  -- not hold the command up.
  pub commands_never_stranded :
      (room : ℕ) (as' : List (Action A))
      → 0 < room
      → ((run as' (new room)).handed ++ (run as' (new room)).queue ≡ commands as')
        × ((is_waiting (run as' (new room)).phase && stranded (run as' (new room))) ≡ false)
  unfolding new
  commands_never_stranded room as' h =
      let v : IsAlert (new {A = A} room) = record { alert = refl; roomy = h } in
      let alert = (run-IsAlert as' (new room) v).alert in
      ((run_in_order as' (new room)).0, ground arith)

  -- A wakeup that is owed after a pass took what was owed and is signalled before the pass reads the
  -- socket is not seen by that pass, and its byte is gone: the reactor goes back to waiting with the
  -- stream owed, nothing in the socket and nobody about to signal. It is resolved only when the wait
  -- ends for another reason, at the latest by its deadline.
  pub lost_wakeup :
      (stream : ℕ) (r : Reactor A)
      → r.phase ≡ resolving
      → r.queue ≡ []
      → r.unsignalled ≡ 0
      → r.pending < 256
      → let r' = run (resolves ∷ owes stream ∷ signals ∷ reads ∷ reads ∷ receives ∷ []) r in
        (r'.phase ≡ waiting)
        × (r'.owed ≡ stream ∷ [])
        × (r'.resolved ≡ r.resolved ++ r.owed)
        × (r'.pending ≡ 0)
        × (r'.unsignalled ≡ 0)
  unfolding run step signal_step read_step receive_step begin_step resolve_step
  lost_wakeup stream r phase queue unsignalled pending = ground arith
