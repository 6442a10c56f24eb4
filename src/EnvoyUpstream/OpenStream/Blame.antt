-- ===== src/EnvoyUpstream/OpenStream/Blame.antt =====
-- crates/ruvoy-envoy-fiber/src/upstream.rs: what a reset by Envoy counts as, by what happened before.
use ruvoy.Prelude.{
  ◌≡◌, refl, ◌∙◌, Bool, true, false, ◌||◌, none, some, List, [], ◌∷◌, ◌++◌, any, Bool-cases,
  Option-cases, inl, inr, arith, if◌then◌else◌,
}
use ruvoy.Upstream.Defs.{close_channel, time_out, fail, set_trailers}
use ruvoy.Upstream.Channel as Channel
use ruvoy.EnvoyUpstream.Headers.{CallOutcome, completed, timed_out, refused, abandoned, reset}
use ruvoy.EnvoyUpstream.OpenStream.Defs.{
  OpenStream, StreamAction, resets, ResetReason, next_action, headers_arrived, data_arrived,
  trailers_arrived, complete, reset_by_envoy, abandon, stopped_by_fiber,
}
use ruvoy.EnvoyUpstream.OpenStream.Settled.{
  Event, fiber, acts, apply, run, IsSynced, run-IsSynced, first_outcome_stands,
  reset_by_envoy_outcome,
}
use ruvoy.EnvoyUpstream.OpenStream.Actions.{asked, actions, flags-apply}

unfoldable pub is_reset : StreamAction → Bool
is_reset resets = true
is_reset _ = false

-- The fiber giving up because the upstream went quiet.
unfoldable pub is_time_out : Event → Bool
is_time_out (fiber Channel.times_out) = true
is_time_out _ = false

unfoldable pub is_overflow : ResetReason → Bool
is_overflow ResetReason.overflow = true
is_overflow _ = false

any-append :
    (xs ys : List StreamAction) → any is_reset (xs ++ ys) ≡ (any is_reset xs || any is_reset ys)
any-append [] ys = refl
any-append (x ∷ xs) ys = ground (arith, any-append xs ys)

reset_sent-acts :
    (o : OpenStream) → (apply acts o).reset_sent ≡ (o.reset_sent || any is_reset (asked acts o))
unfolding apply next_action is_reset
reset_sent-acts o = ground arith

reset_sent-apply :
    (e : Event) (o : OpenStream)
    → (apply e o).reset_sent ≡ (o.reset_sent || any is_reset (asked e o))
reset_sent-apply acts o = reset_sent-acts o
reset_sent-apply e o = ground (arith, flags-apply e o refl)

reset_sent-run :
    (es : List Event) (o : OpenStream)
    → (run es o).reset_sent ≡ (o.reset_sent || any is_reset (actions es o))
unfolding run actions
reset_sent-run [] o = ground arith
reset_sent-run (e ∷ es) o = ground (
  arith,
  reset_sent-run es (apply e o),
  reset_sent-apply e o,
  any-append (asked e o) (actions es (apply e o)),
)

timed_out-apply :
    (e : Event) (o : OpenStream)
    → (apply e o).channel.timed_out ≡ (o.channel.timed_out || is_time_out e)
unfolding apply headers_arrived data_arrived trailers_arrived complete reset_by_envoy abandon
    next_action fail set_trailers Channel.apply close_channel time_out is_time_out
timed_out-apply (fiber Channel.times_out) o = ground arith
timed_out-apply (fiber _) o = ground arith
timed_out-apply _ o = ground arith

timed_out-run :
    (es : List Event) (o : OpenStream)
    → (run es o).channel.timed_out ≡ (o.channel.timed_out || any is_time_out es)
unfolding run
timed_out-run [] o = ground arith
timed_out-run (e ∷ es) o = ground (arith, timed_out-run es (apply e o), timed_out-apply e o)

-- Who ended a stream, by its history: what the worker had asked Envoy for, and what the fiber did.
pub data Blamed (es : List Event) (o : OpenStream) (reason : ResetReason)
    : CallOutcome → Type 0 where
  settled : {x : CallOutcome} → (run es o).outcome ≡ some x → Blamed es o reason x
  session_ended :
      (run es o).outcome ≡ none
      → (run es o).upgraded ≡ true
      → any is_reset (actions es o) ≡ false
      → Blamed es o reason completed
  session_closed :
      (run es o).outcome ≡ none
      → (run es o).upgraded ≡ true
      → (any is_reset (actions es o) ≡ true) × (any is_time_out es ≡ false)
      → Blamed es o reason completed
  given_up :
      (run es o).outcome ≡ none
      → (any is_reset (actions es o) ≡ true) × (any is_time_out es ≡ true)
      → Blamed es o reason timed_out
  closed :
      (run es o).outcome ≡ none
      → (run es o).upgraded ≡ false
      → (any is_reset (actions es o) ≡ true) × (any is_time_out es ≡ false)
      → Blamed es o reason abandoned
  turned_away :
      (run es o).outcome ≡ none
      → (run es o).upgraded ≡ false
      → (any is_reset (actions es o) ≡ false) × (is_overflow reason ≡ true)
      → Blamed es o reason refused
  cut :
      (run es o).outcome ≡ none
      → (run es o).upgraded ≡ false
      → (any is_reset (actions es o) ≡ false) × (is_overflow reason ≡ false)
      → Blamed es o reason reset

module _ (reason : ResetReason) (s : OpenStream) where
  kept : {x : CallOutcome} → s.outcome ≡ some x → (reset_by_envoy reason s).outcome ≡ some x
  unfolding run apply
  kept {x} h = first_outcome_stands x (Event.resets reason ∷ []) s h

  module _ (v : IsSynced s) (unknown : s.outcome ≡ none) where
    still_open : s.response_ended ≡ false
    still_open = let known = v.known in ground arith

    reset_session :
        s.upgraded ≡ true
        → s.reset_sent ≡ false
        → (reset_by_envoy reason s).outcome ≡ some completed
    reset_session u r = ground (arith, reset_by_envoy_outcome reason s unknown still_open)

    reset_asked :
        s.reset_sent ≡ true → (reset_by_envoy reason s).outcome ≡ some (stopped_by_fiber s)
    reset_asked r = ground (arith, reset_by_envoy_outcome reason s unknown still_open)

reset_unasked :
    (reason : ResetReason) (s : OpenStream)
    → IsSynced s
    → s.outcome ≡ none
    → s.upgraded ≡ false
    → s.reset_sent ≡ false
    → (reset_by_envoy reason s).outcome ≡ some (if is_overflow reason then refused else reset)
unfolding is_overflow
reset_unasked ResetReason.overflow s v unknown u r = ground (
  arith,
  reset_by_envoy_outcome ResetReason.overflow s unknown
      (still_open ResetReason.overflow s v unknown),
)
reset_unasked reason s v unknown u r =
    ground (arith, reset_by_envoy_outcome reason s unknown (still_open reason s v unknown))

-- Whatever happens to a stream whose flags agree, of which no reset was asked and on which the fiber
-- has not given up, as on a new one: when Envoy then reports a reset, the stream has an outcome, and
-- it says to whom the end is due. An outcome that it had stands. Otherwise, a reset
-- that the worker had asked Envoy for is the fiber's doing: the stream timed out if the fiber had
-- given up for quiet, and else it completed if it was a byte stream and was abandoned if not. One
-- that the worker had not asked for ends a byte stream as completed, and of others was refused if
-- Envoy turned it away and reset by the upstream if not.
pub reset-Blamed :
    (es : List Event) (o : OpenStream) (reason : ResetReason)
    → IsSynced o
    → o.reset_sent ≡ false
    → o.channel.timed_out ≡ false
    → (x : CallOutcome) × ((reset_by_envoy reason (run es o)).outcome ≡ some x)
      × Blamed es o reason x
unfolding stopped_by_fiber
reset-Blamed es o reason v unsent untimed =
    let s = run es o in
    let w = run-IsSynced es o v in
    let sent : s.reset_sent ≡ any is_reset (actions es o) = ground (arith, reset_sent-run es o) in
    let timed : s.channel.timed_out ≡ any is_time_out es = ground (arith, timed_out-run es o) in
    elim (Option-cases s.outcome) [
      | inr (x, known) ↦ (x, kept reason s known, settled known)
      | inl unknown ↦ elim (Bool-cases (any is_reset (actions es o))) [
        | inl asked_for ↦
            let stopped = reset_asked reason s w unknown (sent ∙ asked_for) in
            elim (Bool-cases (any is_time_out es)) [
              | inl quiet ↦ (timed_out, ground arith, given_up unknown (asked_for, quiet))
              | inr other ↦ elim (Bool-cases s.upgraded) [
                | inl u ↦ (completed, ground arith, session_closed unknown u (asked_for, other))
                | inr u ↦ (abandoned, ground arith, closed unknown u (asked_for, other))
              ]
            ]
        | inr not_asked ↦ elim (Bool-cases s.upgraded) [
          | inl u ↦ (
            completed,
            reset_session reason s w unknown u (sent ∙ not_asked),
            session_ended unknown u not_asked,
          )
          | inr u ↦
              let counted = reset_unasked reason s w unknown u (sent ∙ not_asked) in
              elim (Bool-cases (is_overflow reason)) [
                | inl over ↦ (refused, ground arith, turned_away unknown u (not_asked, over))
                | inr other ↦ (reset, ground arith, cut unknown u (not_asked, other))
              ]
        ]
      ]
    ]
