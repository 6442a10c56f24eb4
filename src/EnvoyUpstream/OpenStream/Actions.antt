-- ===== src/EnvoyUpstream/OpenStream/Actions.antt =====
-- crates/ruvoy-envoy-fiber/src/upstream.rs: what a stream asks of Envoy, in which order.
use mathlib.Core.Path.{ap₂}
use ruvoy.Prelude.{
  sym, ◌∙◌, ◌≡◌, refl, Bool, true, not, ◌&&◌, none, some, List, [], ◌∷◌, ◌++◌, arith,
}
use ruvoy.EnvoyUpstream.OpenStream.Defs.{
  OpenStream, StreamAction, resets, sends, next_action, headers_arrived, data_arrived,
  trailers_arrived, complete, reset_by_envoy, abandon,
}
use ruvoy.EnvoyUpstream.OpenStream.Settled.{Event, acts, apply, IsSynced, apply-IsSynced}

-- What Envoy is asked for while the events happen.
abbrev pub asked : Event → OpenStream → List StreamAction
asked acts o = elim (next_action o).1 [ none ↦ [] | some action ↦ action ∷ [] ]
asked _ o = []

unfoldable pub actions : List Event → OpenStream → List StreamAction
actions [] o = []
actions (e ∷ es) o = asked e o ++ actions es (apply e o)

-- The protocol of a stream's request: pieces of the body, at most one of them the last, and a reset
-- after which there is nothing.
unfoldable pub in_protocol : Bool → Bool → List StreamAction → Bool
in_protocol ended was_reset [] = true
in_protocol ended was_reset (resets ∷ rest) = not was_reset && in_protocol ended true rest
in_protocol ended was_reset (sends bytes last ∷ rest) =
    not was_reset && not ended && in_protocol last was_reset rest

-- Only `next_action` moves the two flags.
pub flags-apply :
    (e : Event) (o : OpenStream)
    → asked e o ≡ []
    → ((apply e o).request_ended ≡ o.request_ended) × ((apply e o).reset_sent ≡ o.reset_sent)
unfolding apply headers_arrived data_arrived trailers_arrived complete reset_by_envoy abandon
    next_action
flags-apply acts o h = ground arith
flags-apply _ o h = ground arith

step_in_protocol :
    (o : OpenStream) (rest : List StreamAction)
    → IsSynced o
    → in_protocol (apply acts o).request_ended (apply acts o).reset_sent rest ≡ true
    → in_protocol o.request_ended o.reset_sent (asked acts o ++ rest) ≡ true
unfolding apply next_action in_protocol
step_in_protocol o rest v h = ground arith

-- Whatever happens to a stream, what the worker asks of Envoy for it is pieces of the body, then at
-- most one last piece, and at most one reset with nothing after it.
pub actions-in_protocol :
    (es : List Event) (o : OpenStream)
    → IsSynced o
    → in_protocol o.request_ended o.reset_sent (actions es o) ≡ true
unfolding actions in_protocol
actions-in_protocol [] o v = refl
actions-in_protocol (acts ∷ es) o v =
    let later = actions-in_protocol es (apply acts o) (apply-IsSynced acts o v) in
    step_in_protocol o (actions es (apply acts o)) v later
actions-in_protocol (e ∷ es) o v =
    let later = actions-in_protocol es (apply e o) (apply-IsSynced e o v) in
    let (ended, was_reset) = flags-apply e o refl in
    sym (ap₂ (λ a b. in_protocol a b (actions es (apply e o))) ended was_reset) ∙ later
