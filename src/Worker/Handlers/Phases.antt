-- ===== src/Worker/Handlers/Phases.antt =====
-- crates/ruvoy-envoy-fiber/src/worker.rs: how far the client's response has come, and the loop of
-- `drain_stream`.
use ruvoy.Prelude.{
  ℕ, ◌≡◌, refl, ap, ◌∙◌, Bool, true, false, ◌||◌, Option, none, some, List, [], ◌∷◌, ◌++◌,
  if◌then◌else◌, arith,
}
use ruvoy.Stream.Defs.{StreamItem, head, chunk, end, failed, ResponseStream, take_next}
use ruvoy.Worker.Defs.{
  FilterState, collecting, waiting, streaming, responded, Filter, Effect, report_outcome,
  send_bridge_error, send_invalid_request, report_admission, request_event_id, upstream_event_id,
  response_event_id,
}
use ruvoy.Worker.Defs as Defs
use ruvoy.Worker.Downstream.{
  is_waiting, is_streaming, drain_items, send_response_head, end_downstream, fail_downstream,
  rest_downstream,
}
use ruvoy.Worker.Handlers.Quiet.{is_notable, silent, IsQuiet}

-- How far the client's response has come.
pub data Phase : Type 0 where
  fresh started over : Phase

-- What may follow on the wire: one whole reply, or a head, then pieces of the body, then the last
-- one or a reset.
unfoldable pub advance : Effect → Phase → Option Phase
advance (Defs.replies status body details) fresh = some over
advance (Defs.replies status body details) _ = none
advance (Defs.sends_headers headers) fresh = some started
advance (Defs.sends_headers headers) _ = none
advance (Defs.sends_data bytes last) started = some (if last then over else started)
advance (Defs.sends_data bytes last) _ = none
advance Defs.resets_downstream started = some over
advance Defs.resets_downstream _ = none
advance _ p = some p

unfoldable pub advance_all : List Effect → Phase → Option Phase
advance_all [] p = some p
advance_all (e ∷ es) p = elim (advance e p) [ none ↦ none | some q ↦ advance_all es q ]

-- A response as far as the filter's state says, or one that is left as it is.
unfoldable pub fits : Phase → FilterState → Bool
fits p responded = true
fits fresh collecting = true
fits fresh waiting = true
fits started streaming = true
fits _ _ = false

unfoldable pub fits_after : FilterState → Option Phase → Bool
unfolding fits
fits_after s none = false
fits_after s (some p) = fits p s

pub then_all : List Effect → Option Phase → Option Phase
then_all es none = none
then_all es (some p) = advance_all es p

pub advance_all-append :
    (xs ys : List Effect) (p : Phase) → advance_all (xs ++ ys) p ≡ then_all ys (advance_all xs p)
unfolding advance_all then_all
advance_all-append [] ys p = refl
advance_all-append (x ∷ xs) ys p =
    elim (advance x p)
      as (λ q.
        (elim q [ none ↦ none | some q ↦ advance_all (xs ++ ys) q ])
        ≡ then_all ys (elim q [ none ↦ none | some q ↦ advance_all xs q ])) [
          | none ↦ refl
          | some q ↦ advance_all-append xs ys q
        ]

pub unseen-advance : (e : Effect) (p : Phase) → is_notable e ≡ false → advance e p ≡ some p
unfolding is_notable advance
unseen-advance _ p h = ground arith

pub silent-advance : (es : List Effect) (p : Phase) → silent es ≡ true → advance_all es p ≡ some p
unfolding silent advance_all
silent-advance [] p h = refl
silent-advance (e ∷ es) p h = ground (arith, unseen-advance e p, silent-advance es p)

pub quiet-fits :
    (f : Filter) (r : Filter × List Effect) (p : Phase)
    → IsQuiet f r
    → fits p f.state ≡ true
    → fits_after r.0.state (advance_all r.1 p) ≡ true
unfolding fits_after
quiet-fits f r p quiet h =
    ap (fits_after r.0.state) (silent-advance r.1 p quiet.unseen)
    ∙ ap (λ l. fits p l.0) quiet.same
    ∙ h

-- Two steps in a row.
pub then-fits :
    (xs ys : List Effect) (s s' : FilterState) (p : Phase)
    → fits_after s (advance_all xs p) ≡ true
    → ((q : Phase) → fits q s ≡ true → fits_after s' (advance_all ys q) ≡ true)
    → fits_after s' (advance_all (xs ++ ys) p) ≡ true
unfolding fits_after then_all
then-fits xs ys s s' p first later =
    ap (fits_after s') (advance_all-append xs ys p) ∙ go (advance_all xs p) first
  where
    go : (q : Option Phase) → fits_after s q ≡ true → fits_after s' (then_all ys q) ≡ true
    go none h = absurd cc
    go (some q) h = later q h

abbrev pub is_answering : FilterState → Bool
is_answering s = is_waiting s || is_streaming s

pub drain_items-fits :
    (now : ℕ) (items : List StreamItem) (s : ResponseStream) (f : Filter) (p : Phase)
    → is_answering f.state ≡ true
    → fits p f.state ≡ true
    → let r = drain_items now items s f in fits_after r.0.state (advance_all r.1 p) ≡ true
unfolding drain_items end_downstream fail_downstream rest_downstream report_outcome
    send_bridge_error send_response_head advance_all advance fits_after fits
drain_items-fits now [] s f p answering h = ground arith
drain_items-fits now (head h ∷ items) s f p answering hp =
    let r : Filter × List Effect = if is_waiting f.state then send_response_head h f else (f, []) in
    let later = drain_items now items (take_next s).0 r.0 in
    let first : fits_after r.0.state (advance_all r.1 p) ≡ true = ground arith in
    let still : is_answering r.0.state ≡ true = ground arith in
    then-fits r.1 later.1 r.0.state later.0.state p first
      (λ q. drain_items-fits now items (take_next s).0 r.0 q still)
drain_items-fits now (chunk bytes ∷ items) s f p answering hp =
    let sent : List Effect =
      if is_streaming f.state then Defs.sends_data bytes false ∷ [] else [] in
    let later = drain_items now items (take_next s).0 f in
    let first : fits_after f.state (advance_all sent p) ≡ true = ground arith in
    then-fits sent later.1 f.state later.0.state p first
      (λ q. drain_items-fits now items (take_next s).0 f q answering)
drain_items-fits now (end ∷ items) s f p answering hp = ground arith
drain_items-fits now (failed error ∷ items) s f p answering hp = ground arith
