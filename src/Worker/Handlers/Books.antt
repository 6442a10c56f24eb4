-- ===== src/Worker/Handlers/Books.antt =====
-- crates/ruvoy-envoy-fiber/src/worker.rs: what is counted of a request and what is still owed.
use ruvoy.Prelude.{
  ℕ, ◌+◌, ◌≡◌, refl, ap, Bool, true, false, ◌&&◌, Option, List, [], ◌∷◌, ◌++◌, is_some,
  if◌then◌else◌, arith,
}
use ruvoy.Stream.Defs.{StreamItem, head, chunk, end, failed, ResponseStream, take_next}
use ruvoy.Worker.Defs.{
  FilterState, Filter, Effect, report_outcome, report_admission, send_bridge_error,
  send_invalid_request, request_event_id, upstream_event_id, response_event_id,
}
use ruvoy.Worker.Defs as Defs
use ruvoy.Worker.Downstream.{
  is_waiting, is_streaming, drain_items, send_response_head, end_downstream, fail_downstream,
  rest_downstream,
}
use ruvoy.Worker.Handlers.Quiet.{is_notable, silent, IsQuiet}

-- How often a request was counted as admitted, and as ended.
unfoldable pub admissions : List Effect → ℕ
admissions [] = 0
admissions (Defs.counts_submitted ∷ es) = admissions es + 1
admissions (e ∷ es) = admissions es

unfoldable pub endings : List Effect → ℕ
endings [] = 0
endings (Defs.counts_responded outcome elapsed ∷ es) = endings es + 1
endings (e ∷ es) = endings es

-- What is still to be counted.
unfoldable pub owed : Filter → ℕ
owed f = if f.metrics && is_some f.submitted_at then 1 else 0

-- A step that keeps the books: what is owed after it and counted by it is what was owed and admitted.
abbrev pub Balances : Filter → Filter × List Effect → Type 0
Balances f r = endings r.1 + owed r.0 ≡ admissions r.1 + owed f

pub endings-append : (xs ys : List Effect) → endings (xs ++ ys) ≡ endings xs + endings ys
unfolding endings
endings-append [] ys = omega arith
endings-append (x ∷ xs) ys = ground (arith, endings-append xs ys)

pub admissions-append :
    (xs ys : List Effect) → admissions (xs ++ ys) ≡ admissions xs + admissions ys
unfolding admissions
admissions-append [] ys = omega arith
admissions-append (x ∷ xs) ys = ground (arith, admissions-append xs ys)

pub then-Balances :
    (f f' f'' : Filter) (xs ys : List Effect)
    → Balances f (f', xs)
    → Balances f' (f'', ys)
    → Balances f (f'', xs ++ ys)
then-Balances f f' f'' xs ys first second =
    omega (arith, first, second, endings-append xs ys, admissions-append xs ys)

pub silent-uncounted :
    (es : List Effect) → silent es ≡ true → (endings es ≡ 0) × (admissions es ≡ 0)
unfolding silent is_notable endings admissions
silent-uncounted [] h = (refl, refl)
silent-uncounted (e ∷ es) h =
    (ground (arith, silent-uncounted es), ground (arith, silent-uncounted es))

pub quiet-Balances : (f : Filter) (r : Filter × List Effect) → IsQuiet f r → Balances f r
unfolding owed
quiet-Balances f r quiet =
    let none_counted = silent-uncounted r.1 quiet.unseen in
    let kept : owed r.0 ≡ owed f =
      ap
        (λ (l : FilterState × Option ℕ × Bool).
          let n : ℕ = if l.2 && is_some l.1 then 1 else 0 in n)
        quiet.same in
    omega (arith, none_counted.0, none_counted.1, kept)

pub drain_items-Balances :
    (now : ℕ) (items : List StreamItem) (s : ResponseStream) (f : Filter)
    → Balances f (drain_items now items s f)
unfolding drain_items end_downstream fail_downstream rest_downstream report_outcome
    send_bridge_error send_response_head endings admissions owed
drain_items-Balances now [] s f = ground arith
drain_items-Balances now (head h ∷ items) s f =
    let r : Filter × List Effect = if is_waiting f.state then send_response_head h f else (f, []) in
    let later = drain_items now items (take_next s).0 r.0 in
    let first : Balances f r = ground arith in
    then-Balances f r.0 later.0 r.1 later.1 first
      (drain_items-Balances now items (take_next s).0 r.0)
drain_items-Balances now (chunk bytes ∷ items) s f =
    let sent : List Effect =
      if is_streaming f.state then Defs.sends_data bytes false ∷ [] else [] in
    let later = drain_items now items (take_next s).0 f in
    let first : Balances f (f, sent) = ground arith in
    then-Balances f f later.0 sent later.1 first (drain_items-Balances now items (take_next s).0 f)
drain_items-Balances now (end ∷ items) s f = ground arith
drain_items-Balances now (failed error ∷ items) s f = ground arith
