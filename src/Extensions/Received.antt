-- ===== src/Extensions/Received.antt =====
-- src/extensions.rs and crates/ruvoy-envoy-fiber/src/upstream.rs: what the worker delivers of a call is
-- what its fiber gets.
use ruvoy.Prelude.{ℕ, suc, ◌≡◌, refl, ap, true, Option, List, [], ◌∷◌, length, if◌then◌else◌, Bytes}
use ruvoy.Stream.Defs.{new, take_next, push_head, push_chunk, push_end, push_failure}
use ruvoy.Chunks.Defs.{upstream_error}
use ruvoy.EnvoyUpstream.Calls.{CalloutResult, Answer, ok, err, judge, settle, deliver}
use ruvoy.Extensions.Headers.{rack_headers}
use ruvoy.Extensions.Calls.{
  Taken, rack_response, raised, UpstreamCall, new_call, take_item, response_loop, response,
  already_taken, ended_with, take_end,
}

-- What the fiber gets for an answer of the worker.
unfoldable pub taken_of : Answer → Taken
taken_of (ok h body) = rack_response h.status (rack_headers h.headers) body
taken_of (err error) = raised (upstream_error error)

settled_response :
    (a : Answer) (max : ℕ)
    → let c = new_call (settle a (new max)).0 in
      ((response c).1 ≡ taken_of a) × ((response c).0.taken ≡ true)
unfolding settle new push_head push_chunk push_end push_failure response response_loop take_next
    take_item new_call taken_of ended_with take_end
settled_response (ok h []) max = (refl, refl)
settled_response (ok h (b ∷ bs)) max = (refl, refl)
settled_response (err error) max = (refl, refl)

-- A response that was taken is not given again.
response-again : (c : UpstreamCall) → c.taken ≡ true → response c ≡ (c, raised already_taken)
unfolding response
response-again c h =
    ap
      (λ b.
        if b then (c, raised already_taken) else response_loop (suc (length c.response.items)) c)
      h

-- A buffered call from the worker to its fiber, for every result that Envoy reports: the fiber gets
-- the status, headers and body that the worker judged to be the answer, or the exception that says
-- the failure, in one look; a second look raises that it was taken.
pub delivered_response :
    (max : ℕ) (result : CalloutResult) (headers : Option (List (Bytes × Bytes)))
    (body : Option (List Bytes)) (limit : ℕ)
    → let c = new_call (deliver (new max) result headers body limit).0 in
      ((response c).1 ≡ taken_of (judge result headers body limit))
      × (response (response c).0 ≡ ((response c).0, raised already_taken))
unfolding deliver
delivered_response max result headers body limit =
    let settled = settled_response (judge result headers body limit) max in
    (
      settled.0,
      response-again (response (new_call (settle (judge result headers body limit) (new max)).0)).0
          settled.1,
    )
