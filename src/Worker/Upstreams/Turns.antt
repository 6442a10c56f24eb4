-- ===== src/Worker/Upstreams/Turns.antt =====
-- crates/ruvoy-envoy-fiber/src/worker.rs: how many turns of the loop of `pump_streams` are left, and that
-- what Envoy reports adds none.
use ruvoy.Prelude.{
  ℕ, suc, ◌+◌, ◌≡◌, refl, ap, ◌∙◌, Bool, true, false, not, ◌&&◌, Option, none, some, List, [], ◌∷◌,
  is_some, length, leb, if◌then◌else◌, Bytes, arith,
}
use ruvoy.Stream.Defs.{
  StreamItem, chunk, end, cancel, take_next, push_head, push_end, push_failure, push_chunk_if_room,
}
use ruvoy.Upstream.Defs.{fail, set_trailers}
use ruvoy.Table.{Table, get, update, remove, get-update, get-remove}
use ruvoy.EnvoyUpstream.OpenStream.Defs.{
  OpenStream, next_action, headers_arrived, data_arrived, trailers_arrived,
}
use ruvoy.Worker.Defs.{Filter}
use ruvoy.Worker.Upstreams.{
  Report, report, reports, on_http_stream_headers, on_http_stream_data, on_http_stream_trailers,
  on_http_stream_complete, on_http_stream_reset,
}

-- What a fiber writes to an upstream: pieces of a body and its end.
unfoldable pub is_body : StreamItem → Bool
is_body (chunk bytes) = true
is_body end = true
is_body _ = false

unfoldable pub all_body : List StreamItem → Bool
all_body [] = true
all_body (item ∷ items) = is_body item && all_body items

-- A body is queued, and no more than so many turns of the loop are left.
unfoldable pub within : ℕ → OpenStream → Bool
within n o =
    let reset_left : ℕ = if o.reset_sent then 0 else 1 in
    leb (length o.channel.request.items + reset_left) n && all_body o.channel.request.items

unfoldable pub within_at : ℕ → Option OpenStream → Bool
within_at n none = true
within_at n (some o) = within n o

-- The loop has nothing more to do for a stream, or it is gone.
unfoldable pub rests : Option OpenStream → Bool
rests none = true
rests (some o) = not (is_some (next_action o).1)

pub acts-within :
    (n : ℕ) (o : OpenStream)
    → within (suc n) o ≡ true
    → is_some (next_action o).1 ≡ true
    → within n (next_action o).0 ≡ true
unfolding within next_action all_body is_body take_next
acts-within n o h acted = ground arith

pub idle-rests :
    (n : ℕ) (o : OpenStream)
    → within n o ≡ true
    → is_some (next_action o).1 ≡ false
    → rests (some (next_action o).0) ≡ true
unfolding within next_action all_body is_body take_next rests
idle-rests n o h idle = ground arith

pub headers-within :
    (n now : ℕ) (fields : List (Bytes × Bytes)) (last : Bool) (o : OpenStream)
    → within n o ≡ true
    → within n (headers_arrived now fields last o).0 ≡ true
unfolding within headers_arrived all_body fail cancel push_head push_end push_failure
headers-within n now fields last o h = ground arith

pub body-within :
    (n : ℕ) (pieces : List Bytes) (last : Bool) (o : OpenStream)
    → within n o ≡ true
    → within n (data_arrived pieces last o).0 ≡ true
unfolding within data_arrived all_body fail cancel push_end push_failure push_chunk_if_room
body-within n pieces last o h = ground arith

pub trailers-within :
    (n : ℕ) (fields : List (Bytes × Bytes)) (o : OpenStream)
    → within n o ≡ true
    → within n (trailers_arrived fields o) ≡ true
unfolding within trailers_arrived all_body set_trailers push_end
trailers-within n fields o h = ground arith

pub still-idle : (o : OpenStream) → within 0 o ≡ true → is_some (next_action o).1 ≡ false
unfolding within next_action take_next
still-idle o h = ground arith

pub update-within :
    (n k handle : ℕ) (change : OpenStream → OpenStream)
    (kept : (o : OpenStream) → within n o ≡ true → within n (change o) ≡ true)
    (t : Table OpenStream) (o : OpenStream)
    → get k t ≡ some o
    → within_at n (get handle t) ≡ true
    → within_at n (get handle (update k (change o) t)) ≡ true
unfolding within_at get update
update-within n k handle change kept [] o found h = refl
update-within n k handle change kept ((j, w) ∷ t) o found h =
    ground (arith, kept o, update-within n k handle change kept t o)

pub remove-within :
    (n k handle : ℕ) (t : Table OpenStream)
    → within_at n (get handle t) ≡ true
    → within_at n (get handle (remove k t)) ≡ true
unfolding within_at
remove-within n k handle t h = ground (arith, get-remove k handle t)

-- A table whose stream is changed, if it is there.
unfoldable pub after :
    (OpenStream → OpenStream) → ℕ → Option OpenStream → Table OpenStream → Table OpenStream
after change k none t = t
after change k (some o) t = update k (change o) t

pub after-within :
    (n k handle : ℕ) (change : OpenStream → OpenStream)
    (kept : (o : OpenStream) → within n o ≡ true → within n (change o) ≡ true)
    (t : Table OpenStream) (found : Option OpenStream)
    → get k t ≡ found
    → within_at n (get handle t) ≡ true
    → within_at n (get handle (after change k found t)) ≡ true
unfolding after
after-within n k handle change kept t none e h = h
after-within n k handle change kept t (some o) e h = update-within n k handle change kept t o e h

pub report-within :
    (n now handle : ℕ) (r : ℕ × Report) (f : Filter)
    → within_at n (get handle f.upstream_streams) ≡ true
    → within_at n (get handle (report now r f).0.upstream_streams) ≡ true
unfolding report on_http_stream_headers on_http_stream_data on_http_stream_trailers
    on_http_stream_complete on_http_stream_reset after
report-within n now handle (k, Report.headers fields last) f h =
    let t = f.upstream_streams in
    let change : OpenStream → OpenStream = λ o. (headers_arrived now fields last o).0 in
    let e : (on_http_stream_headers now k fields last f).0.upstream_streams
        ≡ after change k (get k t) t =
      ground arith in
    ap (λ t. within_at n (get handle t)) e
    ∙ after-within n k handle change (headers-within n now fields last) t (get k t) refl h
report-within n now handle (k, Report.body pieces last) f h =
    let t = f.upstream_streams in
    let change : OpenStream → OpenStream = λ o. (data_arrived pieces last o).0 in
    let e : (on_http_stream_data k pieces last f).0.upstream_streams ≡ after change k (get k t) t =
      ground arith in
    ap (λ t. within_at n (get handle t)) e
    ∙ after-within n k handle change (body-within n pieces last) t (get k t) refl h
report-within n now handle (k, Report.trailers fields) f h =
    let t = f.upstream_streams in
    let change = trailers_arrived fields in
    let e : (on_http_stream_trailers k fields f).0.upstream_streams ≡ after change k (get k t) t =
      ground arith in
    ap (λ t. within_at n (get handle t)) e
    ∙ after-within n k handle change (trailers-within n fields) t (get k t) refl h
report-within n now handle (k, Report.completes) f h =
    ground (arith, remove-within n k handle f.upstream_streams)
report-within n now handle (k, Report.resets reason) f h =
    ground (arith, remove-within n k handle f.upstream_streams)

pub reports-within :
    (n now handle : ℕ) (rs : List (ℕ × Report)) (f : Filter)
    → within_at n (get handle f.upstream_streams) ≡ true
    → within_at n (get handle (reports now rs f).0.upstream_streams) ≡ true
unfolding reports
reports-within n now handle [] f h = h
reports-within n now handle (r ∷ rs) f h =
    reports-within n now handle rs (report now r f).0 (report-within n now handle r f h)

-- The stream that was just acted on stands in the table as it was left.
pub stored :
    (handle : ℕ) (o o' : OpenStream) (t : Table OpenStream)
    → get handle t ≡ some o
    → get handle (update handle o' t) ≡ some o'
stored handle o o' t found = ground (arith, get-update handle handle o' o t found)
