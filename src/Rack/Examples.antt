-- ===== src/Rack/Examples.antt =====
-- Runs of src/rack.rs.
use ruvoy.Prelude.{
  get, bytes_eq, if◌then◌else◌, ◌≡◌, refl, true, false, some, [], ◌∷◌, ◌++◌, decimal, any, Bytes,
  text, starts_with_byte, eq_ignore_ascii_case,
}
use ruvoy.Request.{Request}
use ruvoy.Request as Request
use ruvoy.Std.Trim.{split, trim}
use ruvoy.Std.Utf8.{from_utf8_lossy}
use ruvoy.Rack.Env.{
  interleaved, string, input, string_io, Times, built, path_parts, upgrade_protocols,
}
use ruvoy.Rack.Env.Forged.{IsSplit, wrapped, env_not_forged}
use ruvoy.Rack.{Headers, env_header_key, accepted_protocol}
use ruvoy.Rack.Upgrade.{IsAnswered, accepted_protocol_lem}
use ruvoy.Rack.Keys.{is_foreign, alike, alike_byte, is_special, collide, env_header_key_lem}

abbrev fields : Headers
fields =
    (text "x-a", text "1")
    ∷ (text "rack.protocol", text "websocket")
    ∷ (text "Upgrade", text "own")
    ∷ []

abbrev same : Bytes → Bytes
same bytes = bytes

accepted_protocol_example :
    IsAnswered same fields
      (some (text "websocket" ∷ []))
      (accepted_protocol same fields (some (text "websocket" ∷ [])))
accepted_protocol_example = accepted_protocol_lem same fields (some (text "websocket" ∷ []))

env_header_key_example :
    (k l : Bytes) × (env_header_key (text "content-type") ≡ some k)
    × (env_header_key (text "content_type") ≡ some l)
    × (any is_foreign k ≡ false)
    × (alike k (
          if is_special (text "content-type")
          then text "content-type"
          else text "HTTP_" ++ text "content-type")
        ≡ true)
    × (bytes_eq k l ≡ collide (text "content-type") (text "content_type"))
unfolding text starts_with_byte
env_header_key_example = env_header_key_lem (text "content-type") (text "content_type") refl refl

-- The two do not share a key.
apart : collide (text "content-type") (text "content_type") ≡ false
unfolding collide is_special alike alike_byte text eq_ignore_ascii_case
apart = refl

abbrev request : Request
request = record (Request.new (text "GET") (text "/a?b=1") []) {
  headers = (text "path_info", text "/forged") ∷ (text "host", text "other") ∷ [];
}

abbrev times : Times
times = record { started_at = 0; input_started_at = 1; input_done_at = 2 }

env_not_forged_example :
    let env = (built interleaved true times request (string_io [])).env in
    (get (text "REQUEST_METHOD") env ≡ some (string request.method))
    × (get (text "PATH_INFO") env ≡ some (string (path_parts request.path).0))
    × (get (text "QUERY_STRING") env ≡ some (string (path_parts request.path).1))
    × IsSplit request.path (path_parts request.path)
    × (get (text "SERVER_NAME") env ≡ some (string request.metadata.server_name))
    × (get (text "SERVER_PORT") env ≡ some (string (decimal request.metadata.server_port)))
    × (get (text "rack.url_scheme") env ≡ some (string request.metadata.scheme))
    × (get (text "REMOTE_ADDR") env ≡ wrapped request.metadata.remote_addr)
    × (get (text "rack.input") env ≡ some (input (string_io [])))
env_not_forged_example = env_not_forged interleaved true times request (string_io [])

upgrade_run :
    upgrade_protocols
      ((text "connection", text "keep-alive, Upgrade") ∷ (text "upgrade", text " websocket ") ∷ [])
    ≡ some (text "websocket" ∷ [])
unfolding upgrade_protocols text eq_ignore_ascii_case split from_utf8_lossy trim
upgrade_run = refl
