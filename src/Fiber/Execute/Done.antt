-- ===== src/Fiber/Execute/Done.antt =====
-- src/rack.rs: `call_streaming` leaves an error to be told or a stream that is over.
use ruvoy.Prelude.{ℕ, ◌≡◌, refl, Bool, true, false, ◌||◌, ◌&&◌, ltb, Bytes, is_some, arith, text}
use ruvoy.Request.{Request}
use ruvoy.Response.{ResponseHead}
use ruvoy.Stream.Defs.{ResponseStream, push, push_head}
use ruvoy.Stream.Run as Run
use ruvoy.Rack.{Headers, Protocol, plain, upgraded, refused, accepted_protocol}
use ruvoy.Rack.Env.{Result, ok, err, EnvBuild, ruby_error}
use ruvoy.Rack.Respond.{
  App, Asked, gives, raises, RackResponse, Responded, CallContext, ResponseParts, failed_with,
  stream_body, publish, respond_as, respond, call_streaming, built_env, response_parts,
}
use ruvoy.Rack.Respond.Over.{is_over, push_end-is_over, push_head-refused}

-- There is an error to be told, or the stream is over and its worker was woken, unless the stream
-- was over before the head could be queued.
unfoldable pub done : ResponseStream → Responded → Bool
done before r = is_some r.error || (is_over r.stream && (ltb 0 r.wakes || is_over before))

stream_body-done : (app : App) (before s : ResponseStream) → done before (stream_body app s) ≡ true
unfolding done stream_body
stream_body-done app before s = ground (arith, push_end-is_over (Run.run app.during_body s))

push_head-unasked :
    (h : ResponseHead) (s : ResponseStream) → (push_head h s).1 ≡ false → is_over s ≡ true
unfolding is_over push_head push
push_head-unasked h s closed = ground arith

publish-done : (app : App) (h : ResponseHead) (s : ResponseStream) → done s (publish app h s) ≡ true
unfolding done publish
publish-done app h s =
    ground (
      arith,
      stream_body-done app s (push_head h s).0,
      push_head-refused h s,
      push_head-unasked h s,
    )

respond_as-done :
    (thread : ℕ) (build : EnvBuild) (app : App) (parts : ResponseParts)
    (answer : Headers × Protocol) (s : ResponseStream)
    → done s (respond_as thread build app parts answer s) ≡ true
unfolding respond_as failed_with done
respond_as-done thread build app parts (headers, plain) s = publish-done app _ s
respond_as-done thread build app parts (headers, upgraded protocol) s = publish-done app _ s
respond_as-done thread build app parts (headers, refused error) s = refl

respond-done :
    (quoted : Bytes → Bytes) (thread : ℕ) (build : EnvBuild) (app : App) (s : ResponseStream)
    → done (Run.run app.during_call s) (respond quoted thread build app s) ≡ true
unfolding respond failed_with done
respond-done quoted thread build app s = go app.response
  where
    parsed :
        (parts : Result ResponseParts)
        → done (Run.run app.during_call s) (elim parts [
          | err error ↦ failed_with (Run.run app.during_call s) error
          | ok parts ↦
              respond_as thread build app parts
                (accepted_protocol quoted parts.headers build.protocols)
                (Run.run app.during_call s)
        ])
          ≡ true
    parsed (err error) = refl
    parsed (ok parts) =
        respond_as-done thread build app parts
          (accepted_protocol quoted parts.headers build.protocols) (Run.run app.during_call s)

    go :
        (response : Asked RackResponse)
        → done (Run.run app.during_call s) (elim response [
          | raises message ↦
              failed_with
                (Run.run app.during_call s)
                (ruby_error (text "calling app.call(env)") message)
          | gives response ↦ elim (response_parts response) [
            | err error ↦ failed_with (Run.run app.during_call s) error
            | ok parts ↦
                respond_as thread build app parts
                  (accepted_protocol quoted parts.headers build.protocols)
                  (Run.run app.during_call s)
          ]
        ])
          ≡ true
    go (raises message) = refl
    go (gives response) = parsed (response_parts response)

pub call_streaming-done :
    (c : CallContext) (app : App) (r : Request) (s : ResponseStream)
    → done (Run.run app.during_call s) (call_streaming c app r s).0 ≡ true
unfolding call_streaming failed_with done
call_streaming-done c app r s = go (built_env c r)
  where
    go :
        (build : Result EnvBuild)
        → done (Run.run app.during_call s) (
            let result : Responded × Bool = elim build [
              | err error ↦ (failed_with s error, false)
              | ok build ↦
                  (respond c.quoted c.ruby_thread_object_id build app s, build.streaming_input)
            ] in
            result.0)
          ≡ true
    go (err error) = refl
    go (ok build) = respond-done c.quoted c.ruby_thread_object_id build app s
