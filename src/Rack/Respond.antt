-- ===== src/Rack/Respond.antt =====
-- src/rack.rs: a call of the application and what becomes of its answer. What Ruby gives or raises is
-- an argument, and so are the operations of others on the response stream while Ruby runs.
pub mod Over
use ruvoy.Prelude.{
  ℤ, pos, negsuc, ℕ, suc, ◌+◌, ◌-◌, Bool, true, false, Option, none, some, List, [], ◌∷◌, ◌++◌,
  ◌==◌, ltb, map, if◌then◌else◌, Bytes, text, decimal,
}
use ruvoy.Error.{BridgeError, invalid_response}
use ruvoy.Request.{Request, RequestDiagnostics}
use ruvoy.Response.{Response, ResponseHead}
use ruvoy.Stream.Defs.{ResponseStream, push_head, push_end}
use ruvoy.Stream.Run.{Op}
use ruvoy.Stream.Run as Run
use ruvoy.Rack.{Headers, Protocol, plain, upgraded, refused, accepted_protocol}
use ruvoy.Rack.Env.{
  Result, ok, err, ruby_error, Concurrency, Answers, Times, EnvBuild, build_env, submitted_at,
}

-- What a call into Ruby, or the conversion of a Ruby value, does.
pub data Asked (A : Type 0) : Type 0 where
  gives : A → Asked A
  raises : Bytes → Asked A

unfoldable pub show : ℤ → Bytes
show (pos n) = decimal n
show (negsuc n) = text "-" ++ decimal (suc n)

-- A value of the header hash: an array, or another object.
pub data HeaderValue : Type 0 where
  many : Asked (List Bytes) → HeaderValue
  one : Asked Bytes → HeaderValue

-- The array that the application returns, with what its entries convert to.
pub record RackResponse : Type 0 where
  pub len : ℕ
  pub status : Asked ℤ
  pub headers : Asked (List (Asked Bytes × HeaderValue))
  pub body : Asked ℕ

unfoldable pub asked : {A B : Type 0} → Bytes → Asked A → (A → Result B) → Result B
asked doing (gives a) next = next a
asked doing (raises message) next = err (ruby_error doing message)

unfoldable pub out_of_range : ℤ → BridgeError
unfolding show
out_of_range n = invalid_response (text "status " ++ (show n ++ text " is outside the u16 range"))

-- `u16::try_from`.
unfoldable pub status_of : ℤ → Result ℕ
unfolding out_of_range
status_of (pos n) = if ltb n 65536 then ok n else err (out_of_range (pos n))
status_of (negsuc n) = err (out_of_range (negsuc n))

unfoldable pub fields_of : Bytes → HeaderValue → Asked Headers
fields_of name (many (gives values)) = gives (map (λ value. (name, value)) values)
fields_of name (many (raises message)) = raises message
fields_of name (one (gives value)) = gives ((name, value) ∷ [])
fields_of name (one (raises message)) = raises message

unfoldable pub joined_fields : Asked Headers → Asked Headers → Asked Headers
joined_fields (raises message) later = raises message
joined_fields (gives fields) (raises message) = raises message
joined_fields (gives fields) (gives more) = gives (fields ++ more)

-- The loop of `foreach`, which a conversion that fails ends.
unfoldable pub copied : List (Asked Bytes × HeaderValue) → Asked Headers
unfolding joined_fields fields_of
copied [] = gives []
copied ((gives name, value) ∷ entries) = joined_fields (fields_of name value) (copied entries)
copied ((raises message, value) ∷ entries) = raises message

unfoldable pub copy_headers : List (Asked Bytes × HeaderValue) → Result Headers
unfolding copied asked
copy_headers entries =
    asked (text "copying response headers") (copied entries) (λ fields. ok fields)

pub record ResponseParts : Type 0 where
  pub status : ℕ
  pub headers : Headers
  pub body : ℕ

unfoldable pub and_then : {A B : Type 0} → Result A → (A → Result B) → Result B
and_then (ok a) next = next a
and_then (err error) next = err error

unfoldable pub wrong_length : ℕ → BridgeError
wrong_length n = invalid_response (text "expected 3 entries, got " ++ decimal n)

unfoldable pub three_parts : RackResponse → Result ResponseParts
unfolding asked and_then status_of copy_headers
three_parts r = and_then (asked (text "converting response status") r.status status_of) (λ status.
    and_then (asked (text "converting response headers") r.headers copy_headers) (λ headers.
      asked (text "reading response body") r.body
        (λ body. ok (record { status = status; headers = headers; body = body }))))

unfoldable pub response_parts : RackResponse → Result ResponseParts
unfolding wrong_length three_parts
response_parts r = if r.len == 3 then three_parts r else err (wrong_length r.len)

unfoldable pub ingress_time : RequestDiagnostics → ℕ
ingress_time d = elim d.submitted_at [ none ↦ 0 | some at ↦ at - d.received_at ]

unfoldable pub or_zero : Option ℕ → ℕ
or_zero none = 0
or_zero (some n) = n

unfoldable pub stage_timing_headers : EnvBuild → ℕ → ℕ → Headers
unfolding ingress_time or_zero
stage_timing_headers build rack_call_time response_copy_time = elim build.diagnostics [
  | none ↦ []
  | some d ↦
      (text "x-ruvoy-stage-timing", text "1")
      ∷ (text "x-ruvoy-stage-ingress-ns", decimal (ingress_time d))
      ∷ (text "x-ruvoy-stage-body-copy-ns", decimal d.body_copy_time)
      ∷ (text "x-ruvoy-stage-body-callbacks", decimal d.body_callbacks)
      ∷ (text "x-ruvoy-stage-runtime-queue-ns", decimal (or_zero build.runtime_queue_time))
      ∷ (text "x-ruvoy-stage-rack-input-ns", decimal build.rack_input_time)
      ∷ (text "x-ruvoy-stage-rack-call-ns", decimal rack_call_time)
      ∷ (text "x-ruvoy-stage-response-copy-ns", decimal response_copy_time)
      ∷ []
]

-- An application's run for one request: what `app.call` gives and how long it took, what the body
-- reader raises, and what happens to the response stream during each, the writes of the sink included.
pub record App : Type 0 where
  pub response : Asked RackResponse
  pub call_time : ℕ
  pub during_call : List Op
  pub body_raises : Option Bytes
  pub during_body : List Op

-- The stream as it is left, how often its worker was woken, and the error.
pub record Responded : Type 0 where
  pub stream : ResponseStream
  pub wakes : ℕ
  pub error : Option BridgeError

unfoldable pub failed_with : ResponseStream → BridgeError → Responded
failed_with s error = record { stream = s; wakes = 0; error = some error }

-- From where the head is out.
unfoldable pub stream_body : App → ResponseStream → Responded
unfolding push_end ruby_error
stream_body app s =
    let s' = Run.run app.during_body s in
    elim app.body_raises [
      | some message ↦ record {
        stream = s';
        wakes = 1;
        error = some (ruby_error (text "streaming response body") message);
      }
      | none ↦ record { stream = (push_end s').0; wakes = 2; error = none }
    ]

unfoldable pub publish : App → ResponseHead → ResponseStream → Responded
unfolding push_head stream_body
publish app h s =
    let (s', took) = push_head h s in
    let responded = stream_body app s' in
    if took then responded else record { stream = s'; wakes = 0; error = none }

unfoldable pub upgrade_headers : Bytes → Headers
upgrade_headers protocol = (text "upgrade", protocol) ∷ (text "connection", text "upgrade") ∷ []

unfoldable pub respond_as :
    ℕ → EnvBuild → App → ResponseParts → Headers × Protocol → ResponseStream → Responded
unfolding publish failed_with upgrade_headers stage_timing_headers
respond_as thread build app parts (headers, plain) s =
    publish app
      (record {
        status = parts.status;
        headers = headers ++ stage_timing_headers build app.call_time 0;
        ruby_thread_object_id = thread;
      })
      s
respond_as thread build app parts (headers, upgraded protocol) s =
    publish app
      (record {
        status = 101;
        headers =
            (headers ++ upgrade_headers protocol) ++ stage_timing_headers build app.call_time 0;
        ruby_thread_object_id = thread;
      })
      s
respond_as thread build app parts (headers, refused error) s = failed_with s error

unfoldable pub respond : (Bytes → Bytes) → ℕ → EnvBuild → App → ResponseStream → Responded
unfolding failed_with respond_as ruby_error
respond quoted thread build app s =
    let s' = Run.run app.during_call s in
    elim app.response [
      | raises message ↦ failed_with s' (ruby_error (text "calling app.call(env)") message)
      | gives response ↦ elim (response_parts response) [
        | err error ↦ failed_with s' error
        | ok parts ↦
            respond_as thread build app parts
              (accepted_protocol quoted parts.headers build.protocols) s'
      ]
    ]

-- What the runtime has on hand for a call.
pub record CallContext : Type 0 where
  pub quoted : Bytes → Bytes
  pub answers : Answers
  pub concurrency : Concurrency
  pub extensions : Bool
  pub has_body_class : Bool
  pub times : Times
  pub ruby_thread_object_id : ℕ

unfoldable pub built_env : CallContext → Request → Result EnvBuild
unfolding build_env
built_env c r = build_env c.answers c.concurrency c.extensions c.has_body_class c.times r

-- Beside what `respond` leaves, whether the input was closed.
unfoldable pub call_streaming : CallContext → App → Request → ResponseStream → Responded × Bool
unfolding built_env respond failed_with
call_streaming c app r s = elim (built_env c r) [
  | err error ↦ (failed_with s error, false)
  | ok build ↦ (respond c.quoted c.ruby_thread_object_id build app s, build.streaming_input)
]

-- `call`: the body reader gives the whole body; `copy_time` is how long that took.
unfoldable pub call : CallContext → App → Asked Bytes → ℕ → Request → Result Response
unfolding built_env asked and_then response_parts stage_timing_headers
call c app read copy_time r = and_then (built_env c r) (λ build.
    asked (text "calling app.call(env)") app.response (λ response.
      and_then (response_parts response) (λ parts.
        asked (text "consuming response body") read (λ body. ok (record {
          status = parts.status;
          headers = parts.headers ++ stage_timing_headers build app.call_time copy_time;
          body = body;
          ruby_thread_object_id = c.ruby_thread_object_id;
        })))))
