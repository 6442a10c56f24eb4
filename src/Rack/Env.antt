-- ===== src/Rack/Env.antt =====
-- src/rack.rs: the Rack environment of a request. A Ruby hash is the list of its entries. What Ruby
-- answers to the calls that make the input is an argument; writing an entry of a fresh hash does not
-- fail.
pub mod Values
pub mod Forged
use ruvoy.Prelude.{
  Hash, aset, ℕ, ◌-◌, Bool, true, false, not, ◌&&◌, Option, none, some, List, [], ◌∷◌, ◌++◌, any,
  is_empty, if◌then◌else◌, Bytes, text, bytes_eq, decimal, eq_ignore_ascii_case,
}
use ruvoy.Error.{BridgeError, ruby, invalid_response}
use ruvoy.Request.{Request, RequestMetadata, RequestDiagnostics, Context}
use ruvoy.Stream.Defs.{ResponseStream}
use ruvoy.Upstream.Defs.{Upstreams}
use ruvoy.Std.Utf8.{from_utf8_lossy}
use ruvoy.Std.Trim.{split, split_once, trim}
use ruvoy.Rack.{env_header_key}

-- Whether the runtime may run a call before an earlier one returned.
pub data Concurrency : Type 0 where
  serial interleaved : Concurrency

unfoldable pub multithread : Concurrency → Bool
multithread serial = false
multithread interleaved = true

-- `rack.input`: a buffer of the whole body, or an object over a body that still arrives.
pub data Input : Type 0 where
  string_io : Bytes → Input
  request_body : ResponseStream → Input

pub data Value : Type 0 where
  string : Bytes → Value
  flag : Bool → Value
  strings : List Bytes → Value
  rack_errors : Value
  context : Context → Value
  upstream : Upstreams → Value
  input : Input → Value

abbrev pub Env : Type 0
Env = Hash Value

unfoldable pub set : Bytes → Value → Env → Env
unfolding aset
set key value env = aset key value env

-- The entries, written in order.
unfoldable pub set_all : List (Bytes × Value) → Env → Env
unfolding set
set_all [] env = env
set_all ((key, value) ∷ entries) env = set_all entries (set key value env)

keep_tokens : List Bytes → List Bytes
keep_tokens [] = []
keep_tokens (token ∷ tokens) =
    let t = trim token in let rest = keep_tokens tokens in if is_empty t then rest else t ∷ rest

-- The tokens of every field of a name.
unfoldable pub tokens : Bytes → List (Bytes × Bytes) → List Bytes
unfolding keep_tokens
tokens wanted [] = []
tokens wanted ((name, value) ∷ headers) =
    let rest = tokens wanted headers in
    if eq_ignore_ascii_case name wanted
    then keep_tokens (split b',' (from_utf8_lossy value)) ++ rest
    else rest

unfoldable pub upgrade_protocols : List (Bytes × Bytes) → Option (List Bytes)
unfolding tokens
upgrade_protocols headers =
    let protocols = tokens (text "upgrade") headers in
    if any (λ t. eq_ignore_ascii_case t (text "upgrade")) (tokens (text "connection") headers)
    then (if is_empty protocols then none else some protocols)
    else none

-- The environment entries of the headers, those that have a key.
unfoldable pub header_entries : List (Bytes × Bytes) → List (Bytes × Value)
header_entries [] = []
header_entries ((name, value) ∷ headers) =
    let rest = header_entries headers in
    elim (env_header_key name) [ none ↦ rest | some key ↦ (key, string value) ∷ rest ]

unfoldable pub path_parts : Bytes → Bytes × Bytes
path_parts path = elim (split_once b'?' path) [ none ↦ (path, []) | some parts ↦ parts ]

-- `Option::filter` at a flag.
unfoldable pub only_if {ℓ} : {A : Type ℓ} → Bool → Option A → Option A
only_if keep none = none
only_if keep (some a) = if keep then some a else none

unfoldable pub entry : {A : Type 0} → Bytes → (A → Value) → Option A → List (Bytes × Value)
entry key wrap none = []
entry key wrap (some a) = (key, wrap a) ∷ []

-- What is written before the headers are: the entries that every request has, and those between.
unfoldable pub first_entries : Request → List (Bytes × Value)
unfolding path_parts
first_entries r =
    let (path_info, query_string) = path_parts r.path in
    (text "REQUEST_METHOD", string r.method)
    ∷ (text "SCRIPT_NAME", string [])
    ∷ (text "PATH_INFO", string path_info)
    ∷ (text "QUERY_STRING", string query_string)
    ∷ (text "SERVER_NAME", string r.metadata.server_name)
    ∷ (text "SERVER_PORT", string (decimal r.metadata.server_port))
    ∷ (text "SERVER_PROTOCOL", string r.metadata.protocol)
    ∷ (text "HTTP_HOST", string r.metadata.authority)
    ∷ []

unfoldable pub second_entries : Concurrency → Request → List (Bytes × Value)
unfolding multithread
second_entries concurrency r =
    (text "rack.url_scheme", string r.metadata.scheme)
    ∷ (text "rack.errors", rack_errors)
    ∷ (text "rack.multithread", flag (multithread concurrency))
    ∷ (text "rack.multiprocess", flag false)
    ∷ (text "rack.run_once", flag false)
    ∷ (text "ruvoy.force_gc", flag r.force_gc)
    ∷ []

unfoldable pub base_entries : Concurrency → Bool → Request → List (Bytes × Value)
unfolding only_if entry first_entries second_entries
base_entries concurrency extensions r =
    first_entries r
    ++ (entry (text "REMOTE_ADDR") string r.metadata.remote_addr
        ++ (second_entries concurrency r
            ++ (entry (text "ruvoy.context") context (only_if extensions r.context)
                ++ (entry (text "ruvoy.upstream") upstream (only_if extensions r.upstreams)
                    ++ entry (text "rack.protocol") strings
                        (only_if extensions (upgrade_protocols r.headers))))))

-- `ruby_error`.
unfoldable pub ruby_error : Bytes → Bytes → BridgeError
ruby_error doing message = ruby (doing ++ (text ": " ++ message))

-- What Ruby raises, if it does, when the input is made.
pub record Answers : Type 0 where
  pub string_io_new : Option Bytes
  pub binmode : Option Bytes
  pub request_body_new : Option Bytes

pub data Result (A : Type 0) : Type 0 where
  ok : A → Result A
  err : BridgeError → Result A

unfoldable pub made : {A : Type 0} → Bytes → Option Bytes → Result A → Result A
unfolding ruby_error
made doing none next = next
made doing (some message) next = err (ruby_error doing message)

unfoldable pub collected_input : Answers → Bytes → Result Input
unfolding made
collected_input asked body =
    made (text "creating rack.input StringIO") asked.string_io_new
      (made (text "setting rack.input binary mode") asked.binmode (ok (string_io body)))

-- `has_class` is whether the runtime has a class for bodies that still arrive.
unfoldable pub streaming_input : Answers → Bool → ResponseStream → Result Input
unfolding made
streaming_input asked has_class stream =
    if has_class
    then made (text "creating rack.input") asked.request_body_new (ok (request_body stream))
    else err (invalid_response (text "this runtime cannot serve a streaming request body"))

unfoldable pub make_input : Answers → Bool → Request → Result Input
unfolding collected_input streaming_input
make_input asked has_class r = elim r.body_stream [
  | none ↦ collected_input asked r.body
  | some stream ↦ streaming_input asked has_class stream
]

unfoldable pub closed_after : Input → Bool
closed_after (string_io body) = false
closed_after (request_body stream) = true

pub record EnvBuild : Type 0 where
  pub env : Env
  pub input : Input
  pub protocols : Option (List Bytes)
  -- Whether the input is closed once the request is done.
  pub streaming_input : Bool
  pub diagnostics : Option RequestDiagnostics
  pub runtime_queue_time : Option ℕ
  pub rack_input_time : ℕ

-- When the build started, and when it started to make the input and was done.
pub record Times : Type 0 where
  pub started_at : ℕ
  pub input_started_at : ℕ
  pub input_done_at : ℕ

unfoldable pub submitted_at : Option RequestDiagnostics → Option ℕ
submitted_at none = none
submitted_at (some d) = d.submitted_at

unfoldable pub since : ℕ → Option ℕ → Option ℕ
since now none = none
since now (some earlier) = some (now - earlier)

-- Every entry in the order of its writing.
unfoldable pub all_entries : Concurrency → Bool → Request → Input → List (Bytes × Value)
unfolding base_entries header_entries
all_entries concurrency extensions r made_input =
    base_entries concurrency extensions r
    ++ (header_entries r.headers ++ (text "rack.input", input made_input) ∷ [])

unfoldable pub built : Concurrency → Bool → Times → Request → Input → EnvBuild
unfolding all_entries set_all only_if closed_after since submitted_at
built concurrency extensions times r made_input = record {
  env = set_all (all_entries concurrency extensions r made_input) [];
  input = made_input;
  protocols = only_if extensions (upgrade_protocols r.headers);
  streaming_input = closed_after made_input;
  diagnostics = r.diagnostics;
  runtime_queue_time = since times.started_at (submitted_at r.diagnostics);
  rack_input_time = times.input_done_at - times.input_started_at;
}

unfoldable pub build_env : Answers → Concurrency → Bool → Bool → Times → Request → Result EnvBuild
unfolding make_input built
build_env asked concurrency extensions has_class times r = elim (make_input asked has_class r) [
  | err error ↦ err error
  | ok made_input ↦ ok (built concurrency extensions times r made_input)
]
