-- ===== src/Rack/Env/Forged.antt =====
-- src/rack.rs: headers write no key of the environment but their own.
use ruvoy.Prelude.{
  get, ◌≡◌, refl, sym, ap, ◌∙◌, Bool, true, false, ◌||◌, Option, none, some, List, [], ◌∷◌, ◌++◌,
  if◌then◌else◌, Bytes, bytes_eq, bytes_eq_sound, text, starts_with, decimal, ◌⊎◌, inl, inr, arith,
}
use ruvoy.Request.{Request}
use ruvoy.Std.Trim.{split_once, joined, split_once-joined}
use ruvoy.Rack.{env_header_key}
use ruvoy.Rack.Keys.{key_forms}
use ruvoy.Rack.Env.{
  Concurrency, Value, string, strings, input, Input, Times, built, entry, header_entries,
  base_entries, all_entries, path_parts, first_entries, second_entries, context, upstream, only_if,
  upgrade_protocols,
}
use ruvoy.Rack.Env.Values.{last_value, or_else, get-set_all, last_value-append, entry-other}

-- The keys that headers get.
unfoldable pub is_client_key : Bytes → Bool
is_client_key k =
    starts_with (text "HTTP_") k
    || bytes_eq k (text "CONTENT_TYPE")
    || bytes_eq k (text "CONTENT_LENGTH")

env_header_key-is_client_key :
    (name key : Bytes) → env_header_key name ≡ some key → is_client_key key ≡ true
unfolding is_client_key starts_with text bytes_eq
env_header_key-is_client_key name key h = elim (key_forms name key h) [
  | inl e ↦ ap is_client_key e
  | inr (inl e) ↦ ap is_client_key e
  | inr (inr e) ↦ ap is_client_key e
]

headers-other :
    (k : Bytes) (headers : List (Bytes × Bytes))
    → is_client_key k ≡ false
    → last_value k (header_entries headers) ≡ none
unfolding header_entries last_value
headers-other k [] h = refl
headers-other k ((name, value) ∷ headers) h =
    go (env_header_key name) refl (headers-other k headers h)
  where
    go :
        (found : Option Bytes)
        → env_header_key name ≡ found
        → last_value k (header_entries headers) ≡ none
        → last_value k (elim found [
          | none ↦ header_entries headers
          | some key ↦ (key, string value) ∷ header_entries headers
        ])
          ≡ none
    go none e later = later
    go (some key) e later = ground (
      arith,
      later,
      env_header_key-is_client_key name key e,
      λ (b : bytes_eq key k ≡ true). ap is_client_key (bytes_eq_sound key k b),
    )

or_else-none : (o : Option Value) → or_else o none ≡ o
unfolding or_else
or_else-none none = refl
or_else-none (some v) = refl

abbrev pub wrapped : Option Bytes → Option Value
wrapped none = none
wrapped (some bytes) = some (string bytes)

-- Under another key stands what was written before the headers, or the input.
get-built :
    (k : Bytes) (concurrency : Concurrency) (extensions : Bool) (times : Times) (r : Request)
    (made : Input)
    → is_client_key k ≡ false
    → get k (built concurrency extensions times r made).env
      ≡ or_else
          (last_value k ((text "rack.input", input made) ∷ []))
          (last_value k (base_entries concurrency extensions r))
unfolding built all_entries get
get-built k concurrency extensions times r made h =
    let base = base_entries concurrency extensions r in
    let hs = header_entries r.headers in
    let last = (text "rack.input", input made) ∷ [] in
    get-set_all k (base ++ (hs ++ last)) []
    ∙ or_else-none (last_value k (base ++ (hs ++ last)))
    ∙ last_value-append k base (hs ++ last)
    ∙ ap (λ l. or_else l (last_value k base))
        (last_value-append k hs last
          ∙ ap (or_else (last_value k last)) (headers-other k r.headers h)
          ∙ or_else-none (last_value k last))

-- The entries before the headers, in their parts.
parts-value :
    (k : Bytes) (xs ys : List (Bytes × Value)) (remote ctx up protocols : List (Bytes × Value))
    → last_value k ctx ≡ none
    → last_value k up ≡ none
    → last_value k protocols ≡ none
    → last_value k (xs ++ (remote ++ (ys ++ (ctx ++ (up ++ protocols)))))
      ≡ or_else (or_else (last_value k ys) (last_value k remote)) (last_value k xs)
unfolding or_else
parts-value k xs ys remote ctx up protocols b c d = ground (
  arith,
  last_value-append k xs (remote ++ (ys ++ (ctx ++ (up ++ protocols)))),
  last_value-append k remote (ys ++ (ctx ++ (up ++ protocols))),
  last_value-append k ys (ctx ++ (up ++ protocols)),
  last_value-append k ctx (up ++ protocols),
  last_value-append k up protocols,
)

entry-same :
    (k : Bytes) (o : Option Bytes)
    → bytes_eq k k ≡ true
    → last_value k (entry k string o) ≡ wrapped o
unfolding entry last_value
entry-same k none h = refl
entry-same k (some a) h = ap (λ b. if b then some (string a) else none) h

-- A path in its two parts.
unfoldable pub IsSplit : Bytes → Bytes × Bytes → Type 0
IsSplit path (path_info, query) =
    (path ≡ path_info ++ b'?' ∷ query) ⊎ ((path ≡ path_info) × (query ≡ []))

path_parts-IsSplit : (path : Bytes) → IsSplit path (path_parts path)
unfolding path_parts IsSplit joined
path_parts-IsSplit path = go (split_once b'?' path) (split_once-joined b'?' path)
  where
    go :
        (found : Option (Bytes × Bytes))
        → joined b'?' found path ≡ path
        → IsSplit path (elim found [ none ↦ (path, []) | some parts ↦ parts ])
    go none h = inr (refl, refl)
    go (some (before, after)) h = inl (sym h)

module _ (concurrency : Concurrency) (extensions : Bool) (times : Times) (r : Request)
    (made : Input) where
  value_of :
      (k : Bytes)
      → is_client_key k ≡ false
      → bytes_eq (text "ruvoy.context") k ≡ false
      → bytes_eq (text "ruvoy.upstream") k ≡ false
      → bytes_eq (text "rack.protocol") k ≡ false
      → get k (built concurrency extensions times r made).env
        ≡ or_else (last_value k ((text "rack.input", input made) ∷ [])) (
            or_else
              (or_else
                (last_value k (second_entries concurrency r))
                (last_value k (entry (text "REMOTE_ADDR") string r.metadata.remote_addr)))
              (last_value k (first_entries r)))
  unfolding base_entries
  value_of k h ctx up protocols =
      get-built k concurrency extensions times r made h
      ∙ ap (or_else (last_value k ((text "rack.input", input made) ∷ []))) (
          parts-value k (first_entries r) (second_entries concurrency r)
            (entry (text "REMOTE_ADDR") string r.metadata.remote_addr)
            (entry (text "ruvoy.context") context (only_if extensions r.context))
            (entry (text "ruvoy.upstream") upstream (only_if extensions r.upstreams))
            (entry (text "rack.protocol") strings
              (only_if extensions (upgrade_protocols r.headers)))
            (entry-other k (text "ruvoy.context") context (only_if extensions r.context) ctx)
            (entry-other k (text "ruvoy.upstream") upstream (only_if extensions r.upstreams) up)
            (entry-other k (text "rack.protocol") strings
              (only_if extensions (upgrade_protocols r.headers)) protocols))

  -- The same of a key that is not the client's address.
  fixed_value :
      (k : Bytes)
      → is_client_key k ≡ false
      → bytes_eq (text "ruvoy.context") k ≡ false
      → bytes_eq (text "ruvoy.upstream") k ≡ false
      → bytes_eq (text "rack.protocol") k ≡ false
      → bytes_eq (text "REMOTE_ADDR") k ≡ false
      → get k (built concurrency extensions times r made).env
        ≡ or_else
            (last_value k ((text "rack.input", input made) ∷ []))
            (or_else (last_value k (second_entries concurrency r)) (last_value k (first_entries r)))
  fixed_value k h ctx up protocols remote =
      value_of k h ctx up protocols
      ∙ ap
          (λ o.
            or_else (last_value k ((text "rack.input", input made) ∷ []))
              (or_else o (last_value k (first_entries r))))
          (ap (or_else (last_value k (second_entries concurrency r)))
              (entry-other k (text "REMOTE_ADDR") string r.metadata.remote_addr remote)
            ∙ or_else-none (last_value k (second_entries concurrency r)))

  -- Whatever headers a client sends, the environment says of the request itself what Envoy said: its
  -- method, its path and query, which give the path back when they are joined, the server, the
  -- scheme, the client's address or none, and its input.
  pub env_not_forged :
      let env = (built concurrency extensions times r made).env in
      (get (text "REQUEST_METHOD") env ≡ some (string r.method))
      × (get (text "PATH_INFO") env ≡ some (string (path_parts r.path).0))
      × (get (text "QUERY_STRING") env ≡ some (string (path_parts r.path).1))
      × IsSplit r.path (path_parts r.path)
      × (get (text "SERVER_NAME") env ≡ some (string r.metadata.server_name))
      × (get (text "SERVER_PORT") env ≡ some (string (decimal r.metadata.server_port)))
      × (get (text "rack.url_scheme") env ≡ some (string r.metadata.scheme))
      × (get (text "REMOTE_ADDR") env ≡ wrapped r.metadata.remote_addr)
      × (get (text "rack.input") env ≡ some (input made))
  unfolding is_client_key text bytes_eq starts_with last_value or_else first_entries second_entries
  env_not_forged = (
    fixed_value (text "REQUEST_METHOD") refl refl refl refl refl,
    fixed_value (text "PATH_INFO") refl refl refl refl refl,
    fixed_value (text "QUERY_STRING") refl refl refl refl refl,
    path_parts-IsSplit r.path,
    fixed_value (text "SERVER_NAME") refl refl refl refl refl,
    fixed_value (text "SERVER_PORT") refl refl refl refl refl,
    fixed_value (text "rack.url_scheme") refl refl refl refl refl,
    value_of (text "REMOTE_ADDR") refl refl refl refl
        ∙ or_else-none (
            last_value (text "REMOTE_ADDR")
              (entry (text "REMOTE_ADDR") string r.metadata.remote_addr))
        ∙ entry-same (text "REMOTE_ADDR") r.metadata.remote_addr refl,
    fixed_value (text "rack.input") refl refl refl refl refl,
  )
