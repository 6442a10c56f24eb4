-- ===== src/Request.antt =====
-- src/request.rs and src/context.rs: one request, owned outright, with the stream that carries its
-- body and the route to the upstreams. Numbers of the metadata that are doubles keep their bits.
use ruvoy.Prelude.{ℕ, Bool, true, false, Option, none, List, [], ◌∷◌, ◌++◌, Bytes, text}
use ruvoy.Stream.Defs.{ResponseStream}
use ruvoy.Upstream.Defs.{Upstreams}

pub record RequestMetadata : Type 0 where
  pub authority : Bytes
  pub scheme : Bytes
  pub server_name : Bytes
  pub server_port : ℕ
  pub protocol : Bytes
  pub remote_addr : Option Bytes

unfoldable pub default_metadata : RequestMetadata
default_metadata = record {
  authority = text "localhost";
  scheme = text "http";
  server_name = text "localhost";
  server_port = 80;
  protocol = text "HTTP/1.1";
  remote_addr = none;
}

pub record RequestDiagnostics : Type 0 where
  pub received_at : ℕ
  pub body_copy_time : ℕ
  pub body_callbacks : ℕ
  pub submitted_at : Option ℕ

unfoldable pub new_diagnostics : ℕ → RequestDiagnostics
new_diagnostics received_at = record {
  received_at = received_at;
  body_copy_time = 0;
  body_callbacks = 0;
  submitted_at = none;
}

pub record Connection : Type 0 where
  pub id : Option ℕ
  pub source_address : Option Bytes
  pub source_port : Option ℕ
  pub destination_address : Option Bytes
  pub destination_port : Option ℕ

pub record PeerCertificate : Type 0 where
  pub subject : Option Bytes
  pub uri_san : Option Bytes
  pub dns_san : Option Bytes
  pub sha256 : Option Bytes

pub record Tls : Type 0 where
  pub version : Bytes
  pub server_name : Option Bytes
  pub peer_certificate : Option PeerCertificate

mutual
  pub data MetadataValue : Type 0 where
    string : Bytes → MetadataValue
    number : ℕ → MetadataValue
    bool : Bool → MetadataValue
    list : MetadataValues → MetadataValue

  pub data MetadataValues : Type 0 where
    nil : MetadataValues
    cons : MetadataValue → MetadataValues → MetadataValues

pub record Namespace : Type 0 where
  pub name : Bytes
  pub fields : List (Bytes × MetadataValue)

pub record Context : Type 0 where
  pub route_name : Option Bytes
  pub connection : Connection
  pub tls : Option Tls
  pub dynamic_metadata : List Namespace
  pub route_metadata : List Namespace

pub record Request : Type 0 where
  pub method : Bytes
  pub path : Bytes
  pub body : Bytes
  pub body_stream : Option ResponseStream
  pub headers : List (Bytes × Bytes)
  pub metadata : RequestMetadata
  pub context : Option Context
  pub upstreams : Option Upstreams
  pub force_gc : Bool
  pub diagnostics : Option RequestDiagnostics

unfoldable pub new : Bytes → Bytes → Bytes → Request
unfolding default_metadata
new method path body = record {
  method = method;
  path = path;
  body = body;
  body_stream = none;
  headers = [];
  metadata = default_metadata;
  context = none;
  upstreams = none;
  force_gc = false;
  diagnostics = none;
}

unfoldable pub with_header : Bytes → Bytes → Request → Request
with_header name value r = record r { headers = r.headers ++ (name, value) ∷ [] }

unfoldable pub with_forced_gc : Request → Request
with_forced_gc r = record r { force_gc = true }

unfoldable pub with_metadata : RequestMetadata → Request → Request
with_metadata metadata r = record r { metadata = metadata }
