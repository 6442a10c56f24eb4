-- ===== src/EnvoyContext.antt =====
-- crates/ruvoy-envoy-fiber/src/context.rs: what a filter copies of what Envoy knows about a request.
pub mod Read
pub mod Exposed
mod Examples
use ruvoy.Prelude.{
  ℕ, zero, suc, ◌+◌, Bool, true, false, Option, none, some, List, [], ◌∷◌, ℤ, pos, negsuc, Bytes,
}
use ruvoy.Std.Utf8.{from_utf8_lossy}
use ruvoy.Request.{
  Context, Connection, PeerCertificate, Tls, Namespace, MetadataValue, string, number, bool, list,
  MetadataValues, nil, cons,
}
use ruvoy.Worker.Metadata.{attribute_string, authority_host, u16_of}

pub data Attribute : Type 0 where
  xds_route_name connection_id source_address source_port : Attribute
  destination_address destination_port connection_tls_version connection_mtls : Attribute
  connection_requested_server_name connection_subject_peer_certificate : Attribute
  connection_uri_san_peer_certificate connection_dns_san_peer_certificate : Attribute
  connection_sha256_peer_certificate_digest : Attribute

pub data Source : Type 0 where
  dynamic route : Source

-- What Envoy answers: by attribute, and for the metadata by source, namespace, key and index. Numbers
-- of the metadata are doubles, by their bits.
pub record Envoy : Type 0 where
  pub attribute : Attribute → Option Bytes
  pub attribute_int : Attribute → Option ℤ
  pub attribute_bool : Attribute → Option Bool
  pub metadata_keys : Source → Bytes → Option (List Bytes)
  pub metadata_string : Source → Bytes → Bytes → Option Bytes
  pub metadata_number : Source → Bytes → Bytes → Option ℕ
  pub metadata_bool : Source → Bytes → Bytes → Option Bool
  pub metadata_list_size : Source → Bytes → Bytes → Option ℕ
  pub list_string : Source → Bytes → Bytes → ℕ → Option Bytes
  pub list_number : Source → Bytes → Bytes → ℕ → Option ℕ
  pub list_bool : Source → Bytes → Bytes → ℕ → Option Bool

-- `element` is whichever getter answers first.
unfoldable pub first_of : Option Bytes → Option ℕ → Option Bool → Option MetadataValue
first_of (some bytes) n b = some (string (from_utf8_lossy bytes))
first_of none (some n) b = some (number n)
first_of none none (some b) = some (bool b)
first_of none none none = none

unfoldable pub element : Envoy → Source → Bytes → Bytes → ℕ → Option MetadataValue
unfolding first_of
element envoy source ns key index =
    first_of (envoy.list_string source ns key index) (envoy.list_number source ns key index)
      (envoy.list_bool source ns key index)

-- The elements from an index on that Envoy can read.
unfoldable pub elements : Envoy → Source → Bytes → Bytes → ℕ → ℕ → MetadataValues
unfolding element
elements envoy source ns key index zero = nil
elements envoy source ns key index (suc n) =
    let rest = elements envoy source ns key (index + 1) n in
    elim (element envoy source ns key index) [ none ↦ rest | some v ↦ cons v rest ]

unfoldable pub or_list : Option MetadataValue → Option MetadataValues → Option MetadataValue
or_list (some v) values = some v
or_list none (some values) = some (list values)
or_list none none = none

unfoldable pub value : Envoy → Source → Bytes → Bytes → Option MetadataValue
unfolding first_of elements or_list
value envoy source ns key =
    or_list
      (first_of (envoy.metadata_string source ns key) (envoy.metadata_number source ns key)
        (envoy.metadata_bool source ns key))
      (elim (envoy.metadata_list_size source ns key) [
        | none ↦ none
        | some size ↦ some (elements envoy source ns key 0 size)
      ])

-- The fields of a namespace that Envoy can read.
unfoldable pub fields_of : Envoy → Source → Bytes → List Bytes → List (Bytes × MetadataValue)
unfolding value
fields_of envoy source ns [] = []
fields_of envoy source ns (key ∷ keys) =
    let rest = fields_of envoy source ns keys in
    elim (value envoy source ns (from_utf8_lossy key)) [
      | none ↦ rest
      | some v ↦ (from_utf8_lossy key, v) ∷ rest
    ]

unfoldable pub metadata : Envoy → Source → List Bytes → List Namespace
unfolding fields_of
metadata envoy source [] = []
metadata envoy source (name ∷ names) =
    let rest = metadata envoy source names in
    elim (envoy.metadata_keys source name) [
      | none ↦ rest
      | some keys ↦ record { name = name; fields = fields_of envoy source name keys } ∷ rest
    ]

unfoldable pub and_then : {A B : Type 0} → Option A → (A → Option B) → Option B
and_then none next = none
and_then (some a) next = next a

unfoldable pub text_of : Envoy → Attribute → Option Bytes
unfolding attribute_string
text_of envoy a = attribute_string (envoy.attribute a)

-- `u64::try_from`.
unfoldable pub u64_of : Option ℤ → Option ℕ
u64_of (some (pos n)) = some n
u64_of _ = none

unfoldable pub connection : Envoy → Connection
unfolding text_of and_then u64_of u16_of authority_host
connection envoy = record {
  id = u64_of (envoy.attribute_int connection_id);
  source_address = and_then (text_of envoy source_address) authority_host;
  source_port = u16_of (envoy.attribute_int source_port);
  destination_address = and_then (text_of envoy destination_address) authority_host;
  destination_port = u16_of (envoy.attribute_int destination_port);
}

unfoldable pub certificate : Envoy → PeerCertificate
unfolding text_of
certificate envoy = record {
  subject = text_of envoy connection_subject_peer_certificate;
  uri_san = text_of envoy connection_uri_san_peer_certificate;
  dns_san = text_of envoy connection_dns_san_peer_certificate;
  sha256 = text_of envoy connection_sha256_peer_certificate_digest;
}

-- `presented.then`.
unfoldable pub presented : Option Bool → PeerCertificate → Option PeerCertificate
presented (some true) c = some c
presented _ c = none

unfoldable pub tls : Envoy → Option Tls
unfolding text_of and_then certificate presented
tls envoy = and_then (text_of envoy connection_tls_version) (λ version. some (record {
  version = version;
  server_name = text_of envoy connection_requested_server_name;
  peer_certificate = presented (envoy.attribute_bool connection_mtls) (certificate envoy);
}))

-- `namespaces` is what the filter's `ContextConfig` lists.
unfoldable pub copy : Envoy → List Bytes → Context
unfolding text_of connection tls metadata
copy envoy namespaces = record {
  route_name = text_of envoy xds_route_name;
  connection = connection envoy;
  tls = tls envoy;
  dynamic_metadata = metadata envoy dynamic namespaces;
  route_metadata = metadata envoy route namespaces;
}
