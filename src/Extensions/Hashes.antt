-- ===== src/Extensions/Hashes.antt =====
-- src/extensions.rs: `ContextObject`, what Ruby reads of a request's context. Every reader builds a
-- fresh hash, and writing an entry of one does not fail.
use ruvoy.Prelude.{ℕ, Bool, Option, none, some, List, [], ◌∷◌, Bytes, text, Hash, aset}
use ruvoy.Request.{
  Context, Connection, PeerCertificate, Tls, Namespace, MetadataValue, MetadataValues,
}
use ruvoy.Request as Request

-- A string, an Integer or nil.
pub data Scalar : Type 0 where
  nil : Scalar
  string : Bytes → Scalar
  integer : ℕ → Scalar

unfoldable pub string_or_nil : Option Bytes → Scalar
string_or_nil none = nil
string_or_nil (some bytes) = string bytes

unfoldable pub integer_or_nil : Option ℕ → Scalar
integer_or_nil none = nil
integer_or_nil (some n) = integer n

unfoldable pub connection_hash : Connection → Hash Scalar
unfolding aset string_or_nil integer_or_nil
connection_hash c = aset (text "destination_port") (integer_or_nil c.destination_port) (
    aset (text "destination_address") (string_or_nil c.destination_address) (
      aset (text "source_port") (integer_or_nil c.source_port) (
        aset (text "source_address") (string_or_nil c.source_address)
          (aset (text "id") (integer_or_nil c.id) []))))

unfoldable pub certificate_hash : PeerCertificate → Hash Scalar
unfolding aset string_or_nil
certificate_hash c = aset (text "sha256") (string_or_nil c.sha256) (
    aset (text "dns_san") (string_or_nil c.dns_san) (
      aset (text "uri_san") (string_or_nil c.uri_san)
        (aset (text "subject") (string_or_nil c.subject) [])))

-- An entry of the hash of a TLS connection.
pub data TlsEntry : Type 0 where
  scalar : Scalar → TlsEntry
  peer : Option (Hash Scalar) → TlsEntry

unfoldable pub peer_hash : Option PeerCertificate → Option (Hash Scalar)
unfolding certificate_hash
peer_hash none = none
peer_hash (some c) = some (certificate_hash c)

unfoldable pub tls_hash : Tls → Hash TlsEntry
unfolding aset string_or_nil peer_hash
tls_hash t = aset (text "peer_certificate") (peer (peer_hash t.peer_certificate)) (
    aset (text "server_name") (scalar (string_or_nil t.server_name))
      (aset (text "version") (scalar (string t.version)) []))

mutual
  pub data RubyValue : Type 0 where
    text_value : Bytes → RubyValue
    float : ℕ → RubyValue
    flag : Bool → RubyValue
    array : RubyValues → RubyValue

  pub data RubyValues : Type 0 where
    empty : RubyValues
    push : RubyValue → RubyValues → RubyValues

unfoldable mutual
  pub metadata_value : MetadataValue → RubyValue
  metadata_value (Request.string bytes) = text_value bytes
  metadata_value (Request.number bits) = float bits
  metadata_value (Request.bool b) = flag b
  metadata_value (Request.list values) = array (metadata_values values)

  pub metadata_values : MetadataValues → RubyValues
  metadata_values Request.nil = empty
  metadata_values (Request.cons v values) = push (metadata_value v) (metadata_values values)

unfoldable pub add_fields : List (Bytes × MetadataValue) → Hash RubyValue → Hash RubyValue
unfolding metadata_value
add_fields [] hash = hash
add_fields ((key, v) ∷ fields) hash = add_fields fields (aset key (metadata_value v) hash)

unfoldable pub add_namespaces : List Namespace → Hash (Hash RubyValue) → Hash (Hash RubyValue)
unfolding add_fields
add_namespaces [] hash = hash
add_namespaces (n ∷ namespaces) hash =
    add_namespaces namespaces (aset n.name (add_fields n.fields []) hash)

unfoldable pub metadata_hash : List Namespace → Hash (Hash RubyValue)
unfolding add_namespaces
metadata_hash namespaces = add_namespaces namespaces []

-- An entry of `to_h`.
pub data ContextEntry : Type 0 where
  route_name : Scalar → ContextEntry
  connection : Hash Scalar → ContextEntry
  tls : Option (Hash TlsEntry) → ContextEntry
  metadata : Hash (Hash RubyValue) → ContextEntry

unfoldable pub tls_or_nil : Option Tls → Option (Hash TlsEntry)
unfolding tls_hash
tls_or_nil none = none
tls_or_nil (some t) = some (tls_hash t)

unfoldable pub to_h : Context → Hash ContextEntry
unfolding aset string_or_nil connection_hash tls_or_nil metadata_hash
to_h c = aset (text "route_metadata") (metadata (metadata_hash c.route_metadata)) (
    aset (text "dynamic_metadata") (metadata (metadata_hash c.dynamic_metadata)) (
      aset (text "tls") (tls (tls_or_nil c.tls)) (
        aset (text "connection") (connection (connection_hash c.connection))
          (aset (text "route_name") (route_name (string_or_nil c.route_name)) []))))
