-- ===== src/EnvoyContext/Examples.antt =====
-- Runs of crates/ruvoy-envoy-fiber/src/context.rs.
use ruvoy.Prelude.{
  ◌≡◌, Bool, true, Option, none, some, List, [], ◌∷◌, map, if◌then◌else◌, Bytes, text, get,
  bytes_eq, ◌==◌,
}
use ruvoy.Std.Utf8.{from_utf8_lossy}
use ruvoy.Extensions.Hashes.{RubyValue, add_fields, metadata_hash}
use ruvoy.EnvoyContext.{Envoy, dynamic, fields_of, metadata}
use ruvoy.EnvoyContext.Read.{IsRead}
use ruvoy.EnvoyContext.Exposed.{listed, shown_fields, metadata_exposed}

abbrev is_auth : Bytes → Bool
is_auth ns = bytes_eq ns (text "auth")

-- Envoy with one namespace that has a user and a list of groups.
abbrev envoy : Envoy
envoy = record {
  attribute = λ a. none;
  attribute_int = λ a. none;
  attribute_bool = λ a. none;
  metadata_keys = λ source ns. if is_auth ns then some (text "user" ∷ text "groups" ∷ []) else none;
  metadata_string = λ source ns key. if bytes_eq key (text "user") then some (text "ada") else none;
  metadata_number = λ source ns key. none;
  metadata_bool = λ source ns key. none;
  metadata_list_size = λ source ns key. some 2;
  list_string = λ source ns key index. if index == 0 then some (text "dev") else none;
  list_number = λ source ns key index. none;
  list_bool = λ source ns key index. some true;
}

abbrev keys : List Bytes
keys = text "user" ∷ text "groups" ∷ []

metadata_exposed_example :
    (get (text "auth") (metadata_hash (metadata envoy dynamic (text "auth" ∷ []))) ≡ (
      if listed (text "auth") (text "auth" ∷ [])
      then shown_fields envoy dynamic (text "auth") (envoy.metadata_keys dynamic (text "auth"))
      else none))
    × ((v : Option RubyValue) × IsRead envoy dynamic (text "auth") (text "groups") v
        × (get (text "groups") (add_fields (fields_of envoy dynamic (text "auth") keys) [])
            ≡ (if listed (text "groups") (map from_utf8_lossy keys) then v else none)))
metadata_exposed_example =
    metadata_exposed envoy dynamic (text "auth" ∷ []) (text "auth") (text "groups") keys
