-- ===== src/Rack.antt =====
-- src/rack.rs: `env_header_key` and `accepted_protocol`.
pub mod Upgrade
pub mod Keys
pub mod Env
pub mod Respond
mod Examples
use ruvoy.Prelude.{
  ℕ, ◌≡◌, Bool, true, false, not, ◌&&◌, ◌||◌, Option, none, some, List, [], ◌∷◌, ◌++◌, ◌==◌, map,
  any, Bytes, text, bytes_eq, eq_ignore_ascii_case, to_ascii_uppercase, starts_with_byte,
  if◌then◌else◌,
}
use ruvoy.Error.{BridgeError, invalid_response}

-- A byte of a header's name in its key; the bytes of other characters stay as they are.
unfoldable pub key_byte : ℕ → ℕ
key_byte c = if c == b'-' then b'_' else to_ascii_uppercase c

unfoldable pub env_header_key : Bytes → Option Bytes
unfolding key_byte
env_header_key name =
    if starts_with_byte b':' name
    then none
    else if eq_ignore_ascii_case name (text "content-type")
    then some (text "CONTENT_TYPE")
    else if eq_ignore_ascii_case name (text "content-length")
    then some (text "CONTENT_LENGTH")
    else some (text "HTTP_" ++ map key_byte name)

-- What the application made of an upgrade.
pub data Protocol : Type 0 where
  plain : Protocol
  upgraded : Bytes → Protocol
  refused : BridgeError → Protocol

abbrev pub Headers : Type 0
Headers = List (Bytes × Bytes)

-- `position` and `remove`: the first field of a name, and the fields without it.
unfoldable pub remove_first : Bytes → Headers → Option (Bytes × Headers)
remove_first wanted [] = none
remove_first wanted ((name, value) ∷ headers) =
    let later = remove_first wanted headers in
    if bytes_eq name wanted
    then some (value, headers)
    else elim later [ none ↦ none | some (found, rest) ↦ some (found, (name, value) ∷ rest) ]

unfoldable pub is_upgrade : Bytes → Bool
is_upgrade name =
    eq_ignore_ascii_case name (text "upgrade") || eq_ignore_ascii_case name (text "connection")

-- `retain`.
unfoldable pub without_upgrade : Headers → Headers
without_upgrade [] = []
without_upgrade ((name, value) ∷ headers) =
    let rest = without_upgrade headers in if is_upgrade name then rest else (name, value) ∷ rest

unfoldable pub is_offered : Bytes → Option (List Bytes) → Bool
is_offered protocol none = false
is_offered protocol (some offered) = any (λ candidate. bytes_eq candidate protocol) offered

-- `quoted` is the `Debug` format of a text.
unfoldable pub not_offered : (Bytes → Bytes) → Bytes → BridgeError
not_offered quoted protocol =
    invalid_response
      (text "rack.protocol " ++ (quoted protocol ++ text " is not one the client offered"))

unfoldable pub accepted_protocol :
    (Bytes → Bytes) → Headers → Option (List Bytes) → Headers × Protocol
accepted_protocol quoted headers offered = elim (remove_first (text "rack.protocol") headers) [
  | none ↦ (headers, plain)
  | some (protocol, rest) ↦
      if is_offered protocol offered
      then (without_upgrade rest, upgraded protocol)
      else (rest, refused (not_offered quoted protocol))
]
