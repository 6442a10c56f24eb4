-- ===== src/EnvoyContext/Read.antt =====
-- crates/ruvoy-envoy-fiber/src/context.rs and src/extensions.rs: one field of Envoy's metadata, as Ruby
-- reads it.
use ruvoy.Prelude.{ℕ, zero, suc, ◌+◌, ◌≡◌, refl, Bool, Option, none, some, Bytes}
use ruvoy.Std.Utf8.{from_utf8_lossy}
use ruvoy.Request.{MetadataValue, cons}
use ruvoy.Extensions.Hashes.{
  RubyValue, RubyValues, text_value, float, flag, array, empty, push, metadata_values,
  metadata_value,
}
use ruvoy.EnvoyContext.{Envoy, Source, first_of, element, elements, or_list, value}

-- What Ruby gets of a value.
unfoldable pub shown : Option MetadataValue → Option RubyValue
shown none = none
shown (some v) = some (metadata_value v)

-- What Ruby gets of a list of Envoy's from an index on, so many elements: each that Envoy can read as
-- a text, else as a number, else as a flag, in order, without those that it cannot read.
pub data AreElements (envoy : Envoy) (source : Source) (ns key : Bytes)
    : ℕ → ℕ → RubyValues → Type 0 where
  no_more : {index : ℕ} → AreElements envoy source ns key index zero empty
  text_first :
      {index n : ℕ} {bytes : Bytes} {rest : RubyValues}
      → envoy.list_string source ns key index ≡ some bytes
      → AreElements envoy source ns key (index + 1) n rest
      → AreElements envoy source ns key index
          (suc n)
          (push (text_value (from_utf8_lossy bytes)) rest)
  number_first :
      {index n bits : ℕ} {rest : RubyValues}
      → envoy.list_string source ns key index ≡ none
      → envoy.list_number source ns key index ≡ some bits
      → AreElements envoy source ns key (index + 1) n rest
      → AreElements envoy source ns key index (suc n) (push (float bits) rest)
  flag_first :
      {index n : ℕ} {b : Bool} {rest : RubyValues}
      → envoy.list_string source ns key index ≡ none
      → envoy.list_number source ns key index ≡ none
      → envoy.list_bool source ns key index ≡ some b
      → AreElements envoy source ns key (index + 1) n rest
      → AreElements envoy source ns key index (suc n) (push (flag b) rest)
  skips :
      {index n : ℕ} {rest : RubyValues}
      → envoy.list_string source ns key index ≡ none
      → envoy.list_number source ns key index ≡ none
      → envoy.list_bool source ns key index ≡ none
      → AreElements envoy source ns key (index + 1) n rest
      → AreElements envoy source ns key index (suc n) rest

-- What Ruby gets of a field: the text, number, flag or list, in this order, that Envoy reads it as.
pub data IsRead (envoy : Envoy) (source : Source) (ns key : Bytes) : Option RubyValue → Type 0 where
  as_text :
      {bytes : Bytes}
      → envoy.metadata_string source ns key ≡ some bytes
      → IsRead envoy source ns key (some (text_value (from_utf8_lossy bytes)))
  as_number :
      {bits : ℕ}
      → envoy.metadata_string source ns key ≡ none
      → envoy.metadata_number source ns key ≡ some bits
      → IsRead envoy source ns key (some (float bits))
  as_flag :
      {b : Bool}
      → envoy.metadata_string source ns key ≡ none
      → envoy.metadata_number source ns key ≡ none
      → envoy.metadata_bool source ns key ≡ some b
      → IsRead envoy source ns key (some (flag b))
  as_list :
      {size : ℕ} {values : RubyValues}
      → envoy.metadata_string source ns key ≡ none
      → envoy.metadata_number source ns key ≡ none
      → envoy.metadata_bool source ns key ≡ none
      → envoy.metadata_list_size source ns key ≡ some size
      → AreElements envoy source ns key 0 size values
      → IsRead envoy source ns key (some (array values))
  as_nothing :
      envoy.metadata_string source ns key ≡ none
      → envoy.metadata_number source ns key ≡ none
      → envoy.metadata_bool source ns key ≡ none
      → envoy.metadata_list_size source ns key ≡ none
      → IsRead envoy source ns key none

elements-AreElements :
    (envoy : Envoy) (source : Source) (ns key : Bytes) (index n : ℕ)
    → AreElements envoy source ns key index n
        (metadata_values (elements envoy source ns key index n))
unfolding elements element first_of metadata_values metadata_value
elements-AreElements envoy source ns key index zero = no_more
elements-AreElements envoy source ns key index (suc n) =
    go (envoy.list_string source ns key index) (envoy.list_number source ns key index)
      (envoy.list_bool source ns key index) refl refl refl
      (elements-AreElements envoy source ns key (index + 1) n)
  where
    go :
        (s : Option Bytes) (m : Option ℕ) (b : Option Bool)
        → envoy.list_string source ns key index ≡ s
        → envoy.list_number source ns key index ≡ m
        → envoy.list_bool source ns key index ≡ b
        → AreElements envoy source ns key
            (index + 1)
            n
            (metadata_values (elements envoy source ns key (index + 1) n))
        → AreElements envoy source ns key index (suc n) (
            metadata_values (elim (first_of s m b) [
              | none ↦ elements envoy source ns key (index + 1) n
              | some v ↦ cons v (elements envoy source ns key (index + 1) n)
            ]))
    go (some bytes) m b e f g rest = text_first e rest
    go none (some bits) b e f g rest = number_first e f rest
    go none none (some b) e f g rest = flag_first e f g rest
    go none none none e f g rest = skips e f g rest

pub value-IsRead :
    (envoy : Envoy) (source : Source) (ns key : Bytes)
    → IsRead envoy source ns key (shown (value envoy source ns key))
unfolding value or_list first_of shown metadata_value
value-IsRead envoy source ns key =
    go (envoy.metadata_string source ns key) (envoy.metadata_number source ns key)
      (envoy.metadata_bool source ns key) (envoy.metadata_list_size source ns key) refl refl refl
      refl (elements-AreElements envoy source ns key 0)
  where
    go :
        (s : Option Bytes) (m : Option ℕ) (b : Option Bool) (size : Option ℕ)
        → envoy.metadata_string source ns key ≡ s
        → envoy.metadata_number source ns key ≡ m
        → envoy.metadata_bool source ns key ≡ b
        → envoy.metadata_list_size source ns key ≡ size
        → ((n : ℕ)
            → AreElements envoy source ns key 0 n
                (metadata_values (elements envoy source ns key 0 n)))
        → IsRead envoy source ns key (
            shown (
              or_list (first_of s m b) (elim size [
                | none ↦ none
                | some size ↦ some (elements envoy source ns key 0 size)
              ])))
    go (some bytes) m b size e f g h rest = as_text e
    go none (some bits) b size e f g h rest = as_number e f
    go none none (some b) size e f g h rest = as_flag e f g
    go none none none (some size) e f g h rest = as_list e f g h (rest size)
    go none none none none e f g h rest = as_nothing e f g h
