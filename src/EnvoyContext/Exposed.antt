-- ===== src/EnvoyContext/Exposed.antt =====
-- crates/ruvoy-envoy-fiber/src/context.rs and src/extensions.rs: from Envoy's metadata to the hash
-- that Ruby reads.
use ruvoy.Prelude.{
  ◌≡◌, refl, ap, ◌∙◌, Bool, true, ◌||◌, Option, none, some, List, [], ◌∷◌, any, map, arith,
  if◌then◌else◌, Bytes, bytes_eq, bytes_eq_sound, Hash, aset, get, get-aset,
}
use ruvoy.Std.Utf8.{from_utf8_lossy}
use ruvoy.Request.{MetadataValue}
use ruvoy.Extensions.Hashes.{RubyValue, metadata_value, add_fields, add_namespaces, metadata_hash}
use ruvoy.EnvoyContext.{Envoy, Source, value, fields_of, metadata}
use ruvoy.EnvoyContext.Read.{shown, IsRead, value-IsRead}

unfoldable pub listed : Bytes → List Bytes → Bool
listed key keys = any (λ k. bytes_eq k key) keys

module _ {A : Type 0} (f : Bytes → Option A) where
  -- A hash filled with what `f` has of some keys.
  fill : List Bytes → Hash A → Hash A
  fill [] hash = hash
  fill (k ∷ keys) hash = elim (f k) [ none ↦ fill keys hash | some a ↦ fill keys (aset k a hash) ]

  or_get : Option A → Option A → Option A
  or_get none other = other
  or_get (some a) other = some a

  same_answer : (a b : Bytes) → bytes_eq a b ≡ true → f a ≡ f b
  same_answer a b h = ap f (bytes_eq_sound a b h)

  get-fill :
      (key : Bytes) (keys : List Bytes) (hash : Hash A)
      → get key (fill keys hash)
        ≡ (if listed key keys then or_get (f key) (get key hash) else get key hash)
  unfolding fill listed or_get
  get-fill key [] hash = refl
  get-fill key (k ∷ keys) hash = go (f k) refl (get-fill key keys)
    where
      go :
          (found : Option A)
          → f k ≡ found
          → ((h : Hash A)
              → get key (fill keys h)
                ≡ (if listed key keys then or_get (f key) (get key h) else get key h))
          → get key (elim found [ none ↦ fill keys hash | some a ↦ fill keys (aset k a hash) ]) ≡ (
              if bytes_eq k key || listed key keys
              then or_get (f key) (get key hash)
              else get key hash)
      go none e later = ground (arith, e, later hash, same_answer k key)
      go (some a) e later =
          ground (arith, e, later (aset k a hash), get-aset key k a hash, same_answer k key)

  get-fill-nil :
      (key : Bytes) (keys : List Bytes)
      → get key (fill keys []) ≡ (if listed key keys then f key else none)
  unfolding or_get get
  get-fill-nil key keys = ground (arith, get-fill key keys [])

-- The hash of a namespace that Envoy has with these keys.
unfoldable pub shown_fields : Envoy → Source → Bytes → Option (List Bytes) → Option (Hash RubyValue)
shown_fields envoy source ns none = none
shown_fields envoy source ns (some keys) = some (add_fields (fields_of envoy source ns keys) [])

fields-fill :
    (envoy : Envoy) (source : Source) (ns : Bytes) (keys : List Bytes) (hash : Hash RubyValue)
    → add_fields (fields_of envoy source ns keys) hash
      ≡ fill (λ key. shown (value envoy source ns key)) (map from_utf8_lossy keys) hash
unfolding add_fields fields_of fill shown
fields-fill envoy source ns [] hash = refl
fields-fill envoy source ns (k ∷ keys) hash =
    go (value envoy source ns (from_utf8_lossy k)) (fields-fill envoy source ns keys)
  where
    go :
        (found : Option MetadataValue)
        → ((h : Hash RubyValue)
            → add_fields (fields_of envoy source ns keys) h
              ≡ fill (λ key. shown (value envoy source ns key)) (map from_utf8_lossy keys) h)
        → add_fields
            (elim found [
              | none ↦ fields_of envoy source ns keys
              | some v ↦ (from_utf8_lossy k, v) ∷ fields_of envoy source ns keys
            ])
            hash
          ≡ elim (shown found) [
            | none ↦ fill (λ key. shown (value envoy source ns key)) (map from_utf8_lossy keys) hash
            | some a ↦
                fill
                  (λ key. shown (value envoy source ns key))
                  (map from_utf8_lossy keys)
                  (aset (from_utf8_lossy k) a hash)
          ]
    go none later = later hash
    go (some v) later = later (aset (from_utf8_lossy k) (metadata_value v) hash)

namespaces-fill :
    (envoy : Envoy) (source : Source) (names : List Bytes) (hash : Hash (Hash RubyValue))
    → add_namespaces (metadata envoy source names) hash
      ≡ fill (λ ns. shown_fields envoy source ns (envoy.metadata_keys source ns)) names hash
unfolding add_namespaces metadata fill shown_fields
namespaces-fill envoy source [] hash = refl
namespaces-fill envoy source (ns ∷ names) hash =
    go (envoy.metadata_keys source ns) (namespaces-fill envoy source names)
  where
    go :
        (found : Option (List Bytes))
        → ((h : Hash (Hash RubyValue))
            → add_namespaces (metadata envoy source names) h
              ≡ fill (λ ns. shown_fields envoy source ns (envoy.metadata_keys source ns)) names h)
        → add_namespaces
            (elim found [
              | none ↦ metadata envoy source names
              | some keys ↦
                  record { name = ns; fields = fields_of envoy source ns keys }
                  ∷ metadata envoy source names
            ])
            hash
          ≡ elim (shown_fields envoy source ns found) [
            | none ↦
                fill (λ ns. shown_fields envoy source ns (envoy.metadata_keys source ns)) names hash
            | some a ↦
                fill
                  (λ ns. shown_fields envoy source ns (envoy.metadata_keys source ns))
                  names
                  (aset ns a hash)
          ]
    go none later = later hash
    go (some keys) later = later (aset ns (add_fields (fields_of envoy source ns keys) []) hash)

-- Of the metadata that Envoy has, Ruby reads the namespaces that the filter lists and no other, each
-- if Envoy has it; and in the hash of a namespace it reads under a key, if the key, as text, is one
-- that Envoy names, the text, number, flag or list that Envoy reads there, a list with every element
-- that Envoy can read, in order, and nothing under another key.
pub metadata_exposed :
    (envoy : Envoy) (source : Source) (names : List Bytes) (ns key : Bytes) (keys : List Bytes)
    → (get ns (metadata_hash (metadata envoy source names)) ≡ (
        if listed ns names
        then shown_fields envoy source ns (envoy.metadata_keys source ns)
        else none))
      × ((v : Option RubyValue) × IsRead envoy source ns key v
          × (get key (add_fields (fields_of envoy source ns keys) [])
              ≡ (if listed key (map from_utf8_lossy keys) then v else none)))
unfolding metadata_hash
metadata_exposed envoy source names ns key keys = (
  ap (get ns) (namespaces-fill envoy source names [])
      ∙ get-fill-nil (λ ns. shown_fields envoy source ns (envoy.metadata_keys source ns)) ns names,
  (
    shown (value envoy source ns key),
    value-IsRead envoy source ns key,
    ap (get key) (fields-fill envoy source ns keys [])
        ∙ get-fill-nil (λ key. shown (value envoy source ns key)) key (map from_utf8_lossy keys),
  ),
)
