-- ===== src/Rack/Keys.antt =====
-- src/rack.rs: the keys that request headers get in the environment.
use ruvoy.Prelude.{
  ℕ, ◌+◌, ◌≡◌, refl, sym, ◌∙◌, Bool, true, false, ◌&&◌, ◌||◌, none, some, [], ◌∷◌, ◌++◌, ◌==◌, leb,
  any, map, Bytes, text, bytes_eq, not, ◌⊎◌, inl, inr, starts_with_byte, eq_ignore_ascii_case,
  to_ascii_uppercase, if◌then◌else◌, arith,
}
use ruvoy.Rack.{key_byte, env_header_key}

-- A byte that no key holds.
unfoldable pub is_foreign : ℕ → Bool
is_foreign c = c == b'-' || (leb b'a' c && leb c b'z')

key_byte-clean : (c : ℕ) → is_foreign (key_byte c) ≡ false
unfolding is_foreign key_byte to_ascii_uppercase
key_byte-clean c = ground arith

map-clean : (name : Bytes) → any is_foreign (map key_byte name) ≡ false
map-clean [] = refl
map-clean (c ∷ cs) = ground (arith, key_byte-clean c, map-clean cs)

is_dash : ℕ → Bool
is_dash c = c == b'-' || c == b'_'

-- Bytes that are the same up to the case of letters, a dash being an underscore.
unfoldable pub alike_byte : ℕ → ℕ → Bool
unfolding is_dash
alike_byte a b =
    a == b
    || (is_dash a && is_dash b)
    || (leb b'a' a && leb a b'z' && a == b + 32)
    || (leb b'a' b && leb b b'z' && b == a + 32)

unfoldable pub alike : Bytes → Bytes → Bool
unfolding alike_byte
alike [] [] = true
alike (a ∷ as') (b ∷ bs) = alike_byte a b && alike as' bs
alike _ _ = false

key_byte-alike : (a b : ℕ) → (key_byte a == key_byte b) ≡ alike_byte a b
unfolding key_byte to_ascii_uppercase alike_byte is_dash
key_byte-alike a b = ground arith

map-alike : (a b : Bytes) → bytes_eq (map key_byte a) (map key_byte b) ≡ alike a b
unfolding alike bytes_eq
map-alike [] [] = refl
map-alike (a ∷ as') (b ∷ bs) = ground (arith, key_byte-alike a b, map-alike as' bs)
map-alike [] (b ∷ bs) = refl
map-alike (a ∷ as') [] = refl

same_name-map : (a b : Bytes) → eq_ignore_ascii_case a b ≡ true → map key_byte a ≡ map key_byte b
unfolding eq_ignore_ascii_case key_byte to_ascii_uppercase
same_name-map [] [] h = refl
same_name-map (a ∷ as') (b ∷ bs) h = ground (arith, same_name-map as' bs)
same_name-map [] (b ∷ bs) h = cc
same_name-map (a ∷ as') [] h = cc

-- The three forms of a key.
data Keyed (name : Bytes) : Bytes → Type 0 where
  as_type :
      eq_ignore_ascii_case name (text "content-type") ≡ true → Keyed name (text "CONTENT_TYPE")
  as_length :
      eq_ignore_ascii_case name (text "content-type") ≡ false
      → eq_ignore_ascii_case name (text "content-length") ≡ true
      → Keyed name (text "CONTENT_LENGTH")
  as_other :
      eq_ignore_ascii_case name (text "content-type") ≡ false
      → eq_ignore_ascii_case name (text "content-length") ≡ false
      → Keyed name (text "HTTP_" ++ map key_byte name)

env_header_key-Keyed :
    (name : Bytes)
    → starts_with_byte b':' name ≡ false
    → (key : Bytes) × (env_header_key name ≡ some key) × Keyed name key
unfolding env_header_key
env_header_key-Keyed name plain =
    go (starts_with_byte b':' name) (eq_ignore_ascii_case name (text "content-type"))
      (eq_ignore_ascii_case name (text "content-length")) plain refl refl
  where
    go :
        (pseudo kind size : Bool)
        → pseudo ≡ false
        → eq_ignore_ascii_case name (text "content-type") ≡ kind
        → eq_ignore_ascii_case name (text "content-length") ≡ size
        → (key : Bytes) × ((if pseudo
              then none
              else if kind
              then some (text "CONTENT_TYPE")
              else if size
              then some (text "CONTENT_LENGTH")
              else some (text "HTTP_" ++ map key_byte name))
            ≡ some key)
          × Keyed name key
    go true kind size p k l = cc
    go false true size p k l = (text "CONTENT_TYPE", refl, as_type k)
    go false false true p k l = (text "CONTENT_LENGTH", refl, as_length k l)
    go false false false p k l = (text "HTTP_" ++ map key_byte name, refl, as_other k l)

Keyed-clean : (name key : Bytes) → Keyed name key → any is_foreign key ≡ false
unfolding text is_foreign
Keyed-clean name _ (as_type k) = refl
Keyed-clean name _ (as_length k l) = refl
Keyed-clean name _ (as_other k l) = ground (arith, map-clean name)

-- The two headers whose keys have no prefix.
unfoldable pub is_special : Bytes → Bool
is_special name =
    eq_ignore_ascii_case name (text "content-type")
    || eq_ignore_ascii_case name (text "content-length")

-- A special header's key is its name, and any other's is the prefix and its name.
data Shaped (name key : Bytes) : Type 0 where
  bare :
      (rest : Bytes)
      → is_special name ≡ true
      → key ≡ map key_byte name
      → key ≡ b'C' ∷ rest
      → Shaped name key
  prefixed : is_special name ≡ false → key ≡ text "HTTP_" ++ map key_byte name → Shaped name key

type_named : map key_byte (text "content-type") ≡ text "CONTENT_TYPE"
unfolding text key_byte to_ascii_uppercase
type_named = refl

length_named : map key_byte (text "content-length") ≡ text "CONTENT_LENGTH"
unfolding text key_byte to_ascii_uppercase
length_named = refl

Keyed-Shaped : (name key : Bytes) → Keyed name key → Shaped name key
unfolding is_special text
Keyed-Shaped name _ (as_type k) =
    bare (text "ONTENT_TYPE") (ground arith)
      (sym (same_name-map name (text "content-type") k ∙ type_named)) refl
Keyed-Shaped name _ (as_length k l) =
    bare (text "ONTENT_LENGTH") (ground arith)
      (sym (same_name-map name (text "content-length") l ∙ length_named)) refl
Keyed-Shaped name _ (as_other k l) = prefixed (ground arith) refl

key_byte_alike : (c : ℕ) → alike_byte (key_byte c) c ≡ true
unfolding key_byte to_ascii_uppercase alike_byte is_dash
key_byte_alike c = ground arith

map_alike : (name : Bytes) → alike (map key_byte name) name ≡ true
unfolding alike
map_alike [] = refl
map_alike (c ∷ cs) = ground (arith, key_byte_alike c, map_alike cs)

Shaped-alike :
    (name key : Bytes)
    → Shaped name key
    → alike key (if is_special name then name else text "HTTP_" ++ name) ≡ true
unfolding text alike alike_byte is_dash
Shaped-alike name key (bare r s e f) = rw (s, e) (map_alike name)
Shaped-alike name key (prefixed s e) = rw (s, e) (map_alike name)

-- Whether two headers share a key.
unfoldable pub collide : Bytes → Bytes → Bool
collide a b = alike a b && (if is_special a then is_special b else not (is_special b))

Shaped-collide : (a b k l : Bytes) → Shaped a k → Shaped b l → bytes_eq k l ≡ collide a b
unfolding collide text bytes_eq
Shaped-collide a b k l (bare r s e f) (bare r' s' e' f') = rw (e, e') ground (arith, map-alike a b)
Shaped-collide a b k l (prefixed s e) (prefixed s' e') = rw (e, e') ground (arith, map-alike a b)
Shaped-collide a b k l (bare r s e f) (prefixed s' e') = rw (f, e') ground arith
Shaped-collide a b k l (prefixed s e) (bare r' s' e' f') = rw (e, f') ground arith

-- The forms of the key that a header gets.
pub key_forms :
    (name key : Bytes)
    → env_header_key name ≡ some key
    → (key ≡ text "CONTENT_TYPE")
      ⊎ (key ≡ text "CONTENT_LENGTH")
      ⊎ (key ≡ text "HTTP_" ++ map key_byte name)
unfolding env_header_key
key_forms name key h =
    go (starts_with_byte b':' name) (eq_ignore_ascii_case name (text "content-type"))
      (eq_ignore_ascii_case name (text "content-length")) h
  where
    go :
        (pseudo kind size : Bool)
        → (if pseudo
            then none
            else if kind
            then some (text "CONTENT_TYPE")
            else if size
            then some (text "CONTENT_LENGTH")
            else some (text "HTTP_" ++ map key_byte name))
          ≡ some key
        → (key ≡ text "CONTENT_TYPE")
          ⊎ (key ≡ text "CONTENT_LENGTH")
          ⊎ (key ≡ text "HTTP_" ++ map key_byte name)
    go true kind size e = cc
    go false true size e = inl cc
    go false false true e = inr (inl cc)
    go false false false e = inr (inr cc)

-- Every header but a pseudo-header gets a key, which holds no dash and no small letter and is, up to
-- that, its name, behind `HTTP_` unless it is `content-type` or `content-length`. Two headers
-- get the same key exactly when their names are the same up to case, a dash being an underscore, and
-- both or neither are `content-type` or `content-length`: so no other spelling, such as
-- `content_type`, takes the key of those two.
pub env_header_key_lem :
    (a b : Bytes)
    → starts_with_byte b':' a ≡ false
    → starts_with_byte b':' b ≡ false
    → (k l : Bytes) × (env_header_key a ≡ some k)
      × (env_header_key b ≡ some l)
      × (any is_foreign k ≡ false)
      × (alike k (if is_special a then a else text "HTTP_" ++ a) ≡ true)
      × (bytes_eq k l ≡ collide a b)
env_header_key_lem a b plain plain' =
    let (k, e, keyed) = env_header_key-Keyed a plain in
    let (l, e', keyed') = env_header_key-Keyed b plain' in
    (
      k,
      l,
      e,
      e',
      Keyed-clean a k keyed,
      Shaped-alike a k (Keyed-Shaped a k keyed),
      Shaped-collide a b k l (Keyed-Shaped a k keyed) (Keyed-Shaped b l keyed'),
    )
