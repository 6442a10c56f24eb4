-- ===== src/Extensions/Headers.antt =====
-- src/extensions.rs: `rack_headers`, the header fields of a response as a Ruby hash. The hash is the
-- list of its entries.
use ruvoy.Prelude.{
  ◌≡◌, refl, ap, sym, ◌∙◌, Bool, true, false, Option, none, some, List, [], ◌∷◌, ◌++◌,
  if◌then◌else◌, Bytes, bytes_eq, bytes_eq_same, bytes_eq_other, arith, append_assoc, append-nil,
}

-- A value of the hash: a string, or an Array of them.
pub data Field : Type 0 where
  single : Bytes → Field
  several : List Bytes → Field

abbrev pub RackHeaders : Type 0
RackHeaders = List (Bytes × Field)

unfoldable pub with_value : Bytes → Field → Field
with_value value (single existing) = several (existing ∷ value ∷ [])
with_value value (several values) = several (values ++ value ∷ [])

-- One turn of the loop: a new name goes behind, an old one gets another value.
unfoldable pub add_field : Bytes → Bytes → RackHeaders → RackHeaders
unfolding with_value
add_field name value [] = (name, single value) ∷ []
add_field name value ((n, field) ∷ headers) =
    let rest = add_field name value headers in
    if bytes_eq n name then (n, with_value value field) ∷ headers else (n, field) ∷ rest

unfoldable pub add_fields : List (Bytes × Bytes) → RackHeaders → RackHeaders
unfolding add_field
add_fields [] headers = headers
add_fields ((name, value) ∷ fields) headers = add_fields fields (add_field name value headers)

unfoldable pub rack_headers : List (Bytes × Bytes) → RackHeaders
unfolding add_fields
rack_headers fields = add_fields fields []

-- The values of a name.
unfoldable pub values_of : Bytes → List (Bytes × Bytes) → List Bytes
values_of wanted [] = []
values_of wanted ((name, value) ∷ fields) =
    let rest = values_of wanted fields in if bytes_eq name wanted then value ∷ rest else rest

unfoldable pub find : Bytes → RackHeaders → Option Field
find wanted [] = none
find wanted ((name, field) ∷ headers) =
    let rest = find wanted headers in if bytes_eq name wanted then some field else rest

-- How Ruby gets a name's values: none is no entry, one is a string, more are an Array.
unfoldable pub shaped : List Bytes → Option Field
shaped [] = none
shaped (value ∷ []) = some (single value)
shaped (value ∷ other ∷ values) = some (several (value ∷ other ∷ values))

added : Bytes → Option Field → Field
added value none = single value
added value (some field) = with_value value field

find-add_field :
    (k name value : Bytes) (headers : RackHeaders)
    → find k (add_field name value headers)
      ≡ (if bytes_eq name k then some (added value (find k headers)) else find k headers)
unfolding add_field find added
find-add_field k name value [] = refl
find-add_field k name value ((n, field) ∷ headers) =
    go (bytes_eq n name) refl (find-add_field k name value headers)
  where
    go :
        (test : Bool)
        → bytes_eq n name ≡ test
        → find k (add_field name value headers)
          ≡ (if bytes_eq name k then some (added value (find k headers)) else find k headers)
        → find k (
            if test
            then (n, with_value value field) ∷ headers
            else (n, field) ∷ add_field name value headers)
          ≡ (if bytes_eq name k
              then some (added value (if bytes_eq n k then some field else find k headers))
              else (if bytes_eq n k then some field else find k headers))
    go true e h = ground (arith, bytes_eq_same n name k e)
    go false e h = ground (arith, h, bytes_eq_other n name k e)

-- The field of a name with more values behind.
more : Option Field → List Bytes → Option Field
unfolding added
more found [] = found
more found (value ∷ values) = more (some (added value found)) values

find-add_fields :
    (k : Bytes) (fields : List (Bytes × Bytes)) (headers : RackHeaders)
    → find k (add_fields fields headers) ≡ more (find k headers) (values_of k fields)
unfolding add_fields more values_of
find-add_fields k [] headers = refl
find-add_fields k ((name, value) ∷ fields) headers =
    find-add_fields k fields (add_field name value headers)
    ∙ ap (λ found. more found (values_of k fields)) (find-add_field k name value headers)
    ∙ go (bytes_eq name k)
  where
    go :
        (test : Bool)
        → more
            (if test then some (added value (find k headers)) else find k headers)
            (values_of k fields)
          ≡ more (find k headers) (if test then value ∷ values_of k fields else values_of k fields)
    go true = refl
    go false = refl

more-several :
    (values more_values : List Bytes)
    → more (some (several values)) more_values ≡ some (several (values ++ more_values))
unfolding more added with_value
more-several values [] = ap (λ vs. some (several vs)) (sym (append-nil values))
more-several values (value ∷ more_values) =
    more-several (values ++ value ∷ []) more_values
    ∙ ap (λ vs. some (several vs)) (append_assoc values (value ∷ []) more_values)

more-shaped : (values : List Bytes) → more none values ≡ shaped values
unfolding more added with_value shaped
more-shaped [] = refl
more-shaped (value ∷ []) = refl
more-shaped (value ∷ other ∷ values) = more-several (value ∷ other ∷ []) values

-- Under each name Ruby finds every value that the response gave it, once each and in their order: a
-- string if it is the only one, an Array if there are more, and nothing under a name that has none.
pub rack_headers_lem :
    (name : Bytes) (fields : List (Bytes × Bytes))
    → find name (rack_headers fields) ≡ shaped (values_of name fields)
unfolding rack_headers find
rack_headers_lem name fields = find-add_fields name fields [] ∙ more-shaped (values_of name fields)
