-- ===== src/Rack/Upgrade.antt =====
-- src/rack.rs: an upgrade is only to what the client offered, and its own headers go with it.
use ruvoy.Prelude.{
  ◌≡◌, refl, ap, sym, ◌∙◌, Bool-cases, inl, inr, All, bytes_eq_sound, eq_ignore_ascii_case, Bool,
  true, false, Option, none, some, List, [], ◌∷◌, ◌++◌, any, Bytes, text, bytes_eq, if◌then◌else◌,
  arith,
}
use ruvoy.Error.{invalid_response}
use ruvoy.Rack.{
  Headers, Protocol, plain, upgraded, refused, remove_first, is_upgrade, without_upgrade,
  is_offered, not_offered, accepted_protocol,
}

unfoldable pub has : (Bytes → Bool) → Headers → Bool
has p headers = any (λ field. p field.0) headers

-- The header fields that an upgrade takes over.
unfoldable pub is_taken_over : Bytes → Bool
is_taken_over name =
    any (λ own. eq_ignore_ascii_case name own) (text "connection" ∷ text "upgrade" ∷ [])

is_upgrade-is_taken_over : (name : Bytes) → is_upgrade name ≡ is_taken_over name
unfolding is_upgrade is_taken_over
is_upgrade-is_taken_over name = ground arith

-- The second list is the first without the fields that an upgrade takes over, the others in order.
pub data Retained : Headers → Headers → Type 0 where
  none_left : Retained [] []
  drops :
      {name value : Bytes} {headers kept : Headers}
      → is_taken_over name ≡ true
      → Retained headers kept
      → Retained ((name, value) ∷ headers) kept
  keeps :
      {name value : Bytes} {headers kept : Headers}
      → is_taken_over name ≡ false
      → Retained headers kept
      → Retained ((name, value) ∷ headers) ((name, value) ∷ kept)

without_upgrade-Retained : (headers : Headers) → Retained headers (without_upgrade headers)
unfolding without_upgrade
without_upgrade-Retained [] = none_left
without_upgrade-Retained ((name, value) ∷ headers) =
    go (is_upgrade name) (sym (is_upgrade-is_taken_over name)) (without_upgrade-Retained headers)
  where
    go :
        (test : Bool)
        → is_taken_over name ≡ test
        → Retained headers (without_upgrade headers)
        → Retained
            ((name, value) ∷ headers)
            (if test then without_upgrade headers else (name, value) ∷ without_upgrade headers)
    go true e later = drops e later
    go false e later = keeps e later

-- What the client offered, if it offered anything.
unfoldable pub offers : Option (List Bytes) → List Bytes
offers none = []
offers (some protocols) = protocols

-- A member of a list, with what stands around it.
abbrev pub IsMember : Bytes → List Bytes → Type 0
IsMember x xs = (before after : List Bytes) × (xs ≡ before ++ x ∷ after)

any-IsMember :
    (protocol : Bytes) (protocols : List Bytes)
    → any (λ candidate. bytes_eq candidate protocol) protocols ≡ true
    → IsMember protocol protocols
any-IsMember protocol [] h = cc
any-IsMember protocol (p ∷ ps) h = elim (Bool-cases (bytes_eq p protocol)) [
  | inl e ↦ ([], ps, ap (λ x. x ∷ ps) (bytes_eq_sound p protocol e))
  | inr e ↦
      let (before, after, whole) = any-IsMember protocol ps (ground arith) in
      (p ∷ before, after, ap (◌∷◌ p) whole)
]

any-All :
    (protocol : Bytes) (protocols : List Bytes)
    → any (λ candidate. bytes_eq candidate protocol) protocols ≡ false
    → All (λ candidate. bytes_eq candidate protocol ≡ false) protocols
any-All protocol [] h = tt
any-All protocol (p ∷ ps) h = (ground arith, any-All protocol ps (ground arith))

is_offered-any :
    (protocol : Bytes) (offered : Option (List Bytes))
    → is_offered protocol offered ≡ any (λ candidate. bytes_eq candidate protocol) (offers offered)
unfolding is_offered offers
is_offered-any protocol none = refl
is_offered-any protocol (some protocols) = refl

-- A field of a name, the first one, and what stands around it.
pub record Found (wanted : Bytes) (headers : Headers) (value : Bytes) (rest : Headers)
    : Type 0 where
  pub before : Headers
  pub name : Bytes
  pub after : Headers
  pub named : bytes_eq name wanted ≡ true
  pub first : has (λ n. bytes_eq n wanted) before ≡ false
  pub whole : headers ≡ before ++ (name, value) ∷ after
  pub others : rest ≡ before ++ after

Found-after :
    (wanted name value : Bytes) (headers : Headers) (protocol : Bytes) (rest : Headers)
    → bytes_eq name wanted ≡ false
    → Found wanted headers protocol rest
    → Found wanted ((name, value) ∷ headers) protocol ((name, value) ∷ rest)
unfolding has
Found-after wanted name value headers protocol rest differ found = record {
  before = (name, value) ∷ found.before;
  name = found.name;
  after = found.after;
  named = found.named;
  first = ground (arith, found.first);
  whole = ap (◌∷◌ (name, value)) found.whole;
  others = ap (◌∷◌ (name, value)) found.others;
}

IsFirst : Bytes → Headers → Option (Bytes × Headers) → Type 0
IsFirst wanted headers none = has (λ n. bytes_eq n wanted) headers ≡ false
IsFirst wanted headers (some (value, rest)) = Found wanted headers value rest

remove_first-IsFirst :
    (wanted : Bytes) (headers : Headers) → IsFirst wanted headers (remove_first wanted headers)
unfolding remove_first IsFirst has
remove_first-IsFirst wanted [] = refl
remove_first-IsFirst wanted ((name, value) ∷ headers) =
    go (bytes_eq name wanted) refl (remove_first wanted headers)
      (remove_first-IsFirst wanted headers)
  where
    go :
        (test : Bool)
        → bytes_eq name wanted ≡ test
        → (later : Option (Bytes × Headers)) → IsFirst wanted headers later
        → IsFirst wanted ((name, value) ∷ headers) (
            if test then some (value, headers) else elim later [
              | none ↦ none
              | some (found, rest) ↦ some (found, (name, value) ∷ rest)
            ])
    go true e later h = record {
      before = [];
      name = name;
      after = headers;
      named = e;
      first = refl;
      whole = refl;
      others = refl;
    }
    go false e none h = ground (arith, h)
    go false e (some (found, rest)) h = Found-after wanted name value headers found rest e h

-- What the three answers promise about the fields that stay.
unfoldable pub IsAnswered :
    (Bytes → Bytes) → Headers → Option (List Bytes) → Headers × Protocol → Type 0
IsAnswered quoted headers offered (kept, plain) =
    (kept ≡ headers) × (has (λ n. bytes_eq n (text "rack.protocol")) headers ≡ false)
IsAnswered quoted headers offered (kept, upgraded protocol) =
    (rest : Headers) × Found (text "rack.protocol") headers protocol rest
    × IsMember protocol (offers offered)
    × Retained rest kept
IsAnswered quoted headers offered (kept, refused error) =
    (protocol : Bytes) × Found (text "rack.protocol") headers protocol kept
    × All (λ candidate. bytes_eq candidate protocol ≡ false) (offers offered)
    × (error
        ≡ invalid_response
            (text "rack.protocol " ++ (quoted protocol ++ text " is not one the client offered")))

-- The application is upgraded only to a protocol that the client offered: the one that the first
-- `rack.protocol` field names. Then that field goes, and so does every `upgrade` and `connection`
-- field of the application's own, and no other; those stay in order. A protocol that is none of
-- those offered is an invalid response that says so, and without the field nothing changes.
pub accepted_protocol_lem :
    (quoted : Bytes → Bytes) (headers : Headers) (offered : Option (List Bytes))
    → IsAnswered quoted headers offered (accepted_protocol quoted headers offered)
unfolding accepted_protocol IsFirst IsAnswered not_offered
accepted_protocol_lem quoted headers offered =
    go (remove_first (text "rack.protocol") headers)
      (remove_first-IsFirst (text "rack.protocol") headers)
  where
    offer :
        (protocol : Bytes) (rest : Headers) (test : Bool)
        → is_offered protocol offered ≡ test
        → Found (text "rack.protocol") headers protocol rest
        → IsAnswered quoted headers offered (
            if test
            then (without_upgrade rest, upgraded protocol)
            else (rest, refused (not_offered quoted protocol)))
    offer protocol rest true e found = (
      rest,
      found,
      any-IsMember protocol (offers offered) (sym (is_offered-any protocol offered) ∙ e),
      without_upgrade-Retained rest,
    )
    offer protocol rest false e found = (
      protocol,
      found,
      any-All protocol (offers offered) (sym (is_offered-any protocol offered) ∙ e),
      refl,
    )

    go :
        (found : Option (Bytes × Headers))
        → IsFirst (text "rack.protocol") headers found
        → IsAnswered quoted headers offered (elim found [
          | none ↦ (headers, plain)
          | some (protocol, rest) ↦
              if is_offered protocol offered
              then (without_upgrade rest, upgraded protocol)
              else (rest, refused (not_offered quoted protocol))
        ])
    go none h = (refl, h)
    go (some (protocol, rest)) h = offer protocol rest (is_offered protocol offered) refl h
