-- ===== src/Prelude/RubyHash.antt =====
-- A Ruby hash with strings for keys is the list of its entries.
use mathlib.Core.Path.{◌≡◌, refl}
use mathlib.Core.Bool.{Bool, true, false}
use mathlib.Core.Option.{Option, none, some}
use mathlib.Core.List.{List, [], ◌∷◌}
use native.Mathlib.Omega.{arith}
use ruvoy.Prelude.Tests.{if◌then◌else◌}
use ruvoy.Prelude.Text.{Bytes, bytes_eq, bytes_eq_same, bytes_eq_other}

abbrev pub Hash {ℓ} : Type ℓ → Type ℓ
Hash A = List (Bytes × A)

module _ {ℓ} {A : Type ℓ} where
  -- `Hash#[]=`: a key keeps its place.
  unfoldable pub aset : Bytes → A → Hash A → Hash A
  aset key value [] = (key, value) ∷ []
  aset key value ((k, v) ∷ hash) =
      let rest = aset key value hash in if bytes_eq k key then (k, value) ∷ hash else (k, v) ∷ rest

  -- `Hash#[]`.
  unfoldable pub get : Bytes → Hash A → Option A
  get key [] = none
  get key ((k, v) ∷ hash) = let rest = get key hash in if bytes_eq k key then some v else rest

  pub get-aset :
      (k key : Bytes) (value : A) (hash : Hash A)
      → get k (aset key value hash) ≡ (if bytes_eq key k then some value else get k hash)
  unfolding get aset
  get-aset k key value [] = refl
  get-aset k key value ((k', v) ∷ hash) = go (bytes_eq k' key) refl (get-aset k key value hash)
    where
      go :
          (test : Bool)
          → bytes_eq k' key ≡ test
          → get k (aset key value hash) ≡ (if bytes_eq key k then some value else get k hash)
          → get k (if test then (k', value) ∷ hash else (k', v) ∷ aset key value hash) ≡ (
              if bytes_eq key k then some value else (if bytes_eq k' k then some v else get k hash))
      go true e h = ground (arith, bytes_eq_same k' key k e)
      go false e h = ground (arith, h, bytes_eq_other k' key k e)
