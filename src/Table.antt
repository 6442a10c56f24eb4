-- ===== src/Table.antt =====
-- `HashMap<u64, V>` of the standard library, as an association list with one entry for each key.
-- A drain yields the entries in the order of the list, which stands for the unspecified one.
use ruvoy.Prelude.{ℕ, ◌≡◌, Option, none, some, List, [], ◌∷◌, ◌==◌, if◌then◌else◌, arith}

abbrev pub Table {ℓ} : Type ℓ → Type ℓ
Table V = List (ℕ × V)

module _ {ℓ} {V : Type ℓ} where
  unfoldable pub get : ℕ → Table V → Option V
  get k [] = none
  get k ((j, v) ∷ t) = if j == k then some v else get k t

  unfoldable pub remove : ℕ → Table V → Table V
  remove k [] = []
  remove k ((j, v) ∷ t) = if j == k then remove k t else (j, v) ∷ remove k t

  -- A second insert at a key replaces the value.
  unfoldable pub insert : ℕ → V → Table V → Table V
  unfolding remove
  insert k v t = (k, v) ∷ remove k t

  -- `get_mut`, with what is done to the value.
  unfoldable pub update : ℕ → V → Table V → Table V
  update k v [] = []
  update k v ((j, w) ∷ t) = if j == k then (j, v) ∷ t else (j, w) ∷ update k v t

  unfoldable pub values : Table V → List V
  values [] = []
  values ((j, v) ∷ t) = v ∷ values t

  pub get-remove : (k j : ℕ) (t : Table V) → get j (remove k t) ≡ (if k == j then none else get j t)
  unfolding get remove
  get-remove k j [] = ground arith
  get-remove k j ((i, w) ∷ t) = ground (arith, get-remove k j t)

  pub get-insert :
      (k j : ℕ) (v : V) (t : Table V) → get j (insert k v t) ≡ (if k == j then some v else get j t)
  unfolding get insert
  get-insert k j v t = ground (arith, get-remove k j t)

  pub get-update :
      (k j : ℕ) (v w : V) (t : Table V)
      → get k t ≡ some w
      → get j (update k v t) ≡ (if k == j then some v else get j t)
  unfolding get update
  get-update k j v w' [] h = cc
  get-update k j v w' ((i, w) ∷ t) h = ground (arith, get-update k j v w' t)
