-- ===== src/Rack/Env/Values.antt =====
-- src/rack.rs: what the environment holds under a key, after any entries were written.
use ruvoy.Prelude.{
  get, get-aset, ◌≡◌, refl, false, Option, none, some, List, [], ◌∷◌, ◌++◌, if◌then◌else◌, Bytes,
  bytes_eq, arith,
}
use ruvoy.Rack.Env.{Value, Env, set, set_all, entry}

-- The value that the last entry of a key writes.
unfoldable pub last_value : Bytes → List (Bytes × Value) → Option Value
last_value k [] = none
last_value k ((key, value) ∷ entries) = elim (last_value k entries) [
  | some later ↦ some later
  | none ↦ if bytes_eq key k then some value else none
]

unfoldable pub or_else : Option Value → Option Value → Option Value
or_else none other = other
or_else (some v) other = some v

pub get-set_all :
    (k : Bytes) (entries : List (Bytes × Value)) (env : Env)
    → get k (set_all entries env) ≡ or_else (last_value k entries) (get k env)
unfolding set_all set last_value or_else
get-set_all k [] env = refl
get-set_all k ((key, value) ∷ entries) env =
    ground (arith, get-set_all k entries (set key value env), get-aset k key value env)

pub last_value-append :
    (k : Bytes) (xs ys : List (Bytes × Value))
    → last_value k (xs ++ ys) ≡ or_else (last_value k ys) (last_value k xs)
unfolding last_value or_else
last_value-append k [] ys = ground arith
last_value-append k ((key, value) ∷ xs) ys = ground (arith, last_value-append k xs ys)

pub entry-other :
    {A : Type 0} (k key : Bytes) (wrap : A → Value) (o : Option A)
    → bytes_eq key k ≡ false
    → last_value k (entry key wrap o) ≡ none
unfolding last_value entry
entry-other k key wrap none h = refl
entry-other k key wrap (some a) h = ground (arith, h)
