-- ===== src/Std/Trim.antt =====
-- `str::split` at an ASCII character, `str::split_once` at one, and `str::trim`, on the UTF-8 bytes.
use ruvoy.Prelude.{
  ℕ, zero, suc, ◌≡◌, refl, ap, arith, Bool, true, false, ◌&&◌, ◌||◌, Option, none, some, List, [],
  ◌∷◌, ◌++◌, ◌==◌, leb, length, drop, if◌then◌else◌, Bytes, text,
}
use mathlib.Core.List.{reverse}

unfoldable pub split : ℕ → Bytes → List Bytes
split at [] = [] ∷ []
split at (c ∷ cs) =
    let rest = split at cs in
    if c == at
    then [] ∷ rest
    else elim rest [ [] ↦ (c ∷ []) ∷ [] | part ∷ parts ↦ (c ∷ part) ∷ parts ]

unfoldable pub split_once : ℕ → Bytes → Option (Bytes × Bytes)
split_once at [] = none
split_once at (c ∷ cs) =
    let rest = split_once at cs in
    if c == at
    then some ([], cs)
    else elim rest [ none ↦ none | some (before, after) ↦ some (c ∷ before, after) ]

-- The bytes of the white space of Unicode, by how many a character has.
is_space_1 : ℕ → Bool
is_space_1 a = (leb 9 a && leb a 13) || a == 32

is_space_2 : ℕ → ℕ → Bool
is_space_2 a b = a == 0xC2 && (b == 0x85 || b == 0xA0)

is_space_3 : ℕ → ℕ → ℕ → Bool
is_space_3 a b c =
    (a == 0xE1 && b == 0x9A && c == 0x80)
    || (a == 0xE2
        && b == 0x80
        && ((leb 0x80 c && leb c 0x8A) || c == 0xA8 || c == 0xA9 || c == 0xAF))
    || (a == 0xE2 && b == 0x81 && c == 0x9F)
    || (a == 0xE3 && b == 0x80 && c == 0x80)

-- How many bytes of white space a text begins with: those of one character, or none.
space_front : Bytes → ℕ
unfolding is_space_1 is_space_2 is_space_3
space_front [] = 0
space_front (a ∷ []) = if is_space_1 a then 1 else 0
space_front (a ∷ b ∷ []) = if is_space_1 a then 1 else if is_space_2 a b then 2 else 0
space_front (a ∷ b ∷ c ∷ cs) =
    if is_space_1 a then 1 else if is_space_2 a b then 2 else if is_space_3 a b c then 3 else 0

-- The same of a text read backwards.
space_back : Bytes → ℕ
unfolding is_space_1 is_space_2 is_space_3
space_back [] = 0
space_back (a ∷ []) = if is_space_1 a then 1 else 0
space_back (b ∷ a ∷ []) = if is_space_1 b then 1 else if is_space_2 a b then 2 else 0
space_back (c ∷ b ∷ a ∷ cs) =
    if is_space_1 c then 1 else if is_space_2 b c then 2 else if is_space_3 a b c then 3 else 0

-- Each turn drops at least one byte, so the length is fuel enough.
trim_by : (Bytes → ℕ) → ℕ → Bytes → Bytes
trim_by space zero bs = bs
trim_by space (suc fuel) bs =
    let w = space bs in let rest = trim_by space fuel (drop w bs) in if w == 0 then bs else rest

unfoldable pub trim : Bytes → Bytes
unfolding trim_by space_front space_back
trim bs =
    let front = trim_by space_front (length bs) bs in
    reverse (trim_by space_back (length front) (reverse front))

trim_test :
    (trim (text "  a b\t") ≡ text "a b")
    × (trim (0xC2 ∷ 0xA0 ∷ 97 ∷ 0xE2 ∷ 0x80 ∷ 0xA8 ∷ []) ≡ 97 ∷ [])
    × (split b',' (text "a,,b") ≡ text "a" ∷ [] ∷ text "b" ∷ [])
unfolding trim split text
trim_test = (refl, refl, refl)

-- What stands around the first of the characters, put together again.
unfoldable pub joined : ℕ → Option (Bytes × Bytes) → Bytes → Bytes
joined at none whole = whole
joined at (some (before, after)) whole = before ++ at ∷ after

pub split_once-joined : (at : ℕ) (bs : Bytes) → joined at (split_once at bs) bs ≡ bs
unfolding split_once joined
split_once-joined at [] = refl
split_once-joined at (c ∷ cs) = go (c == at) refl (split_once at cs) (split_once-joined at cs)
  where
    go :
        (test : Bool)
        → (c == at) ≡ test
        → (rest : Option (Bytes × Bytes)) → joined at rest cs ≡ cs
        → joined at
            (if test
              then some ([], cs)
              else elim rest [ none ↦ none | some (before, after) ↦ some (c ∷ before, after) ])
            (c ∷ cs)
          ≡ c ∷ cs
    go true e rest h = let same : at ≡ c = ground arith in ap (λ x. x ∷ cs) same
    go false e none h = refl
    go false e (some (before, after)) h = ap (λ xs. c ∷ xs) h
